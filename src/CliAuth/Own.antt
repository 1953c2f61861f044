-- ===== src/CliAuth/Own.antt =====
-- A session that is started is pending, and has codes of its own.
use openpostfork.Prelude.{
  ℕ, String, ◌≡◌, refl, ap, ◌∙◌, inl, inr, Option, none, some, List, [], ◌∷◌, ◌==◌, eq_refl,
  Bool-cases, Result, ok, err,
}
use openpostfork.Prelude.Table.{find_where}
use openpostfork.Prelude.Text.{to_lower, contains}
use openpostfork.CliAuth.{
  Session, Store, CliError, insert, load, Services, hash_code, select_session,
  session_by_device_code,
}
use openpostfork.CliAuth.Start.{
  StartInput, StartedSession, generate_user_code, clashes, Draw, Insertion, inserted, taken, broken,
  new_session, insertion, started, after_insertion, insert_of, try_codes, start_session,
}

-- No two sessions share an id or a code.
abbrev pub HaveOwnCodes : List Session → Type 0
HaveOwnCodes [] = Unit
HaveOwnCodes (s ∷ rest) = (find_where (clashes s) rest ≡ none) × HaveOwnCodes rest

module _ {T : Type 0} (v : Services T) where
  inserted_only :
      (o : Option String) (clash : Option Session) → insertion v o clash ≡ inserted → clash ≡ none
  inserted_only (some message) (some clash) h =
      elim (Bool-cases (contains (to_lower message) "unique")) [
        | inl e ↦ cc (rw e at h)
        | inr e ↦ cc (rw e at h)
      ]
  inserted_only (some message) none h = refl
  inserted_only none (some clash) h = cc
  inserted_only none none h = refl

  -- The answer is the error that was met, or a session that is found by the device code; and the
  -- codes of the sessions stay apart.
  abbrev pub StartsWell : String → Result CliError StartedSession × Store T → Type 0
  StartsWell device (err e, st) = HaveOwnCodes st.sessions
  StartsWell device (ok s, st) =
      HaveOwnCodes st.sessions
      × (s.device_code ≡ device)
      × (v.fails load ≡ none → session_by_device_code v device st ≡ ok s.model)

  insertion-StartsWell :
      (i : Insertion) (s : Session) (device user : String) (later : ℕ) (st : Store T)
      (next : Result CliError StartedSession × Store T)
      → s.device_code_hash ≡ hash_code v device
      → HaveOwnCodes st.sessions
      → (i ≡ inserted → find_where (clashes s) st.sessions ≡ none)
      → StartsWell device next
      → StartsWell device (after_insertion v i (started v s device user later) st next)
  unfolding session_by_device_code select_session
  insertion-StartsWell inserted s device user later st next k own fresh h = (
    (fresh refl, own),
    refl,
    λ quiet.
        rw
          (
            session_by_device_code,
            select_session,
            quiet,
            ap (λ x. x == hash_code v device) k ∙ eq_refl (hash_code v device),
          )
          refl,
  )
  insertion-StartsWell taken s device user later st next k own fresh h = h
  insertion-StartsWell (broken message) s device user later st next k own fresh h = own

  tries-StartsWell :
      (input : StartInput) (device : String) (draws : List Draw) (now later : ℕ) (st : Store T)
      → HaveOwnCodes st.sessions
      → StartsWell device (try_codes v input device draws now later st)
  unfolding try_codes
  tries-StartsWell input device [] now later st own = own
  tries-StartsWell input device ((id, err message) ∷ draws) now later st own = own
  tries-StartsWell input device ((id, ok bytes) ∷ draws) now later st own =
      let s = new_session v input device (generate_user_code bytes) id now in
      insertion-StartsWell (insert_of v s st) s device (generate_user_code bytes) later st
        (try_codes v input device draws now later st) refl own
        (inserted_only (v.fails insert) (find_where (clashes s) st.sessions))
        (tries-StartsWell input device draws now later st own)

  -- The start of a session keeps the ids and the codes of all sessions apart, on every path; and the
  -- session that it answers with is found by its device code. (The codes are apart before.)
  pub start_session-StartsWell :
      (input : StartInput) (device : String) (draws : List Draw) (now later : ℕ) (st : Store T)
      → HaveOwnCodes st.sessions
      → StartsWell device (start_session v input (ok device) draws now later st)
  unfolding start_session
  start_session-StartsWell input device draws now later st own =
      tries-StartsWell input device draws now later st own
