-- ===== src/Sessions/Active.antt =====
-- Which sessions are let in.
use openpostfork.Prelude.{
  ℕ, ◌<◌, String, ◌≡◌, refl, inl, inr, true, false, Option, none, some, List, [], ◌∷◌, arith, leb,
  eqb, Bool-cases, Option-cases, All, ok,
}
use openpostfork.Prelude.Table.{
  find_where, update_where, In, All-In, find_where-In, find_where_sound,
}
use openpostfork.Sessions.{
  UserSession, SessionStatement, load_session, revoke_update, by_owner, is_live, checked,
  validate_session, revoke_session,
}

-- The session has a row that is neither revoked nor over.
abbrev pub IsActive : String → String → ℕ → List UserSession → Type 0
IsActive user_id session_id now rows =
    (s : UserSession) × In s rows
    × (by_owner user_id session_id s ≡ true)
    × (s.revoked_at ≡ 0)
    × (now < s.expires_at)

module _ (new_id : List UserSession → String) (fails : SessionStatement → Option String) where
  checked-IsActive :
      (user_id session_id : String) (found : Option UserSession) (now : ℕ) (rows : List UserSession)
      {s : UserSession}
      → find_where (by_owner user_id session_id) rows ≡ found
      → (checked new_id fails found now rows).0 ≡ ok s
      → IsActive user_id session_id now rows
  checked-IsActive user_id session_id none now rows {s} e h = cc
  checked-IsActive user_id session_id (some x) now rows {s} e h =
      elim (Bool-cases (eqb x.revoked_at 0)) [
        | inr f ↦ cc (simp (f) at h)
        | inl f ↦ elim (Bool-cases (leb x.expires_at now)) [
          | inl g ↦ cc (simp (f, g) at h)
          | inr g ↦ (
            x,
            find_where-In (by_owner user_id session_id) rows {r = x} e,
            find_where_sound (by_owner user_id session_id) rows {r = x} e,
            ground arith,
            ground arith,
          )
        ]
      ]

  -- A session that is accepted has a row of its user that is neither revoked nor over.
  pub validate_session-IsActive :
      (user_id session_id : String) (now : ℕ) (rows : List UserSession) {s : UserSession}
      → (validate_session new_id fails user_id session_id now rows).0 ≡ ok s
      → IsActive user_id session_id now rows
  unfolding validate_session
  validate_session-IsActive user_id session_id now rows {s} h =
      elim (Option-cases (fails load_session)) [
        | inr q ↦ cc (rw (q.1, validate_session) at h)
        | inl e ↦
            checked-IsActive user_id session_id (find_where (by_owner user_id session_id) rows) now
              rows {s = s} refl (rw (e, validate_session) at h)
      ]

  revoked_rows :
      (user_id session_id : String) (now : ℕ) (rows : List UserSession)
      → 0 < now
      → All
          (λ s. is_live user_id session_id s ≡ false)
          (update_where
            (is_live user_id session_id)
            (λ (r : UserSession). record r { revoked_at = now })
            rows)
  revoked_rows user_id session_id now [] pos = tt
  revoked_rows user_id session_id now (s ∷ ss) pos =
      (ground arith, revoked_rows user_id session_id now ss pos)

  revoked_table :
      (user_id session_id : String) (now : ℕ) (rows : List UserSession)
      → 0 < now
      → (revoke_session new_id fails user_id session_id now rows).0 ≡ none
      → All
          (λ s. is_live user_id session_id s ≡ false)
          (revoke_session new_id fails user_id session_id now rows).1
  unfolding revoke_session
  revoked_table user_id session_id now rows pos done = elim (Option-cases (fails revoke_update)) [
    | inr q ↦ cc (rw (q.1, revoke_session) at done)
    | inl e ↦ rw (e, revoke_session) (revoked_rows user_id session_id now rows pos)
  ]

  -- A session is not active after its revocation.
  pub revoke_session-IsActive :
      (user_id session_id : String) (now later : ℕ) (rows : List UserSession)
      → 0 < now
      → (revoke_session new_id fails user_id session_id now rows).0 ≡ none
      → ¬ IsActive user_id session_id later
          (revoke_session new_id fails user_id session_id now rows).1
  revoke_session-IsActive user_id session_id now later rows pos done (s, i, own, live, young) =
      let dead =
        All-In (λ r. is_live user_id session_id r ≡ false) s
          (revoke_session new_id fails user_id session_id now rows).1
          (revoked_table user_id session_id now rows pos done) i in
      let z : eqb s.revoked_at 0 ≡ true = ground arith in cc (simp (own, z) at dead)
