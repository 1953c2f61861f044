-- ===== src/Sessions.antt =====
-- backend/internal/services/sessions/service.go with the row `UserSession` of
-- backend/internal/models/models.go: the sessions of the signed-in users. A time that is NULL in the
-- table is 0, Go's zero time.
pub mod Active
use openpostfork.Prelude.{
  ℕ, zero, suc, ◌+◌, ◌-◌, ◌*◌, ◌/◌, ◌%◌, ◌^◌, ◌≤◌, ◌<◌, min, max, String, ◌<>◌, ◌≡◌, refl, sym, ap,
  ◌∙◌, subst, fun_ext, ◌≢◌, ◌↔◌, ◌⊎◌, inl, inr, Bool, true, false, not, ◌&&◌, ◌||◌, Option, none,
  some, List, [], ◌∷◌, ◌++◌, map, arith, ◌==◌, eq_iff, eq_refl, ltb, leb, eqb, if◌then◌else◌,
  leb→le, le→leb, leb→lt, Bool-cases, Option-cases, ==_of_ne, length, All, length-append, All-map,
  Result, ok, err, ◌>>=◌, or_fail, Result-cases,
}
use openpostfork.Prelude.Table.{find_where, select_where, update_where, count_where}
use openpostfork.Prelude.Text.{trim_space}

pub record UserSession : Type 0 where
  pub id : String
  pub user_id : String
  pub user_agent : String
  pub ip_address : String
  pub expires_at : ℕ
  pub last_used_at : ℕ
  pub revoked_at : ℕ
  pub created_at : ℕ

pub record CreateInput : Type 0 where
  pub user_id : String
  pub user_agent : String
  pub ip_address : String
  pub expires_at : ℕ

pub data SessionError : Type 0 where
  invalid_session expired_session revoked_session no_rows : SessionError
  failure : String → SessionError

pub data SessionStatement : Type 0 where
  insert_session load_session touch_session revoke_update list_sessions : SessionStatement

abbrev pub by_owner : String → String → UserSession → Bool
by_owner user_id session_id s = s.id == session_id && s.user_id == user_id

-- `id = ? AND user_id = ? AND revoked_at IS NULL`.
abbrev pub is_live : String → String → UserSession → Bool
is_live user_id session_id s = by_owner user_id session_id s && eqb s.revoked_at 0

-- `ORDER BY last_used_at DESC, created_at DESC`.
abbrev pub comes_first : UserSession → UserSession → Bool
comes_first a b =
    ltb b.last_used_at a.last_used_at
    || (eqb a.last_used_at b.last_used_at && leb b.created_at a.created_at)

unfoldable pub place_session : UserSession → List UserSession → List UserSession
place_session s [] = s ∷ []
place_session s (x ∷ xs) =
    let rest = place_session s xs in if comes_first s x then s ∷ x ∷ xs else x ∷ rest

unfoldable pub sort_sessions : List UserSession → List UserSession
unfolding place_session
sort_sessions [] = []
sort_sessions (x ∷ xs) = place_session x (sort_sessions xs)

module _ (new_id : List UserSession → String) (fails : SessionStatement → Option String) where
  abbrev pub new_session : CreateInput → ℕ → List UserSession → UserSession
  new_session input now rows = record {
    id = new_id rows;
    user_id = trim_space input.user_id;
    user_agent = trim_space input.user_agent;
    ip_address = trim_space input.ip_address;
    expires_at = input.expires_at;
    last_used_at = now;
    revoked_at = 0;
    created_at = now;
  }

  -- `CreateSession`.
  unfoldable pub create_session :
      CreateInput → ℕ → List UserSession → Result SessionError UserSession × List UserSession
  create_session input now rows = elim (fails insert_session) [
    | some message ↦ (err (failure message), rows)
    | none ↦ (ok (new_session input now rows), new_session input now rows ∷ rows)
  ]

  -- `TouchLastUsedAt`.
  abbrev pub touched :
      Option String → String → ℕ → List UserSession → Option String × List UserSession
  touched (some message) session_id at rows = (some message, rows)
  touched none session_id at rows = (
    none,
    update_where (λ (s : UserSession). s.id == session_id) (λ s. record s { last_used_at = at })
        rows,
  )

  abbrev pub after_touch :
      UserSession
      → ℕ
      → Option String × List UserSession
      → Result SessionError UserSession × List UserSession
  after_touch s now (some message, rows) = (err (failure message), rows)
  after_touch s now (none, rows) = (ok (record s { last_used_at = now }), rows)

  abbrev pub checked :
      Option UserSession → ℕ → List UserSession → Result SessionError UserSession × List UserSession
  checked none now rows = (err invalid_session, rows)
  checked (some s) now rows =
      if not (eqb s.revoked_at 0)
      then (err revoked_session, rows)
      else if leb s.expires_at now
      then (err expired_session, rows)
      else after_touch s now (touched (fails touch_session) s.id now rows)

  -- `ValidateSession`.
  unfoldable pub validate_session :
      String → String → ℕ → List UserSession → Result SessionError UserSession × List UserSession
  validate_session user_id session_id now rows = elim (fails load_session) [
    | some message ↦ (err (failure message), rows)
    | none ↦ checked (find_where (by_owner user_id session_id) rows) now rows
  ]

  -- `ListActiveSessions`.
  unfoldable pub list_active_sessions :
      String → ℕ → List UserSession → Result String (List UserSession)
  list_active_sessions user_id now rows = elim (fails list_sessions) [
    | some message ↦ err message
    | none ↦ ok (
        sort_sessions (
          select_where
            (λ (s : UserSession).
              s.user_id == user_id && eqb s.revoked_at 0 && ltb now s.expires_at)
            rows))
  ]

  -- `RevokeSession`.
  unfoldable pub revoke_session :
      String → String → ℕ → List UserSession → Option SessionError × List UserSession
  revoke_session user_id session_id now rows = elim (fails revoke_update) [
    | some message ↦ (some (failure message), rows)
    | none ↦ (
      if eqb (count_where (is_live user_id session_id) rows) 0 then some no_rows else none,
      update_where (is_live user_id session_id) (λ s. record s { revoked_at = now }) rows,
    )
  ]
