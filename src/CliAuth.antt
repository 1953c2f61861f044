-- ===== src/CliAuth.antt =====
-- backend/internal/services/cli_auth/service.go with the `CLIAuthSession` row of
-- backend/internal/models/models.go: the device flow by which the command line gets its token. The
-- clock is the argument `now` of each call. The hash, the random codes, the token service and the
-- database driver are an interface.
pub mod Decide
pub mod Start
pub mod Own
mod Tests
use openpostfork.Prelude.{
  ℕ, zero, suc, ◌+◌, ◌-◌, ◌*◌, ◌/◌, ◌%◌, ◌^◌, ◌≤◌, ◌<◌, min, max, String, ◌<>◌, ◌≡◌, refl, sym, ap,
  ◌∙◌, subst, fun_ext, ◌≢◌, ◌↔◌, ◌⊎◌, inl, inr, Bool, true, false, not, ◌&&◌, ◌||◌, Option, none,
  some, List, [], ◌∷◌, ◌++◌, map, arith, ◌==◌, eq_iff, eq_refl, ltb, leb, eqb, if◌then◌else◌,
  leb→le, le→leb, leb→lt, Bool-cases, Option-cases, ==_of_ne, length, All, length-append, All-map,
  Result, ok, err, ◌>>=◌, or_fail, Result-cases,
}
use Prim.Native.String.{len, slice}
use openpostfork.Prelude.Clock.{second, minute}
use openpostfork.Prelude.Table.{find_where, update_where}
use openpostfork.Prelude.Text.{trim_space, to_upper, contains}

pub data SessionStatus : Type 0 where
  pending approved denied expired : SessionStatus
  other_status : String → SessionStatus

pub record Session : Type 0 where
  pub id : String
  pub user_id : String
  pub device_code_hash : String
  pub user_code_hash : String
  pub client_name : String
  pub client_version : String
  pub client_os : String
  pub requested_scopes : String
  pub status : SessionStatus
  pub interval_seconds : ℕ
  pub expires_at : ℕ
  pub last_polled_at : ℕ
  pub approved_at : ℕ
  pub denied_at : ℕ
  pub created_at : ℕ

-- The table of sessions, and the state of the token service.
pub record Store (T : Type 0) : Type 0 where
  pub sessions : List Session
  pub tokens : T

pub data CliError : Type 0 where
  not_found session_expired session_denied authorization_pending slow_down already_used : CliError
  failure : String → CliError

-- The statements of this file.
pub data Statement : Type 0 where
  insert load touch approve deny cleanup consume expire : Statement

pub record Token : Type 0 where
  pub text : String
  pub prefix : String

-- What the service is built on.
pub record Services (T : Type 0) : Type 0 where
  pub hash : String → String
  pub fails : Statement → Option String
  pub generate_token : String → String → String → ℕ → T → Result String Token × T
  pub token_lifetime : ℕ
  pub default_scope : String

pub record PollResult : Type 0 where
  pub status : SessionStatus
  pub token : String
  pub expires_in : ℕ
  pub interval : ℕ
  pub retry_after : ℕ
  pub token_prefix : String

abbrev pub default_lifetime : ℕ
default_lifetime = 10 * minute

abbrev pub default_interval : ℕ
default_interval = 5

abbrev pub is_pending : SessionStatus → Bool
is_pending pending = true
is_pending _ = false

abbrev pub is_approved : SessionStatus → Bool
is_approved approved = true
is_approved _ = false

-- `WHERE id = ? AND status = 'pending'`.
abbrev pub pending_id : String → Session → Bool
pending_id key s = s.id == key && is_pending s.status

-- `WHERE id = ? AND status = 'approved'`.
abbrev pub approved_id : String → Session → Bool
approved_id key s = s.id == key && is_approved s.status

-- A wait in whole seconds, half a second rounded up, and one second at least.
waiting : Session → ℕ → ℕ
waiting s now =
    if ltb now (s.last_polled_at + second)
    then max 1 ((s.last_polled_at + second - now + second / 2) / second)
    else s.interval_seconds

-- `pollResult`.
unfoldable pub poll_result : Session → ℕ → PollResult
unfolding waiting
poll_result s now = record {
  status = s.status;
  token = "";
  expires_in = (s.expires_at - now) / second;
  interval = s.interval_seconds;
  retry_after = if eqb s.last_polled_at 0 then s.interval_seconds else waiting s now;
  token_prefix = "";
}

-- `normalizeUserCode`.
unfoldable pub normalize_user_code : String → String
normalize_user_code code =
    let c = to_upper (trim_space code) in
    if eqb (len c) 8 && not (contains c "-") then slice c 0 4 <> "-" <> slice c 4 8 else c

-- An answer with the tables after it: the error of an operation, or none.
abbrev pub Outcome : Type 0 → Type 0
Outcome T = Option CliError × Store T

-- The answer of a poll: a result and an error, either of which may be missing.
abbrev pub PollAnswer : Type 0 → Type 0
PollAnswer T = Option PollResult × Option CliError × Store T

module _ {T : Type 0} (v : Services T) where
  -- `hashCode`.
  abbrev pub hash_code : String → String
  hash_code code = v.hash (trim_space code)

  abbrev pub loaded : Option Session → Result CliError Session
  loaded none = err not_found
  loaded (some s) = ok s

  unfoldable pub select_session : (Session → Bool) → Store T → Result CliError Session
  select_session test st = elim (v.fails load) [
    | some message ↦ err (failure message)
    | none ↦ loaded (find_where test st.sessions)
  ]

  unfoldable pub session_by_device_code : String → Store T → Result CliError Session
  session_by_device_code code st = select_session (λ s. s.device_code_hash == hash_code code) st

  unfoldable pub session_by_user_code : String → Store T → Result CliError Session
  session_by_user_code code st =
      select_session (λ s. s.user_code_hash == hash_code (normalize_user_code code)) st

  unfoldable pub session_by_code : String → Store T → Result CliError Session
  session_by_code code st =
      if contains code "-" then session_by_user_code code st else session_by_device_code code st

  -- An update of the sessions.
  unfoldable pub update_sessions :
      Statement → (Session → Bool) → (Session → Session) → Store T → Outcome T
  update_sessions statement test set st = elim (v.fails statement) [
    | some message ↦ (some (failure message), st)
    | none ↦ (none, record st { sessions = update_where test set st.sessions })
  ]

  abbrev pub set_expired : Session → Session
  set_expired s = record s { status = expired }

  -- The test of `expireIfNeeded`.
  abbrev pub has_run_out : Session → ℕ → Bool
  has_run_out s now = is_pending s.status && leb s.expires_at now

  -- `expireIfNeeded`: the error, the session as the caller sees it after it, and the tables.
  unfoldable pub expire_if_needed : Session → ℕ → Store T → Option CliError × Session × Store T
  expire_if_needed s now st =
      if has_run_out s now
      then (let (e, st') = update_sessions expire (pending_id s.id) set_expired st in
          elim e [
            | some error ↦ (some error, s, st')
            | none ↦ (some session_expired, set_expired s, st')
          ])
      else (none, s, st)

  -- The end of `consumeApprovedSession`: the token is handed out.
  abbrev pub hand_out : Session → ℕ → Token → Outcome T → PollAnswer T
  hand_out s now token (some e, st) = (none, some e, st)
  hand_out s now token (none, st) = (
    some (record (poll_result s now) {
      status = approved;
      token = token.text;
      token_prefix = token.prefix;
    }),
    none,
    st,
  )

  abbrev pub with_token : Session → ℕ → Result String Token → Store T → PollAnswer T
  with_token s now (err message) st = (none, some (failure message), st)
  with_token s now (ok token) st =
      hand_out s now token (update_sessions consume (approved_id s.id) set_expired st)

  -- `consumeApprovedSession`.
  unfoldable pub consume_approved_session : Session → ℕ → Store T → PollAnswer T
  consume_approved_session s now st =
      if s.user_id == ""
      then (none, some not_found, st)
      else (let (generated, tokens) =
            v.generate_token s.user_id s.client_name s.requested_scopes (now + v.token_lifetime)
              st.tokens in
          with_token s now generated (record st { tokens = tokens }))

  -- The `switch` of `PollSession`.
  unfoldable pub poll_status : SessionStatus → Session → ℕ → Store T → PollAnswer T
  poll_status pending s now st = (some (poll_result s now), some authorization_pending, st)
  poll_status denied s now st = (some (poll_result s now), some session_denied, st)
  poll_status expired s now st = (some (poll_result s now), some session_expired, st)
  poll_status approved s now st = consume_approved_session s now st
  poll_status (other_status _) s now st = (none, some not_found, st)

  abbrev pub touched : ℕ → Session → Session
  touched now s = record s { last_polled_at = now }

  -- After the update of the time of the last poll.
  abbrev pub after_touch : Session → ℕ → Outcome T → PollAnswer T
  after_touch s now (some e, st) = (none, some e, st)
  after_touch s now (none, st) = poll_status s.status (touched now s) now st

  abbrev pub polls_too_fast : Session → ℕ → Bool
  polls_too_fast s now = not (eqb s.last_polled_at 0) && ltb now (s.last_polled_at + second)

  -- The update of the last poll, and what follows it.
  unfoldable pub poll_running : Session → ℕ → Store T → PollAnswer T
  poll_running s now st =
      if polls_too_fast s now
      then (some (poll_result s now), some slow_down, st)
      else after_touch s now
          (update_sessions touch (λ (r : Session). r.id == s.id) (touched now) st)

  -- After `expireIfNeeded`.
  abbrev pub poll_checked : ℕ → Option CliError × Session × Store T → PollAnswer T
  poll_checked now (some error, s, st) = (some (poll_result s now), some error, st)
  poll_checked now (none, s, st) = poll_running s now st

  -- `PollSession` past the load of the session.
  unfoldable pub poll_loaded : Session → ℕ → Store T → PollAnswer T
  poll_loaded s now st = poll_checked now (expire_if_needed s now st)

  -- `PollSession`.
  unfoldable pub poll_session : String → ℕ → Store T → PollAnswer T
  poll_session device_code now st = elim (session_by_device_code device_code st) [
    | err e ↦ (none, some e, st)
    | ok s ↦ poll_loaded s now st
  ]

  abbrev pub or_default : String → String → String
  or_default text default = if trim_space text == "" then default else text

  abbrev pub set_approved : String → String → String → ℕ → Session → Session
  set_approved user_id scopes name now r = record r {
    user_id = user_id;
    requested_scopes = scopes;
    client_name = name;
    status = approved;
    approved_at = now;
  }

  abbrev pub set_denied : ℕ → Session → Session
  set_denied now r = record r { status = denied; denied_at = now }

  approve_status : SessionStatus → Session → String → String → String → ℕ → Store T → Outcome T
  approve_status pending s user_id scopes name now st =
      update_sessions approve (pending_id s.id)
        (set_approved user_id (or_default scopes s.requested_scopes) (or_default name s.client_name)
          now)
        st
  approve_status denied s user_id scopes name now st = (some session_denied, st)
  approve_status _ s user_id scopes name now st = (some already_used, st)

  -- `ApproveSession` past the load of the session.
  unfoldable pub approve_loaded : Session → String → String → String → ℕ → Store T → Outcome T
  unfolding approve_status
  approve_loaded s user_id scopes name now st =
      let (e, s', st') = expire_if_needed s now st in
      elim e [
        | some error ↦ (some error, st')
        | none ↦ approve_status s'.status s' user_id scopes name now st'
      ]

  -- `ApproveSession`.
  unfoldable pub approve_session : String → String → String → String → ℕ → Store T → Outcome T
  approve_session user_id code scopes token_name now st = elim (session_by_code code st) [
    | err e ↦ (some e, st)
    | ok s ↦ approve_loaded s user_id scopes token_name now st
  ]

  deny_status : SessionStatus → Session → ℕ → Store T → Outcome T
  deny_status pending s now st = update_sessions deny (pending_id s.id) (set_denied now) st
  deny_status denied s now st = (none, st)
  deny_status _ s now st = (some already_used, st)

  -- `DenySession` past the load of the session.
  unfoldable pub deny_loaded : Session → ℕ → Store T → Outcome T
  unfolding deny_status
  deny_loaded s now st =
      let (e, s', st') = expire_if_needed s now st in
      elim e [ some error ↦ (some error, st') | none ↦ deny_status s'.status s' now st' ]

  -- `DenySession`.
  unfoldable pub deny_session : String → ℕ → Store T → Outcome T
  deny_session code now st = elim (session_by_code code st) [
    | err e ↦ (some e, st)
    | ok s ↦ deny_loaded s now st
  ]

  -- `CleanupExpired`.
  unfoldable pub cleanup_expired : ℕ → Store T → Outcome T
  cleanup_expired now st = update_sessions cleanup (λ s. has_run_out s now) set_expired st

  -- `GetPendingByUserCode`.
  unfoldable pub get_pending_by_user_code : String → ℕ → Store T → Result CliError Session × Store T
  get_pending_by_user_code user_code now st = elim (session_by_user_code user_code st) [
    | err e ↦ (err e, st)
    | ok s ↦
        let (e, s', st') = expire_if_needed s now st in
        elim e [ some error ↦ (err error, st') | none ↦ (ok s', st') ]
  ]
