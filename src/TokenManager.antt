-- ===== src/TokenManager.antt =====
-- backend/internal/services/tokenmanager (manager.go and jobs.go): the access tokens of the social
-- accounts, and the jobs that refresh them. The encryption, the adapters of the networks (by provider
-- key, with what they can refresh), the JSON texts and the new ids are an interface.
pub mod Refresh
mod Tests
use openpostfork.Prelude.{
  ℕ, zero, suc, ◌+◌, ◌-◌, ◌*◌, ◌/◌, ◌%◌, ◌^◌, ◌≤◌, ◌<◌, min, max, String, ◌<>◌, ◌≡◌, refl, sym, ap,
  ◌∙◌, subst, fun_ext, ◌≢◌, ◌↔◌, ◌⊎◌, inl, inr, Bool, true, false, not, ◌&&◌, ◌||◌, Option, none,
  some, List, [], ◌∷◌, ◌++◌, map, arith, ◌==◌, eq_iff, eq_refl, ltb, leb, eqb, if◌then◌else◌,
  leb→le, le→leb, leb→lt, Bool-cases, Option-cases, ==_of_ne, length, All, length-append, All-map,
  Result, ok, err, ◌>>=◌, or_fail, Result-cases,
}
use openpostfork.Prelude.Clock.{second, minute}
use openpostfork.Prelude.Int.{ℤ, pos, pos_part, leb_ℤ}
use openpostfork.Prelude.Table.{find_where, update_where, delete_where}
use openpostfork.Queue.{Job, JobStatus, pending, add_duration}

pub record TokenAccount : Type 0 where
  pub id : String
  pub platform : String
  pub instance_url : String
  pub access_token_enc : String
  pub refresh_token_enc : String
  pub token_expires_at : ℕ
  pub is_active : Bool
  pub error_message : String

pub data CredentialSource : Type 0 where
  no_credential access_credential refresh_credential : CredentialSource

pub record RefreshCapability : Type 0 where
  pub supported : Bool
  pub credential_source : CredentialSource

pub record RefreshTokenInput : Type 0 where
  pub access_token : String
  pub refresh_token : String

pub record TokenResult : Type 0 where
  pub access_token : String
  pub refresh_token : String
  pub expires_in : ℤ  -- seconds

pub data TokenStatement : Type 0 where
  load_account save_error save_tokens delete_jobs insert_job : TokenStatement

-- The tables, and the state of the networks.
pub record TokenTables (S : Type 0) : Type 0 where
  pub accounts : List TokenAccount
  pub jobs : List Job
  pub networks : S

pub record TokenServices (S : Type 0) : Type 0 where
  pub now : ℕ
  pub fails : TokenStatement → Option String
  pub decrypt : String → Result String String
  pub encrypt : String → Result String String
  pub capability : String → Option RefreshCapability  -- `none` without an adapter
  pub refresh : String → RefreshTokenInput → S → Result String TokenResult × S
  pub marshal_payload : String → Result String String
  pub new_id : List Job → String

abbrev pub refresh_lead_time : ℕ
refresh_lead_time = 5 * minute

abbrev pub Answer : Type 0 → Type 0
Answer S = Result String String × TokenTables S

abbrev pub by_account_id : String → TokenAccount → Bool
by_account_id key a = a.id == key

abbrev pub is_pending_job : JobStatus → Bool
is_pending_job pending = true
is_pending_job _ = false

-- The pending refresh jobs of a payload.
abbrev pub is_refresh_of : String → Job → Bool
is_refresh_of payload j =
    j.kind == "refresh_token" && is_pending_job j.status && j.payload == payload

-- The key of the adapter in `providerForAccount`.
unfoldable pub token_provider_key : TokenAccount → String
token_provider_key a =
    if a.platform == "mastodon" then "mastodon:" <> a.instance_url else a.platform

module _ {S : Type 0} (v : TokenServices S) where
  abbrev pub refresh_job : String → ℕ → List Job → Job
  refresh_job payload expires_at jobs = record {
    id = v.new_id jobs;
    kind = "refresh_token";
    payload = payload;
    status = pending;
    run_at =
        if ltb (expires_at - refresh_lead_time) v.now
        then v.now
        else expires_at - refresh_lead_time;
    attempts = 0;
    max_attempts = 5;
    last_error = "";
    locked_at = some 0;
    locked_by = "";
  }

  abbrev pub insert_refresh :
      Option String → String → ℕ → TokenTables S → Option String × TokenTables S
  insert_refresh (some message) payload expires_at t = (some message, t)
  insert_refresh none payload expires_at t =
      (none, record t { jobs = refresh_job payload expires_at t.jobs ∷ t.jobs })

  abbrev pub replace_jobs :
      Option String → String → ℕ → TokenTables S → Option String × TokenTables S
  replace_jobs (some message) payload expires_at t = (some message, t)
  replace_jobs none payload expires_at t =
      insert_refresh (v.fails insert_job) payload expires_at
        (record t { jobs = delete_where (is_refresh_of payload) t.jobs })

  abbrev pub schedule_payload :
      Result String String → ℕ → TokenTables S → Option String × TokenTables S
  schedule_payload (err message) expires_at t = (some message, t)
  schedule_payload (ok payload) expires_at t =
      replace_jobs (v.fails delete_jobs) payload expires_at t

  -- `ScheduleRefreshJob`.
  unfoldable pub schedule_refresh_job : String → ℕ → TokenTables S → Option String × TokenTables S
  schedule_refresh_job account_id expires_at t =
      if account_id == "" || eqb expires_at 0
      then (none, t)
      else schedule_payload (v.marshal_payload account_id) expires_at t

  abbrev pub expiry : TokenAccount → TokenResult → ℕ
  expiry a r =
      if leb_ℤ r.expires_in (pos 0)
      then a.token_expires_at
      else add_duration v.now (pos_part r.expires_in * second % 2 ^ 64)

  abbrev pub set_tokens : String → String → ℕ → TokenAccount → TokenAccount
  set_tokens access refresh expires_at row = record row {
    access_token_enc = access;
    refresh_token_enc = refresh;
    token_expires_at = expires_at;
    error_message = "";
  }

  -- The update of the account, and the next job, whose errors are logged only.
  abbrev pub save_tokens_of :
      Option String → TokenAccount → TokenResult → String → String → TokenTables S → Answer S
  save_tokens_of (some message) a r access refresh t =
      (err ("failed to update account tokens: " <> message), t)
  save_tokens_of none a r access refresh t = (
    ok r.access_token,
    (schedule_refresh_job a.id (expiry a r) (record t {
      accounts =
          update_where (by_account_id a.id) (set_tokens access refresh (expiry a r)) t.accounts;
    })).1,
  )

  abbrev pub with_encrypted :
      TokenAccount → TokenResult → String → Result String String → TokenTables S → Answer S
  with_encrypted a r access (err message) t =
      (err ("failed to encrypt refresh token: " <> message), t)
  with_encrypted a r access (ok refresh) t =
      save_tokens_of (v.fails save_tokens) a r access refresh t

  -- The refresh token that is kept.
  abbrev pub next_refresh : TokenAccount → TokenResult → Result String String
  next_refresh a r =
      if r.refresh_token == "" then ok a.refresh_token_enc else v.encrypt r.refresh_token

  abbrev pub with_access :
      TokenAccount → TokenResult → Result String String → TokenTables S → Answer S
  with_access a r (err message) t = (err ("failed to encrypt access token: " <> message), t)
  with_access a r (ok access) t = with_encrypted a r access (next_refresh a r) t

  -- `persistRefreshedTokens`.
  unfoldable pub persist_refreshed_tokens : TokenAccount → TokenResult → TokenTables S → Answer S
  persist_refreshed_tokens a r t = with_access a r (v.encrypt r.access_token) t

  abbrev pub record_error : Option String → TokenAccount → String → TokenTables S → TokenTables S
  record_error (some _) a message t = t
  record_error none a message t = record t {
    accounts =
        update_where (by_account_id a.id) (λ row. record row { error_message = message })
          t.accounts;
  }

  abbrev pub after_refresh : TokenAccount → Result String TokenResult → TokenTables S → Answer S
  after_refresh a (err message) t =
      (err ("failed to refresh token: " <> message), record_error (v.fails save_error) a message t)
  after_refresh a (ok r) t = persist_refreshed_tokens a r t

  abbrev pub decrypted :
      String → (String → RefreshTokenInput) → Result String String → Result String RefreshTokenInput
  decrypted context make (err message) = err (context <> message)
  decrypted context make (ok token) = ok (make token)

  -- `refreshInputForAccount`.
  unfoldable pub refresh_input : TokenAccount → CredentialSource → Result String RefreshTokenInput
  refresh_input a no_credential = ok (record { access_token = ""; refresh_token = "" })
  refresh_input a access_credential =
      decrypted "failed to decrypt access token: "
        (λ token. record { access_token = token; refresh_token = "" })
        (v.decrypt a.access_token_enc)
  refresh_input a refresh_credential =
      if a.refresh_token_enc == ""
      then err ("no refresh token available for account " <> a.id)
      else decrypted "failed to decrypt refresh token: "
          (λ token. record { access_token = ""; refresh_token = token })
          (v.decrypt a.refresh_token_enc)

  abbrev pub with_input : TokenAccount → Result String RefreshTokenInput → TokenTables S → Answer S
  with_input a (err message) t = (err message, t)
  with_input a (ok input) t =
      let (r, networks) = v.refresh (token_provider_key a) input t.networks in
      after_refresh a r (record t { networks = networks })

  -- `refreshToken`.
  unfoldable pub refresh_token_of : TokenAccount → CredentialSource → TokenTables S → Answer S
  refresh_token_of a source t = with_input a (refresh_input a source) t

  abbrev pub unsupported : TokenAccount → String
  unsupported a =
      "unsupported platform for token refresh: " <> a.platform <> " (instance: " <> a.instance_url
      <> ")"

  abbrev pub force_capable : TokenAccount → Option RefreshCapability → TokenTables S → Answer S
  force_capable a none t = (err (unsupported a), t)
  force_capable a (some c) t =
      if c.supported
      then refresh_token_of a c.credential_source t
      else (err ("token refresh is not supported for platform " <> a.platform), t)

  abbrev pub valid_capable : TokenAccount → Option RefreshCapability → TokenTables S → Answer S
  valid_capable a none t = (err (unsupported a), t)
  valid_capable a (some c) t =
      if c.supported
      then refresh_token_of a c.credential_source t
      else if ltb v.now a.token_expires_at
      then (v.decrypt a.access_token_enc, t)
      else (
        err ("token expired for account " <> a.id <> " and provider does not support refresh"),
        t,
      )

  -- `loadAccount`.
  abbrev pub found_account : Option TokenAccount → Result String TokenAccount
  found_account none = err "sql: no rows in result set"
  found_account (some a) = ok a

  unfoldable pub load : String → TokenTables S → Result String TokenAccount
  load account_id t = elim (v.fails load_account) [
    | some message ↦ err message
    | none ↦ found_account (find_where (by_account_id account_id) t.accounts)
  ]

  abbrev pub force_active : Bool → TokenAccount → TokenTables S → Answer S
  force_active true a t = force_capable a (v.capability (token_provider_key a)) t
  force_active false a t = (err ("account is disconnected: " <> a.error_message), t)

  unfoldable pub force_loaded : Result String TokenAccount → TokenTables S → Answer S
  force_loaded (err message) t = (err message, t)
  force_loaded (ok a) t = force_active a.is_active a t

  unfoldable pub valid_loaded : Result String TokenAccount → TokenTables S → Answer S
  valid_loaded (err message) t = (err message, t)
  valid_loaded (ok a) t =
      if not a.is_active
      then (err ("account is disconnected: " <> a.error_message), t)
      else if eqb a.token_expires_at 0
      then (v.decrypt a.access_token_enc, t)
      else if ltb a.token_expires_at (v.now + refresh_lead_time)
      then valid_capable a (v.capability (token_provider_key a)) t
      else (v.decrypt a.access_token_enc, t)

  -- `ForceRefreshAccessToken`.
  unfoldable pub force_refresh_access_token : String → TokenTables S → Answer S
  force_refresh_access_token account_id t = force_loaded (load account_id t) t

  -- `GetValidAccessToken`.
  unfoldable pub get_valid_access_token : String → TokenTables S → Answer S
  get_valid_access_token account_id t = valid_loaded (load account_id t) t
