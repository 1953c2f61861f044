-- ===== src/TokenManager/Refresh.antt =====
-- What a refresh leaves in the tables: the account's row, and the job of the next refresh.
use openpostfork.Prelude.{
  ℕ, suc, ◌+◌, ◌-◌, ◌≤◌, max, String, ◌≡◌, refl, sym, ap, ◌∙◌, subst, inl, inr, Bool, true, false,
  ◌||◌, Option, none, some, List, [], ◌∷◌, arith, ◌==◌, eq_iff, eq_refl, eqb, Bool-cases,
  Option-cases, Result, ok, err, Result-cases,
}
use openpostfork.Prelude.Int.{pos, leb_ℤ}
use openpostfork.Prelude.Table.{
  find_where, update_where, delete_where, count_where, In, find_where-update_where,
  find_where_sound,
}
use openpostfork.Queue.{Job, is_due}
use openpostfork.TokenManager.{
  TokenAccount, TokenTables, TokenServices, TokenResult, TokenStatement, RefreshCapability,
  RefreshTokenInput, load_account, save_tokens, delete_jobs, insert_job, refresh_lead_time,
  by_account_id, is_refresh_of, refresh_job, schedule_payload, schedule_refresh_job, expiry,
  set_tokens, save_tokens_of, next_refresh, persist_refreshed_tokens, after_refresh, refresh_input,
  with_input, refresh_token_of, force_capable, load, force_loaded, force_refresh_access_token,
  token_provider_key, found_account, force_active,
}

count-delete : (test : Job → Bool) (js : List Job) → count_where test (delete_where test js) ≡ 0
count-delete test [] = refl
count-delete test (x ∷ xs) = ground (arith, count-delete test xs)

module _ {S : Type 0} (v : TokenServices S) where
  is_refresh_job :
      (payload : String) (expires_at : ℕ) (jobs : List Job)
      → is_refresh_of payload (refresh_job v payload expires_at jobs) ≡ true
  is_refresh_job payload expires_at jobs = rw (eq_refl payload) refl

  payload_single :
      (payload : String) (expires_at : ℕ) (t : TokenTables S)
      → (schedule_payload v (ok payload) expires_at t).0 ≡ none
      → (count_where (is_refresh_of payload) (schedule_payload v (ok payload) expires_at t).1.jobs
          ≡ 1)
        × In
            (refresh_job v payload expires_at (delete_where (is_refresh_of payload) t.jobs))
            (schedule_payload v (ok payload) expires_at t).1.jobs
  payload_single payload expires_at t done = elim (Option-cases (v.fails delete_jobs)) [
    | inr q ↦ cc (rw q.1 at done)
    | inl e ↦ elim (Option-cases (v.fails insert_job)) [
      | inr q ↦ cc (rw (e, q.1) at done)
      | inl f ↦
          rw (e, f)
            (
              rw (is_refresh_job payload expires_at (delete_where (is_refresh_of payload) t.jobs))
                  (ap suc (count-delete (is_refresh_of payload) t.jobs)),
              inl refl,
            )
    ]
  ]

  -- The scheduling of a refresh, where it ends without an error, leaves one pending refresh job of
  -- the account, at the lead time before the token expires, or now if that is over. (The account has
  -- an id, its token an end, and its payload is made.)
  pub schedule_refresh_job-single :
      (account_id payload : String) (expires_at : ℕ) (t : TokenTables S)
      → (account_id == "" || eqb expires_at 0) ≡ false
      → v.marshal_payload account_id ≡ ok payload
      → (schedule_refresh_job v account_id expires_at t).0 ≡ none
      → let after = (schedule_refresh_job v account_id expires_at t).1 in
        (count_where (is_refresh_of payload) after.jobs ≡ 1)
        × (j : Job) × In j after.jobs
        × (is_refresh_of payload j ≡ true)
        × (j.run_at ≡ max v.now (expires_at - refresh_lead_time))
  unfolding schedule_refresh_job
  schedule_refresh_job-single account_id payload expires_at t named made done =
      let kept = delete_where (is_refresh_of payload) t.jobs in
      let p = payload_single payload expires_at t (rw (named, made) at done) in
      rw (named, made)
        (
          p.0,
          refresh_job v payload expires_at kept,
          p.1,
          is_refresh_job payload expires_at kept,
          ground arith,
        )

  schedule-accounts :
      (account_id : String) (expires_at : ℕ) (t : TokenTables S)
      → (schedule_refresh_job v account_id expires_at t).1.accounts ≡ t.accounts
  unfolding schedule_refresh_job
  schedule-accounts account_id expires_at t =
      elim (Bool-cases (account_id == "" || eqb expires_at 0)) [
        | inl e ↦ rw e refl
        | inr e ↦ rw e (payload-accounts (v.marshal_payload account_id))
      ]
    where
      payload-accounts :
          (made : Result String String)
          → (schedule_payload v made expires_at t).1.accounts ≡ t.accounts
      payload-accounts (err message) = refl
      payload-accounts (ok payload) = ground arith

  -- The account's row holds the encrypted token, and no error.
  abbrev pub HasToken : String → String → TokenTables S → Type 0
  HasToken key token t =
      (row : TokenAccount) × (find_where (by_account_id key) t.accounts ≡ some row)
      × (v.encrypt token ≡ ok row.access_token_enc)
      × (row.error_message ≡ "")

  HasToken-save :
      (failed : Option String) (a : TokenAccount) (r : TokenResult) (access refresh token : String)
      (t : TokenTables S) (row : TokenAccount)
      → find_where (by_account_id a.id) t.accounts ≡ some row
      → v.encrypt r.access_token ≡ ok access
      → (save_tokens_of v failed a r access refresh t).0 ≡ ok token
      → HasToken a.id token (save_tokens_of v failed a r access refresh t).1
  HasToken-save (some message) a r access refresh token t row h e done = cc
  HasToken-save none a r access refresh token t row h e done =
      let set = set_tokens v access refresh (expiry v a r) in
      let t' : TokenTables S = record t {
        accounts = update_where (by_account_id a.id) set t.accounts;
      } in
      let same : r.access_token ≡ token = cc done in
      (
        set row,
        ap (find_where (by_account_id a.id)) (schedule-accounts a.id (expiry v a r) t')
            ∙ find_where-update_where (by_account_id a.id) set t.accounts (λ q. refl) {r = row} h,
        subst (λ s. v.encrypt s ≡ ok access) same e,
        refl,
      )

  HasToken-persist :
      (a : TokenAccount) (r : TokenResult) (token : String) (t : TokenTables S) (row : TokenAccount)
      → find_where (by_account_id a.id) t.accounts ≡ some row
      → (persist_refreshed_tokens v a r t).0 ≡ ok token
      → HasToken a.id token (persist_refreshed_tokens v a r t).1
  unfolding persist_refreshed_tokens
  HasToken-persist a r token t row h done = elim (Result-cases (v.encrypt r.access_token)) [
    | inl q ↦ cc (rw (q.1, persist_refreshed_tokens) at done)
    | inr q ↦ elim (Result-cases (next_refresh v a r)) [
      | inl p ↦ cc (rw (q.1, p.1, persist_refreshed_tokens) at done)
      | inr p ↦
          rw (q.1, p.1, persist_refreshed_tokens)
            (HasToken-save (v.fails save_tokens) a r q.0 p.0 token t row h q.1
              (rw (q.1, p.1, persist_refreshed_tokens) at done))
    ]
  ]

  HasToken-refresh :
      (a : TokenAccount) (answer : Result String TokenResult) (token : String) (t : TokenTables S)
      (row : TokenAccount)
      → find_where (by_account_id a.id) t.accounts ≡ some row
      → (after_refresh v a answer t).0 ≡ ok token
      → HasToken a.id token (after_refresh v a answer t).1
  HasToken-refresh a (err message) token t row h done = cc
  HasToken-refresh a (ok r) token t row h done = HasToken-persist a r token t row h done

  HasToken-input :
      (a : TokenAccount) (input : Result String RefreshTokenInput) (token : String)
      (t : TokenTables S) (row : TokenAccount)
      → find_where (by_account_id a.id) t.accounts ≡ some row
      → (with_input v a input t).0 ≡ ok token
      → HasToken a.id token (with_input v a input t).1
  HasToken-input a (err message) token t row h done = cc
  HasToken-input a (ok input) token t row h done =
      let answer = v.refresh (token_provider_key a) input t.networks in
      HasToken-refresh a answer.0 token (record t { networks = answer.1 }) row h done

  HasToken-capable :
      (a : TokenAccount) (c : Option RefreshCapability) (token : String) (t : TokenTables S)
      (row : TokenAccount)
      → find_where (by_account_id a.id) t.accounts ≡ some row
      → (force_capable v a c t).0 ≡ ok token
      → HasToken a.id token (force_capable v a c t).1
  unfolding refresh_token_of
  HasToken-capable a none token t row h done = cc
  HasToken-capable a (some c) token t row h done = elim (Bool-cases c.supported) [
    | inr e ↦ cc (rw e at done)
    | inl e ↦
        rw e (HasToken-input a (refresh_input v a c.credential_source) token t row h (rw e at done))
  ]

  HasToken-active :
      (active : Bool) (a : TokenAccount) (token : String) (t : TokenTables S)
      → find_where (by_account_id a.id) t.accounts ≡ some a
      → (force_active v active a t).0 ≡ ok token
      → HasToken a.id token (force_active v active a t).1
  HasToken-active false a token t h done = cc
  HasToken-active true a token t h done =
      HasToken-capable a (v.capability (token_provider_key a)) token t a h done

  HasToken-loaded :
      (key : String) (found : Option TokenAccount) (token : String) (t : TokenTables S)
      → find_where (by_account_id key) t.accounts ≡ found
      → (force_loaded v (found_account v found) t).0 ≡ ok token
      → HasToken key token (force_loaded v (found_account v found) t).1
  unfolding force_loaded
  HasToken-loaded key none token t h done = cc
  HasToken-loaded key (some a) token t h done =
      let same : a.id ≡ key =
        (eq_iff a.id key).0 (find_where_sound (by_account_id key) t.accounts {r = a} h) in
      subst (λ k. HasToken k token (force_active v a.is_active a t).1) same
        (HasToken-active a.is_active a token t
          (subst (λ k. find_where (by_account_id k) t.accounts ≡ some a) (sym same) h) done)

  -- A forced refresh that returns a token leaves that token, encrypted, in the row of the account,
  -- without an error message.
  pub force_refresh_access_token-HasToken :
      (account_id token : String) (t : TokenTables S)
      → (force_refresh_access_token v account_id t).0 ≡ ok token
      → HasToken account_id token (force_refresh_access_token v account_id t).1
  unfolding force_refresh_access_token load force_loaded
  force_refresh_access_token-HasToken account_id token t done =
      elim (Option-cases (v.fails load_account)) [
        | inr q ↦ cc (rw (q.1, force_refresh_access_token, load, force_loaded) at done)
        | inl e ↦
            rw (e, force_refresh_access_token, load)
              (HasToken-loaded account_id (find_where (by_account_id account_id) t.accounts) token t
                refl (rw (e, force_refresh_access_token, load) at done))
      ]

  -- Where a network gives no lifetime with a refreshed token, and the old one ends within the lead
  -- time, the refresh leaves a job that is due at once. (The account has an id, its token an end, its
  -- payload is made, and no statement fails.)
  pub save_tokens_of-due :
      (a : TokenAccount) (r : TokenResult) (access refresh payload : String) (t : TokenTables S)
      → leb_ℤ r.expires_in (pos 0) ≡ true
      → a.token_expires_at ≤ v.now + refresh_lead_time
      → (a.id == "" || eqb a.token_expires_at 0) ≡ false
      → v.marshal_payload a.id ≡ ok payload
      → ((st : TokenStatement) → v.fails st ≡ none)
      → (j : Job) × In j (save_tokens_of v none a r access refresh t).1.jobs
        × (is_refresh_of payload j ≡ true)
        × (is_due v.now j ≡ true)
  unfolding schedule_refresh_job is_due
  save_tokens_of-due a r access refresh payload t endless soon named made quiet =
      let set = set_tokens v access refresh a.token_expires_at in
      let t' : TokenTables S = record t {
        accounts = update_where (by_account_id a.id) set t.accounts;
      } in
      let done : (schedule_refresh_job v a.id a.token_expires_at t').0 ≡ none =
        rw (named, made, quiet delete_jobs, quiet insert_job) refl in
      let s = schedule_refresh_job-single a.id payload a.token_expires_at t' named made done in
      rw (endless) (s.1, s.2, s.3, ground (arith, s.3, s.4))
