-- ===== src/TokenManager/Tests.antt =====
-- The theorems of the refresh at a concrete account.
use openpostfork.Prelude.{◌-◌, max, ◌≡◌, refl, true, none, some, [], ◌∷◌, arith, ok}
use openpostfork.Prelude.Int.{pos}
use openpostfork.Prelude.Table.{count_where, In}
use openpostfork.Queue.{Job, is_due}
use openpostfork.TokenManager.{
  TokenAccount, TokenTables, TokenServices, TokenResult, refresh_credential, is_refresh_of,
  refresh_lead_time, schedule_refresh_job, save_tokens_of, force_refresh_access_token, load,
  force_loaded, refresh_token_of, refresh_input, persist_refreshed_tokens,
}
use openpostfork.TokenManager.Refresh.{
  HasToken, schedule_refresh_job-single, force_refresh_access_token-HasToken, save_tokens_of-due,
}

abbrev endless : TokenResult
endless = record { access_token = "new"; refresh_token = ""; expires_in = pos 0 }

-- A network that refreshes every token, and gives no lifetime.
abbrev services : TokenServices (Unit {0})
services = record {
  now = 1000;
  fails = λ st. none;
  decrypt = λ text. ok text;
  encrypt = λ text. ok text;
  capability = λ key. some (record { supported = true; credential_source = refresh_credential });
  refresh = λ key input u. (ok endless, u);
  marshal_payload = λ id. ok id;
  new_id = λ jobs. "j1";
}

abbrev account : TokenAccount
account = record {
  id = "a1";
  platform = "linkedin";
  instance_url = "";
  access_token_enc = "old";
  refresh_token_enc = "r";
  token_expires_at = 900;
  is_active = true;
  error_message = "";
}

abbrev tables : TokenTables (Unit {0})
tables = record { accounts = account ∷ []; jobs = []; networks = tt }

schedule_refresh_job-single_example :
    let after = (schedule_refresh_job services "a1" 5000 tables).1 in
    (count_where (is_refresh_of "a1") after.jobs ≡ 1)
    × (j : Job) × In j after.jobs
    × (is_refresh_of "a1" j ≡ true)
    × (j.run_at ≡ max 1000 (5000 - refresh_lead_time))
unfolding schedule_refresh_job
schedule_refresh_job-single_example =
    schedule_refresh_job-single services "a1" "a1" 5000 tables refl refl refl

force_refresh_access_token-HasToken_example :
    HasToken services "a1" "new" (force_refresh_access_token services "a1" tables).1
unfolding force_refresh_access_token load force_loaded refresh_token_of refresh_input
    persist_refreshed_tokens
force_refresh_access_token-HasToken_example =
    force_refresh_access_token-HasToken services "a1" "new" tables refl

save_tokens_of-due_example :
    (j : Job) × In j (save_tokens_of services none account endless "new" "r" tables).1.jobs
    × (is_refresh_of "a1" j ≡ true)
    × (is_due 1000 j ≡ true)
save_tokens_of-due_example =
    save_tokens_of-due services account endless "new" "r" "a1" tables refl (omega arith) refl refl
      (λ st. refl)
