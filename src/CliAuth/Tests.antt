-- ===== src/CliAuth/Tests.antt =====
-- The theorems of the device flow at concrete sessions.
use openpostfork.Prelude.{ℕ, suc, String, ◌<>◌, refl, inl, none, [], ◌∷◌, ok}
use openpostfork.Prelude.Table.{In}
use openpostfork.CliAuth.{
  Session, approved, Store, Services, approve_session, deny_session, cleanup_expired, poll_session,
  poll_loaded, poll_running, poll_status, consume_approved_session, session_by_device_code,
  select_session, expire_if_needed, update_sessions,
}
use openpostfork.Prelude.Text.{trim_space}
use openpostfork.CliAuth.Decide.{decided_session_stays, poll_session-HandedOut, HandedOut}

-- A token service that numbers its tokens.
abbrev working : Services ℕ
working = record {
  hash = λ code. "h" <> code;
  fails = λ _. none;
  generate_token =
      λ user name scope expires n. (ok (record { text = "token"; prefix = "tok" }), suc n);
  token_lifetime = 1000;
  default_scope = "posts";
}

abbrev approved_session : Session
approved_session = record {
  id = "s1";
  user_id = "u1";
  device_code_hash = "hDEVICE";
  user_code_hash = "hABCD-EFGH";
  client_name = "cli";
  client_version = "1";
  client_os = "linux";
  requested_scopes = "posts";
  status = approved;
  interval_seconds = 5;
  expires_at = 900;
  last_polled_at = 0;
  approved_at = 50;
  denied_at = 0;
  created_at = 10;
}

abbrev store : Store ℕ
store = record { sessions = approved_session ∷ []; tokens = 0 }

decided_session_stays_example :
    ((user code scopes name : String) (now : ℕ)
      → In approved_session (approve_session working user code scopes name now store).1.sessions)
    × ((code : String) (now : ℕ)
        → In approved_session (deny_session working code now store).1.sessions)
    × ((now : ℕ) → In approved_session (cleanup_expired working now store).1.sessions)
decided_session_stays_example = decided_session_stays working approved_session store refl (inl refl)

poll_session-HandedOut_example :
    HandedOut working "DEVICE" store (poll_session working "DEVICE" 100 store).2
unfolding poll_session poll_loaded poll_running poll_status consume_approved_session
    session_by_device_code select_session expire_if_needed update_sessions trim_space
poll_session-HandedOut_example = poll_session-HandedOut working "DEVICE" 100 store refl
