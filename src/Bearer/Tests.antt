-- ===== src/Bearer/Tests.antt =====
-- The theorems of the middleware at concrete sessions.
use openpostfork.Prelude.{
  ◌≡◌, refl, ◌⊎◌, true, none, List, [], ◌∷◌, arith, ◌==◌, if◌then◌else◌, ok, err,
}
use openpostfork.Sessions.{UserSession, validate_session, revoke_session}
use openpostfork.Bearer.{
  Claims, World, Authenticators, of_claims, authenticate_jwt, authenticate_bearer,
}
use openpostfork.Bearer.Accepted.{
  IsSignedIn, HasToken, authenticate_bearer-accepted, revoke-authenticate,
}

abbrev claims : Claims
claims = record { user_id = "u1"; email = "u1@example.org"; session_id = "s1" }

abbrev authenticators : Authenticators
authenticators = record {
  validate_jwt = λ raw. if raw == "jwt" then ok claims else err "bad";
  has_sessions = true;
  new_session_id = λ rows. "s3";
  session_fails = λ st. none;
  api_tokens = none;
}

abbrev session : UserSession
session = record {
  id = "s1";
  user_id = "u1";
  user_agent = "";
  ip_address = "";
  expires_at = 900;
  last_used_at = 10;
  revoked_at = 0;
  created_at = 10;
}

-- Two sessions of one user.
abbrev rows : List UserSession
rows = session ∷ record session { id = "s2" } ∷ []

abbrev world : World
world = record { sessions = rows; tables = record { tokens = []; users = [] } }

authenticate_bearer-accepted_example :
    IsSignedIn authenticators "jwt" 500 world (of_claims claims)
    ⊎ HasToken authenticators "jwt" 500 world (of_claims claims)
unfolding authenticate_bearer authenticate_jwt validate_session
authenticate_bearer-accepted_example =
    authenticate_bearer-accepted authenticators "jwt" 500 world (of_claims claims) refl

revoke-authenticate_example :
    ¬ (((of_claims claims).session_id ≡ "s2") × ((of_claims claims).user_id ≡ "u1"))
unfolding revoke_session authenticate_bearer authenticate_jwt validate_session
revoke-authenticate_example =
    revoke-authenticate authenticators "u1" "s2" "jwt" 400 500 world (of_claims claims) refl
      (λ q. cc) (omega arith) refl refl
