-- ===== src/McpOauth.antt =====
-- backend/internal/services/mcpoauth/service.go with the row `MCPOAuthCode` of
-- backend/internal/models/models.go: the authorization codes by which an MCP client gets a token.
-- The parser of URLs (net/url), the test for a loopback address (net.ParseIP), the fetch of the
-- client's metadata, the hash and the random codes are parameters.
pub mod Checks
pub mod Codes
pub mod Exchange
pub mod Granted
pub mod Interleaving
mod Sequential
pub mod Twice
mod Tests
use openpostfork.Prelude.{
  ℕ, zero, suc, ◌+◌, ◌-◌, ◌*◌, ◌/◌, ◌%◌, ◌^◌, ◌≤◌, ◌<◌, min, max, String, ◌<>◌, ◌≡◌, refl, sym, ap,
  ◌∙◌, subst, fun_ext, ◌≢◌, ◌↔◌, ◌⊎◌, inl, inr, Bool, true, false, not, ◌&&◌, ◌||◌, Option, none,
  some, List, [], ◌∷◌, ◌++◌, map, arith, ◌==◌, eq_iff, eq_refl, ltb, leb, eqb, if◌then◌else◌,
  leb→le, le→leb, leb→lt, Bool-cases, Option-cases, ==_of_ne, length, All, length-append, All-map,
  Result, ok, err, ◌>>=◌, or_fail, Result-cases,
}
use openpostfork.Prelude.Clock.{minute}
use openpostfork.ApiTokens.{Services}

-- The errors of the service, and those of the database and the random source.
pub data OauthError : Type 0 where
  invalid_request invalid_client invalid_grant unsupported_grant : OauthError
  unsupported_pkce unsupported_scope unsupported_resource workspace_not_allowed : OauthError
  failure : String → OauthError

abbrev pub authorization_code_lifetime : ℕ
authorization_code_lifetime = 10 * minute

abbrev pub code_challenge_method_s256 : String
code_challenge_method_s256 = "S256"

pub record AuthorizationRequest : Type 0 where
  pub user_id : String
  pub workspace_id : String
  pub response_type : String
  pub client_id : String
  pub redirect_uri : String
  pub scope : String
  pub state : String
  pub code_challenge : String
  pub code_challenge_method : String
  pub resource : String
  pub expected_resource : String

pub record AuthorizationResult : Type 0 where
  pub redirect_url : String
  pub code : String

pub record TokenRequest : Type 0 where
  pub grant_type : String
  pub code : String
  pub redirect_uri : String
  pub client_id : String
  pub code_verifier : String
  pub resource : String
  pub expected_resource : String

pub record TokenResult : Type 0 where
  pub access_token : String
  pub token_prefix : String
  pub scope : String
  pub expires_in : ℕ
  pub resource : String

pub record ClientMetadata : Type 0 where
  pub client_name : String
  pub redirect_uris : List String
  pub token_endpoint_auth_method : String
  pub grant_types : List String
  pub response_types : List String
  pub scope : String

-- A parsed `url.URL`; `text` is its `String()`.
pub record Url : Type 0 where
  pub scheme : String
  pub host : String
  pub hostname : String
  pub fragment : String
  pub has_user : Bool
  pub escaped_path : String
  pub text : String

-- The row `MCPOAuthCode`; the time of the exchange is `none` where it is NULL.
pub record OauthCode : Type 0 where
  pub id : String
  pub code_hash : String
  pub user_id : String
  pub client_id : String
  pub client_name : String
  pub redirect_uri : String
  pub scope : String
  pub workspace_id : String
  pub resource : String
  pub code_challenge : String
  pub code_challenge_method : String
  pub expires_at : ℕ
  pub consumed_at : Option ℕ
  pub created_at : ℕ

pub record WorkspaceMember : Type 0 where
  pub workspace_id : String
  pub user_id : String

pub data OauthStatement : Type 0 where
  count_members insert_code select_code update_code : OauthStatement

-- What the service calls: `fetch` answers a status with the decoded body, `redirect` builds a URL
-- from another one and the parameters of its query, `origin` is a URL without its path, its query
-- and its fragment, `challenge_of` the encoded hash of a verifier.
pub record OauthServices : Type 0 where
  pub parse_url : String → Option Url
  pub is_loopback_ip : String → Bool
  pub fetch : String → Option (ℕ × Option ClientMetadata)
  pub redirect : String → List (String × String) → String
  pub origin : String → Option String
  pub hash : String → String
  pub challenge_of : String → String
  pub new_id : List OauthCode → String
  pub fails : OauthStatement → Option String
  pub tokens : Services
