-- ===== src/Bearer.antt =====
-- backend/internal/api/middleware/auth.go: who a request is from. The bearer token of the header is a
-- JWT, whose session is looked up (Sessions), or an API token (ApiTokens). The check of a JWT
-- (backend/internal/services/auth, on a library) is a parameter.
pub mod Accepted
mod Tests
use openpostfork.Prelude.{
  ℕ, zero, suc, ◌+◌, ◌-◌, ◌*◌, ◌/◌, ◌%◌, ◌^◌, ◌≤◌, ◌<◌, min, max, String, ◌<>◌, ◌≡◌, refl, sym, ap,
  ◌∙◌, subst, fun_ext, ◌≢◌, ◌↔◌, ◌⊎◌, inl, inr, Bool, true, false, not, ◌&&◌, ◌||◌, Option, none,
  some, List, [], ◌∷◌, ◌++◌, map, arith, ◌==◌, eq_iff, eq_refl, ltb, leb, eqb, if◌then◌else◌,
  leb→le, le→leb, leb→lt, Bool-cases, Option-cases, ==_of_ne, length, All, length-append, All-map,
  Result, ok, err, ◌>>=◌, or_fail, Result-cases,
}
use openpostfork.Prelude.Cut.{cut, has_char}
use openpostfork.Prelude.Table.{count_where}
use openpostfork.Prelude.Text.{trim_space}
use openpostfork.Sessions.{UserSession, SessionError, SessionStatement, validate_session}
use openpostfork.ApiTokens
use openpostfork.ApiTokens.{TokenPrincipal, TokenError, validate_token}

pub record Claims : Type 0 where
  pub user_id : String
  pub email : String
  pub session_id : String

pub record Principal : Type 0 where
  pub user_id : String
  pub email : String
  pub scope : String
  pub workspace_id : String
  pub audience : String
  pub client_id : String
  pub client_name : String
  pub token_prefix : String
  pub session_id : String

pub data BearerError : Type 0 where
  jwt_error : String → BearerError
  session_error : SessionError → BearerError

-- The sessions and the API tokens.
pub record World : Type 0 where
  pub sessions : List UserSession
  pub tables : ApiTokens.Tables

pub record Authenticators : Type 0 where
  pub validate_jwt : String → Result String Claims
  pub has_sessions : Bool
  pub new_session_id : List UserSession → String
  pub session_fails : SessionStatement → Option String
  pub api_tokens : Option ApiTokens.Services

abbrev pub Answer : Type 0
Answer = Result BearerError Principal × World

abbrev pub of_claims : Claims → Principal
of_claims c = record {
  user_id = c.user_id;
  email = c.email;
  scope = "";
  workspace_id = "";
  audience = "";
  client_id = "";
  client_name = "";
  token_prefix = "";
  session_id = c.session_id;
}

abbrev pub of_token : TokenPrincipal → Principal
of_token p = record {
  user_id = p.user_id;
  email = p.email;
  scope = p.scope;
  workspace_id = p.workspace_id;
  audience = p.audience;
  client_id = p.token_id;
  client_name = p.token_name;
  token_prefix = p.token_prefix;
  session_id = "";
}

module _ (a : Authenticators) where
  abbrev pub after_session :
      Claims → Result SessionError UserSession × List UserSession → World → Answer
  after_session c (err e, rows) w = (err (session_error e), record w { sessions = rows })
  after_session c (ok s, rows) w = (ok (of_claims c), record w { sessions = rows })

  abbrev pub with_claims : Result String Claims → ℕ → World → Answer
  with_claims (err message) now w = (err (jwt_error message), w)
  with_claims (ok c) now w =
      if not (c.session_id == "") && a.has_sessions
      then after_session c
          (validate_session a.new_session_id a.session_fails c.user_id c.session_id now w.sessions)
          w
      else (ok (of_claims c), w)

  -- `JWTAuthenticator.AuthenticateBearer`.
  unfoldable pub authenticate_jwt : String → ℕ → World → Answer
  authenticate_jwt raw now w = with_claims (a.validate_jwt raw) now w

  abbrev pub or_token :
      BearerError → Result TokenError TokenPrincipal × ApiTokens.Tables → World → Answer
  or_token e (err other, t) w = (err e, record w { tables = t })
  or_token e (ok p, t) w = (ok (of_token p), record w { tables = t })

  abbrev pub fall_back : BearerError → Option ApiTokens.Services → String → ℕ → World → Answer
  fall_back e none raw now w = (err e, w)
  fall_back e (some v) raw now w = or_token e (validate_token v raw now w.tables) w

  abbrev pub or_api_token : Answer → String → ℕ → Answer
  or_api_token (ok p, w) raw now = (ok p, w)
  or_api_token (err e, w) raw now = fall_back e a.api_tokens raw now w

  -- `CompositeService.AuthenticateBearer`.
  unfoldable pub authenticate_bearer : String → ℕ → World → Answer
  authenticate_bearer raw now w = or_api_token (authenticate_jwt raw now w) raw now

-- The token of an `Authorization` header: `strings.Split` by spaces gives two parts, the first one
-- `Bearer`.
abbrev pub second_part : Option (String × String) → Option String
second_part none = none
second_part (some (scheme, token)) =
    if scheme == "Bearer" && not (has_char b' ' token) then some token else none

unfoldable pub bearer_of : String → Option String
bearer_of header = second_part (cut b' ' header)

-- The answer of `AuthMiddleware`: a status 401 with its text, or the principal that the handler sees.
abbrev pub allowed : Answer → Result String Principal × World
allowed (err e, w) = (err "invalid or expired token", w)
allowed (ok p, w) = (ok p, w)

abbrev pub with_bearer :
    Authenticators → Option String → ℕ → World → Result String Principal × World
with_bearer a none now w = (err "invalid authorization header format", w)
with_bearer a (some token) now w = allowed (authenticate_bearer a token now w)

unfoldable pub auth_middleware :
    Authenticators → String → ℕ → World → Result String Principal × World
auth_middleware a header now w =
    if header == ""
    then (err "missing authorization header", w)
    else with_bearer a (bearer_of header) now w

pub record WorkspaceMember : Type 0 where
  pub workspace_id : String
  pub user_id : String

-- `WorkspaceScopeAllows`.
unfoldable pub workspace_scope_allows : Principal → String → Bool
workspace_scope_allows p workspace_id =
    let scoped = trim_space p.workspace_id in
    if scoped == "" then true else scoped == trim_space workspace_id

-- `CheckWorkspaceAccess`.
unfoldable pub check_workspace_access :
    Option String → Principal → String → String → List WorkspaceMember → Result String Bool
check_workspace_access failed p workspace_id user_id members =
    if not (workspace_scope_allows p workspace_id) then ok false else elim failed [
      | some message ↦ err message
      | none ↦ ok (
          ltb 0 (
            count_where
              (λ (m : WorkspaceMember). m.workspace_id == workspace_id && m.user_id == user_id)
              members))
    ]
