-- ===== src/McpOauth/Codes.antt =====
-- backend/internal/services/mcpoauth/service.go: the creation of codes, and the denial.
use openpostfork.Prelude.{
  ℕ, ◌+◌, String, not, ◌&&◌, ◌||◌, Option, none, some, List, [], ◌∷◌, ◌==◌, eqb, if◌then◌else◌,
  Result, ok, err, ◌>>=◌,
}
use openpostfork.Prelude.Table.{count_where}
use openpostfork.Prelude.Text.{trim_space}
use openpostfork.McpOauth.{
  OauthError, invalid_request, workspace_not_allowed, failure, authorization_code_lifetime,
  code_challenge_method_s256, AuthorizationRequest, AuthorizationResult, OauthCode, WorkspaceMember,
  count_members, insert_code, OauthServices,
}
use openpostfork.McpOauth.Checks.{
  normalize_scope, normalize_resource, without_slashes, validate_pkce, validate_redirect_uri,
  resolve_client,
}

-- What the tests before the insertion find.
pub record Prepared : Type 0 where
  pub workspace_id : String
  pub scope : String
  pub resource : String
  pub redirect_uri : String
  pub client_name : String

abbrev pass : Option OauthError → Result OauthError (Unit {0})
pass none = ok tt
pass (some e) = err e

-- The parameters of a redirect: blank values are left out.
abbrev parameter : String → String → List (String × String) → List (String × String)
parameter key value rest = if trim_space value == "" then rest else (key, value) ∷ rest

module _ (v : OauthServices) where
  abbrev member_counted :
      Option String → String → String → List WorkspaceMember → Result OauthError String
  member_counted (some message) user_id workspace_id members = err (failure message)
  member_counted none user_id workspace_id members =
      if eqb
        (count_where
          (λ (m : WorkspaceMember). m.workspace_id == workspace_id && m.user_id == user_id) members)
        0
      then err workspace_not_allowed
      else ok workspace_id

  -- `normalizeWorkspaceScope`.
  unfoldable pub normalize_workspace_scope :
      String → String → List WorkspaceMember → Result OauthError String
  normalize_workspace_scope user_id workspace_id members =
      let id = trim_space workspace_id in
      if id == ""
      then ok ""
      else member_counted (v.fails count_members) (trim_space user_id) id members

  -- `CreateAuthorizationCode` up to the new code.
  abbrev pub prepare : AuthorizationRequest → List WorkspaceMember → Result OauthError Prepared
  prepare r members =
      if not (trim_space r.response_type == "code") || trim_space r.user_id == ""
      then err invalid_request
      else do
        workspace_id ← normalize_workspace_scope r.user_id r.workspace_id members
        scope ← normalize_scope r.scope
        resource ← normalize_resource r.resource r.expected_resource
        checked ← pass (validate_pkce r.code_challenge r.code_challenge_method)
        redirect ← validate_redirect_uri v r.redirect_uri
        client_name ← resolve_client v r.client_id redirect.text scope
        ok (record {
          workspace_id = workspace_id;
          scope = scope;
          resource = resource;
          redirect_uri = redirect.text;
          client_name = client_name;
        })

  abbrev origin_of : Option String → String
  origin_of none = ""
  origin_of (some text) = without_slashes text

  -- `issuerFromResource`.
  unfoldable pub issuer_from_resource : String → String
  issuer_from_resource resource = if resource == "" then "" else origin_of (v.origin resource)

  abbrev pub code_row : AuthorizationRequest → Prepared → String → ℕ → List OauthCode → OauthCode
  code_row r p secret now rows = record {
    id = v.new_id rows;
    code_hash = v.hash secret;
    user_id = trim_space r.user_id;
    client_id = trim_space r.client_id;
    client_name = p.client_name;
    redirect_uri = p.redirect_uri;
    scope = p.scope;
    workspace_id = p.workspace_id;
    resource = p.resource;
    code_challenge = trim_space r.code_challenge;
    code_challenge_method = code_challenge_method_s256;
    expires_at = now + authorization_code_lifetime;
    consumed_at = none;
    created_at = now;
  }

  abbrev authorized : AuthorizationRequest → Prepared → String → AuthorizationResult
  authorized r p secret = record {
    redirect_url = v.redirect p.redirect_uri (
        parameter "code" secret
          (parameter "state" r.state (parameter "iss" (issuer_from_resource p.resource) [])));
    code = secret;
  }

  abbrev pub insert_prepared :
      Option String
      → AuthorizationRequest
      → Prepared
      → String
      → ℕ
      → List OauthCode
      → Result OauthError AuthorizationResult × List OauthCode
  insert_prepared (some message) r p secret now rows = (err (failure message), rows)
  insert_prepared none r p secret now rows =
      (ok (authorized r p secret), code_row r p secret now rows ∷ rows)

  abbrev pub with_prepared :
      AuthorizationRequest
      → Result OauthError Prepared
      → Result String String
      → ℕ
      → List OauthCode
      → Result OauthError AuthorizationResult × List OauthCode
  with_prepared r (err e) secret now rows = (err e, rows)
  with_prepared r (ok p) (err message) now rows = (err (failure message), rows)
  with_prepared r (ok p) (ok secret) now rows =
      insert_prepared (v.fails insert_code) r p secret now rows

  -- `CreateAuthorizationCode`; the random code, or the error of its generation, is an input.
  unfoldable pub create_authorization_code :
      AuthorizationRequest
      → List WorkspaceMember
      → Result String String
      → ℕ
      → List OauthCode
      → Result OauthError AuthorizationResult × List OauthCode
  create_authorization_code r members secret now rows =
      with_prepared r (prepare r members) secret now rows

  -- `DenyRedirect`.
  unfoldable pub deny_redirect : AuthorizationRequest → Result OauthError AuthorizationResult
  deny_redirect r = do
    redirect ← validate_redirect_uri v r.redirect_uri
    scope ← normalize_scope r.scope
    resource ← normalize_resource r.resource r.expected_resource
    client_name ← resolve_client v r.client_id redirect.text scope
    ok (record {
      redirect_url = v.redirect redirect.text (
          parameter "error" "access_denied" (
            parameter "error_description" "The user denied the OpenPost MCP connection."
              (parameter "state" r.state [])));
      code = "";
    })
