-- ===== src/McpOauth/Checks.antt =====
-- backend/internal/services/mcpoauth/service.go: the tests on scopes, resources, challenges, URLs
-- and clients.
use openpostfork.Prelude.{
  ℕ, String, Bool, true, false, not, ◌&&◌, ◌||◌, Option, none, some, List, [], ◌∷◌, ◌==◌, ltb, leb,
  eqb, if◌then◌else◌, Result, ok, err, or_fail,
}
use Prim.Native.String.{len}
use Prim.Native.String.{[] as end, ◌∷◌ as push}
use Prim.Native.Char.{code}
use text.Mathlib.Text.{starts_with}
use openpostfork.Prelude.Cut.{all_chars}
use openpostfork.Prelude.Text.{trim_space, to_lower, contains}
use openpostfork.Prelude.Words.{fields}
use openpostfork.ApiTokens.{scope_mcp}
use openpostfork.McpOauth.{
  OauthError, invalid_request, invalid_client, invalid_grant, unsupported_pkce, unsupported_scope,
  unsupported_resource, code_challenge_method_s256, ClientMetadata, Url, OauthServices,
  TokenRequest,
}

-- `normalizeScope`.
unfoldable pub normalize_scope : String → Result OauthError String
normalize_scope scope = elim (fields scope) [
  | [] ↦ ok scope_mcp
  | part ∷ rest ↦ elim rest [
    | [] ↦ if part == scope_mcp then ok scope_mcp else err unsupported_scope
    | _ ∷ _ ↦ err unsupported_scope
  ]
]

-- `strings.TrimRight(s, "/")`.
unfoldable pub without_slashes : String → String
without_slashes end = end
without_slashes (push c s) =
    let rest = without_slashes s in if eqb (code c) b'/' && rest == "" then "" else push c rest

-- `normalizeResource`.
unfoldable pub normalize_resource : String → String → Result OauthError String
normalize_resource resource expected =
    let e = without_slashes (trim_space expected) in
    let r = without_slashes (trim_space resource) in
    if e == ""
    then ok r
    else if r == ""
    then ok e
    else if r == e
    then ok r
    else err unsupported_resource

-- `validateExchangeResource`.
unfoldable pub validate_exchange_resource : TokenRequest → String → Option OauthError
validate_exchange_resource input resource =
    if not (input.resource == "") && not (trim_space input.resource == resource)
    then some unsupported_resource
    else if not (input.expected_resource == "")
        && not (without_slashes (trim_space input.expected_resource) == resource)
    then some unsupported_resource
    else none

abbrev is_unreserved : ℕ → Bool
is_unreserved c =
    (leb b'A' c && leb c b'Z')
    || (leb b'a' c && leb c b'z')
    || (leb b'0' c && leb c b'9')
    || eqb c b'-'
    || eqb c b'.'
    || eqb c b'_'
    || eqb c b'~'

-- `validCodeParam`.
unfoldable pub valid_code_param : String → Bool
valid_code_param value =
    let s = trim_space value in leb 43 (len s) && leb (len s) 128 && all_chars is_unreserved s

-- `validatePKCE`.
unfoldable pub validate_pkce : String → String → Option OauthError
validate_pkce challenge method =
    if not (trim_space method == code_challenge_method_s256)
    then some unsupported_pkce
    else if valid_code_param challenge
    then none
    else some invalid_request

-- `strings.Trim(s, "[]")`.
abbrev is_bracket : ℕ → Bool
is_bracket c = eqb c b'[' || eqb c b']'

brackets_left : String → String
brackets_left end = end
brackets_left (push c s) =
    let rest = brackets_left s in if is_bracket (code c) then rest else push c s

brackets_right : String → String
brackets_right end = end
brackets_right (push c s) =
    let rest = brackets_right s in if is_bracket (code c) && rest == "" then "" else push c rest

-- `slices.Contains`.
abbrev pub has_text : String → List String → Bool
has_text x [] = false
has_text x (y ∷ ys) = y == x || has_text x ys

-- A list that is empty, or has the text.
abbrev pub empty_or_has : String → List String → Bool
empty_or_has x [] = true
empty_or_has x (y ∷ ys) = has_text x (y ∷ ys)

abbrev is_unsupported : String → Result OauthError String → String → Bool
is_unsupported wanted (err e) scope = true
is_unsupported wanted (ok s) scope = not (contains wanted scope)

-- `validateClientMetadata`.
unfoldable pub validate_client_metadata : ClientMetadata → String → String → Option OauthError
validate_client_metadata m redirect_uri scope =
    if not (has_text redirect_uri m.redirect_uris)
    then some invalid_client
    else if not (m.token_endpoint_auth_method == "") && not (m.token_endpoint_auth_method == "none")
    then some invalid_client
    else if not (empty_or_has "authorization_code" m.grant_types)
    then some invalid_client
    else if not (empty_or_has "code" m.response_types)
    then some invalid_client
    else if not (m.scope == "") && is_unsupported m.scope (normalize_scope m.scope) scope
    then some unsupported_scope
    else none

module _ (v : OauthServices) where
  -- `validateCodeVerifier`.
  unfoldable pub validate_code_verifier : String → String → Option OauthError
  validate_code_verifier challenge verifier =
      if not (valid_code_param verifier)
      then some invalid_grant
      else if v.challenge_of verifier == challenge
      then none
      else some invalid_grant

  -- `isLoopbackHost`.
  unfoldable pub is_loopback_host : String → Bool
  unfolding brackets_left brackets_right
  is_loopback_host host =
      let h = brackets_right (brackets_left (to_lower host)) in
      h == "localhost" || v.is_loopback_ip h

  -- `oauthURLSchemeAllowed`.
  unfoldable pub oauth_url_scheme_allowed : String → String → Bool
  oauth_url_scheme_allowed scheme host =
      scheme == "https" || (scheme == "http" && is_loopback_host host)

  abbrev checked_url : OauthError → Option Url → Result OauthError Url
  checked_url e none = err e
  checked_url e (some u) =
      if u.scheme == "" || u.host == "" || not (u.fragment == "") || u.has_user
      then err e
      else if oauth_url_scheme_allowed u.scheme u.hostname
      then ok u
      else err e

  -- `validateRedirectURI`.
  unfoldable pub validate_redirect_uri : String → Result OauthError Url
  validate_redirect_uri raw = checked_url invalid_request (v.parse_url (trim_space raw))

  -- `validateClientMetadataURL`.
  unfoldable pub validate_client_metadata_url : String → Result OauthError Url
  validate_client_metadata_url raw = checked_url invalid_client (v.parse_url (trim_space raw))

  abbrev fallback_host : Result OauthError Url → Bool
  fallback_host (err e) = false
  fallback_host (ok u) =
      let host = to_lower u.hostname in
      if host == "chatgpt.com" || host == "chat.openai.com"
      then starts_with u.escaped_path "/connector"
      else is_loopback_host host

  -- `fallbackRedirectAllowed`.
  unfoldable pub fallback_redirect_allowed : String → Bool
  fallback_redirect_allowed raw = fallback_host (validate_redirect_uri raw)

  abbrev host_or : String → Option Url → String
  host_or client_id none = client_id
  host_or client_id (some u) = if u.hostname == "" then client_id else u.hostname

  -- `fallbackClientName`.
  unfoldable pub fallback_client_name : String → String
  fallback_client_name client_id = host_or client_id (v.parse_url client_id)

  -- `resolveFallbackClient`.
  unfoldable pub resolve_fallback_client : String → String → Result OauthError String
  resolve_fallback_client client_id redirect_uri =
      if fallback_redirect_allowed redirect_uri
      then ok (fallback_client_name client_id)
      else err invalid_client

  abbrev answered : Option (ℕ × Option ClientMetadata) → Result OauthError ClientMetadata
  answered none = err invalid_client
  answered (some (status, body)) =
      if ltb status 200 || leb 300 status then err invalid_client else or_fail invalid_client body

  -- `fetchClientMetadata`.
  unfoldable pub fetch_client_metadata : String → Result OauthError ClientMetadata
  fetch_client_metadata url = answered (v.fetch url)

  abbrev valid_client : Option OauthError → String → ClientMetadata → Result OauthError String
  valid_client (some e) client_id m = err e
  valid_client none client_id m =
      if trim_space m.client_name == ""
      then ok (fallback_client_name client_id)
      else ok (trim_space m.client_name)

  abbrev with_metadata :
      Result OauthError ClientMetadata → String → String → String → Result OauthError String
  with_metadata (err e) client_id redirect_uri scope = err e
  with_metadata (ok m) client_id redirect_uri scope =
      valid_client (validate_client_metadata m redirect_uri scope) client_id m

  abbrev with_client_url :
      Result OauthError Url → String → String → String → Result OauthError String
  with_client_url (err e) client_id redirect_uri scope =
      resolve_fallback_client client_id redirect_uri
  with_client_url (ok u) client_id redirect_uri scope =
      with_metadata (fetch_client_metadata u.text) client_id redirect_uri scope

  -- `resolveClient`.
  unfoldable pub resolve_client : String → String → String → Result OauthError String
  resolve_client client_id redirect_uri scope =
      let id = trim_space client_id in
      if id == ""
      then err invalid_client
      else with_client_url (validate_client_metadata_url id) id redirect_uri scope
