-- ===== src/McpOauth/Exchange.antt =====
-- backend/internal/services/mcpoauth/service.go: the exchange of a code for a token, as the three
-- steps in which it meets the database: the tests of the code, its consumption, and the new token.
use openpostfork.Prelude.{
  ℕ, ◌+◌, ◌/◌, String, ◌⊎◌, inl, inr, Bool, true, false, not, ◌&&◌, ◌||◌, Option, none, some, List,
  ◌==◌, leb, eqb, if◌then◌else◌, Result, ok, err, or_fail,
}
use openpostfork.Prelude.Clock.{second}
use openpostfork.Prelude.Table.{find_where, update_where, count_where}
use openpostfork.Prelude.Text.{trim_space}
use openpostfork.ApiTokens.{TokenError, GenerateOptions, Tables, prefix_of, generate_token}
use openpostfork.ApiTokens.{default_expiration, normalize_scope as token_scope}
use openpostfork.McpOauth.{
  OauthError, invalid_request, invalid_grant, unsupported_grant, failure, TokenRequest, TokenResult,
  Url, OauthCode, select_code, update_code, OauthServices,
}
use openpostfork.McpOauth.Checks.{
  validate_exchange_resource, validate_code_verifier, validate_redirect_uri,
}

-- `tokenName`.
unfoldable pub token_name : OauthCode → String
token_name c = let name = trim_space c.client_name in if name == "" then "OpenPost MCP" else name

abbrev pub is_used : Option ℕ → Bool
is_used none = false
is_used (some at) = not (eqb at 0)

-- `id = ? AND consumed_at IS NULL`.
abbrev pub is_null : Option ℕ → Bool
is_null none = true
is_null (some at) = false

abbrev pub is_open : String → OauthCode → Bool
is_open id c = c.id == id && is_null c.consumed_at

abbrev pub set_consumed : ℕ → OauthCode → OauthCode
set_consumed now c = record c { consumed_at = some now }

abbrev pub has_code_hash : String → OauthCode → Bool
has_code_hash hash c = c.code_hash == hash

abbrev text_of : Result String String → (String → String) → String
text_of (err message) f = ""
text_of (ok s) f = f s

abbrev scope_of : Result TokenError String → String
scope_of (err e) = ""
scope_of (ok s) = s

module _ (v : OauthServices) where
  -- `loadCode`.
  unfoldable pub load_code : String → List OauthCode → Result OauthError OauthCode
  load_code raw rows = elim (v.fails select_code) [
    | some message ↦ err (failure message)
    | none ↦ or_fail invalid_grant (find_where (has_code_hash (v.hash (trim_space raw))) rows)
  ]

  abbrev pub or_error :
      Option OauthError → Result OauthError OauthCode → Result OauthError OauthCode
  or_error (some e) r = err e
  or_error none r = r

  abbrev pub checked_code :
      TokenRequest → String → ℕ → Result OauthError OauthCode → Result OauthError OauthCode
  checked_code input redirect_uri now (err e) = err e
  checked_code input redirect_uri now (ok c) =
      if leb c.expires_at now || is_used c.consumed_at
      then err invalid_grant
      else if not (c.client_id == trim_space input.client_id)
          || not (c.redirect_uri == redirect_uri)
      then err invalid_grant
      else or_error (validate_exchange_resource input c.resource)
          (or_error (validate_code_verifier v c.code_challenge input.code_verifier) (ok c))

  -- `validExchangeCode`.
  unfoldable pub valid_exchange_code :
      TokenRequest → String → ℕ → List OauthCode → Result OauthError OauthCode
  valid_exchange_code input redirect_uri now rows =
      checked_code input redirect_uri now (load_code input.code rows)

  abbrev pub with_redirect :
      TokenRequest → Result OauthError Url → ℕ → List OauthCode → Result OauthError OauthCode
  with_redirect input (err e) now rows = err invalid_grant
  with_redirect input (ok u) now rows = valid_exchange_code input u.text now rows

  -- The first step of `ExchangeCode`.
  unfoldable pub check_request : TokenRequest → ℕ → List OauthCode → Result OauthError OauthCode
  check_request input now rows =
      if not (trim_space input.grant_type == "authorization_code")
      then err unsupported_grant
      else if trim_space input.code_verifier == ""
      then err invalid_request
      else with_redirect input (validate_redirect_uri v input.redirect_uri) now rows

  -- `consumeCode`: the update, guarded by the number of rows that it changed.
  unfoldable pub consume_code : String → ℕ → List OauthCode → Option OauthError × List OauthCode
  consume_code id now rows = elim (v.fails update_code) [
    | some message ↦ (some (failure message), rows)
    | none ↦ (
      if eqb (count_where (is_open id) rows) 0 then some invalid_grant else none,
      update_where (is_open id) (set_consumed now) rows,
    )
  ]

  abbrev pub token_options : OauthCode → ℕ → GenerateOptions
  token_options c now = record {
    expires_at = some (now + default_expiration);
    workspace_id = c.workspace_id;
    audience = c.resource;
  }

  -- The prefix and the scope of the new row are those of `GenerateTokenWithOptions`.
  abbrev pub token_answer :
      OauthCode
      → Result String String
      → Result TokenError String × Tables
      → Result (OauthError ⊎ TokenError) TokenResult × Tables
  token_answer c secret (err e, t) = (err (inr e), t)
  token_answer c secret (ok raw, t) = (
    ok (record {
      access_token = raw;
      token_prefix = text_of secret (prefix_of v.tokens);
      scope = scope_of (token_scope c.scope);
      expires_in = default_expiration / second;
      resource = c.resource;
    }),
    t,
  )

  -- The last step of `ExchangeCode`; the token is created at the time of the consumption.
  unfoldable pub issue_token :
      OauthCode
      → Result String String
      → ℕ
      → Tables
      → Result (OauthError ⊎ TokenError) TokenResult × Tables
  issue_token c secret now t =
      token_answer c secret (
        generate_token v.tokens c.user_id (token_name c) c.scope (token_options c now) secret now t)

  abbrev pub after_consume :
      OauthCode
      → Result String String
      → ℕ
      → Option OauthError × List OauthCode
      → Tables
      → Result (OauthError ⊎ TokenError) TokenResult × List OauthCode × Tables
  after_consume c secret now (some e, rows) t = (err (inl e), rows, t)
  after_consume c secret now (none, rows) t =
      let (answer, t') = issue_token c secret now t in (answer, rows, t')

  abbrev pub after_check :
      Result OauthError OauthCode
      → Result String String
      → ℕ
      → List OauthCode
      → Tables
      → Result (OauthError ⊎ TokenError) TokenResult × List OauthCode × Tables
  after_check (err e) secret now rows t = (err (inl e), rows, t)
  after_check (ok c) secret now rows t = after_consume c secret now (consume_code c.id now rows) t

  -- `ExchangeCode`, with the clock at the tests and at the consumption.
  unfoldable pub exchange_code :
      TokenRequest
      → Result String String
      → ℕ
      → ℕ
      → List OauthCode
      → Tables
      → Result (OauthError ⊎ TokenError) TokenResult × List OauthCode × Tables
  exchange_code input secret checked now rows t =
      after_check (check_request input checked rows) secret now rows t
