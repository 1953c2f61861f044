-- ===== src/McpOauth/Tests.antt =====
-- Exchanges at concrete codes.
use openpostfork.ApiTokens.{normalize_scope}
use openpostfork.ApiTokens.{generate_token}
use openpostfork.Prelude.Cut.{all_chars}
use openpostfork.McpOauth.Checks.{valid_code_param}
use openpostfork.McpOauth.Checks.{validate_code_verifier}
use openpostfork.McpOauth.Checks.{validate_exchange_resource}
use openpostfork.McpOauth.Checks.{oauth_url_scheme_allowed}
use openpostfork.McpOauth.Checks.{validate_redirect_uri}
use openpostfork.Prelude.Text.{trim_space}
use openpostfork.McpOauth.Exchange.{issue_token}
use openpostfork.McpOauth.Exchange.{consume_code}
use openpostfork.McpOauth.Exchange.{load_code}
use openpostfork.McpOauth.Exchange.{valid_exchange_code}
use openpostfork.McpOauth.Exchange.{check_request}
use openpostfork.Prelude.{
  ◌≤◌, String, ◌<>◌, ◌≡◌, refl, false, none, some, List, [], ◌∷◌, ok, err, ◌⊎◌,
}
use openpostfork.ApiTokens.{Services, Tables, TokenError}
use openpostfork.McpOauth.{OauthError, TokenRequest, TokenResult, Url, OauthCode, OauthServices}
use openpostfork.McpOauth.Exchange.{exchange_code}
use openpostfork.McpOauth.Granted.{IsEntitled, HasNewToken, exchange_code-IsEntitled}
use openpostfork.McpOauth.Interleaving.{
  checked, World, advance, moved, start, later, move, holders, Reach-holders,
}
use openpostfork.McpOauth.Twice.{exchange_code-exchange_code}

abbrev secret_text : String
secret_text = "aaaaaaaaaaaaaaaaaaaaaaaaaaaaaaaaaaaaaaaaaaaaaaaa"

abbrev redirect_url : Url
redirect_url = record {
  scheme = "https";
  host = "chatgpt.com";
  hostname = "chatgpt.com";
  fragment = "";
  has_user = false;
  escaped_path = "/connector";
  text = "https://chatgpt.com/connector";
}

abbrev toy_tokens : Services
toy_tokens = record { hash = λ s. s; new_id = λ rows. "token1"; fails = λ s. none }

-- Texts are their own hashes.
abbrev toy : OauthServices
toy = record {
  parse_url = λ s. some redirect_url;
  is_loopback_ip = λ s. false;
  fetch = λ url. none;
  redirect = λ url params. url;
  origin = λ url. some url;
  hash = λ s. s;
  challenge_of = λ s. s;
  new_id = λ rows. "code1";
  fails = λ s. none;
  tokens = toy_tokens;
}

abbrev code_one : OauthCode
code_one = record {
  id = "code1";
  code_hash = "code";
  user_id = "user1";
  client_id = "client";
  client_name = "";
  redirect_uri = "https://chatgpt.com/connector";
  scope = "mcp:full";
  workspace_id = "w1";
  resource = "";
  code_challenge = secret_text;
  code_challenge_method = "S256";
  expires_at = 10;
  consumed_at = none;
  created_at = 1;
}

abbrev request : TokenRequest
request = record {
  grant_type = "authorization_code";
  code = "code";
  redirect_uri = "https://chatgpt.com/connector";
  client_id = "client";
  code_verifier = secret_text;
  resource = "";
  expected_resource = "";
}

abbrev codes : List OauthCode
codes = code_one ∷ []

abbrev no_tokens : Tables
no_tokens = record { tokens = []; users = [] }

abbrev token : TokenResult
token = record {
  access_token = "op_cli_aaaaaaaa_" <> secret_text;
  token_prefix = "aaaaaaaa";
  scope = "mcp:full";
  expires_in = 7_776_000;
  resource = "";
}

exchange_code_granted :
    (exchange_code toy request (ok secret_text) 2 3 codes no_tokens).0 ≡ ok token
unfolding exchange_code check_request trim_space validate_redirect_uri oauth_url_scheme_allowed
    valid_exchange_code load_code validate_exchange_resource validate_code_verifier valid_code_param
    all_chars consume_code issue_token generate_token normalize_scope
exchange_code_granted = refl

exchange_code-IsEntitled_example :
    (c : OauthCode) × IsEntitled toy request 2 codes c
    × HasNewToken toy c no_tokens (exchange_code toy request (ok secret_text) 2 3 codes no_tokens).2
exchange_code-IsEntitled_example =
    exchange_code-IsEntitled toy request (ok secret_text) 2 3 codes no_tokens token
      exchange_code_granted

exchange_code-exchange_code_example :
    (e : OauthError ⊎ TokenError) × ((exchange_code toy request
        (ok "other")
        4
        5
        (exchange_code toy request (ok secret_text) 2 3 codes no_tokens).1
        no_tokens).0
      ≡ err e)
exchange_code-exchange_code_example =
    exchange_code-exchange_code toy request request (ok secret_text) (ok "other") 2 3 4 5 codes
      no_tokens no_tokens token refl exchange_code_granted

-- Two requests that have both seen the code open.
abbrev both_checked : World
both_checked = record {
  phases = checked code_one (ok secret_text) ∷ checked code_one (ok secret_text) ∷ [];
  codes = codes;
  tokens = no_tokens;
}

abbrev first_moved : World
first_moved =
    moved toy [] (advance toy 3 (checked code_one (ok secret_text)) codes no_tokens)
      (checked code_one (ok secret_text) ∷ [])

Reach-holders_example : holders toy "code1" first_moved ≤ 1
Reach-holders_example =
    Reach-holders toy "code1" {w = both_checked} {w' = first_moved} (tt, (tt, tt))
      (later start (
        move [] (checked code_one (ok secret_text) ∷ []) (checked code_one (ok secret_text)) 3
          refl))
