-- ===== src/ApiTokens/Tests.antt =====
-- The theorems of the tokens at concrete tables.
use openpostfork.Prelude.{String, ◌<>◌, ◌≡◌, refl, none, some, [], ◌∷◌, arith, ok}
use text.Mathlib.TextPositions.{slice-append_left}
use openpostfork.Prelude.Text.{trim_space}
use openpostfork.Prelude.Cut.{all_chars, cut, cut_prefix}
use openpostfork.ApiTokens.{
  ApiToken, TokenUser, Tables, Services, GenerateOptions, generate_token, validate_token,
  revoke_token, normalize_scope, parse_token, validate_matched_token, touch_last_used_at, principal,
}
use openpostfork.ApiTokens.Issue.{HashesAreHex, Admits, generate-validate}
use openpostfork.ApiTokens.Revocation.{revoke-validate}

-- Eight digits, then the secret.
abbrev services : Services
services = record { hash = λ s. "0123abcd" <> s; new_id = λ rows. "t1"; fails = λ st. none }

abbrev secret : String
secret = "AAAAAAAAAAAAAAAAAAAAAAAAAAAAAAAAAAAAAAAAAA_"

abbrev owner : TokenUser
owner = record { id = "u1"; email = "u1@example.org" }

abbrev tables : Tables
tables = record { tokens = []; users = owner ∷ [] }

abbrev options : GenerateOptions
options = record { expires_at = some 900; workspace_id = "w1"; audience = "" }

hashes_hex : HashesAreHex services
unfolding all_chars
hashes_hex s = rw (slice-append_left "0123abcd" s) (refl, refl)

generate-validate_example :
    Admits "" options owner
      (validate_token services
        ("op_cli_0123abcd_" <> secret)
        800
        (generate_token services "u1" "laptop" "" options (ok secret) 100 tables).1).0
unfolding generate_token normalize_scope trim_space
generate-validate_example =
    generate-validate services hashes_hex (λ st. refl) "u1" "laptop" "" secret
      ("op_cli_0123abcd_" <> secret) options 100 800 tables owner (omega arith) refl refl
      (omega arith)

abbrev token : ApiToken
token = record {
  id = "t1";
  user_id = "u1";
  name = "laptop";
  token_hash = "0123abcd" <> secret;
  token_prefix = "0123abcd";
  scope = "cli:full";
  workspace_id = "";
  audience = "";
  expires_at = 900;
  last_used_at = 0;
  revoked_at = 0;
  created_at = 100;
}

-- A second token of the same user.
abbrev two_tokens : Tables
two_tokens = record {
  tokens = token ∷ record token { id = "t2"; token_hash = "other" } ∷ [];
  users = owner ∷ [];
}

revoke-validate_example : ¬ (
    ((principal services token owner).token_id ≡ "t2")
    × ((principal services token owner).user_id ≡ "u1"))
unfolding revoke_token validate_token parse_token cut_prefix cut all_chars validate_matched_token
    touch_last_used_at
revoke-validate_example =
    revoke-validate services "u1" "t2" ("op_cli_0123abcd_" <> secret) 500 800 two_tokens
      (principal services token owner) (omega arith) refl refl
