-- ===== src/ApiTokens.antt =====
-- backend/internal/services/apitokens/service.go with the row `APIToken` of
-- backend/internal/models/models.go: the tokens by which the command line and the MCP clients get in.
-- The hash (SHA-256 in hexadecimal), the random secrets and the new ids are parameters; a time that
-- is NULL in the table is 0, Go's zero time.
pub mod Issue
pub mod Revocation
mod Tests
use openpostfork.Prelude.{
  ℕ, zero, suc, ◌+◌, ◌-◌, ◌*◌, ◌/◌, ◌%◌, ◌^◌, ◌≤◌, ◌<◌, min, max, String, ◌<>◌, ◌≡◌, refl, sym, ap,
  ◌∙◌, subst, fun_ext, ◌≢◌, ◌↔◌, ◌⊎◌, inl, inr, Bool, true, false, not, ◌&&◌, ◌||◌, Option, none,
  some, List, [], ◌∷◌, ◌++◌, map, arith, ◌==◌, eq_iff, eq_refl, ltb, leb, eqb, if◌then◌else◌,
  leb→le, le→leb, leb→lt, Bool-cases, Option-cases, ==_of_ne, length, All, length-append, All-map,
  Result, ok, err, ◌>>=◌, or_fail, Result-cases,
}
use Prim.Native.String.{len, slice}
use openpostfork.Prelude.Clock.{hour}
use openpostfork.Prelude.Cut.{cut, cut_prefix, all_chars, is_hex_digit}
use openpostfork.Prelude.Table.{find_where, select_where, update_where, count_where}
use openpostfork.Prelude.Text.{trim_space}

pub record ApiToken : Type 0 where
  pub id : String
  pub user_id : String
  pub name : String
  pub token_hash : String
  pub token_prefix : String
  pub scope : String
  pub workspace_id : String
  pub audience : String
  pub expires_at : ℕ
  pub last_used_at : ℕ
  pub revoked_at : ℕ
  pub created_at : ℕ

pub record TokenUser : Type 0 where
  pub id : String
  pub email : String

pub record Tables : Type 0 where
  pub tokens : List ApiToken
  pub users : List TokenUser

pub data TokenError : Type 0 where
  invalid_token expired_token invalid_scope revoked_token no_rows : TokenError
  failure : String → TokenError

pub data TokenStatement : Type 0 where
  insert_token select_candidates load_user touch_token revoke_update : TokenStatement

pub record Services : Type 0 where
  pub hash : String → String
  pub new_id : List ApiToken → String
  pub fails : TokenStatement → Option String

-- `Principal`.
pub record TokenPrincipal : Type 0 where
  pub user_id : String
  pub email : String
  pub scope : String
  pub workspace_id : String
  pub audience : String
  pub token_id : String
  pub token_name : String
  pub token_prefix : String

pub record GenerateOptions : Type 0 where
  pub expires_at : Option ℕ
  pub workspace_id : String
  pub audience : String

abbrev pub token_text : String
token_text = "op_cli"

abbrev pub scope_cli : String
scope_cli = "cli:full"

abbrev pub scope_mcp : String
scope_mcp = "mcp:full"

abbrev pub default_expiration : ℕ
default_expiration = 90 * 24 * hour

-- `NormalizeScope`.
unfoldable pub normalize_scope : String → Result TokenError String
normalize_scope scope =
    let s = trim_space scope in
    if s == ""
    then ok scope_cli
    else if s == scope_cli || s == scope_mcp
    then ok s
    else err invalid_scope

abbrev checked_secret : String → String → Result TokenError (String × String)
checked_secret prefix secret =
    if not (eqb (len prefix) 8) || ltb (len secret) 43
    then err invalid_token
    else if all_chars is_hex_digit prefix
    then ok (prefix, secret)
    else err invalid_token

abbrev cut_secret : Option (String × String) → Result TokenError (String × String)
cut_secret none = err invalid_token
cut_secret (some (prefix, secret)) = checked_secret prefix secret

abbrev after_prefix : Option String → Result TokenError (String × String)
after_prefix none = err invalid_token
after_prefix (some rest) = cut_secret (cut b'_' rest)

-- `parseToken`. (`hex.DecodeString` of eight bytes fails only at a character that is no digit.)
unfoldable pub parse_token : String → Result TokenError (String × String)
parse_token raw = after_prefix (cut_prefix raw "op_cli_")

module _ (v : Services) where
  -- The first result of `HashToken`.
  abbrev pub prefix_of : String → String
  prefix_of secret = slice (v.hash secret) 0 8

  abbrev pub raw_token : String → String
  raw_token secret = "op_cli_" <> (prefix_of secret <> ("_" <> secret))

  abbrev pub expiry : GenerateOptions → ℕ → ℕ
  expiry o now = elim o.expires_at [ some at ↦ at | none ↦ now + default_expiration ]

  abbrev pub new_token :
      String → String → String → GenerateOptions → String → ℕ → List ApiToken → ApiToken
  new_token user_id name scope o secret now rows = record {
    id = v.new_id rows;
    user_id = user_id;
    name = if name == "" then "CLI token" else name;
    token_hash = v.hash secret;
    token_prefix = prefix_of secret;
    scope = scope;
    workspace_id = trim_space o.workspace_id;
    audience = trim_space o.audience;
    expires_at = expiry o now;
    last_used_at = 0;
    revoked_at = 0;
    created_at = now;
  }

  -- The text of the new token, with the tables after it.
  abbrev pub insert_row :
      Option String → String → ApiToken → Tables → Result TokenError String × Tables
  insert_row (some message) raw row t = (err (failure message), t)
  insert_row none raw row t = (ok raw, record t { tokens = row ∷ t.tokens })

  abbrev pub with_secret :
      String
      → String
      → String
      → GenerateOptions
      → Result String String
      → ℕ
      → Tables
      → Result TokenError String × Tables
  with_secret user_id name scope o (err message) now t = (err (failure message), t)
  with_secret user_id name scope o (ok secret) now t =
      insert_row (v.fails insert_token) (raw_token secret)
        (new_token user_id name scope o secret now t.tokens) t

  abbrev pub with_scope :
      String
      → String
      → Result TokenError String
      → GenerateOptions
      → Result String String
      → ℕ
      → Tables
      → Result TokenError String × Tables
  with_scope user_id name (err e) o secret now t = (err e, t)
  with_scope user_id name (ok scope) o secret now t = with_secret user_id name scope o secret now t

  -- `GenerateTokenWithOptions`; the random secret, or the error of its generation, is an input.
  unfoldable pub generate_token :
      String
      → String
      → String
      → GenerateOptions
      → Result String String
      → ℕ
      → Tables
      → Result TokenError String × Tables
  generate_token user_id name scope o secret now t =
      with_scope user_id name (normalize_scope scope) o secret now t

  -- `TouchLastUsedAt`.
  unfoldable pub touch_last_used_at : String → ℕ → Tables → Option String × Tables
  touch_last_used_at token_id now t = elim (v.fails touch_token) [
    | some message ↦ (some message, t)
    | none ↦ (
      none,
      record t {
        tokens =
            update_where (λ (r : ApiToken). r.id == token_id) (λ r. record r { last_used_at = now })
              t.tokens;
      },
    )
  ]

  abbrev pub principal : ApiToken → TokenUser → TokenPrincipal
  principal k u = record {
    user_id = u.id;
    email = u.email;
    scope = k.scope;
    workspace_id = k.workspace_id;
    audience = k.audience;
    token_id = k.id;
    token_name = k.name;
    token_prefix = k.token_prefix;
  }

  abbrev pub after_touch :
      ApiToken → TokenUser → Option String × Tables → Result TokenError TokenPrincipal × Tables
  after_touch k u (some message, t) = (err (failure message), t)
  after_touch k u (none, t) = (ok (principal k u), t)

  abbrev pub with_user :
      ApiToken → ℕ → Option TokenUser → Tables → Result TokenError TokenPrincipal × Tables
  with_user k now none t = (err invalid_token, t)
  with_user k now (some u) t = after_touch k u (touch_last_used_at k.id now t)

  -- The query of the user; any failure is an invalid token.
  abbrev pub user_of : Option String → ApiToken → Tables → Option TokenUser
  user_of (some message) k t = none
  user_of none k t = find_where (λ (u : TokenUser). u.id == k.user_id) t.users

  -- `validateMatchedToken`.
  unfoldable pub validate_matched_token :
      ApiToken → ℕ → Tables → Result TokenError TokenPrincipal × Tables
  validate_matched_token k now t =
      if not (eqb k.revoked_at 0)
      then (err revoked_token, t)
      else if not (eqb k.expires_at 0) && leb k.expires_at now
      then (err expired_token, t)
      else with_user k now (user_of (v.fails load_user) k t) t

  -- The loop over the candidates.
  abbrev pub has_hash : String → ApiToken → Bool
  has_hash hash k = k.token_hash == hash

  abbrev pub matched : Option ApiToken → ℕ → Tables → Result TokenError TokenPrincipal × Tables
  matched none now t = (err invalid_token, t)
  matched (some k) now t = validate_matched_token k now t

  abbrev pub among_candidates :
      Option String → String → String → ℕ → Tables → Result TokenError TokenPrincipal × Tables
  among_candidates (some message) prefix secret now t = (err invalid_token, t)
  among_candidates none prefix secret now t =
      matched
        (find_where (has_hash (v.hash secret))
          (select_where (λ (k : ApiToken). k.token_prefix == prefix) t.tokens))
        now t

  abbrev pub with_parsed :
      Result TokenError (String × String) → ℕ → Tables → Result TokenError TokenPrincipal × Tables
  with_parsed (err e) now t = (err e, t)
  with_parsed (ok (prefix, secret)) now t =
      among_candidates (v.fails select_candidates) prefix secret now t

  -- `ValidateToken`.
  unfoldable pub validate_token : String → ℕ → Tables → Result TokenError TokenPrincipal × Tables
  validate_token raw now t = with_parsed (parse_token raw) now t

  -- `id = ? AND user_id = ? AND revoked_at IS NULL`.
  abbrev pub is_live : String → String → ApiToken → Bool
  is_live user_id token_id k = k.id == token_id && k.user_id == user_id && eqb k.revoked_at 0

  -- `RevokeToken`.
  unfoldable pub revoke_token : String → String → ℕ → Tables → Option TokenError × Tables
  revoke_token user_id token_id now t = elim (v.fails revoke_update) [
    | some message ↦ (some (failure message), t)
    | none ↦ (
      if eqb (count_where (is_live user_id token_id) t.tokens) 0 then some no_rows else none,
      record t {
        tokens =
            update_where (is_live user_id token_id) (λ r. record r { revoked_at = now }) t.tokens;
      },
    )
  ]

-- Where a token stands in the order of `ORDER BY created_at DESC`.
unfoldable pub place_token : ApiToken → List ApiToken → List ApiToken
place_token k [] = k ∷ []
place_token k (x ∷ xs) =
    let rest = place_token k xs in if leb x.created_at k.created_at then k ∷ x ∷ xs else x ∷ rest

unfoldable pub newest_first : List ApiToken → List ApiToken
unfolding place_token
newest_first [] = []
newest_first (x ∷ xs) = place_token x (newest_first xs)

-- `ListTokens`.
unfoldable pub list_tokens : Option String → String → Tables → Result String (List ApiToken)
list_tokens (some message) user_id t = err message
list_tokens none user_id t =
    ok (newest_first (select_where (λ (k : ApiToken). k.user_id == user_id) t.tokens))
