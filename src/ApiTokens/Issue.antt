-- ===== src/ApiTokens/Issue.antt =====
-- A token that is issued is one that gets its owner in.
use openpostfork.Prelude.{
  ℕ, ◌≤◌, ◌<◌, String, ◌<>◌, ◌≡◌, refl, ◌∙◌, subst, inl, inr, true, false, not, ◌&&◌, none, some,
  ◌∷◌, arith, ◌==◌, eq_iff, leb, eqb, Result, ok, Result-cases,
}
use Prim.Native.String.{len}
use Prim.Native.Char.{Char}
use text.Mathlib.TextLemmas.{nil-append, cons-append}
use openpostfork.Prelude.Cut.{
  cut, cut_prefix-append, cut-append, all_chars, all_chars-has_char, is_hex_digit,
}
use openpostfork.Prelude.Table.{find_where}
use openpostfork.Prelude.Text.{trim_space}
use openpostfork.ApiTokens.{
  ApiToken, TokenUser, Tables, TokenError, TokenStatement, insert_token, touch_token, load_user,
  select_candidates, Services, TokenPrincipal, GenerateOptions, parse_token, normalize_scope,
  prefix_of, raw_token, new_token, expiry, generate_token, touch_last_used_at, principal,
  validate_matched_token, validate_token,
}

underscore : Char
underscore = "_"

-- The first eight bytes of a hash are hexadecimal digits.
abbrev pub HashesAreHex : Services → Type 0
HashesAreHex v =
    (s : String) → (len (prefix_of v s) ≡ 8) × (all_chars is_hex_digit (prefix_of v s) ≡ true)

cut-raw :
    (prefix secret : String)
    → all_chars is_hex_digit prefix ≡ true
    → cut b'_' (prefix <> ("_" <> secret)) ≡ some (prefix, secret)
unfolding underscore
cut-raw prefix secret h =
    rw (cons-append underscore "" secret, nil-append secret)
      (cut-append b'_' underscore prefix secret refl
        (all_chars-has_char is_hex_digit b'_' prefix refl h))

-- The parts of a token with a prefix of eight hexadecimal digits and a secret of at least 43 bytes.
pub parse_token-raw :
    (prefix secret : String)
    → len prefix ≡ 8
    → all_chars is_hex_digit prefix ≡ true
    → 43 ≤ len secret
    → parse_token ("op_cli_" <> (prefix <> ("_" <> secret))) ≡ ok (prefix, secret)
unfolding parse_token
parse_token-raw prefix secret eight hex long =
    rw (cut_prefix-append "op_cli_" (prefix <> ("_" <> secret)), cut-raw prefix secret hex)
      (ground (arith, eight, hex, long))

-- What the text of a new token is answered.
abbrev pub Admits : String → GenerateOptions → TokenUser → Result TokenError TokenPrincipal → Type 0
Admits scope o u answer =
    (p : TokenPrincipal) × (answer ≡ ok p)
    × (p.user_id ≡ u.id)
    × (normalize_scope scope ≡ ok p.scope)
    × (p.workspace_id ≡ trim_space o.workspace_id)
    × (p.audience ≡ trim_space o.audience)

module _ (v : Services) (hex : HashesAreHex v)
    (quiet : (st : TokenStatement) → v.fails st ≡ none) where
  live_token :
      (k : ApiToken) (u : TokenUser) (later : ℕ) (t : Tables)
      → k.revoked_at ≡ 0
      → later < k.expires_at
      → find_where (λ (w : TokenUser). w.id == k.user_id) t.users ≡ some u
      → (validate_matched_token v k later t).0 ≡ ok (principal v k u)
  unfolding validate_matched_token touch_last_used_at
  live_token k u later t live lt found =
      let young : leb k.expires_at later ≡ false = ground arith in
      let revoked : eqb k.revoked_at 0 ≡ true = ground arith in
      let old : (not (eqb k.expires_at 0) && leb k.expires_at later) ≡ false = ground arith in
      simp (revoked, old, quiet load_user, found) (rw (quiet touch_token, touch_last_used_at) refl)

  found_first :
      (k : ApiToken) (prefix secret : String) (later : ℕ) (t : Tables)
      → parse_token (raw_token v secret) ≡ ok (prefix, secret)
      → k.token_prefix ≡ prefix
      → k.token_hash ≡ v.hash secret
      → (validate_token v (raw_token v secret) later (record t { tokens = k ∷ t.tokens })).0
        ≡ (validate_matched_token v k later (record t { tokens = k ∷ t.tokens })).0
  unfolding validate_token
  found_first k prefix secret later t parsed e f =
      let p : (k.token_prefix == prefix) ≡ true = (eq_iff k.token_prefix prefix).1 e in
      let h : (k.token_hash == v.hash secret) ≡ true = (eq_iff k.token_hash (v.hash secret)).1 f in
      simp (parsed, quiet select_candidates, p, h)

  -- A token that was generated is accepted until it expires: for its user, its scope, its workspace
  -- and its audience. (The user has a row, the secret has at least 43 bytes, a hash begins with
  -- eight hexadecimal digits, and no statement fails.)
  pub generate-validate :
      (user_id name scope secret raw : String) (o : GenerateOptions) (now later : ℕ) (t : Tables)
      (u : TokenUser)
      → 43 ≤ len secret
      → find_where (λ (w : TokenUser). w.id == user_id) t.users ≡ some u
      → (generate_token v user_id name scope o (ok secret) now t).0 ≡ ok raw
      → later < expiry v o now
      → Admits scope o u
          (validate_token v raw later (generate_token v user_id name scope o (ok secret) now t).1).0
  unfolding generate_token
  generate-validate user_id name scope secret raw o now later t u long found done young =
      elim (Result-cases (normalize_scope scope)) [
        | inl q ↦ cc (rw (q.1, generate_token) at done)
        | inr q ↦
            let k = new_token v user_id name q.0 o secret now t.tokens in
            let same : raw_token v secret ≡ raw =
              cc (rw (q.1, quiet insert_token, generate_token) at done) in
            let parsed =
              parse_token-raw (prefix_of v secret) secret (hex secret).0 (hex secret).1 long in
            let answer =
              found_first k (prefix_of v secret) secret later t parsed refl refl
              ∙ live_token k u later (record t { tokens = k ∷ t.tokens }) refl young found in
            rw (q.1, quiet insert_token, generate_token)
              (
                principal v k u,
                subst
                    (λ r.
                      (validate_token v r later (record t { tokens = k ∷ t.tokens })).0
                      ≡ ok (principal v k u))
                    same answer,
                refl,
                refl,
                refl,
                refl,
              )
      ]
