-- ===== src/McpOauth/Granted.antt =====
-- What an exchange that hands out a token was given.
use openpostfork.Prelude.{
  ℕ, ◌<◌, String, ◌≡◌, refl, ap, ◌∙◌, subst, inl, inr, false, not, ◌||◌, Option, none, some, List,
  ◌∷◌, arith, ◌==◌, eq_iff, leb, Bool-cases, Option-cases, Result, ok, err,
}
use openpostfork.Prelude.Table.{In, find_where, find_where_sound, find_where-In}
use openpostfork.Prelude.Text.{trim_space}
use openpostfork.ApiTokens.{ApiToken, TokenError, insert_token, Tables}
use openpostfork.ApiTokens.{generate_token, with_scope, new_token, normalize_scope as token_scope}
use openpostfork.McpOauth.{
  OauthError, TokenRequest, TokenResult, Url, OauthCode, select_code, OauthServices,
}
use openpostfork.McpOauth.Checks.{
  valid_code_param, validate_exchange_resource, validate_code_verifier, validate_redirect_uri,
}
use openpostfork.McpOauth.Exchange.{
  has_code_hash, is_used, or_error, load_code, checked_code, valid_exchange_code, with_redirect,
  check_request, consume_code, token_options, token_name, token_answer, issue_token, after_consume,
  after_check, exchange_code,
}

module _ (v : OauthServices) where
  -- The request knows the code and its verifier, and comes in time, from the client of the code and
  -- with its redirect.
  abbrev pub IsEntitled : TokenRequest → ℕ → List OauthCode → OauthCode → Type 0
  IsEntitled input now rows c =
      In c rows
      × (c.code_hash ≡ v.hash (trim_space input.code))
      × (now < c.expires_at)
      × (is_used c.consumed_at ≡ false)
      × (c.client_id ≡ trim_space input.client_id)
      × (v.challenge_of input.code_verifier ≡ c.code_challenge)

  verifier_matches :
      (challenge verifier : String)
      → validate_code_verifier v challenge verifier ≡ none
      → v.challenge_of verifier ≡ challenge
  unfolding validate_code_verifier
  verifier_matches challenge verifier h = elim (Bool-cases (valid_code_param verifier)) [
    | inr e ↦ cc (rw (e, validate_code_verifier) at h)
    | inl e ↦ elim (Bool-cases (v.challenge_of verifier == challenge)) [
      | inr q ↦ cc (rw (e, q, validate_code_verifier) at h)
      | inl q ↦ (eq_iff (v.challenge_of verifier) challenge).0 q
    ]
  ]

  pub loaded :
      (raw : String) (rows : List OauthCode) (c : OauthCode)
      → load_code v raw rows ≡ ok c
      → find_where (has_code_hash (v.hash (trim_space raw))) rows ≡ some c
  unfolding load_code
  loaded raw rows c h = elim (Option-cases (v.fails select_code)) [
    | inr e ↦ cc (rw (e.1, load_code) at h)
    | inl e ↦ elim (Option-cases (find_where (has_code_hash (v.hash (trim_space raw))) rows)) [
      | inl q ↦ cc (rw (e, q, load_code) at h)
      | inr q ↦
          let g : ok q.0 ≡ ok c = (rw (e, q.1, load_code) at h) in
          let same : q.0 ≡ c = cc in q.1 ∙ ap some same
    ]
  ]

  pub tests_passed :
      (a b : Option OauthError) (c d : OauthCode)
      → or_error v a (or_error v b (ok c)) ≡ ok d
      → (b ≡ none) × (c ≡ d)
  tests_passed (some e) b c d h = let g : err e ≡ ok d = h in absurd (cc)
  tests_passed none (some e) c d h = let g : err e ≡ ok d = h in absurd (cc)
  tests_passed none none c d h = (refl, cc)

  checked-IsEntitled :
      (input : TokenRequest) (redirect_uri : String) (now : ℕ) (rows : List OauthCode)
      (l : Result OauthError OauthCode) (c : OauthCode)
      → load_code v input.code rows ≡ l
      → checked_code v input redirect_uri now l ≡ ok c
      → IsEntitled input now rows c
  checked-IsEntitled input redirect_uri now rows (err e) c q h =
      let g : err e ≡ ok c = h in absurd (cc)
  checked-IsEntitled input redirect_uri now rows (ok d) c q h =
      elim (Bool-cases (leb d.expires_at now || is_used d.consumed_at)) [
        | inl e ↦ cc (rw e at h)
        | inr e ↦
            elim (Bool-cases (
              not (d.client_id == trim_space input.client_id)
              || not (d.redirect_uri == redirect_uri))) [
                | inl k ↦ cc (rw (e, k) at h)
                | inr k ↦
                    let passed =
                      tests_passed (validate_exchange_resource input d.resource)
                        (validate_code_verifier v d.code_challenge input.code_verifier) d c
                        (rw (e, k) at h) in
                    let found = loaded input.code rows d q in
                    subst (IsEntitled input now rows) passed.1 (
                      find_where-In (has_code_hash (v.hash (trim_space input.code))) rows {r = d}
                          found,
                      (eq_iff d.code_hash (v.hash (trim_space input.code))).0 (
                          find_where_sound (has_code_hash (v.hash (trim_space input.code))) rows
                            {r = d} found),
                      ground (arith, e),
                      ground (arith, e),
                      (eq_iff d.client_id (trim_space input.client_id)).0 (ground (arith, k)),
                      verifier_matches d.code_challenge input.code_verifier passed.0,
                    )
              ]
      ]

  redirect-IsEntitled :
      (input : TokenRequest) (u : Result OauthError Url) (now : ℕ) (rows : List OauthCode)
      (c : OauthCode)
      → with_redirect v input u now rows ≡ ok c
      → IsEntitled input now rows c
  unfolding valid_exchange_code
  redirect-IsEntitled input (err e) now rows c h = cc
  redirect-IsEntitled input (ok u) now rows c h =
      checked-IsEntitled input u.text now rows (load_code v input.code rows) c refl h

  request-IsEntitled :
      (input : TokenRequest) (now : ℕ) (rows : List OauthCode) (c : OauthCode)
      → check_request v input now rows ≡ ok c
      → IsEntitled input now rows c
  unfolding check_request
  request-IsEntitled input now rows c h =
      elim (Bool-cases (trim_space input.grant_type == "authorization_code")) [
        | inr e ↦ cc (rw (e, check_request) at h)
        | inl e ↦ elim (Bool-cases (trim_space input.code_verifier == "")) [
          | inl k ↦ cc (rw (e, k, check_request) at h)
          | inr k ↦
              redirect-IsEntitled input (validate_redirect_uri v input.redirect_uri) now rows c
                (rw (e, k, check_request) at h)
        ]
      ]

  -- One new token, for the user of the code, within its workspace and for its resource.
  abbrev pub HasNewToken : OauthCode → Tables → Tables → Type 0
  HasNewToken c t t' =
      (row : ApiToken) × (t'.tokens ≡ row ∷ t.tokens)
      × (row.user_id ≡ c.user_id)
      × (row.workspace_id ≡ trim_space c.workspace_id)
      × (row.audience ≡ trim_space c.resource)

  token_made :
      (c : OauthCode) (scope : Result TokenError String) (secret : Result String String) (now : ℕ)
      (t : Tables) (o : Option String) (answer : TokenResult)
      → v.tokens.fails insert_token ≡ o
      → (token_answer v c secret (
          with_scope v.tokens c.user_id
            (token_name c)
            scope
            (token_options v c now)
            secret
            now
            t)).0
        ≡ ok answer
      → HasNewToken c t
          (token_answer v c secret (
            with_scope v.tokens c.user_id
              (token_name c)
              scope
              (token_options v c now)
              secret
              now
              t)).1
  token_made c (err e) secret now t o answer q h = cc
  token_made c (ok scope) (err message) now t o answer q h = cc
  token_made c (ok scope) (ok s) now t (some message) answer q h = cc (h, q)
  token_made c (ok scope) (ok s) now t none answer q h = rw q (
    new_token v.tokens c.user_id (token_name c) scope (token_options v c now) s now t.tokens,
    refl,
    refl,
    refl,
    refl,
  )

  after_consume_made :
      (c : OauthCode) (secret : Result String String) (now : ℕ)
      (r : Option OauthError × List OauthCode) (t : Tables) (answer : TokenResult)
      → (after_consume v c secret now r t).0 ≡ ok answer
      → HasNewToken c t (after_consume v c secret now r t).2
  unfolding issue_token generate_token
  after_consume_made c secret now (some e, rows) t answer h = cc
  after_consume_made c secret now (none, rows) t answer h =
      token_made c (token_scope c.scope) secret now t (v.tokens.fails insert_token) answer refl h

  of_check :
      (input : TokenRequest) (secret : Result String String) (checked now : ℕ)
      (rows : List OauthCode) (t : Tables) (r : Result OauthError OauthCode) (answer : TokenResult)
      → check_request v input checked rows ≡ r
      → (after_check v r secret now rows t).0 ≡ ok answer
      → (c : OauthCode) × IsEntitled input checked rows c
        × HasNewToken c t (after_check v r secret now rows t).2
  of_check input secret checked now rows t (err e) answer q h = cc
  of_check input secret checked now rows t (ok c) answer q h = (
    c,
    request-IsEntitled input checked rows c q,
    after_consume_made c secret now (consume_code v c.id now rows) t answer h,
  )

  -- An exchange that hands out a token was given a code of the table that is not consumed nor
  -- expired, by the client of the code, with a verifier whose hash is the challenge of the code; and
  -- it leaves one new token, for the user of the code, within its workspace and for its resource.
  pub exchange_code-IsEntitled :
      (input : TokenRequest) (secret : Result String String) (checked now : ℕ)
      (rows : List OauthCode) (t : Tables) (answer : TokenResult)
      → (exchange_code v input secret checked now rows t).0 ≡ ok answer
      → (c : OauthCode) × IsEntitled input checked rows c
        × HasNewToken c t (exchange_code v input secret checked now rows t).2
  unfolding exchange_code
  exchange_code-IsEntitled input secret checked now rows t answer h =
      of_check input secret checked now rows t (check_request v input checked rows) answer refl h
