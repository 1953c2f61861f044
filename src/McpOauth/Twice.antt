-- ===== src/McpOauth/Twice.antt =====
-- A code at two exchanges, one after the other.
use openpostfork.Prelude.{
  ℕ, String, ◌≡◌, refl, sym, ap, ◌∙◌, subst, inl, inr, true, false, not, ◌||◌, some, List, [], ◌∷◌,
  ◌==◌, eqb, leb, Bool-cases, Option-cases, Result-cases, Result, ok, err, ◌⊎◌,
}
use openpostfork.Prelude.Table.{find_where, update_where, count_where}
use openpostfork.Prelude.Text.{trim_space}
use openpostfork.ApiTokens.{TokenError, Tables}
use openpostfork.McpOauth.{
  OauthError, TokenRequest, TokenResult, Url, OauthCode, update_code, OauthServices,
}
use openpostfork.McpOauth.Checks.{
  validate_exchange_resource, validate_code_verifier, validate_redirect_uri,
}
use openpostfork.McpOauth.Exchange.{
  has_code_hash, is_used, is_open, set_consumed, load_code, checked_code, valid_exchange_code,
  with_redirect, check_request, consume_code, after_consume, after_check, exchange_code,
}
use openpostfork.McpOauth.Granted.{loaded, tests_passed}
use openpostfork.McpOauth.Interleaving.{consumed_closed}

-- A code that is found after a consumption is the one that was found before it, by its id.
found_before :
    (hash id : String) (now : ℕ) (rows : List OauthCode) (c : OauthCode)
    → find_where (has_code_hash hash) (update_where (is_open id) (set_consumed now) rows) ≡ some c
    → (d : OauthCode) × (find_where (has_code_hash hash) rows ≡ some d) × (c.id ≡ d.id)
found_before hash id now [] c h = cc
found_before hash id now (r ∷ rows) c h = elim (Bool-cases (is_open id r)) [
  | inl e ↦ elim (Bool-cases (r.code_hash == hash)) [
    | inl q ↦
        let g : some (set_consumed now r) ≡ some c = (rw (e, q) at h) in
        let same : set_consumed now r ≡ c = cc in (r, rw q refl, sym (ap (λ x. x.id) same))
    | inr q ↦
        let (d, found, same) = found_before hash id now rows c (rw (e, q) at h) in
        (d, rw q found, same)
  ]
  | inr e ↦ elim (Bool-cases (r.code_hash == hash)) [
    | inl q ↦
        let g : some r ≡ some c = (rw (e, q) at h) in
        let same : r ≡ c = cc in (r, rw q refl, sym (ap (λ x. x.id) same))
    | inr q ↦
        let (d, found, same) = found_before hash id now rows c (rw (e, q) at h) in
        (d, rw q found, same)
  ]
]

module _ (v : OauthServices) where
  checked_loaded :
      (input : TokenRequest) (redirect_uri : String) (now : ℕ) (l : Result OauthError OauthCode)
      (c : OauthCode)
      → checked_code v input redirect_uri now l ≡ ok c
      → l ≡ ok c
  checked_loaded input redirect_uri now (err e) c h = absurd (let g : err e ≡ ok c = h in cc)
  checked_loaded input redirect_uri now (ok d) c h =
      elim (Bool-cases (leb d.expires_at now || is_used d.consumed_at)) [
        | inl e ↦ cc (rw e at h)
        | inr e ↦
            elim (Bool-cases (
              not (d.client_id == trim_space input.client_id)
              || not (d.redirect_uri == redirect_uri))) [
                | inl k ↦ cc (rw (e, k) at h)
                | inr k ↦
                    ap ok
                      (tests_passed v (validate_exchange_resource input d.resource)
                        (validate_code_verifier v d.code_challenge input.code_verifier) d c
                        (rw (e, k) at h)).1
              ]
      ]

  redirect_found :
      (input : TokenRequest) (u : Result OauthError Url) (now : ℕ) (rows : List OauthCode)
      (c : OauthCode)
      → with_redirect v input u now rows ≡ ok c
      → find_where (has_code_hash (v.hash (trim_space input.code))) rows ≡ some c
  unfolding valid_exchange_code
  redirect_found input (err e) now rows c h = cc
  redirect_found input (ok u) now rows c h =
      loaded v input.code rows c (checked_loaded input u.text now (load_code v input.code rows) c h)

  -- A request that passes the tests has found the code of its hash.
  request_found :
      (input : TokenRequest) (now : ℕ) (rows : List OauthCode) (c : OauthCode)
      → check_request v input now rows ≡ ok c
      → find_where (has_code_hash (v.hash (trim_space input.code))) rows ≡ some c
  unfolding check_request
  request_found input now rows c h =
      elim (Bool-cases (trim_space input.grant_type == "authorization_code")) [
        | inr e ↦ cc (rw (e, check_request) at h)
        | inl e ↦ elim (Bool-cases (trim_space input.code_verifier == "")) [
          | inl k ↦ cc (rw (e, k, check_request) at h)
          | inr k ↦
              redirect_found input (validate_redirect_uri v input.redirect_uri) now rows c
                (rw (e, k, check_request) at h)
        ]
      ]

  -- The code of the hash was there, was open, and is consumed.
  abbrev IsSpent : String → ℕ → List OauthCode → List OauthCode → OauthCode → Type 0
  IsSpent raw now rows rows' c =
      (find_where (has_code_hash (v.hash (trim_space raw))) rows ≡ some c)
      × (eqb (count_where (is_open c.id) rows) 0 ≡ false)
      × (rows' ≡ update_where (is_open c.id) (set_consumed now) rows)

  consumed :
      (c : OauthCode) (secret : Result String String) (now : ℕ) (rows : List OauthCode) (t : Tables)
      (answer : TokenResult)
      → (after_consume v c secret now (consume_code v c.id now rows) t).0 ≡ ok answer
      → (eqb (count_where (is_open c.id) rows) 0 ≡ false)
        × ((after_consume v c secret now (consume_code v c.id now rows) t).1
            ≡ update_where (is_open c.id) (set_consumed now) rows)
  unfolding consume_code
  consumed c secret now rows t answer h = elim (Option-cases (v.fails update_code)) [
    | inr q ↦ cc (rw (q.1, consume_code) at h)
    | inl q ↦ elim (Bool-cases (eqb (count_where (is_open c.id) rows) 0)) [
      | inl e ↦ cc (rw (q, e, consume_code) at h)
      | inr e ↦ (e, rw (q, e, consume_code) refl)
    ]
  ]

  check-IsSpent :
      (input : TokenRequest) (secret : Result String String) (checked now : ℕ)
      (rows : List OauthCode) (t : Tables) (r : Result OauthError OauthCode) (answer : TokenResult)
      → check_request v input checked rows ≡ r
      → (after_check v r secret now rows t).0 ≡ ok answer
      → (c : OauthCode) × IsSpent input.code now rows (after_check v r secret now rows t).1 c
  check-IsSpent input secret checked now rows t (err e) answer q h = cc
  check-IsSpent input secret checked now rows t (ok c) answer q h =
      let (was_open, after) = consumed c secret now rows t answer h in
      (c, (request_found input checked rows c q, was_open, after))

  exchange-IsSpent :
      (input : TokenRequest) (secret : Result String String) (checked now : ℕ)
      (rows : List OauthCode) (t : Tables) (answer : TokenResult)
      → (exchange_code v input secret checked now rows t).0 ≡ ok answer
      → (c : OauthCode) × IsSpent input.code now rows
          (exchange_code v input secret checked now rows t).1
          c
  unfolding exchange_code
  exchange-IsSpent input secret checked now rows t answer h =
      check-IsSpent input secret checked now rows t (check_request v input checked rows) answer refl
        h

  -- A code that was consumed is not found open.
  not_again :
      (raw again : String) (now later : ℕ) (rows rows' after : List OauthCode) (c d : OauthCode)
      → trim_space again ≡ trim_space raw
      → IsSpent raw now rows rows' c
      → IsSpent again later rows' after d
      → ⊥
  not_again raw again now later rows rows' after c d same (found, _, consumed)
        (found', was_open, _) =
      let hash = v.hash (trim_space again) in
      let (x, before, id) =
        found_before hash c.id now rows d
          (subst (λ l. find_where (has_code_hash hash) l ≡ some d) consumed found') in
      let code : some x ≡ some c =
        sym before ∙ ap (λ s. find_where (has_code_hash (v.hash s)) rows) same ∙ found in
      let same_code : x ≡ c = cc in
      let shut : count_where (is_open d.id) rows' ≡ 0 =
        ap (count_where (is_open d.id)) consumed
        ∙ ap (λ i. count_where (is_open i) (update_where (is_open c.id) (set_consumed now) rows))
            (id ∙ ap (λ y. y.id) same_code)
        ∙ consumed_closed c.id now rows in
      let zero : eqb (count_where (is_open d.id) rows') 0 ≡ true = ap (λ n. eqb n 0) shut in cc

  -- After an exchange that hands out a token, an exchange of the same code, on the codes that the
  -- first one left, ends with an error, whatever else it carries and at any time.
  pub exchange_code-exchange_code :
      (input input' : TokenRequest) (secret secret' : Result String String)
      (checked now checked' now' : ℕ) (rows : List OauthCode) (t t' : Tables) (answer : TokenResult)
      → trim_space input'.code ≡ trim_space input.code
      → (exchange_code v input secret checked now rows t).0 ≡ ok answer
      → (e : OauthError ⊎ TokenError) × ((exchange_code v input' secret' checked' now'
            (exchange_code v input secret checked now rows t).1
            t').0
          ≡ err e)
  exchange_code-exchange_code input input' secret secret' checked now checked' now' rows t t' answer
        same h =
      let rows' = (exchange_code v input secret checked now rows t).1 in
      let r = exchange_code v input' secret' checked' now' rows' t' in
      elim (Result-cases r.0) [
        | inl e ↦ e
        | inr q ↦
            let (c, first) = exchange-IsSpent input secret checked now rows t answer h in
            let (d, second) = exchange-IsSpent input' secret' checked' now' rows' t' q.0 q.1 in
            absurd (not_again input.code input'.code now now' rows rows' r.1 c d same first second)
      ]
