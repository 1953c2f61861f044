-- ===== src/ApiTokens/Revocation.antt =====
-- Whom a token lets in, and what a revocation ends.
use openpostfork.Prelude.{
  ℕ, ◌<◌, String, ◌≡◌, refl, sym, ap, ◌∙◌, ◌≢◌, inl, inr, Bool, true, false, not, ◌&&◌, Option,
  none, some, List, [], ◌∷◌, arith, ◌==◌, eq_iff, leb, eqb, Bool-cases, Option-cases, All, ok,
  Result-cases,
}
use openpostfork.Prelude.Table.{
  find_where, select_where, update_where, In, All-In, find_where-In, find_where_sound,
}
use openpostfork.ApiTokens.{
  ApiToken, TokenUser, Tables, Services, TokenPrincipal, parse_token, select_candidates, load_user,
  touch_token, revoke_update, is_live, revoke_token, touch_last_used_at, principal, with_user,
  user_of, validate_matched_token, has_hash, validate_token,
}

select-In :
    (test : ApiToken → Bool) (k : ApiToken) (ks : List ApiToken)
    → In k (select_where test ks)
    → In k ks
select-In test k [] i = elim i [ ]
select-In test k (x ∷ xs) i = elim (Bool-cases (test x)) [
  | inr e ↦ inr (select-In test k xs (rw e at i))
  | inl e ↦ elim (rw e at i) [ inl q ↦ inl q | inr j ↦ inr (select-In test k xs j) ]
]

module _ (v : Services) where
  -- The token of a row is good at a time, and its user has a row.
  abbrev pub IsGood : ApiToken → TokenUser → ℕ → Tables → Type 0
  IsGood k u now t =
      (k.revoked_at ≡ 0)
      × (k.expires_at ≢ 0 → now < k.expires_at)
      × In u t.users
      × (u.id ≡ k.user_id)

  -- The principal of a token text: its row is found by the hash of its secret, and is good.
  abbrev pub Owns : String → ℕ → Tables → TokenPrincipal → Type 0
  Owns raw now t p =
      (prefix : String) × (secret : String) × (k : ApiToken) × (u : TokenUser) × (parse_token raw
        ≡ ok (prefix, secret))
      × In k t.tokens
      × (k.token_hash ≡ v.hash secret)
      × IsGood k u now t
      × (p ≡ principal v k u)

  good_user :
      (k : ApiToken) (now : ℕ) (found : Option TokenUser) (t : Tables) (p : TokenPrincipal)
      → (with_user v k now found t).0 ≡ ok p
      → (u : TokenUser) × (found ≡ some u) × (p ≡ principal v k u)
  unfolding touch_last_used_at
  good_user k now none t p h = cc
  good_user k now (some u) t p h = elim (Option-cases (v.fails touch_token)) [
    | inr q ↦ cc (rw (q.1, touch_last_used_at) at h)
    | inl e ↦ (u, refl, cc (rw (e, touch_last_used_at) at h))
  ]

  user_row :
      (failed : Option String) (k : ApiToken) (t : Tables) (u : TokenUser)
      → user_of v failed k t ≡ some u
      → In u t.users × (u.id ≡ k.user_id)
  user_row (some message) k t u h = cc
  user_row none k t u h = (
    find_where-In (λ (w : TokenUser). w.id == k.user_id) t.users {r = u} h,
    (eq_iff u.id k.user_id).0
        (find_where_sound (λ (w : TokenUser). w.id == k.user_id) t.users {r = u} h),
  )

  matched-IsGood :
      (k : ApiToken) (now : ℕ) (t : Tables) (p : TokenPrincipal)
      → (validate_matched_token v k now t).0 ≡ ok p
      → (u : TokenUser) × IsGood k u now t × (p ≡ principal v k u)
  unfolding validate_matched_token
  matched-IsGood k now t p h = elim (Bool-cases (eqb k.revoked_at 0)) [
    | inr e ↦ cc (simp (e) at h)
    | inl e ↦ elim (Bool-cases (not (eqb k.expires_at 0) && leb k.expires_at now)) [
      | inl f ↦ cc (simp (e, f) at h)
      | inr f ↦
          let g = good_user k now (user_of v (v.fails load_user) k t) t p (simp (e, f) at h) in
          let w = user_row (v.fails load_user) k t g.0 g.1 in
          (g.0, (ground arith, (λ ne. ground arith), w.0, w.1), g.2)
    ]
  ]

  -- A token that is accepted belongs to a row of the table with the hash of its secret that is not
  -- revoked and not expired, and the answer is of that row and of its user.
  pub validate_token-Owns :
      (raw : String) (now : ℕ) (t : Tables) (p : TokenPrincipal)
      → (validate_token v raw now t).0 ≡ ok p
      → Owns raw now t p
  unfolding validate_token
  validate_token-Owns raw now t p h = elim (Result-cases (parse_token raw)) [
    | inl q ↦ cc (rw (q.1, validate_token) at h)
    | inr q ↦ elim (Option-cases (v.fails select_candidates)) [
      | inr s ↦ cc (rw (q.1, s.1, validate_token) at h)
      | inl s ↦
          let rows = select_where (λ (k : ApiToken). k.token_prefix == q.0.0) t.tokens in
          elim (Option-cases (find_where (has_hash v (v.hash q.0.1)) rows)) [
            | inl e ↦ cc (rw (q.1, s, e, validate_token) at h)
            | inr e ↦
                let m = matched-IsGood e.0 now t p (rw (q.1, s, e.1, validate_token) at h) in
                (
                  q.0.0,
                  q.0.1,
                  e.0,
                  m.0,
                  q.1,
                  select-In (λ (k : ApiToken). k.token_prefix == q.0.0) e.0 t.tokens
                      (find_where-In (has_hash v (v.hash q.0.1)) rows {r = e.0} e.1),
                  (eq_iff e.0.token_hash (v.hash q.0.1)).0
                      (find_where_sound (has_hash v (v.hash q.0.1)) rows {r = e.0} e.1),
                  m.1,
                  m.2,
                )
          ]
    ]
  ]

  revoked_rows :
      (user_id token_id : String) (now : ℕ) (ks : List ApiToken)
      → 0 < now
      → All
          (λ k. is_live v user_id token_id k ≡ false)
          (update_where
            (is_live v user_id token_id)
            (λ (r : ApiToken). record r { revoked_at = now })
            ks)
  revoked_rows user_id token_id now [] pos = tt
  revoked_rows user_id token_id now (k ∷ ks) pos =
      (ground arith, revoked_rows user_id token_id now ks pos)

  revoked_table :
      (user_id token_id : String) (now : ℕ) (t : Tables)
      → 0 < now
      → (revoke_token v user_id token_id now t).0 ≡ none
      → All
          (λ k. is_live v user_id token_id k ≡ false)
          (revoke_token v user_id token_id now t).1.tokens
  unfolding revoke_token
  revoked_table user_id token_id now t pos done = elim (Option-cases (v.fails revoke_update)) [
    | inr q ↦ cc (rw (q.1, revoke_token) at done)
    | inl e ↦ rw (e, revoke_token) (revoked_rows user_id token_id now t.tokens pos)
  ]

  -- After a revocation that ends without an error no token text is accepted for the token and its
  -- user any more, at any time. (The clock is past its zero.)
  pub revoke-validate :
      (user_id token_id raw : String) (now later : ℕ) (t : Tables) (p : TokenPrincipal)
      → 0 < now
      → (revoke_token v user_id token_id now t).0 ≡ none
      → (validate_token v raw later (revoke_token v user_id token_id now t).1).0 ≡ ok p
      → ¬ ((p.token_id ≡ token_id) × (p.user_id ≡ user_id))
  revoke-validate user_id token_id raw now later t p pos done h (same, same') =
      let (prefix, secret, k, u, parsed, i, hashed, (live, young, j, own), e) =
        validate_token-Owns raw later (revoke_token v user_id token_id now t).1 p h in
      let dead =
        All-In (λ k. is_live v user_id token_id k ≡ false) k
          (revoke_token v user_id token_id now t).1.tokens
          (revoked_table user_id token_id now t pos done) i in
      let id_same : k.id ≡ token_id = ap (λ (q : TokenPrincipal). q.token_id) (sym e) ∙ same in
      let user_same : k.user_id ≡ user_id =
        sym own ∙ ap (λ (q : TokenPrincipal). q.user_id) (sym e) ∙ same' in
      let a : (k.id == token_id) ≡ true = (eq_iff k.id token_id).1 id_same in
      let b : (k.user_id == user_id) ≡ true = (eq_iff k.user_id user_id).1 user_same in
      ground (arith, a, b, live, dead)
