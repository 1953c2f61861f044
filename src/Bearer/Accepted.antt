-- ===== src/Bearer/Accepted.antt =====
-- Whom the middleware lets in, over the sessions and the API tokens.
use openpostfork.Prelude.{
  ℕ, ◌<◌, String, ◌≡◌, refl, sym, ap, ◌∙◌, subst, ◌≢◌, ◌⊎◌, inl, inr, true, not, ◌&&◌, Option, none,
  some, List, ◌==◌, Bool-cases, ==_of_ne, Result, ok, err,
}
use openpostfork.Sessions.{UserSession, SessionError, validate_session, revoke_session}
use openpostfork.Sessions.Active.{IsActive, validate_session-IsActive, revoke_session-IsActive}
use openpostfork.ApiTokens
use openpostfork.ApiTokens.{TokenPrincipal, TokenError, validate_token}
use openpostfork.ApiTokens.Revocation.{Owns, validate_token-Owns}
use openpostfork.Bearer.{
  Claims, Principal, World, Authenticators, Answer, BearerError, of_claims, of_token, after_session,
  with_claims, authenticate_jwt, or_token, fall_back, or_api_token, authenticate_bearer,
}

module _ (a : Authenticators) where
  -- The token is a JWT, and its session, where it has one and sessions are kept, is active.
  abbrev pub IsSignedIn : String → ℕ → World → Principal → Type 0
  IsSignedIn raw now w p =
      (c : Claims) × (a.validate_jwt raw ≡ ok c)
      × (p ≡ of_claims c)
      × ((not (c.session_id == "") && a.has_sessions) ≡ true
          → IsActive c.user_id c.session_id now w.sessions)

  -- The token is an API token of the tables.
  abbrev pub HasToken : String → ℕ → World → Principal → Type 0
  HasToken raw now w p =
      (v : ApiTokens.Services) × (q : TokenPrincipal) × (a.api_tokens ≡ some v)
      × Owns v raw now w.tables q
      × (p ≡ of_token q)

  after_session_ok :
      (c : Claims) (r : Result SessionError UserSession × List UserSession) (w : World)
      (p : Principal)
      → (after_session a c r w).0 ≡ ok p
      → (s : UserSession) × (r.0 ≡ ok s) × (p ≡ of_claims c)
  after_session_ok c (err e, rows) w p h = cc
  after_session_ok c (ok s, rows) w p h = (s, refl, cc)

  claims_ok :
      (answer : Result String Claims) (raw : String) (now : ℕ) (w : World) (p : Principal)
      → a.validate_jwt raw ≡ answer
      → (with_claims a answer now w).0 ≡ ok p
      → IsSignedIn raw now w p
  claims_ok (err message) raw now w p e h = cc
  claims_ok (ok c) raw now w p e h =
      elim (Bool-cases (not (c.session_id == "") && a.has_sessions)) [
        | inr f ↦ (c, e, cc (simp (f) at h), (λ g. cc))
        | inl f ↦
            let r =
              after_session_ok c
                (validate_session a.new_session_id a.session_fails c.user_id c.session_id now
                  w.sessions)
                w p (simp (f) at h) in
            (
              c,
              e,
              r.2,
              (λ g.
                  validate_session-IsActive a.new_session_id a.session_fails c.user_id c.session_id
                    now w.sessions {s = r.0} r.1),
            )
      ]

  session_tables :
      (c : Claims) (r : Result SessionError UserSession × List UserSession) (w : World)
      → (after_session a c r w).1.tables ≡ w.tables
  session_tables c (err e, rows) w = refl
  session_tables c (ok s, rows) w = refl

  jwt_tables :
      (answer : Result String Claims) (now : ℕ) (w : World)
      → (with_claims a answer now w).1.tables ≡ w.tables
  jwt_tables (err message) now w = refl
  jwt_tables (ok c) now w = elim (Bool-cases (not (c.session_id == "") && a.has_sessions)) [
    | inr f ↦ simp (f)
    | inl f ↦ simp (f) (
        session_tables c
          (validate_session a.new_session_id a.session_fails c.user_id c.session_id now w.sessions)
          w)
  ]

  token_ok :
      (e : BearerError) (r : Result TokenError TokenPrincipal × ApiTokens.Tables) (w : World)
      (p : Principal)
      → (or_token a e r w).0 ≡ ok p
      → (q : TokenPrincipal) × (r.0 ≡ ok q) × (p ≡ of_token q)
  token_ok e (err other, t) w p h = cc
  token_ok e (ok q, t) w p h = (q, refl, cc)

  fall_back_ok :
      (e : BearerError) (api : Option ApiTokens.Services) (raw : String) (now : ℕ) (w : World)
      (p : Principal)
      → a.api_tokens ≡ api
      → (fall_back a e api raw now w).0 ≡ ok p
      → HasToken raw now w p
  fall_back_ok e none raw now w p f h = cc
  fall_back_ok e (some v) raw now w p f h =
      let r = token_ok e (validate_token v raw now w.tables) w p h in
      (v, r.0, f, validate_token-Owns v raw now w.tables r.0 r.1, r.2)

  answered :
      (answer : Answer) (raw : String) (now : ℕ) (w : World) (p : Principal)
      → authenticate_jwt a raw now w ≡ answer
      → answer.1.tables ≡ w.tables
      → (or_api_token a answer raw now).0 ≡ ok p
      → IsSignedIn raw now w p ⊎ HasToken raw now w p
  unfolding authenticate_jwt
  answered (ok q, w') raw now w p e same h =
      inl (claims_ok (a.validate_jwt raw) raw now w p refl (ap (λ (r : Answer). r.0) e ∙ h))
  answered (err f, w') raw now w p e same h =
      let r = fall_back_ok f a.api_tokens raw now w' p refl h in
      inr (r.0, r.1, r.2, subst (λ t. Owns r.0 raw now t r.1) same r.3, r.4)

  -- A bearer token that is accepted is a JWT whose session, where it has one and sessions are kept,
  -- is active, or an API token whose row is neither revoked nor expired.
  pub authenticate_bearer-accepted :
      (raw : String) (now : ℕ) (w : World) (p : Principal)
      → (authenticate_bearer a raw now w).0 ≡ ok p
      → IsSignedIn raw now w p ⊎ HasToken raw now w p
  unfolding authenticate_bearer authenticate_jwt
  authenticate_bearer-accepted raw now w p h =
      answered (authenticate_jwt a raw now w) raw now w p refl
        (jwt_tables (a.validate_jwt raw) now w) h

  -- After the revocation of a session, where it ends without an error, no bearer token is accepted
  -- as that session of its user any more, at any time. (Sessions are kept, the session has an id,
  -- and the clock is past its zero.)
  pub revoke-authenticate :
      (user_id session_id raw : String) (now later : ℕ) (w : World) (p : Principal)
      → a.has_sessions ≡ true
      → session_id ≢ ""
      → 0 < now
      → (revoke_session a.new_session_id a.session_fails user_id session_id now w.sessions).0 ≡ none
      → (authenticate_bearer a raw later (record w {
        sessions =
            (revoke_session a.new_session_id a.session_fails user_id session_id now w.sessions).1;
      })).0
        ≡ ok p
      → ¬ ((p.session_id ≡ session_id) × (p.user_id ≡ user_id))
  revoke-authenticate user_id session_id raw now later w p kept named pos done h (same, own) =
      let rows =
        (revoke_session a.new_session_id a.session_fails user_id session_id now w.sessions).1 in
      elim (authenticate_bearer-accepted raw later (record w { sessions = rows }) p h) [
        | inr t ↦ absurd (named (sym same ∙ ap (λ (q : Principal). q.session_id) t.4))
        | inl s ↦
            let e : s.0.session_id ≡ session_id =
              sym (ap (λ (q : Principal). q.session_id) s.2) ∙ same in
            let f : s.0.user_id ≡ user_id = sym (ap (λ (q : Principal). q.user_id) s.2) ∙ own in
            let g : (not (s.0.session_id == "") && a.has_sessions) ≡ true =
              simp (kept, ==_of_ne s.0.session_id "" (λ q. named (sym e ∙ q))) in
            revoke_session-IsActive a.new_session_id a.session_fails user_id session_id now later
              w.sessions pos done
              (subst (λ u. IsActive u session_id later rows) f
                (subst (λ i. IsActive s.0.user_id i later rows) e (s.3 g)))
      ]
