-- ===== src/OauthState/Once.antt =====
-- A state is good once, and until it expires.
use openpostfork.Prelude.{
  ℕ, ◌+◌, String, ◌≡◌, refl, ap, ◌∙◌, inl, inr, true, none, some, List, ◌∷◌, arith, ◌==◌, eq_iff,
  eq_refl, ltb, if◌then◌else◌, Option-cases, Result, ok, err,
}
use openpostfork.Prelude.Table.{find_where, delete_where, find_where_sound, find_where-delete_where}
use openpostfork.OauthState.{
  AuthChallenge, Payload, StateError, invalid_state, expired_state, StateServices, insert_challenge,
  load_challenge, delete_challenge, is_challenge, new_challenge, create, opened, consume,
}

own_id : (key : String) (c : AuthChallenge) → is_challenge key c ≡ true → c.id ≡ key
own_id key c h = (eq_iff c.id key).0 (ground arith)

module _ (v : StateServices) where
  -- The answer of a state with a row.
  consume_found :
      (state : String) (now : ℕ) (rows : List AuthChallenge) (c : AuthChallenge)
      → v.fails load_challenge ≡ none
      → v.fails delete_challenge ≡ none
      → find_where (is_challenge state) rows ≡ some c
      → consume v state now rows ≡ (opened v c now, delete_where (is_challenge state) rows)
  unfolding consume
  consume_found state now rows c quiet quiet' h =
      rw (quiet, h, quiet', consume)
        (ap (λ key. (opened v c now, delete_where (is_challenge key) rows))
          (own_id state c (find_where_sound (is_challenge state) rows {r = c} h)))

  none_found :
      (state : String) (now : ℕ) (rows : List AuthChallenge)
      → v.fails load_challenge ≡ none
      → find_where (is_challenge state) rows ≡ none
      → (consume v state now rows).0 ≡ err invalid_state
  unfolding consume
  none_found state now rows quiet h = rw (quiet, h, consume) refl

  -- A state can be consumed once: whatever the first call answers, a second one finds it invalid,
  -- at any time. (The query and the deletion do not fail.)
  pub consume-consume :
      (state : String) (now later : ℕ) (rows : List AuthChallenge)
      → v.fails load_challenge ≡ none
      → v.fails delete_challenge ≡ none
      → (consume v state later (consume v state now rows).1).0 ≡ err invalid_state
  unfolding consume
  consume-consume state now later rows quiet quiet' =
      elim (Option-cases (find_where (is_challenge state) rows)) [
        | inl e ↦
            none_found state later (consume v state now rows).1 quiet (rw (quiet, e, consume) e)
        | inr q ↦
            ap
              (λ (r : Result StateError Payload × List AuthChallenge).
                (consume v state later r.1).0)
              (consume_found state now rows q.0 quiet quiet' q.1)
            ∙ none_found state later (delete_where (is_challenge state) rows) quiet
                (find_where-delete_where (is_challenge state) rows)
      ]

  -- The payload of a state comes back up to its end, and no later. (The creation ended without an
  -- error, the JSON text of the payload reads as the payload, and no statement fails.)
  pub create-consume :
      (p : Payload) (raw state : String) (now later : ℕ) (rows : List AuthChallenge)
      → v.fails load_challenge ≡ none
      → v.fails delete_challenge ≡ none
      → v.marshal p ≡ ok raw
      → v.unmarshal raw ≡ ok p
      → (create v p now rows).0 ≡ ok state
      → (consume v state later (create v p now rows).1).0
        ≡ (if ltb (now + v.ttl) later then err expired_state else ok p)
  unfolding create
  create-consume p raw state now later rows quiet quiet' made read done =
      elim (Option-cases (v.fails insert_challenge)) [
        | inr q ↦ cc (rw (made, q.1, create) at done)
        | inl e ↦
            let same : v.new_id rows ≡ state = cc (rw (made, e, create) at done) in
            let c = new_challenge v p raw now rows in
            rw (made, e, create)
              (ap (λ (r : Result StateError Payload × List AuthChallenge). r.0)
                  (consume_found state later (c ∷ rows) c quiet quiet'
                    (rw (ap (λ key. key == state) same ∙ eq_refl state) refl))
                ∙ rw read refl)
      ]
