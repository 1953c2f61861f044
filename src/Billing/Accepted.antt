-- ===== src/Billing/Accepted.antt =====
-- What a webhook that is accepted carries.
use openpostfork.Prelude.{
  ℕ, String, ◌≡◌, refl, ap, ◌⊎◌, inl, inr, true, ◌||◌, Option, none, some, List, [], ◌∷◌, ◌==◌,
  eq_iff, Bool-cases,
}
use openpostfork.Prelude.Int.{ℤ}
use openpostfork.Prelude.Words.{fields, parse_int}
use openpostfork.Billing.{Tables, BillingServices, WebhookHeaders, Instants}
use openpostfork.Billing.Signature.{
  verify_standard_webhook, checked_timestamp, in_tolerance, expected_mac, any_candidate, Carries,
  trim_prefix, is_mac,
}
use openpostfork.Billing.Webhook.{process_polar_webhook}

module _ {F : Type 0} (v : BillingServices F) where
  is_mac_sound :
      (got : Option String) (expected : String) → is_mac v got expected ≡ true → got ≡ some expected
  is_mac_sound none expected h = cc
  is_mac_sound (some got) expected h = ap some ((eq_iff got expected).0 h)

  any_candidate-Carries :
      (expected : String) (cs : List String)
      → any_candidate v expected cs ≡ true
      → Carries v expected cs
  any_candidate-Carries expected [] h = cc
  any_candidate-Carries expected (c ∷ cs) h =
      let here = is_mac v (v.base64_decode (trim_prefix c "v1,")) expected in
      elim (Bool-cases here) [
        | inl q ↦ inl (is_mac_sound (v.base64_decode (trim_prefix c "v1,")) expected q)
        | inr q ↦ inr (any_candidate-Carries expected cs (rw q at h))
      ]

  -- The headers have a time stamp near the clock, and a signature of the body.
  abbrev pub IsSigned : String → WebhookHeaders → ℕ → Type 0
  IsSigned body h now =
      (at : ℤ) × (parse_int h.timestamp ≡ some at)
      × (in_tolerance now at ≡ true)
      × Carries v (expected_mac v body h) (fields h.signature)

  checked_timestamp-IsSigned :
      (o : Option ℤ) (body : String) (h : WebhookHeaders) (now : ℕ)
      → parse_int h.timestamp ≡ o
      → checked_timestamp v o body h now ≡ none
      → IsSigned body h now
  checked_timestamp-IsSigned none body h now p done = cc
  checked_timestamp-IsSigned (some at) body h now p done = elim (Bool-cases (in_tolerance now at)) [
    | inr q ↦ cc (rw q at done)
    | inl q ↦ elim (Bool-cases (any_candidate v (expected_mac v body h) (fields h.signature))) [
      | inr r ↦ cc (rw (q, r) at done)
      | inl r ↦ (at, p, q, any_candidate-Carries (expected_mac v body h) (fields h.signature) r)
    ]
  ]

  verify_standard_webhook-IsSigned :
      (body : String) (h : WebhookHeaders) (now : ℕ)
      → verify_standard_webhook v body h now ≡ none
      → IsSigned body h now
  unfolding verify_standard_webhook
  verify_standard_webhook-IsSigned body h now done = elim (Bool-cases (v.webhook_secret == "")) [
    | inl q ↦ cc (rw (q, verify_standard_webhook) at done)
    | inr q ↦ elim (Bool-cases (h.id == "" || h.timestamp == "" || h.signature == "")) [
      | inl r ↦ cc (rw (q, r, verify_standard_webhook) at done)
      | inr r ↦
          checked_timestamp-IsSigned (parse_int h.timestamp) body h now refl
            (rw (q, r, verify_standard_webhook) at done)
    ]
  ]

  of_verified :
      (body : String) (h : WebhookHeaders) (at : Instants) (t : Tables) (o : Option String)
      → verify_standard_webhook v body h at.verified ≡ o
      → ((process_polar_webhook v body h at t).tables ≡ t) ⊎ IsSigned body h at.verified
  unfolding process_polar_webhook
  of_verified body h at t (some message) p = inl (rw (p, process_polar_webhook) refl)
  of_verified body h at t none p = inr (verify_standard_webhook-IsSigned body h at.verified p)

  -- A webhook leaves the tables as they are, or its time stamp is at most five minutes from the
  -- clock and one of the candidates of its signature decodes as the code of its id, its time stamp
  -- and its body under the secret.
  pub process_polar_webhook-IsSigned :
      (body : String) (h : WebhookHeaders) (at : Instants) (t : Tables)
      → ((process_polar_webhook v body h at t).tables ≡ t) ⊎ IsSigned body h at.verified
  process_polar_webhook-IsSigned body h at t =
      of_verified body h at t (verify_standard_webhook v body h at.verified) refl
