-- ===== src/Billing/Roundtrip.antt =====
-- The limits of a checkout come back in the webhook of its subscription.
use openpostfork.Prelude.{String, ◌≡◌, refl, inl, inr, true, some, List, [], ◌∷◌, ◌==◌, Bool-cases}
use openpostfork.Prelude.Int.{ℤ}
use openpostfork.Prelude.Cut.{cut_prefix, cut_prefix-append}
use openpostfork.Entitlements.{Limits}
use openpostfork.Billing.{Metadata, MetadataValue, BillingServices}
use openpostfork.Billing.{text as written, float as number}
use openpostfork.Billing.Event.{metadata_limit_as_int64, metadata_limits}
use openpostfork.Billing.Catalog.{CheckoutValue, string, whole, limit_metadata, checkout_metadata}

module _ {F : Type 0} (v : BillingServices F) where
  -- Polar hands the metadata back; a JSON number is read as a float64.
  abbrev pub arrived : CheckoutValue → MetadataValue F
  arrived (string s) = written s
  arrived (whole z) = number (v.of_int64 z)

  abbrev pub arrived_metadata : List (String × CheckoutValue) → Metadata F
  arrived_metadata [] = []
  arrived_metadata ((key, value) ∷ rest) = (key, arrived value) ∷ arrived_metadata rest

  -- The number is not negative and a float64 has it without loss, as all numbers below 2^53.
  abbrev pub IsExact : ℤ → Type 0
  IsExact z =
      (v.float_nonneg (v.of_int64 z) ≡ true)
      × (v.to_int64 (v.of_int64 z) ≡ z)
      × (v.float_eq (v.of_int64 z) (v.of_int64 z) ≡ true)

  abbrev pub AllExact : Limits → Type 0
  AllExact [] = Unit
  AllExact ((key, z) ∷ rest) = IsExact z × AllExact rest

  read_exact : (z : ℤ) → IsExact z → metadata_limit_as_int64 v (number (v.of_int64 z)) ≡ some z
  unfolding metadata_limit_as_int64
  read_exact z (p, q, r) = rw (p, q, r) refl

  metadata_limits-limit_metadata :
      (limits : Limits)
      → AllExact limits
      → metadata_limits v (arrived_metadata (limit_metadata limits)) ≡ limits
  unfolding metadata_limits limit_metadata
  metadata_limits-limit_metadata [] h = refl
  metadata_limits-limit_metadata ((key, z) ∷ rest) h =
      rw (cut_prefix-append "limit_" key, read_exact z h.0, metadata_limits-limit_metadata rest h.1)
        refl

  -- The limits that a checkout sends with its plan are those that the webhook of the subscription
  -- reads, where the metadata come back as they were sent, with their numbers as float64 values.
  -- (Each limit of the plan is a number that is not negative and that a float64 has without loss.)
  pub metadata_limits-checkout_metadata :
      (organization_id workspace_id user_id plan_id : String) (limits : Limits)
      → AllExact limits
      → metadata_limits v
          (arrived_metadata (checkout_metadata organization_id workspace_id user_id plan_id limits))
        ≡ limits
  unfolding metadata_limits checkout_metadata cut_prefix
  metadata_limits-checkout_metadata organization_id workspace_id user_id plan_id limits h =
      elim (Bool-cases (workspace_id == "")) [
        | inl p ↦ rw p (elim (Bool-cases (user_id == "")) [
          | inl q ↦ rw q (metadata_limits-limit_metadata limits h)
          | inr q ↦ rw q (metadata_limits-limit_metadata limits h)
        ])
        | inr p ↦ rw p (elim (Bool-cases (user_id == "")) [
          | inl q ↦ rw q (metadata_limits-limit_metadata limits h)
          | inr q ↦ rw q (metadata_limits-limit_metadata limits h)
        ])
      ]
