-- ===== src/Billing/Event.antt =====
-- backend/internal/services/billing/service.go: the subscription row of an event.
use openpostfork.Prelude.{
  ℕ, String, ◌<>◌, not, ◌&&◌, Option, none, some, List, [], ◌∷◌, ◌==◌, if◌then◌else◌, Result, ok,
  err,
}
use openpostfork.Prelude.Int.{ℤ, pos, leb_ℤ}
use openpostfork.Prelude.Cut.{cut_prefix}
use openpostfork.Prelude.Text.{trim_space}
use openpostfork.Prelude.Words.{parse_int}
use openpostfork.Entitlements.{lookup, show_ℤ}
use openpostfork.Billing.{
  provider_polar, MetadataValue, null, text, float, integer, shown, Metadata, PolarEvent,
  PolarSubscriptionData, Snapshot, BillingSubscription, BillingServices,
}

-- The value, or the other one where it is empty.
abbrev pub or_else : String → String → String
or_else a b = if a == "" then b else a

-- An integer that is not negative.
abbrev pub nonneg : Option ℤ → Option ℤ
nonneg none = none
nonneg (some z) = if leb_ℤ (pos 0) z then some z else none

module _ {F : Type 0} (v : BillingServices F) where
  -- `metadataLimitAsInt64`; `none` is its false.
  unfoldable pub metadata_limit_as_int64 : MetadataValue F → Option ℤ
  metadata_limit_as_int64 (float x) =
      if v.float_nonneg x && v.float_eq x (v.of_int64 (v.to_int64 x))
      then some (v.to_int64 x)
      else none
  metadata_limit_as_int64 (integer z) = nonneg (some z)
  metadata_limit_as_int64 (text s) = nonneg (parse_int s)
  metadata_limit_as_int64 null = none
  metadata_limit_as_int64 (shown s) = none

  abbrev shown_value : Option (MetadataValue F) → String
  shown_value none = ""
  shown_value (some null) = ""
  shown_value (some (text s)) = trim_space s
  shown_value (some (float x)) = trim_space (v.show_float x)
  shown_value (some (integer z)) = trim_space (show_ℤ z)
  shown_value (some (shown s)) = trim_space s

  -- `firstMetadataString`.
  unfoldable pub first_metadata_string : Metadata F → String → String
  first_metadata_string metadata key = shown_value (lookup key metadata)

  abbrev time_of : Option ℕ → ℕ → ℕ
  time_of (some at) other = at
  time_of none other = other

  -- `parseOptionalTime`; 0 is the zero time.
  unfoldable pub parse_optional_time : String → ℕ
  parse_optional_time value =
      if trim_space value == ""
      then 0
      else time_of (v.parse_time "2006-01-02T15:04:05.999999999Z07:00" value) (
          time_of (v.parse_time "2006-01-02T15:04:05Z07:00" value)
            (time_of (v.parse_time "2006-01-02 15:04:05-07:00" value) 0))

  abbrev pub add_limit : Option String → Option ℤ → List (String × ℤ) → List (String × ℤ)
  add_limit (some metric) (some limit) rest = (metric, limit) ∷ rest
  add_limit (some metric) none rest = rest
  add_limit none limit rest = rest

  -- The loop over the metadata. (The keys of a map are distinct, so the limits are too, and their
  -- order is lost in the JSON text.)
  unfoldable pub metadata_limits : Metadata F → List (String × ℤ)
  metadata_limits [] = []
  metadata_limits ((key, value) ∷ rest) =
      add_limit (cut_prefix key "limit_") (metadata_limit_as_int64 value) (metadata_limits rest)

  abbrev pub product_of : PolarSubscriptionData F → String
  product_of d = or_else d.product_id d.inner_product_id

  abbrev pub price_of : PolarSubscriptionData F → String
  price_of d = or_else d.price_id d.inner_price_id

  abbrev pub snapshot_of : PolarSubscriptionData F → String → Snapshot
  snapshot_of d plan_id = record {
    provider = provider_polar;
    plan_id = plan_id;
    status = d.status;
    product_id = product_of d;
    price_id = price_of d;
    limits = metadata_limits d.metadata;
  }

  abbrev encoded : Option String → String
  encoded none = "{}"
  encoded (some s) = s

  -- `entitlementSnapshotJSON`.
  unfoldable pub entitlement_snapshot_json : PolarSubscriptionData F → String → String
  entitlement_snapshot_json d plan_id = encoded (v.encode_snapshot (snapshot_of d plan_id))

  abbrev pub workspace_of : PolarSubscriptionData F → String
  workspace_of d =
      or_else (first_metadata_string d.metadata "workspace_id")
        (first_metadata_string d.customer.metadata "workspace_id")

  abbrev pub organization_of : PolarSubscriptionData F → String
  organization_of d =
      let organization_id = or_else (first_metadata_string d.metadata "organization_id") (
        or_else (first_metadata_string d.customer.metadata "organization_id")
          d.customer.external_id) in
      if organization_id == "" && not (workspace_of d == "")
      then "org_" <> workspace_of d
      else organization_id

  abbrev pub plan_of : PolarSubscriptionData F → String
  plan_of d =
      or_else (first_metadata_string d.metadata "plan_id") (first_metadata_string d.metadata "plan")

  abbrev pub row_of : PolarEvent → PolarSubscriptionData F → ℕ → BillingSubscription
  row_of e d now = record {
    organization_id = organization_of d;
    workspace_id = workspace_of d;
    provider = provider_polar;
    provider_customer_id = or_else d.customer_id d.customer.id;
    provider_subscription_id = d.id;
    provider_product_id = product_of d;
    provider_price_id = price_of d;
    status = d.status;
    plan_id = plan_of d;
    entitlement_snapshot = entitlement_snapshot_json d (plan_of d);
    current_period_end = parse_optional_time d.current_period_end;
    cancel_at_period_end = d.cancel_at_period_end;
    raw_payload = v.marshal_raw e.data_text;
    created_at = now;
    updated_at = now;
  }

  abbrev pub of_data :
      PolarEvent → Result String (PolarSubscriptionData F) → ℕ → Result String BillingSubscription
  of_data e (err message) now = err ("invalid subscription payload: " <> message)
  of_data e (ok d) now =
      if organization_of d == ""
      then err "subscription webhook missing organization_id metadata"
      else ok (row_of e d now)

  -- `subscriptionFromPolarEvent`.
  unfoldable pub subscription_from_polar_event : PolarEvent → ℕ → Result String BillingSubscription
  subscription_from_polar_event e now = of_data e (v.decode_data e.data_text) now
