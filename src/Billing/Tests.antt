-- ===== src/Billing/Tests.antt =====
-- Webhooks and checkouts at concrete inputs.
use openpostfork.Billing.Catalog.{trim_slashes_left}
use openpostfork.Billing.Catalog.{has_suffix}
use openpostfork.Billing.Catalog.{trim_slashes_right}
use openpostfork.Billing.Event.{first_metadata_string}
use openpostfork.Billing.Event.{subscription_from_polar_event}
use openpostfork.Billing.Webhook.{upsert_subscription}
use openpostfork.Billing.Webhook.{insert_webhook_event}
use openpostfork.Prelude.Text.{trim_space}
use openpostfork.Prelude.Words.{fields}
use openpostfork.Prelude.Words.{parse_int}
use openpostfork.Billing.Signature.{verify_standard_webhook}
use openpostfork.Prelude.{
  ℕ, Option, ◌+◌, ◌*◌, ◌/◌, ◌≡◌, refl, sym, ap, ◌∙◌, eqb, err, inl, inr, arith, Bool-cases,
  if◌then◌else◌, ◌⊎◌, true, false, none, some, [], ◌∷◌, ok,
}
use openpostfork.Prelude.Int.{ℤ, pos, pos_part, leb_ℤ}
use openpostfork.Prelude.Clock.{second}
use openpostfork.Entitlements.{lookup}
use openpostfork.Billing.{
  text, float, Metadata, PolarSubscriptionData, Tables, BillingServices, WebhookHeaders, Instants,
}
use openpostfork.Billing.Signature.{unix_epoch}
use openpostfork.Billing.Event.{metadata_limits}
use openpostfork.Billing.Webhook.{process_polar_webhook}
use openpostfork.Billing.Once.{process-process}
use openpostfork.Billing.Accepted.{IsSigned, process_polar_webhook-IsSigned}
use openpostfork.Billing.Tenancy.{row_for, process_polar_webhook-OthersKeep}
use openpostfork.Billing.Dropped.{ConvertsWholes, lookup-metadata_limits}
use openpostfork.Billing.Roundtrip.{metadata_limits-checkout_metadata, arrived_metadata}
use openpostfork.Billing.Catalog.{checkout_metadata, polar_api_url}

abbrev metadata : Metadata ℤ
metadata =
    ("organization_id", text "org1")
    ∷ ("limit_workspaces", float (pos 3))
    ∷ ("limit_team_members", text "many")
    ∷ []

abbrev data_of_event : PolarSubscriptionData ℤ
data_of_event = record {
  id = "sub1";
  status = "active";
  customer_id = "cus1";
  product_id = "prod1";
  price_id = "";
  current_period_end = "";
  cancel_at_period_end = false;
  metadata = metadata;
  customer = record { id = "cus1"; external_id = ""; metadata = [] };
  inner_product_id = "";
  inner_price_id = "price1";
}

-- Whole numbers as floats, and a code that is the text itself.
abbrev toy : BillingServices ℤ
toy = record {
  webhook_secret = "key";
  to_int64 = λ z. z;
  of_int64 = λ z. z;
  float_nonneg = λ z. leb_ℤ (pos 0) z;
  float_eq = λ a b. true;
  show_float = λ z. "number";
  decode_event = λ s. ok (record { id = "evt1"; kind = "subscription.updated"; data_text = s });
  decode_data = λ s. ok data_of_event;
  encode_snapshot = λ s. some "snapshot";
  marshal_raw = λ s. s;
  parse_time = λ layout s. none;
  base64_decode = λ s. some s;
  hmac = λ key s. s;
  fails = λ s. none;
  unique_message = "UNIQUE constraint failed";
}

abbrev headers : WebhookHeaders
headers = record { id = "evt1"; timestamp = "100"; signature = "v1,evt1.100.body" }

abbrev instants : Instants
instants = record {
  verified = unix_epoch + 160 * second;
  recorded = unix_epoch + 161 * second;
  loaded = unix_epoch + 162 * second;
}

abbrev empty_tables : Tables
empty_tables = record { events = []; subscriptions = [] }

process_polar_webhook_applied :
    (process_polar_webhook toy "body" headers instants empty_tables).error ≡ none
unfolding process_polar_webhook verify_standard_webhook parse_int fields trim_space
    insert_webhook_event subscription_from_polar_event first_metadata_string lookup
    upsert_subscription
process_polar_webhook_applied = refl

process-process_example :
    (process_polar_webhook toy "body" headers instants
      (process_polar_webhook toy "body" headers instants empty_tables).tables).tables
    ≡ (process_polar_webhook toy "body" headers instants empty_tables).tables
process-process_example =
    process-process toy "body" headers headers instants instants empty_tables refl
      process_polar_webhook_applied

process_polar_webhook-IsSigned_example :
    ((process_polar_webhook toy "body" headers instants empty_tables).tables ≡ empty_tables)
    ⊎ IsSigned toy "body" headers instants.verified
process_polar_webhook-IsSigned_example =
    process_polar_webhook-IsSigned toy "body" headers instants empty_tables

process_polar_webhook-OthersKeep_example :
    row_for "org2"
      (process_polar_webhook toy "body" headers instants empty_tables).tables.subscriptions
    ≡ none
unfolding process_polar_webhook verify_standard_webhook parse_int fields trim_space
    insert_webhook_event subscription_from_polar_event first_metadata_string lookup
    upsert_subscription
process_polar_webhook-OthersKeep_example =
    process_polar_webhook-OthersKeep toy "body" headers instants empty_tables "org2" refl

-- Floats as numbers of halves.
abbrev halves : BillingServices ℕ
halves = record {
  webhook_secret = "key";
  to_int64 = λ x. pos (x / 2);
  of_int64 = λ z. 2 * pos_part z;
  float_nonneg = λ x. true;
  float_eq = λ a b. eqb a b;
  show_float = λ x. "number";
  decode_event = λ s. err "event";
  decode_data = λ s. err "data";
  encode_snapshot = λ s. none;
  marshal_raw = λ s. s;
  parse_time = λ layout s. none;
  base64_decode = λ s. none;
  hmac = λ key s. s;
  fails = λ s. none;
  unique_message = "";
}

abbrev whole_halves : ℕ → Option ℤ
whole_halves x = if eqb x (2 * (x / 2)) then some (pos (x / 2)) else none

whole_same :
    (x : ℕ) (z : ℤ) → whole_halves x ≡ some z → (pos (x / 2) ≡ z) × (eqb x (2 * (x / 2)) ≡ true)
whole_same x z h = elim (Bool-cases (eqb x (2 * (x / 2)))) [
  | inl e ↦ let g : some (pos (x / 2)) ≡ some z = (rw e at h) in (cc, e)
  | inr e ↦ cc (rw e at h)
]

nonneg_half : (x : ℕ) → leb_ℤ (pos 0) (pos (x / 2)) ≡ true
nonneg_half x = ground arith

halves-ConvertsWholes : ConvertsWholes halves whole_halves
halves-ConvertsWholes = (
  λ x z h.
      let s = whole_same x z h in
      (
        s.0,
        ap (λ y. eqb x (2 * pos_part y)) (sym s.0) ∙ s.1,
        sym (nonneg_half x) ∙ ap (leb_ℤ (pos 0)) s.0,
      ),
  λ x h. rw h refl,
)

abbrev half_metadata : Metadata ℕ
half_metadata =
    ("limit_workspaces", float 7)
    ∷ ("limit_team_members", float 6)
    ∷ ("limit_social_accounts", text "-4")
    ∷ []

-- Three and a half workspaces are no limit.
lookup-metadata_limits_example : lookup "workspaces" (metadata_limits halves half_metadata) ≡ none
unfolding lookup
lookup-metadata_limits_example =
    lookup-metadata_limits halves whole_halves "workspaces" half_metadata halves-ConvertsWholes
      (refl, (refl, (refl, tt)))

metadata_limits-checkout_metadata_example :
    metadata_limits toy (
      arrived_metadata toy
        (checkout_metadata "org1" "" "user1" "starter" (("workspaces", pos 1) ∷ [])))
    ≡ ("workspaces", pos 1) ∷ []
metadata_limits-checkout_metadata_example =
    metadata_limits-checkout_metadata toy "org1" "" "user1" "starter" (("workspaces", pos 1) ∷ [])
      ((refl, refl, refl), tt)

polar_api_url_example :
    polar_api_url "https://api.polar.sh/v1/" "/v1/checkouts/" ≡ "https://api.polar.sh/v1/checkouts/"
unfolding polar_api_url trim_slashes_right has_suffix trim_slashes_left
polar_api_url_example = refl
