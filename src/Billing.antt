-- ===== src/Billing.antt =====
-- backend/internal/services/billing/service.go with the rows `BillingSubscription` and
-- `BillingWebhookEvent` of backend/internal/models/models.go: what the webhooks, the events and the
-- tables of the billing component hold. The JSON coder and its float64 values, the base64 decoder,
-- the HMAC and the reader of time stamps are parameters; a `[]byte` is the text of its bytes.
pub mod Signature
pub mod Event
pub mod Webhook
pub mod Catalog
pub mod Accepted
pub mod Roundtrip
pub mod Once
pub mod Tenancy
pub mod Dropped
mod Tests
use openpostfork.Prelude.{
  ℕ, zero, suc, ◌+◌, ◌-◌, ◌*◌, ◌/◌, ◌%◌, ◌^◌, ◌≤◌, ◌<◌, min, max, String, ◌<>◌, ◌≡◌, refl, sym, ap,
  ◌∙◌, subst, fun_ext, ◌≢◌, ◌↔◌, ◌⊎◌, inl, inr, Bool, true, false, not, ◌&&◌, ◌||◌, Option, none,
  some, List, [], ◌∷◌, ◌++◌, map, arith, ◌==◌, eq_iff, eq_refl, ltb, leb, eqb, if◌then◌else◌,
  leb→le, le→leb, leb→lt, Bool-cases, Option-cases, ==_of_ne, length, All, length-append, All-map,
  Result, ok, err, ◌>>=◌, or_fail, Result-cases,
}
use openpostfork.Prelude.Int.{ℤ}

abbrev pub provider_polar : String
provider_polar = "polar"

-- A value that `encoding/json` decodes into `any`; `shown` is another one, with its `fmt.Sprint`.
pub data MetadataValue (Float : Type 0) : Type 0 where
  null : MetadataValue Float
  text : String → MetadataValue Float
  float : Float → MetadataValue Float
  integer : ℤ → MetadataValue Float  -- int64 and int
  shown : String → MetadataValue Float

-- `map[string]any`; the nil map is empty.
abbrev pub Metadata : Type 0 → Type 0
Metadata F = List (String × MetadataValue F)

-- `polarEvent`; the data is the JSON text.
pub record PolarEvent : Type 0 where
  pub id : String
  pub kind : String  -- `Type`
  pub data_text : String

pub record PolarCustomer (Float : Type 0) : Type 0 where
  pub id : String
  pub external_id : String
  pub metadata : Metadata Float

-- `polarSubscriptionData`; the products and prices inside have an id alone.
pub record PolarSubscriptionData (Float : Type 0) : Type 0 where
  pub id : String
  pub status : String
  pub customer_id : String
  pub product_id : String
  pub price_id : String
  pub current_period_end : String
  pub cancel_at_period_end : Bool
  pub metadata : Metadata Float
  pub customer : PolarCustomer Float
  pub inner_product_id : String
  pub inner_price_id : String

-- The map `snapshot`; the limits are left out where there are none.
pub record Snapshot : Type 0 where
  pub provider : String
  pub plan_id : String
  pub status : String
  pub product_id : String
  pub price_id : String
  pub limits : List (String × ℤ)

pub record BillingSubscription : Type 0 where
  pub organization_id : String
  pub workspace_id : String
  pub provider : String
  pub provider_customer_id : String
  pub provider_subscription_id : String
  pub provider_product_id : String
  pub provider_price_id : String
  pub status : String
  pub plan_id : String
  pub entitlement_snapshot : String
  pub current_period_end : ℕ
  pub cancel_at_period_end : Bool
  pub raw_payload : String
  pub created_at : ℕ
  pub updated_at : ℕ

pub record BillingWebhookEvent : Type 0 where
  pub event_id : String
  pub provider : String
  pub event_type : String
  pub processed_at : ℕ

pub record Tables : Type 0 where
  pub events : List BillingWebhookEvent
  pub subscriptions : List BillingSubscription

pub data BillingStatement : Type 0 where
  begin_tx insert_event upsert commit_tx : BillingStatement

-- What the service calls; `fails` is the error text of a statement that the driver fails, and
-- `unique_message` the one of a second row for a subscription of the provider.
pub record BillingServices (Float : Type 0) : Type 0 where
  pub webhook_secret : String
  pub to_int64 : Float → ℤ
  pub of_int64 : ℤ → Float
  pub float_nonneg : Float → Bool
  pub float_eq : Float → Float → Bool
  pub show_float : Float → String
  pub decode_event : String → Result String PolarEvent
  pub decode_data : String → Result String (PolarSubscriptionData Float)
  pub encode_snapshot : Snapshot → Option String
  pub marshal_raw : String → String
  pub parse_time : String → String → Option ℕ
  pub base64_decode : String → Option String
  pub hmac : String → String → String
  pub fails : BillingStatement → Option String
  pub unique_message : String

pub record WebhookHeaders : Type 0 where
  pub id : String
  pub timestamp : String
  pub signature : String

pub record WebhookResult : Type 0 where
  pub event_id : String
  pub event_type : String
  pub organization_id : String
  pub workspace_id : String
  pub duplicate : Bool

-- The clock at the test of the time stamp, at the insertion of the event, and at the reading of the
-- subscription.
pub record Instants : Type 0 where
  pub verified : ℕ
  pub recorded : ℕ
  pub loaded : ℕ
