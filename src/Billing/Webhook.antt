-- ===== src/Billing/Webhook.antt =====
-- backend/internal/services/billing/service.go: the transaction of a webhook.
use openpostfork.Prelude.{
  ℕ, String, ◌<>◌, Bool, true, false, not, ◌&&◌, ◌||◌, Option, none, some, List, ◌∷◌, ◌==◌,
  if◌then◌else◌, Result, ok, err,
}
use text.Mathlib.Text.{starts_with}
use openpostfork.Prelude.Table.{find_where, update_where}
use openpostfork.Prelude.Text.{trim_space}
use openpostfork.Billing.{
  provider_polar, PolarEvent, BillingSubscription, BillingWebhookEvent, Tables, insert_event,
  begin_tx, commit_tx, upsert, BillingServices, WebhookHeaders, WebhookResult, Instants,
}
use openpostfork.Billing.Signature.{verify_standard_webhook}
use openpostfork.Billing.Event.{subscription_from_polar_event}

-- The result, the error and the tables after a webhook.
pub record Outcome : Type 0 where
  pub result : WebhookResult
  pub error : Option String
  pub tables : Tables

abbrev pub no_result : WebhookResult
no_result = record {
  event_id = "";
  event_type = "";
  organization_id = "";
  workspace_id = "";
  duplicate = false;
}

abbrev pub is_event : String → BillingWebhookEvent → Bool
is_event id r = r.event_id == id

abbrev pub is_organization : String → BillingSubscription → Bool
is_organization id r = r.organization_id == id

-- The row of another organization for the same subscription of the provider.
abbrev pub clashes : BillingSubscription → BillingSubscription → Bool
clashes s r =
    r.provider_subscription_id == s.provider_subscription_id
    && not (r.organization_id == s.organization_id)

-- `ON CONFLICT (organization_id) DO UPDATE`: everything but the time of the creation.
abbrev pub overwritten : BillingSubscription → BillingSubscription → BillingSubscription
overwritten s r = record s { organization_id = r.organization_id; created_at = r.created_at }

abbrev pub put_subscription :
    Option BillingSubscription
    → BillingSubscription
    → List BillingSubscription
    → List BillingSubscription
put_subscription none s rows = s ∷ rows
put_subscription (some old) s rows =
    update_where (is_organization s.organization_id) (overwritten s) rows

abbrev pub recorded_event : PolarEvent → ℕ → BillingWebhookEvent
recorded_event e now = record {
  event_id = e.id;
  provider = provider_polar;
  event_type = e.kind;
  processed_at = now;
}

abbrev put_event :
    Option String
    → Option BillingWebhookEvent
    → BillingWebhookEvent
    → List BillingWebhookEvent
    → Result String (Bool × List BillingWebhookEvent)
put_event (some message) old r rows = err ("recording webhook event: " <> message)
put_event none (some old) r rows = ok (false, rows)
put_event none none r rows = ok (true, r ∷ rows)

-- The end of the transaction: an error, also one of the commit, rolls back.
abbrev pub finish : Option String → WebhookResult → Tables → Tables → Outcome
finish (some message) r t t' = record { result = r; error = some message; tables = t }
finish none r t t' = record { result = r; error = none; tables = t' }

abbrev pub result_of : PolarEvent → WebhookResult
result_of e = record no_result { event_id = e.id; event_type = e.kind }

-- The id of the headers stands in for a blank one.
abbrev pub named : PolarEvent → String → PolarEvent
named e id = if trim_space e.id == "" then record e { id = id } else e

module _ {F : Type 0} (v : BillingServices F) where
  abbrev pub upsert_checked :
      Option String
      → Option BillingSubscription
      → BillingSubscription
      → List BillingSubscription
      → Result String (List BillingSubscription)
  upsert_checked (some message) clash s rows = err ("upserting billing subscription: " <> message)
  upsert_checked none (some clash) s rows =
      err ("upserting billing subscription: " <> v.unique_message)
  upsert_checked none none s rows =
      ok (put_subscription (find_where (is_organization s.organization_id) rows) s rows)

  -- `upsertSubscription`.
  unfoldable pub upsert_subscription :
      BillingSubscription → List BillingSubscription → Result String (List BillingSubscription)
  upsert_subscription s rows = upsert_checked (v.fails upsert) (find_where (clashes s) rows) s rows

  -- `insertWebhookEvent`: whether a row is new, and the rows.
  unfoldable pub insert_webhook_event :
      PolarEvent → ℕ → List BillingWebhookEvent → Result String (Bool × List BillingWebhookEvent)
  insert_webhook_event e now rows =
      put_event (v.fails insert_event) (find_where (is_event e.id) rows) (recorded_event e now) rows

  abbrev pub with_rows :
      WebhookResult
      → Result String (List BillingSubscription)
      → List BillingWebhookEvent
      → Tables
      → Outcome
  with_rows r (err message) events t = record { result = r; error = some message; tables = t }
  with_rows r (ok rows) events t =
      finish (v.fails commit_tx) r t (record { events = events; subscriptions = rows })

  abbrev pub with_subscription :
      WebhookResult
      → Result String BillingSubscription
      → List BillingWebhookEvent
      → Tables
      → Outcome
  with_subscription r (err message) events t = record {
    result = r;
    error = some message;
    tables = t;
  }
  with_subscription r (ok s) events t =
      with_rows (record r { organization_id = s.organization_id; workspace_id = s.workspace_id })
        (upsert_subscription s t.subscriptions) events t

  abbrev pub after_insert :
      PolarEvent
      → Instants
      → WebhookResult
      → Result String (Bool × List BillingWebhookEvent)
      → Tables
      → Outcome
  after_insert e at r (err message) t = record { result = r; error = some message; tables = t }
  after_insert e at r (ok (false, events)) t =
      finish (v.fails commit_tx) (record r { duplicate = true }) t t
  after_insert e at r (ok (true, events)) t =
      if not (starts_with e.kind "subscription.")
      then finish (v.fails commit_tx) r t (record t { events = events })
      else with_subscription r (subscription_from_polar_event v e at.loaded) events t

  abbrev pub begun : Option String → PolarEvent → Instants → Tables → Outcome
  begun (some message) e at t = record { result = result_of e; error = some message; tables = t }
  begun none e at t =
      after_insert e at (result_of e) (insert_webhook_event e at.recorded t.events) t

  abbrev pub in_transaction : PolarEvent → Instants → Tables → Outcome
  in_transaction e at t =
      if e.id == "" || e.kind == ""
      then record {
        result = no_result;
        error = some "webhook event id and type are required";
        tables = t;
      }
      else begun (v.fails begin_tx) e at t

  abbrev pub decoded : Result String PolarEvent → WebhookHeaders → Instants → Tables → Outcome
  decoded (err message) h at t = record {
    result = no_result;
    error = some ("invalid webhook payload: " <> message);
    tables = t;
  }
  decoded (ok e) h at t = in_transaction (named e h.id) at t

  abbrev pub verified : Option String → String → WebhookHeaders → Instants → Tables → Outcome
  verified (some message) body h at t = record {
    result = no_result;
    error = some message;
    tables = t;
  }
  verified none body h at t = decoded (v.decode_event body) h at t

  -- `ProcessPolarWebhook`.
  unfoldable pub process_polar_webhook : String → WebhookHeaders → Instants → Tables → Outcome
  process_polar_webhook body h at t =
      verified (verify_standard_webhook v body h at.verified) body h at t
