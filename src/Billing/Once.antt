-- ===== src/Billing/Once.antt =====
-- A webhook is applied once, and only with a signature of the secret.
use openpostfork.Prelude.{
  String, ◌<>◌, ◌≡◌, refl, sym, ap, ◌∙◌, subst, ◌⊎◌, inl, inr, true, ◌||◌, Option, none, some, List,
  ◌∷◌, ◌==◌, eq_refl, Bool-cases, Option-cases, Result, ok, err,
}
use text.Mathlib.Text.{starts_with}
use openpostfork.Prelude.Table.{find_where}
use openpostfork.Billing.{
  PolarEvent, BillingSubscription, BillingWebhookEvent, Tables, insert_event, begin_tx, commit_tx,
  BillingServices, WebhookHeaders, WebhookResult, Instants,
}
use openpostfork.Billing.Signature.{verify_standard_webhook}
use openpostfork.Billing.Event.{subscription_from_polar_event}
use openpostfork.Billing.Webhook.{
  Outcome, finish, with_rows, with_subscription, after_insert, begun, named, in_transaction,
  process_polar_webhook, insert_webhook_event, upsert_subscription, is_event, recorded_event,
  result_of,
}

-- The event has a row.
abbrev pub Recorded : String → Tables → Type 0
Recorded id t = (r : BillingWebhookEvent) × (find_where (is_event id) t.events ≡ some r)

-- An outcome that ends with the event recorded, or with an error and the tables as they were.
abbrev pub AllOrNothing : PolarEvent → Tables → Outcome → Type 0
AllOrNothing e t o =
    ((message : String) × (o.error ≡ some message) × (o.tables ≡ t))
    ⊎ ((o.error ≡ none) × Recorded e.id o.tables)

module _ {F : Type 0} (v : BillingServices F) where
  finish-AllOrNothing :
      (e : PolarEvent) (o : Option String) (r : WebhookResult) (t t' : Tables)
      → Recorded e.id t'
      → AllOrNothing e t (finish o r t t')
  finish-AllOrNothing e (some message) r t t' h = inl (message, refl, refl)
  finish-AllOrNothing e none r t t' h = inr (refl, h)

  with_rows-AllOrNothing :
      (e : PolarEvent) (r : WebhookResult) (rows : Result String (List BillingSubscription))
      (events : List BillingWebhookEvent) (t : Tables)
      → ((b : BillingWebhookEvent) × (find_where (is_event e.id) events ≡ some b))
      → AllOrNothing e t (with_rows v r rows events t)
  with_rows-AllOrNothing e r (err message) events t h = inl (message, refl, refl)
  with_rows-AllOrNothing e r (ok rows) events t h =
      finish-AllOrNothing e (v.fails commit_tx) r t
        (record { events = events; subscriptions = rows }) h

  with_subscription-AllOrNothing :
      (e : PolarEvent) (r : WebhookResult) (s : Result String BillingSubscription)
      (events : List BillingWebhookEvent) (t : Tables)
      → ((b : BillingWebhookEvent) × (find_where (is_event e.id) events ≡ some b))
      → AllOrNothing e t (with_subscription v r s events t)
  with_subscription-AllOrNothing e r (err message) events t h = inl (message, refl, refl)
  with_subscription-AllOrNothing e r (ok s) events t h =
      with_rows-AllOrNothing e
        (record r { organization_id = s.organization_id; workspace_id = s.workspace_id })
        (upsert_subscription v s t.subscriptions) events t h

  new_event-AllOrNothing :
      (e : PolarEvent) (at : Instants) (r : WebhookResult) (t : Tables)
      → AllOrNothing e t
          (after_insert v e at r (ok (true, recorded_event e at.recorded ∷ t.events)) t)
  new_event-AllOrNothing e at r t =
      let row = recorded_event e at.recorded in
      let there : (b : BillingWebhookEvent) × (find_where (is_event e.id) (row ∷ t.events)
            ≡ some b) =
        (row, rw (eq_refl e.id) refl) in
      elim (Bool-cases (starts_with e.kind "subscription.")) [
        | inl q ↦ rw q (
            with_subscription-AllOrNothing e r (subscription_from_polar_event v e at.loaded)
              (row ∷ t.events) t there)
        | inr q ↦ rw q (
            finish-AllOrNothing e (v.fails commit_tx) r t (record t { events = row ∷ t.events })
              there)
      ]

  old_event-AllOrNothing :
      (e : PolarEvent) (at : Instants) (r : WebhookResult) (t : Tables) (o : Option String)
      (x : Option BillingWebhookEvent)
      → v.fails insert_event ≡ o
      → find_where (is_event e.id) t.events ≡ x
      → AllOrNothing e t (after_insert v e at r (insert_webhook_event v e at.recorded t.events) t)
  unfolding insert_webhook_event
  old_event-AllOrNothing e at r t (some message) x p q =
      rw (p, insert_webhook_event) (inl ("recording webhook event: " <> message, refl, refl))
  old_event-AllOrNothing e at r t none (some row) p q =
      rw (p, q, insert_webhook_event)
        (finish-AllOrNothing e (v.fails commit_tx) (record r { duplicate = true }) t t (row, q))
  old_event-AllOrNothing e at r t none none p q =
      rw (p, q, insert_webhook_event) (new_event-AllOrNothing e at r t)

  begun-AllOrNothing :
      (o : Option String) (e : PolarEvent) (at : Instants) (t : Tables)
      → AllOrNothing e t (begun v o e at t)
  begun-AllOrNothing (some message) e at t = inl (message, refl, refl)
  begun-AllOrNothing none e at t =
      old_event-AllOrNothing e at (result_of e) t (v.fails insert_event)
        (find_where (is_event e.id) t.events) refl refl

  in_transaction-AllOrNothing :
      (e : PolarEvent) (at : Instants) (t : Tables) → AllOrNothing e t (in_transaction v e at t)
  in_transaction-AllOrNothing e at t = elim (Bool-cases (e.id == "" || e.kind == "")) [
    | inl q ↦ rw q (inl ("webhook event id and type are required", refl, refl))
    | inr q ↦ rw q (begun-AllOrNothing (v.fails begin_tx) e at t)
  ]

  -- With a row of the event nothing changes.
  replay_same :
      (e : PolarEvent) (at : Instants) (t : Tables)
      → Recorded e.id t
      → (in_transaction v e at t).tables ≡ t
  unfolding insert_webhook_event
  replay_same e at t h = elim (Bool-cases (e.id == "" || e.kind == "")) [
    | inl q ↦ rw q refl
    | inr q ↦ rw q (elim (Option-cases (v.fails begin_tx)) [
      | inr p ↦ rw p.1 refl
      | inl p ↦ rw p (elim (Option-cases (v.fails insert_event)) [
        | inr i ↦ rw (i.1, insert_webhook_event) refl
        | inl i ↦
            rw (i, h.1, insert_webhook_event)
              (elim (Option-cases (v.fails commit_tx)) [ inr c ↦ rw c.1 refl | inl c ↦ rw c refl ])
      ])
    ])
  ]

  done-Recorded :
      (e : PolarEvent) (at : Instants) (t : Tables)
      → (in_transaction v e at t).error ≡ none
      → Recorded e.id (in_transaction v e at t).tables
  done-Recorded e at t done = elim (in_transaction-AllOrNothing e at t) [
    | inl h ↦ let clash : some h.0 ≡ none = sym h.1 ∙ done in cc
    | inr h ↦ h.1
  ]

  process_tail :
      (body : String) (h : WebhookHeaders) (at : Instants) (t : Tables) (e : PolarEvent)
      → verify_standard_webhook v body h at.verified ≡ none
      → v.decode_event body ≡ ok e
      → process_polar_webhook v body h at t ≡ in_transaction v (named e h.id) at t
  unfolding process_polar_webhook
  process_tail body h at t e p q = rw (p, q, process_polar_webhook) refl

  replay_of :
      (body : String) (h h' : WebhookHeaders) (later : Instants) (t : Tables) (e : PolarEvent)
      (o : Option String)
      → h'.id ≡ h.id
      → v.decode_event body ≡ ok e
      → Recorded (named e h.id).id t
      → verify_standard_webhook v body h' later.verified ≡ o
      → (process_polar_webhook v body h' later t).tables ≡ t
  unfolding process_polar_webhook
  replay_of body h h' later t e (some message) same q r p = rw (p, process_polar_webhook) refl
  replay_of body h h' later t e none same q r p =
      rw (p, q, same, process_polar_webhook) (replay_same (named e h.id) later t r)

  after_event :
      (body : String) (h h' : WebhookHeaders) (at later : Instants) (t : Tables) (e : PolarEvent)
      → h'.id ≡ h.id
      → verify_standard_webhook v body h at.verified ≡ none
      → v.decode_event body ≡ ok e
      → (process_polar_webhook v body h at t).error ≡ none
      → (process_polar_webhook v body h' later (process_polar_webhook v body h at t).tables).tables
        ≡ (process_polar_webhook v body h at t).tables
  after_event body h h' at later t e same p q done =
      let first = process_tail body h at t e p q in
      replay_of body h h' later (process_polar_webhook v body h at t).tables e
        (verify_standard_webhook v body h' later.verified) same q
        (subst (λ (o : Outcome). Recorded (named e h.id).id o.tables) (sym first)
          (done-Recorded (named e h.id) at t (ap (λ (o : Outcome). o.error) (sym first) ∙ done)))
        refl

  verified_only :
      (body : String) (h : WebhookHeaders) (at : Instants) (t : Tables) (o : Option String)
      → verify_standard_webhook v body h at.verified ≡ o
      → (process_polar_webhook v body h at t).error ≡ none
      → o ≡ none
  unfolding process_polar_webhook
  verified_only body h at t none p done = refl
  verified_only body h at t (some message) p done = cc (rw (p, process_polar_webhook) at done)

  decoded_only :
      (body : String) (h : WebhookHeaders) (at : Instants) (t : Tables)
      (r : Result String PolarEvent)
      → verify_standard_webhook v body h at.verified ≡ none
      → v.decode_event body ≡ r
      → (process_polar_webhook v body h at t).error ≡ none
      → (e : PolarEvent) × (r ≡ ok e)
  unfolding process_polar_webhook
  decoded_only body h at t (ok e) p q done = (e, refl)
  decoded_only body h at t (err message) p q done = cc (rw (p, q, process_polar_webhook) at done)

  -- A webhook that is delivered again with the same body and id, at any time and under any signature,
  -- changes nothing once a delivery has ended without an error.
  pub process-process :
      (body : String) (h h' : WebhookHeaders) (at later : Instants) (t : Tables)
      → h'.id ≡ h.id
      → (process_polar_webhook v body h at t).error ≡ none
      → (process_polar_webhook v body h' later (process_polar_webhook v body h at t).tables).tables
        ≡ (process_polar_webhook v body h at t).tables
  process-process body h h' at later t same done =
      let p = verified_only body h at t (verify_standard_webhook v body h at.verified) refl done in
      let q = decoded_only body h at t (v.decode_event body) p refl done in
      after_event body h h' at later t q.0 same p q.1 done
