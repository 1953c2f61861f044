-- ===== src/Billing/Tenancy.antt =====
-- A webhook changes the subscription of one organization.
use openpostfork.Prelude.{
  String, ◌<>◌, ◌≡◌, refl, sym, ap, ◌∙◌, inl, inr, Bool, true, false, ◌||◌, Option, none, some,
  List, [], ◌∷◌, ◌==◌, eq_iff, Bool-cases, Result, ok, err,
}
use text.Mathlib.Text.{starts_with}
use openpostfork.Prelude.Table.{find_where, update_where}
use openpostfork.Billing.{
  PolarEvent, BillingSubscription, BillingWebhookEvent, Tables, begin_tx, commit_tx, upsert,
  BillingServices, WebhookHeaders, WebhookResult, Instants,
}
use openpostfork.Billing.Signature.{verify_standard_webhook}
use openpostfork.Billing.Event.{subscription_from_polar_event}
use openpostfork.Billing.Webhook.{
  Outcome, is_organization, clashes, overwritten, put_subscription, upsert_checked,
  upsert_subscription, insert_webhook_event, finish, with_rows, with_subscription, after_insert,
  begun, named, in_transaction, decoded, verified, process_polar_webhook, result_of,
}

abbrev pub row_for : String → List BillingSubscription → Option BillingSubscription
row_for org rows = find_where (is_organization org) rows

-- Another organization than the one of the result keeps its row.
abbrev pub OthersKeep : Tables → Outcome → Type 0
OthersKeep t o =
    (org : String)
    → (o.result.organization_id == org) ≡ false
    → row_for org o.tables.subscriptions ≡ row_for org t.subscriptions

overwrite_other :
    (org : String) (s : BillingSubscription) (rows : List BillingSubscription)
    → (s.organization_id == org) ≡ false
    → row_for org (update_where (is_organization s.organization_id) (overwritten s) rows)
      ≡ row_for org rows
overwrite_other org s [] h = refl
overwrite_other org s (r ∷ rows) h = elim (Bool-cases (r.organization_id == s.organization_id)) [
  | inr e ↦ rw e (elim (Bool-cases (r.organization_id == org)) [
    | inl q ↦ rw q refl
    | inr q ↦ rw q (overwrite_other org s rows h)
  ])
  | inl e ↦
      let same = (eq_iff r.organization_id s.organization_id).0 e in
      let other : (r.organization_id == org) ≡ false = ap (λ x. x == org) same ∙ h in
      rw (e, other) (overwrite_other org s rows h)
]

put_other :
    (org : String) (old : Option BillingSubscription) (s : BillingSubscription)
    (rows : List BillingSubscription)
    → (s.organization_id == org) ≡ false
    → row_for org (put_subscription old s rows) ≡ row_for org rows
put_other org none s rows h = rw h refl
put_other org (some old) s rows h = overwrite_other org s rows h

module _ {F : Type 0} (v : BillingServices F) where
  checked_other :
      (org : String) (o : Option String) (clash : Option BillingSubscription)
      (s : BillingSubscription) (rows rows' : List BillingSubscription)
      → upsert_checked v o clash s rows ≡ ok rows'
      → (s.organization_id == org) ≡ false
      → row_for org rows' ≡ row_for org rows
  checked_other org (some message) clash s rows rows' done h =
      absurd (let g : err ("upserting billing subscription: " <> message) ≡ ok rows' = done in cc)
  checked_other org none (some clash) s rows rows' done h =
      absurd (
        let g : err ("upserting billing subscription: " <> v.unique_message) ≡ ok rows' = done in
        cc)
  checked_other org none none s rows rows' done h =
      let same : put_subscription (row_for s.organization_id rows) s rows ≡ rows' = cc in
      ap (row_for org) (sym same) ∙ put_other org (row_for s.organization_id rows) s rows h

  finish-OthersKeep :
      (o : Option String) (r : WebhookResult) (t t' : Tables)
      → OthersKeep t (record { result = r; error = none; tables = t' })
      → OthersKeep t (finish o r t t')
  finish-OthersKeep (some message) r t t' h = λ org q. refl
  finish-OthersKeep none r t t' h = h

  with_rows-OthersKeep :
      (r : WebhookResult) (s : BillingSubscription)
      (rows : Result String (List BillingSubscription)) (events : List BillingWebhookEvent)
      (t : Tables)
      → upsert_subscription v s t.subscriptions ≡ rows
      → r.organization_id ≡ s.organization_id
      → OthersKeep t (with_rows v r rows events t)
  unfolding upsert_subscription
  with_rows-OthersKeep r s (err message) events t p e = λ org q. refl
  with_rows-OthersKeep r s (ok rows) events t p e =
      finish-OthersKeep (v.fails commit_tx) r t (record { events = events; subscriptions = rows })
        (λ org q.
          checked_other org (v.fails upsert) (find_where (clashes s) t.subscriptions) s
            t.subscriptions rows p (ap (λ x. x == org) (sym e) ∙ q))

  with_subscription-OthersKeep :
      (r : WebhookResult) (s : Result String BillingSubscription)
      (events : List BillingWebhookEvent) (t : Tables)
      → OthersKeep t (with_subscription v r s events t)
  with_subscription-OthersKeep r (err message) events t = λ org q. refl
  with_subscription-OthersKeep r (ok s) events t =
      with_rows-OthersKeep
        (record r { organization_id = s.organization_id; workspace_id = s.workspace_id }) s
        (upsert_subscription v s t.subscriptions) events t refl refl

  after_insert-OthersKeep :
      (e : PolarEvent) (at : Instants) (r : WebhookResult)
      (x : Result String (Bool × List BillingWebhookEvent)) (t : Tables)
      → OthersKeep t (after_insert v e at r x t)
  after_insert-OthersKeep e at r (err message) t = λ org q. refl
  after_insert-OthersKeep e at r (ok (false, events)) t =
      finish-OthersKeep (v.fails commit_tx) (record r { duplicate = true }) t t (λ org q. refl)
  after_insert-OthersKeep e at r (ok (true, events)) t =
      elim (Bool-cases (starts_with e.kind "subscription.")) [
        | inl q ↦
            rw q (
              with_subscription-OthersKeep r (subscription_from_polar_event v e at.loaded) events t)
        | inr q ↦ rw q (
            finish-OthersKeep (v.fails commit_tx) r t (record t { events = events })
              (λ org k. refl))
      ]

  begun-OthersKeep :
      (o : Option String) (e : PolarEvent) (at : Instants) (t : Tables)
      → OthersKeep t (begun v o e at t)
  begun-OthersKeep (some message) e at t = λ org q. refl
  begun-OthersKeep none e at t =
      after_insert-OthersKeep e at (result_of e) (insert_webhook_event v e at.recorded t.events) t

  in_transaction-OthersKeep :
      (e : PolarEvent) (at : Instants) (t : Tables) → OthersKeep t (in_transaction v e at t)
  in_transaction-OthersKeep e at t = elim (Bool-cases (e.id == "" || e.kind == "")) [
    | inl q ↦ rw q (λ org k. refl)
    | inr q ↦ rw q (begun-OthersKeep (v.fails begin_tx) e at t)
  ]

  decoded-OthersKeep :
      (r : Result String PolarEvent) (h : WebhookHeaders) (at : Instants) (t : Tables)
      → OthersKeep t (decoded v r h at t)
  decoded-OthersKeep (err message) h at t = λ org q. refl
  decoded-OthersKeep (ok e) h at t = in_transaction-OthersKeep (named e h.id) at t

  verified-OthersKeep :
      (o : Option String) (body : String) (h : WebhookHeaders) (at : Instants) (t : Tables)
      → OthersKeep t (verified v o body h at t)
  verified-OthersKeep (some message) body h at t = λ org q. refl
  verified-OthersKeep none body h at t = decoded-OthersKeep (v.decode_event body) h at t

  -- A webhook leaves the subscription of every organization other than the one that its result names
  -- as it was, errors and duplicates included.
  pub process_polar_webhook-OthersKeep :
      (body : String) (h : WebhookHeaders) (at : Instants) (t : Tables)
      → OthersKeep t (process_polar_webhook v body h at t)
  unfolding process_polar_webhook
  process_polar_webhook-OthersKeep body h at t =
      verified-OthersKeep (verify_standard_webhook v body h at.verified) body h at t
