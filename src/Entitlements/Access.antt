-- ===== src/Entitlements/Access.antt =====
-- What a subscription has to be like for a request to be allowed.
use openpostfork.Prelude.{
  String, ◌≡◌, refl, sym, subst, ◌↔◌, inl, inr, true, false, ◌&&◌, Option, none, some, List, [],
  ◌∷◌, arith, ◌==◌, Bool-cases, All, Result, ok, err, Result-cases,
}
use openpostfork.Prelude.Int.{ℤ, pos, leb_ℤ, ltb_ℤ, ◌≤ℤ◌}
use openpostfork.Prelude.Text.{trim_space}
use openpostfork.Entitlements.{Request, Limits, Answer, lookup, limit_workspaces}
use openpostfork.Entitlements.Limits.{Fits, HasRoom, check-allowed}
use openpostfork.Entitlements.Subscription.{
  Decoder, Db, BillingSubscription, check_subscription, resolve_organization_id, load_subscription,
  with_subscription, with_snapshot, subscription_status_allows_usage, parse_subscription_snapshot,
  max_workspace_limit, larger?,
}

-- The request names an organization, itself or through its workspace.
abbrev pub IsScoped : Db → Request → String → Type 0
IsScoped db req organization_id =
    (resolve_organization_id db req ≡ ok organization_id)
    × ((trim_space req.workspace_id == "" && organization_id == "") ≡ false)

module _ (D : Decoder) where
  -- The subscription is in good standing, and its limits leave room for the request.
  abbrev pub Grants : Request → BillingSubscription → Type 0
  Grants req sub =
      (subscription_status_allows_usage sub.status ≡ true)
      × ((limits : Limits) × (parse_subscription_snapshot D sub.entitlement_snapshot ≡ ok limits)
          × HasRoom (record { plan_id = sub.plan_id; limits = limits }) req)

  -- What `loadSubscription` answered grants the request.
  abbrev pub GrantsFound : Request → Result String (Option BillingSubscription) → Type 0
  GrantsFound req (err message) = ⊥
  GrantsFound req (ok none) = ⊥
  GrantsFound req (ok (some sub)) = Grants req sub

  with_snapshot_iff :
      (req : Request) (sub : BillingSubscription) (parsed : Result String Limits)
      → Fits req
      → ((with_snapshot D sub req parsed).0.allowed ≡ true) ↔ (
          (limits : Limits) × (parsed ≡ ok limits)
          × (leb_ℤ req.amount (pos 0) ≡ false)
          × HasRoom (record { plan_id = sub.plan_id; limits = limits }) req)
  with_snapshot_iff req sub (err message) fits = (λ h. cc, λ h. cc (h.1))
  with_snapshot_iff req sub (ok limits) fits = (
    λ h. let r = (check-allowed _ req fits).0 h in (limits, refl, r.0, r.1),
    λ h. (check-allowed _ req fits).1 (
      h.2,
      subst (λ l. HasRoom (record { plan_id = sub.plan_id; limits = l }) req)
          (let e : limits ≡ h.0 = cc (h.1) in sym e) h.3,
    ),
  )

  with_subscription_iff :
      (req : Request) (found : Result String (Option BillingSubscription))
      → Fits req
      → leb_ℤ req.amount (pos 0) ≡ false
      → ((with_subscription D req found).0.allowed ≡ true) ↔ GrantsFound req found
  unfolding with_subscription
  with_subscription_iff req (err message) fits positive = (λ h. cc, λ h. absurd h)
  with_subscription_iff req (ok none) fits positive = (λ h. cc, λ h. absurd h)
  with_subscription_iff req (ok (some sub)) fits positive =
      elim (Bool-cases (subscription_status_allows_usage sub.status)) [
        | inr e ↦ rw e (λ h. cc, λ h. cc (h.0))
        | inl e ↦
            let w =
              with_snapshot_iff req sub (parse_subscription_snapshot D sub.entitlement_snapshot)
                fits in
            rw e (
              λ h. let r = w.0 h in (refl, (r.0, r.1, r.3)),
              λ h. w.1 (h.1.0, h.1.1, positive, h.1.2),
            )
      ]

  -- A request in the scope of an organization is allowed exactly when its amount is positive and the
  -- subscription that is loaded for it is active or in trial, with a valid snapshot whose limits
  -- leave room; no fallback comes in. (The sum of the counter and the amount fits in an int64.)
  pub check_subscription-allowed :
      (fallback : Option (Request → Answer)) (db : Db) (req : Request) (organization_id : String)
      → Fits req
      → IsScoped db req organization_id
      → ((check_subscription D fallback db req).0.allowed ≡ true) ↔ (
          (leb_ℤ req.amount (pos 0) ≡ false)
          × GrantsFound req (load_subscription db organization_id (trim_space req.workspace_id)))
  unfolding check_subscription
  check_subscription-allowed fallback db req organization_id fits scoped =
      rw (scoped.0, scoped.1, check_subscription)
        (elim (Bool-cases (leb_ℤ req.amount (pos 0))) [
          | inl e ↦ rw e (λ h. cc, λ h. cc (h.0))
          | inr e ↦
              let w =
                with_subscription_iff req
                  (load_subscription db organization_id (trim_space req.workspace_id)) fits e in
              rw e (λ h. (refl, w.0 h), λ h. w.1 h.1)
        ])

  -- The order of two limits, where none is the lowest.
  abbrev pub AtMost : Option ℤ → Option ℤ → Type 0
  AtMost none best = Unit {0}
  AtMost (some limit) none = ⊥
  AtMost (some limit) (some best) = limit ≤ℤ best

  AtMost-refl : (a : Option ℤ) → AtMost a a
  AtMost-refl none = tt
  AtMost-refl (some x) = omega arith

  AtMost-trans : (a b c : Option ℤ) → AtMost a b → AtMost b c → AtMost a c
  AtMost-trans none b c h k = tt
  AtMost-trans (some x) (some y) (some z) h k = omega arith
  AtMost-trans (some x) (some y) none h k = absurd k
  AtMost-trans (some x) none c h k = absurd h

  AtMost-larger? : (a b : Option ℤ) → AtMost a (larger? D a b) × AtMost b (larger? D a b)
  AtMost-larger? none none = (tt, tt)
  AtMost-larger? none (some y) = (tt, omega arith)
  AtMost-larger? (some x) none = (omega arith, tt)
  AtMost-larger? (some x) (some y) = elim (Bool-cases (ltb_ℤ x y)) [
    | inl e ↦ rw e (ground arith, omega arith)
    | inr e ↦ rw e (omega arith, ground arith)
  ]

  -- The subscription's own workspace limit is at most the given one.
  abbrev pub Covered : Option ℤ → BillingSubscription → Type 0
  Covered best sub =
      subscription_status_allows_usage sub.status ≡ true
      → (limits : Limits) × (parse_subscription_snapshot D sub.entitlement_snapshot ≡ ok limits)
        × AtMost (lookup limit_workspaces limits) best

  -- The limit found over a user's subscriptions is no less than that of any of them in good
  -- standing, all of whose snapshots are valid.
  pub max_workspace_limit_lem :
      (best found : Option ℤ) (subs : List BillingSubscription)
      → max_workspace_limit D best subs ≡ ok found
      → AtMost best found × All (Covered found) subs
  unfolding max_workspace_limit
  max_workspace_limit_lem best found [] h =
      (subst (AtMost best) (let e : best ≡ found = cc h in e) (AtMost-refl best), tt)
  max_workspace_limit_lem best found (sub ∷ subs) h =
      elim (Bool-cases (subscription_status_allows_usage sub.status)) [
        | inr e ↦
            let r = max_workspace_limit_lem best found subs (rw e at h) in (r.0, ((λ d. cc), r.1))
        | inl e ↦ elim (Result-cases (parse_subscription_snapshot D sub.entitlement_snapshot)) [
          | inl f ↦ let g : err f.0 ≡ ok found = (rw (e, f.1) at h) in cc
          | inr q ↦
              let best' = larger? D best (lookup limit_workspaces q.0) in
              let r = max_workspace_limit_lem best' found subs (rw (e, q.1) at h) in
              let m = AtMost-larger? best (lookup limit_workspaces q.0) in
              (
                AtMost-trans best best' found m.0 r.0,
                (
                  (λ d. (q.0, q.1, AtMost-trans (lookup limit_workspaces q.0) best' found m.1 r.0)),
                  r.1,
                ),
              )
        ]
      ]
