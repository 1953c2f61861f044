-- ===== src/Entitlements/Subscription.antt =====
-- backend/internal/services/entitlements/subscription.go: the service that finds the limits in the
-- subscription of the organization.
use openpostfork.Prelude.{
  String, ◌<>◌, Bool, false, not, ◌&&◌, ◌||◌, Option, none, some, List, [], ◌∷◌, ◌++◌, ◌==◌,
  if◌then◌else◌, Result, ok, err, ◌>>=◌,
}
use openpostfork.Prelude.Int.{ℤ, pos, leb_ℤ, ltb_ℤ}
use openpostfork.Prelude.Text.{trim_space, to_lower, contains}
use openpostfork.Prelude.Table.{find_where, select_where}
use openpostfork.Entitlements.{
  Request, Decision, PlanSnapshot, Limits, Answer, lookup, check, limit_workspaces,
}

-- A value that `encoding/json` decodes into `any`, over the floats of the decoder.
pub data JsonValue (Float : Type 0) : Type 0 where
  float : Float → JsonValue Float
  integer : ℤ → JsonValue Float  -- int64 and int
  number : Option ℤ → JsonValue Float  -- json.Number, with what `Int64` answers
  other : JsonValue Float  -- text, bool, list, object, null

-- `encoding/json` on a snapshot, and the float64 operations of `limitValueAsInt64`.
pub record Decoder : Type 1 where
  pub Float : Type 0
  pub to_int64 : Float → ℤ
  pub of_int64 : ℤ → Float
  pub float_nonneg : Float → Bool
  pub float_eq : Float → Float → Bool
  pub decode_limits : String → Result String (List (String × JsonValue Float))

pub record Workspace : Type 0 where
  pub id : String
  pub organization_id : String

pub record Membership : Type 0 where
  pub scope_id : String  -- the organization or the workspace
  pub user_id : String

pub record BillingSubscription : Type 0 where
  pub organization_id : String
  pub workspace_id : String
  pub plan_id : String
  pub status : String
  pub entitlement_snapshot : String

-- The queries of this file.
pub data Query : Type 0 where
  workspace_organization by_organization by_workspace organization_member workspace_member : Query

-- The tables, and the error text of each query that the driver fails.
pub record Db : Type 0 where
  pub workspaces : List Workspace
  pub subscriptions : List BillingSubscription
  pub organization_members : List Membership
  pub workspace_members : List Membership
  pub failure : Query → Option String

abbrev pub no_decision : Decision
no_decision = record {
  allowed = false;
  unlimited = false;
  limit = pos 0;
  current = pos 0;
  amount = pos 0;
  reason = "";
}

abbrev pub refused : Request → String → Decision
refused req reason = record {
  allowed = false;
  unlimited = false;
  limit = pos 0;
  current = req.current;
  amount = req.amount;
  reason = reason;
}

-- `subscriptionStatusAllowsUsage`.
unfoldable pub subscription_status_allows_usage : String → Bool
subscription_status_allows_usage status =
    let s = to_lower (trim_space status) in s == "active" || s == "trialing"

-- `organizationForWorkspace`.
abbrev pub own_organization : String → Option Workspace → String
own_organization workspace_id none = "org_" <> workspace_id
own_organization workspace_id (some w) =
    if trim_space w.organization_id == ""
    then "org_" <> workspace_id
    else trim_space w.organization_id

unfoldable pub organization_for_workspace : Db → String → Result String String
organization_for_workspace db workspace_id = elim (db.failure workspace_organization) [
  | some message ↦ err ("loading workspace organization: " <> message)
  | none ↦ ok (own_organization workspace_id (find_where (λ w. w.id == workspace_id) db.workspaces))
]

unfoldable pub resolve_organization_id : Db → Request → Result String String
resolve_organization_id db req =
    let organization_id = trim_space req.organization_id in
    if not (organization_id == "") || trim_space req.workspace_id == ""
    then ok organization_id
    else organization_for_workspace db (trim_space req.workspace_id)

-- `loadSubscription`: `none` is `sql.ErrNoRows`.
abbrev pub or_by_workspace :
    Db → String → Option BillingSubscription → Result String (Option BillingSubscription)
or_by_workspace db workspace_id (some sub) = ok (some sub)
or_by_workspace db workspace_id none =
    if workspace_id == "" then ok none else elim (db.failure by_workspace) [
      | some message ↦ err message
      | none ↦ ok (find_where (λ s. s.workspace_id == workspace_id) db.subscriptions)
    ]

unfoldable pub load_subscription : Db → String → String → Result String (Option BillingSubscription)
load_subscription db organization_id workspace_id = elim (db.failure by_organization) [
  | some message ↦ err message
  | none ↦
      or_by_workspace db workspace_id
        (find_where (λ s. s.organization_id == organization_id) db.subscriptions)
]

-- The rows of a join of the subscriptions with the memberships of a user.
joined :
    (BillingSubscription → String)
    → List Membership
    → String
    → List BillingSubscription
    → List BillingSubscription
joined key [] user_id subs = []
joined key (m ∷ ms) user_id subs =
    let rest = joined key ms user_id subs in
    if m.user_id == user_id then select_where (λ s. key s == m.scope_id) subs ++ rest else rest

-- The two queries of `checkUserWorkspaceLimit`: the second one runs where the first one failed
-- for want of the table of members.
unfoldable pub user_subscriptions : Db → String → Result String (List BillingSubscription)
unfolding joined
user_subscriptions db user_id =
    let older : Result String (List BillingSubscription) = elim (db.failure workspace_member) [
      | some message ↦ err ("loading user subscriptions: " <> message)
      | none ↦ ok (joined (λ s. s.workspace_id) db.workspace_members user_id db.subscriptions)
    ] in
    elim (db.failure organization_member) [
      | none ↦ ok (joined (λ s. s.organization_id) db.organization_members user_id db.subscriptions)
      | some message ↦
          if contains (to_lower message) "organization_members"
          then older
          else err ("loading user subscriptions: " <> message)
    ]

module _ (D : Decoder) where
  open D use {Float, to_int64, of_int64, float_nonneg, float_eq, decode_limits}

  nonneg : ℤ → Option ℤ
  nonneg z = if leb_ℤ (pos 0) z then some z else none

  -- `limitValueAsInt64`; `none` is `false`.
  unfoldable pub limit_value_as_int64 : JsonValue Float → Option ℤ
  unfolding nonneg
  limit_value_as_int64 (float x) =
      if float_nonneg x && float_eq x (of_int64 (to_int64 x)) then some (to_int64 x) else none
  limit_value_as_int64 (integer z) = nonneg z
  limit_value_as_int64 (number none) = none
  limit_value_as_int64 (number (some z)) = nonneg z
  limit_value_as_int64 other = none

  read_limits : List (String × JsonValue Float) → Result String Limits
  read_limits [] = ok []
  read_limits ((key, value) ∷ rest) =
      let tail = read_limits rest in
      elim (limit_value_as_int64 value) [
        | none ↦ err ("invalid limit value for " <> key)
        | some amount ↦ (tail >>= λ limits. ok ((key, amount) ∷ limits))
      ]

  -- `parseSubscriptionSnapshot`.
  unfoldable pub parse_subscription_snapshot : String → Result String Limits
  unfolding read_limits
  parse_subscription_snapshot raw =
      if trim_space raw == "" then ok [] else elim (decode_limits raw) [
        | err message ↦ err ("invalid entitlement snapshot: " <> message)
        | ok values ↦ read_limits values
      ]

  -- The loop of `checkUserWorkspaceLimit`, with the largest limit so far.
  abbrev pub larger : Option ℤ → ℤ → Option ℤ
  larger none limit = some limit
  larger (some best) limit = if ltb_ℤ best limit then some limit else some best

  abbrev pub larger? : Option ℤ → Option ℤ → Option ℤ
  larger? best none = best
  larger? best (some limit) = larger best limit

  unfoldable pub max_workspace_limit :
      Option ℤ → List BillingSubscription → Result String (Option ℤ)
  max_workspace_limit best [] = ok best
  max_workspace_limit best (sub ∷ subs) =
      let skip = max_workspace_limit best subs in
      let take = λ (limits : Limits).
        max_workspace_limit (larger? best (lookup limit_workspaces limits)) subs in
      if subscription_status_allows_usage sub.status
      then (parse_subscription_snapshot sub.entitlement_snapshot >>= take)
      else skip

  abbrev pub user_plan : ℤ → PlanSnapshot
  user_plan limit = record {
    plan_id = "user-subscription";
    limits = (limit_workspaces, limit) ∷ [];
  }

  -- `checkUserWorkspaceLimit`; `none` means that no limit was found.
  unfoldable pub check_user_workspace_limit : Db → Request → Result String (Option Answer)
  check_user_workspace_limit db req = do
    subs ← user_subscriptions db req.user_id
    found ← max_workspace_limit none subs
    ok (elim found [ none ↦ none | some limit ↦ some (check (user_plan limit) req) ])

  -- The fallback service, where there is one.
  abbrev pub or_fallback : Option (Request → Answer) → Request → Answer
  or_fallback (some service) req = service req
  or_fallback none req = (refused req "", some "workspace id is required")

  abbrev pub of_user_limit :
      Option (Request → Answer) → Request → Result String (Option Answer) → Answer
  of_user_limit fallback req (err message) = (no_decision, some message)
  of_user_limit fallback req (ok (some (decision, none))) = (decision, none)
  of_user_limit fallback req (ok (some (decision, some message))) = (no_decision, some message)
  of_user_limit fallback req (ok none) = or_fallback fallback req

  unfoldable pub check_unscoped : Option (Request → Answer) → Db → Request → Answer
  check_unscoped fallback db req =
      if req.limit == limit_workspaces && not (trim_space req.user_id == "")
      then of_user_limit fallback req (check_user_workspace_limit db req)
      else or_fallback fallback req

  abbrev pub with_snapshot : BillingSubscription → Request → Result String Limits → Answer
  with_snapshot sub req (err message) = (no_decision, some message)
  with_snapshot sub req (ok limits) = check (record { plan_id = sub.plan_id; limits = limits }) req

  unfoldable pub with_subscription : Request → Result String (Option BillingSubscription) → Answer
  with_subscription req (err message) = (no_decision, some ("loading subscription: " <> message))
  with_subscription req (ok none) = (refused req "active subscription required", none)
  with_subscription req (ok (some sub)) =
      if subscription_status_allows_usage sub.status
      then with_snapshot sub req (parse_subscription_snapshot sub.entitlement_snapshot)
      else (refused req "active subscription required", none)

  in_scope : Option (Request → Answer) → Db → Request → String → Answer
  in_scope fallback db req organization_id =
      if trim_space req.workspace_id == "" && organization_id == ""
      then check_unscoped fallback db req
      else if leb_ℤ req.amount (pos 0)
      then (refused req "", some "entitlement check amount must be positive")
      else with_subscription req
          (load_subscription db organization_id (trim_space req.workspace_id))

  -- `SubscriptionService.Check`.
  unfoldable pub check_subscription : Option (Request → Answer) → Db → Request → Answer
  unfolding in_scope
  check_subscription fallback db req = elim (resolve_organization_id db req) [
    | err message ↦ (no_decision, some message)
    | ok organization_id ↦ in_scope fallback db req organization_id
  ]
