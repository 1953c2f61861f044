-- ===== src/Entitlements/Tests.antt =====
-- The theorems of the limits at concrete plans and subscriptions.
use openpostfork.Prelude.{ℕ, ◌≡◌, refl, ◌↔◌, true, false, none, [], ◌∷◌, arith, eqb, ok}
use openpostfork.Prelude.Int.{pos, pos_part, leb_ℤ}
use openpostfork.Prelude.Text.{trim_space}
use openpostfork.Entitlements.{Request, PlanSnapshot, limit_workspaces}
use openpostfork.Entitlements.Subscription.{
  Decoder, Db, BillingSubscription, float, check_subscription, load_subscription,
  resolve_organization_id,
}
use openpostfork.Entitlements.Access.{GrantsFound, check_subscription-allowed}

abbrev plan : PlanSnapshot
plan = record { plan_id = "pro"; limits = (limit_workspaces, pos 3) ∷ [] }

abbrev request : Request
request = record {
  organization_id = "org";
  workspace_id = "";
  user_id = "u";
  limit = limit_workspaces;
  current = pos 2;
  amount = pos 1;
}

-- A decoder that reads every snapshot as a limit of three workspaces, over natural numbers.
abbrev decoder : Decoder
decoder = record {
  Float = ℕ;
  to_int64 = pos;
  of_int64 = pos_part;
  float_nonneg = λ x. true;
  float_eq = eqb;
  decode_limits = λ raw. ok ((limit_workspaces, float 3) ∷ []);
}

abbrev subscription : BillingSubscription
subscription = record {
  organization_id = "org";
  workspace_id = "";
  plan_id = "pro";
  status = "active";
  entitlement_snapshot = "{}";
}

abbrev db : Db
db = record {
  workspaces = [];
  subscriptions = subscription ∷ [];
  organization_members = [];
  workspace_members = [];
  failure = λ q. none;
}

check_subscription-allowed_example :
    ((check_subscription decoder none db request).0.allowed ≡ true) ↔ (
      (leb_ℤ (pos 1) (pos 0) ≡ false)
      × GrantsFound decoder request (load_subscription db "org" (trim_space "")))
unfolding resolve_organization_id trim_space
check_subscription-allowed_example =
    check_subscription-allowed decoder none db request "org" (omega arith, omega arith) (refl, refl)
