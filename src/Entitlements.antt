-- ===== src/Entitlements.antt =====
-- backend/internal/services/entitlements/service.go: the plan limits, and the static service that
-- checks a request against them.
pub mod Limits
pub mod Subscription
pub mod Access
mod Tests
use openpostfork.Prelude.{
  ℕ, zero, suc, ◌+◌, ◌-◌, ◌*◌, ◌/◌, ◌%◌, ◌^◌, ◌≤◌, ◌<◌, min, max, String, ◌<>◌, ◌≡◌, refl, sym, ap,
  ◌∙◌, subst, fun_ext, ◌≢◌, ◌↔◌, ◌⊎◌, inl, inr, Bool, true, false, not, ◌&&◌, ◌||◌, Option, none,
  some, List, [], ◌∷◌, ◌++◌, map, arith, ◌==◌, eq_iff, eq_refl, ltb, leb, eqb, if◌then◌else◌,
  leb→le, le→leb, leb→lt, Bool-cases, Option-cases, ==_of_ne, length, All, length-append, All-map,
  Result, ok, err, ◌>>=◌, or_fail,
}
use openpostfork.Prelude.Int.{ℤ, pos, negsuc, add64, leb_ℤ, ltb_ℤ, neg_part, pos_part}
use openpostfork.Prelude.Text.{decimal}

-- `LimitKey` is a string with these constants.
abbrev pub limit_workspaces : String
limit_workspaces = "workspaces"

abbrev pub limit_social_accounts : String
limit_social_accounts = "social_accounts"

abbrev pub limit_scheduled_posts_monthly : String
limit_scheduled_posts_monthly = "scheduled_posts_monthly"

abbrev pub limit_published_posts_monthly : String
limit_published_posts_monthly = "published_posts_monthly"

abbrev pub limit_media_bytes_stored : String
limit_media_bytes_stored = "media_bytes_stored"

abbrev pub limit_media_bytes_uploaded_monthly : String
limit_media_bytes_uploaded_monthly = "media_bytes_uploaded_monthly"

abbrev pub limit_provider_write_calls_monthly : String
limit_provider_write_calls_monthly = "provider_write_calls_monthly"

abbrev pub limit_team_members : String
limit_team_members = "team_members"

pub record Request : Type 0 where
  pub organization_id : String
  pub workspace_id : String
  pub user_id : String
  pub limit : String
  pub current : ℤ
  pub amount : ℤ

pub record Decision : Type 0 where
  pub allowed : Bool
  pub unlimited : Bool
  pub limit : ℤ
  pub current : ℤ
  pub amount : ℤ
  pub reason : String

-- `map[LimitKey]int64`.
abbrev pub Limits : Type 0
Limits = List (String × ℤ)

pub record PlanSnapshot : Type 0 where
  pub plan_id : String
  pub limits : Limits

unfoldable pub lookup {ℓ} : {V : Type ℓ} → String → List (String × V) → Option V
lookup key [] = none
lookup key ((k, v) ∷ rest) = if k == key then some v else lookup key rest

-- What a check returns: the decision together with an error.
abbrev pub Answer : Type 0
Answer = Decision × Option String

abbrev pub show_ℤ : ℤ → String
show_ℤ z = if ltb_ℤ z (pos 0) then "-" <> decimal (neg_part z) else decimal (pos_part z)

pub exceeded : Request → ℤ → String
exceeded req limit =
    req.limit
    <> " limit exceeded: current "
    <> show_ℤ req.current
    <> " + requested "
    <> show_ℤ req.amount
    <> " > limit "
    <> show_ℤ limit

abbrev pub allowing : Request → Decision
allowing req = record {
  allowed = true;
  unlimited = false;
  limit = pos 0;
  current = req.current;
  amount = req.amount;
  reason = "";
}

abbrev against : Request → Option ℤ → Decision
against req none = record (allowing req) { unlimited = true }
against req (some limit) =
    if ltb_ℤ limit (add64 req.current req.amount)
    then record (allowing req) { limit = limit; allowed = false; reason = exceeded req limit }
    else record (allowing req) { limit = limit }

-- `StaticService.Check`.
unfoldable pub check : PlanSnapshot → Request → Answer
check snapshot req =
    if leb_ℤ req.amount (pos 0)
    then (
      record (allowing req) { allowed = false },
      some "entitlement check amount must be positive",
    )
    else (against req (lookup req.limit snapshot.limits), none)

unfoldable pub self_hosted : PlanSnapshot
self_hosted = record { plan_id = "selfhost"; limits = [] }

unfoldable pub cloud_bootstrap : PlanSnapshot
cloud_bootstrap = record {
  plan_id = "cloud-bootstrap";
  limits =
      (limit_workspaces, pos 1)
      ∷ (limit_social_accounts, pos 0)
      ∷ (limit_scheduled_posts_monthly, pos 0)
      ∷ (limit_published_posts_monthly, pos 0)
      ∷ (limit_media_bytes_stored, pos 0)
      ∷ (limit_media_bytes_uploaded_monthly, pos 0)
      ∷ (limit_provider_write_calls_monthly, pos 0)
      ∷ (limit_team_members, pos 0)
      ∷ [];
}
