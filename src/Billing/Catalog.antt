-- ===== src/Billing/Catalog.antt =====
-- backend/internal/services/billing/service.go: the plans, and the calls of the Polar API for a
-- checkout and for the customer portal. The HTTP exchange and the JSON coder are one parameter.
use openpostfork.Prelude.{
  ℕ, zero, suc, String, ◌<>◌, Bool, true, false, not, ◌&&◌, ◌||◌, Option, none, some, List, [], ◌∷◌,
  ◌++◌, ◌==◌, eqb, if◌then◌else◌, Result, ok, err,
}
use Prim.Native.String.{[] as end, ◌∷◌ as push}
use Prim.Native.Char.{code}
use text.Mathlib.Text.{starts_with}
use openpostfork.Prelude.Int.{ℤ, pos}
use openpostfork.Prelude.Text.{trim_space, to_lower, to_upper}
use openpostfork.Entitlements.{
  Limits, lookup, limit_workspaces, limit_social_accounts, limit_scheduled_posts_monthly,
  limit_media_bytes_stored, limit_media_bytes_uploaded_monthly, limit_team_members,
}
use openpostfork.Billing.Signature.{trim_prefix}

-- `PlanConfig`.
pub record PlanConfig : Type 0 where
  pub product_id : String
  pub limits : Limits

-- The limits of a plan of the catalog, without those of the team.
abbrev plan_limits : ℕ → ℕ → ℕ → ℕ → Limits
plan_limits workspaces accounts posts bytes =
    (limit_workspaces, pos workspaces)
    ∷ (limit_social_accounts, pos accounts)
    ∷ (limit_scheduled_posts_monthly, pos posts)
    ∷ (limit_media_bytes_stored, pos bytes)
    ∷ (limit_media_bytes_uploaded_monthly, pos bytes)
    ∷ []

abbrev team_limits : ℕ → ℕ → ℕ → ℕ → ℕ → Limits
team_limits workspaces accounts posts bytes members =
    plan_limits workspaces accounts posts bytes ++ ((limit_team_members, pos members) ∷ [])

abbrev nth_product : ℕ → List String → String
nth_product n [] = ""
nth_product zero (x ∷ xs) = x
nth_product (suc n) (x ∷ xs) = nth_product n xs

-- `DefaultPlanCatalog`.
unfoldable pub default_plan_catalog :
    String → String → String → List String → List (String × PlanConfig)
default_plan_catalog starter creator pro extra =
    ("starter", record { product_id = starter; limits = plan_limits 1 3 100 1_000_000_000 })
    ∷ ("creator", record { product_id = creator; limits = plan_limits 3 6 500 5_000_000_000 })
    ∷ ("pro", record { product_id = pro; limits = team_limits 10 15 2_500 25_000_000_000 5 })
    ∷ (
      "team",
      record {
        product_id = nth_product 0 extra;
        limits = team_limits 10 25 5_000 50_000_000_000 3;
      },
    )
    ∷ (
      "agency",
      record {
        product_id = nth_product 1 extra;
        limits = team_limits 50 150 25_000 250_000_000_000 5;
      },
    )
    ∷ []

-- `errConfiguration` with its text, and the other errors.
pub data CheckoutError : Type 0 where
  configuration failed : String → CheckoutError

-- `IsConfigurationError`.
unfoldable pub is_configuration_error : CheckoutError → Bool
is_configuration_error (configuration message) = true
is_configuration_error (failed message) = false

pub record PolarConfig : Type 0 where
  pub access_token : String
  pub api_base_url : String
  pub success_url : String
  pub return_url : String
  pub plans : List (String × PlanConfig)

-- Every "-" becomes "_".
underscored : String → String
underscored end = end
underscored (push c s) = push (if eqb (code c) b'-' then "_" else c) (underscored s)

-- `polarProductEnvVar`.
unfoldable pub polar_product_env_var : String → String
unfolding underscored
polar_product_env_var plan_id =
    if plan_id == "starter"
    then "OPENPOST_POLAR_STARTER_PRODUCT_ID"
    else if plan_id == "creator"
    then "OPENPOST_POLAR_CREATOR_PRODUCT_ID"
    else if plan_id == "pro"
    then "OPENPOST_POLAR_PRO_PRODUCT_ID"
    else if plan_id == "team"
    then "OPENPOST_POLAR_TEAM_PRODUCT_ID"
    else if plan_id == "agency"
    then "OPENPOST_POLAR_AGENCY_PRODUCT_ID"
    else "OPENPOST_POLAR_" <> (to_upper (underscored plan_id) <> "_PRODUCT_ID")

-- `%q` of the id of a plan is a parameter.
module _ (quote : String → String) where
  abbrev known_plan : String → Option PlanConfig → Result CheckoutError PlanConfig
  known_plan plan_id none = err (failed ("unknown billing plan " <> quote plan_id))
  known_plan plan_id (some plan) =
      if trim_space plan.product_id == ""
      then err (
          configuration
            (polar_product_env_var plan_id <> (" is required for billing plan " <> quote plan_id)))
      else ok plan

  -- `planFor`.
  unfoldable pub plan_for : PolarConfig → String → Result CheckoutError PlanConfig
  plan_for c plan_id =
      let id = to_lower (trim_space plan_id) in
      if id == "" then err (failed "plan id is required") else known_plan id (lookup id c.plans)

-- `strings.TrimRight` and `strings.TrimLeft` of slashes.
unfoldable pub trim_slashes_right : String → String
trim_slashes_right end = end
trim_slashes_right (push c s) =
    let rest = trim_slashes_right s in if eqb (code c) b'/' && rest == "" then "" else push c rest

unfoldable pub trim_slashes_left : String → String
trim_slashes_left end = end
trim_slashes_left (push c s) =
    let rest = trim_slashes_left s in if eqb (code c) b'/' then rest else push c s

-- `strings.HasSuffix`.
unfoldable pub has_suffix : String → String → Bool
has_suffix end suffix = suffix == ""
has_suffix (push c s) suffix = let rest = has_suffix s suffix in push c s == suffix || rest

-- `polarAPIURL`.
unfoldable pub polar_api_url : String → String → String
polar_api_url base_url path =
    let trimmed = trim_slashes_right base_url in
    let base = if trimmed == "" then "https://api.polar.sh/v1" else trimmed in
    let api_path = "/" <> trim_slashes_left path in
    let base_has_version = has_suffix base "/v1" in
    let path_has_version = starts_with api_path "/v1/" in
    base
    <> (if base_has_version && path_has_version
        then trim_prefix api_path "/v1"
        else if not base_has_version && not path_has_version
        then "/v1" <> api_path
        else api_path)

-- A value of the metadata of a checkout.
pub data CheckoutValue : Type 0 where
  string : String → CheckoutValue
  whole : ℤ → CheckoutValue

abbrev pub text_unless_blank : String → String → List (String × CheckoutValue)
text_unless_blank key value = if value == "" then [] else (key, string value) ∷ []

unfoldable pub limit_metadata : Limits → List (String × CheckoutValue)
limit_metadata [] = []
limit_metadata ((key, value) ∷ rest) = ("limit_" <> key, whole value) ∷ limit_metadata rest

-- `checkoutMetadata`, as a list of the entries.
unfoldable pub checkout_metadata :
    String → String → String → String → Limits → List (String × CheckoutValue)
unfolding limit_metadata
checkout_metadata organization_id workspace_id user_id plan_id limits =
    (("organization_id", string organization_id) ∷ ("plan_id", string plan_id) ∷ [])
    ++ (text_unless_blank "workspace_id" workspace_id
        ++ (text_unless_blank "user_id" user_id ++ limit_metadata limits))

pub record CreateCheckoutInput : Type 0 where
  pub organization_id : String
  pub workspace_id : String
  pub user_id : String
  pub customer_email : String
  pub plan_id : String

-- The payload of a checkout; `customer_metadata` has the organization alone.
pub record CheckoutPayload : Type 0 where
  pub products : List String
  pub external_customer_id : String
  pub customer_email : String
  pub success_url : String
  pub return_url : String
  pub metadata : List (String × CheckoutValue)

pub record PortalPayload : Type 0 where
  pub external_customer_id : String
  pub return_url : String

-- `CheckoutResult` and `CustomerPortalResult`, also the answers of the API.
pub record LinkResult : Type 0 where
  pub id : String
  pub url : String

pub record CatalogServices : Type 0 where
  pub config : PolarConfig
  pub quote : String → String
  pub post_checkout : String → CheckoutPayload → Result String LinkResult
  pub post_portal : String → PortalPayload → Result String LinkResult

module _ (v : CatalogServices) where
  -- `postPolar`, with what it sends at a URL.
  abbrev post_polar : String → (String → Result String LinkResult) → Result CheckoutError LinkResult
  post_polar path send =
      if trim_space v.config.access_token == ""
      then err (configuration "OPENPOST_POLAR_ACCESS_TOKEN is required")
      else elim (send (polar_api_url v.config.api_base_url path)) [
        | ok answer ↦ ok answer
        | err message ↦ err (failed message)
      ]

  abbrev with_link : String → Result CheckoutError LinkResult → Result CheckoutError LinkResult
  with_link message (err e) = err e
  with_link message (ok link) = if link.url == "" then err (failed message) else ok link

  abbrev checkout_organization : CreateCheckoutInput → String
  checkout_organization input =
      let organization_id = trim_space input.organization_id in
      if organization_id == "" then trim_space input.workspace_id else organization_id

  abbrev checkout_payload : CreateCheckoutInput → PlanConfig → CheckoutPayload
  checkout_payload input plan = record {
    products = plan.product_id ∷ [];
    external_customer_id = checkout_organization input;
    customer_email = input.customer_email;
    success_url = v.config.success_url;
    return_url = v.config.return_url;
    metadata =
        checkout_metadata (checkout_organization input) input.workspace_id input.user_id
          input.plan_id plan.limits;
  }

  abbrev with_plan :
      CreateCheckoutInput → Result CheckoutError PlanConfig → Result CheckoutError LinkResult
  with_plan input (err e) = err e
  with_plan input (ok plan) =
      if checkout_organization input == ""
      then err (failed "organization id is required")
      else if trim_space input.customer_email == ""
      then err (failed "customer email is required")
      else with_link "polar checkout response missing url"
          (post_polar "/v1/checkouts/" (λ url. v.post_checkout url (checkout_payload input plan)))

  -- `CreateCheckout`.
  unfoldable pub create_checkout : CreateCheckoutInput → Result CheckoutError LinkResult
  create_checkout input = with_plan input (plan_for v.quote v.config input.plan_id)

  -- `CreateCustomerPortalSession`.
  unfoldable pub create_customer_portal_session : String → Result CheckoutError LinkResult
  create_customer_portal_session organization_id =
      if trim_space organization_id == ""
      then err (failed "organization id is required")
      else with_link "polar customer session response missing customer_portal_url" (
          post_polar "/v1/customer-sessions/" (λ url.
            v.post_portal url (record {
              external_customer_id = organization_id;
              return_url = v.config.return_url;
            })))
