-- ===== src/Domain/Tenant/Types.antt =====
-- domain/tenant/aggregate.go: plans and their limits, the aggregate's data. The settings (branding,
-- security, features, notifications), which no operation reads or changes, and the add-ons, invoices
-- and address and the fields on cancellation, which none fills, are left out.
use pyairtable_go_services.Prelude.{
  ℕ, ℤ, pos, Float64, String, len, runes, Bool, true, false, not, ◌&&◌, ◌||◌, List, [], ◌∷◌, Option,
  ltb, leb, ◌==◌, str_eq, if◌then◌else◌,
}
use pyairtable_go_services.Domain.Shared.Types.{Email}
use pyairtable_go_services.Domain.Shared.Aggregate.{BaseAggregateRoot}

-- TenantStatus, SubscriptionPlan and SubscriptionStatus are named strings.
abbrev pub tenant_status_active : String
tenant_status_active = "active"

abbrev pub tenant_status_suspended : String
tenant_status_suspended = "suspended"

abbrev pub tenant_status_deleted : String
tenant_status_deleted = "deleted"

abbrev pub plan_free : String
plan_free = "free"

abbrev pub plan_starter : String
plan_starter = "starter"

abbrev pub plan_professional : String
plan_professional = "professional"

abbrev pub plan_enterprise : String
plan_enterprise = "enterprise"

-- `CustomQuotas` is a map that no operation reads or fills.
pub record TenantQuotas : Type 0 where
  pub max_users : ℤ
  pub max_workspaces : ℤ
  pub max_projects : ℤ
  pub max_storage_gb : ℤ
  pub max_api_calls_per_month : ℤ
  pub max_integrations : ℤ

abbrev limits : ℕ → ℕ → ℕ → ℕ → ℕ → ℕ → TenantQuotas
limits users workspaces projects storage calls integrations = record {
  max_users = pos users;
  max_workspaces = pos workspaces;
  max_projects = pos projects;
  max_storage_gb = pos storage;
  max_api_calls_per_month = pos calls;
  max_integrations = pos integrations;
}

-- SubscriptionPlan.GetPlanLimits
unfoldable pub get_plan_limits : String → TenantQuotas
get_plan_limits p =
    if str_eq p plan_free
    then limits 5 3 10 1 1000 2
    else if str_eq p plan_starter
    then limits 25 10 50 10 10000 5
    else if str_eq p plan_professional
    then limits 100 50 500 100 100000 20
    else if str_eq p plan_enterprise
    then limits 1000 500 5000 1000 1000000 100
    else limits 0 0 0 0 0 0

-- SubscriptionPlan.GetMonthlyPrice, in cents
unfoldable pub get_monthly_price : String → ℕ
get_monthly_price p =
    if str_eq p plan_free
    then 0
    else if str_eq p plan_starter
    then 1900
    else if str_eq p plan_professional
    then 4900
    else if str_eq p plan_enterprise
    then 9900
    else 0

pub record BillingPeriod : Type 0 where
  pub start_date : ℕ
  pub end_date : ℕ
  pub amount : ℕ
  pub currency : String

pub record PaymentMethod : Type 0 where
  pub id : String
  pub method_type : String
  pub last_four : String
  pub expiry_month : ℕ
  pub expiry_year : ℕ
  pub brand : String
  pub is_default : Bool
  pub updated_at : ℕ

pub record Subscription : Type 0 where
  pub id : String
  pub plan_id : String
  pub plan : String
  pub status : String
  pub current_period : BillingPeriod
  pub trial_ends_at : Option ℕ
  pub created_at : ℕ
  pub updated_at : ℕ

pub record TenantUsage : Type 0 where
  pub current_users : ℤ
  pub current_workspaces : ℤ
  pub current_projects : ℤ
  pub current_storage_gb : Float64
  pub current_api_calls_this_month : ℤ
  pub current_integrations : ℤ
  pub last_updated : ℕ

pub record BillingInfo : Type 0 where
  pub billing_email : Email
  pub currency : String
  pub payment_methods : List PaymentMethod
  pub updated_at : ℕ

-- The fields of TenantAggregate beside the root that it embeds.
pub record TenantState : Type 0 where
  pub name : String
  pub slug : String
  pub domain : String
  pub status : String
  pub subscription : Subscription
  pub quotas : TenantQuotas
  pub usage : TenantUsage
  pub billing : BillingInfo
  pub created_at : ℕ
  pub updated_at : ℕ

pub record TenantAggregate : Type 0 where
  pub base : BaseAggregateRoot
  pub state : TenantState

-- 'a'..'z', '0'..'9' and '-', by their code points
abbrev is_slug_char : ℕ → Bool
is_slug_char c = (leb 97 c && leb c 122) || (leb 48 c && leb c 57) || c == 45

abbrev all_slug_chars : List ℕ → Bool
all_slug_chars [] = true
all_slug_chars (c ∷ cs) = is_slug_char c && all_slug_chars cs

abbrev has_hyphen_prefix : List ℕ → Bool
has_hyphen_prefix [] = false
has_hyphen_prefix (c ∷ cs) = c == 45

abbrev has_hyphen_suffix : List ℕ → Bool
has_hyphen_suffix [] = false
has_hyphen_suffix (c ∷ []) = c == 45
has_hyphen_suffix (c ∷ d ∷ cs) = has_hyphen_suffix (d ∷ cs)

unfoldable pub is_valid_slug : String → Bool
is_valid_slug slug =
    if ltb (len slug) 3 || ltb 50 (len slug)
    then false
    else if not (all_slug_chars (runes slug))
    then false
    else not (has_hyphen_prefix (runes slug)) && not (has_hyphen_suffix (runes slug))
