-- ===== src/Domain/Tenant/Creation.antt =====
-- domain/tenant/aggregate.go: NewTenantAggregate.
use pyairtable_go_services.Prelude.{
  ℕ, ◌+◌, ◌*◌, pos, finite, String, not, [], ◌∷◌, Option, none, some, str_eq, trim_space,
  if◌then◌else◌,
}
use pyairtable_go_services.Domain.Shared.Error.{
  Outcome, ok, fail, new_domain_error, err_code_validation, err_empty_value,
}
use pyairtable_go_services.Domain.Shared.Types.{Env, Email, email_is_empty}
use pyairtable_go_services.Domain.Shared.Event.{text, event_type_tenant_created}
use pyairtable_go_services.Domain.Shared.Aggregate.{new_base_aggregate_root, raise_event}
use pyairtable_go_services.Domain.Tenant.Types.{
  TenantAggregate, tenant_status_active, plan_free, get_plan_limits, is_valid_slug,
}

abbrev pub tenant_aggregate : String
tenant_aggregate = "TenantAggregate"

-- 30 * 24 * time.Hour
abbrev pub thirty_days : ℕ
thirty_days = 30 * 24 * 3600 * 1000000000

-- The aggregate behind the checks, its event raised; `time.Now` is read once, and once for the event.
unfoldable pub created_tenant : Env → String → String → String → String → Email → TenantAggregate
unfolding new_base_aggregate_root
created_tenant env id name slug domain owner_email = record {
  base =
      raise_event env 1 event_type_tenant_created tenant_aggregate
        (("tenant_id", text id)
          ∷ ("name", text name)
          ∷ ("slug", text slug)
          ∷ ("domain", text domain)
          ∷ ("owner_email", text owner_email.value)
          ∷ ("plan", text plan_free)
          ∷ [])
        (new_base_aggregate_root id id);
  state = record {
    name = trim_space name;
    slug = env.to_lower (trim_space slug);
    domain = env.to_lower (trim_space domain);
    status = tenant_status_active;
    subscription = record {
      id = env.uuid 0;
      plan_id = plan_free;
      plan = plan_free;
      status = "trial";
      current_period = record {
        start_date = env.now 0;
        end_date = env.now 0 + thirty_days;
        amount = 0;
        currency = "USD";
      };
      trial_ends_at = some (env.now 0 + thirty_days);
      created_at = env.now 0;
      updated_at = env.now 0;
    };
    quotas = get_plan_limits plan_free;
    usage = record {
      current_users = pos 0;
      current_workspaces = pos 0;
      current_projects = pos 0;
      current_storage_gb = finite (pos 0) 0;
      current_api_calls_this_month = pos 0;
      current_integrations = pos 0;
      last_updated = env.now 0;
    };
    billing = record {
      billing_email = owner_email;
      currency = "USD";
      payment_methods = [];
      updated_at = env.now 0;
    };
    created_at = env.now 0;
    updated_at = env.now 0;
  };
}

abbrev invalid_tenant : String → Option String → Outcome TenantAggregate
invalid_tenant message cause = fail (new_domain_error err_code_validation message cause)

unfoldable pub new_tenant_aggregate :
    Env → String → String → String → String → Email → Outcome TenantAggregate
unfolding created_tenant is_valid_slug email_is_empty
new_tenant_aggregate env id name slug domain owner_email =
    if str_eq name ""
    then invalid_tenant "tenant name is required" (some err_empty_value)
    else if str_eq slug ""
    then invalid_tenant "tenant slug is required" (some err_empty_value)
    else if not (is_valid_slug slug)
    then invalid_tenant "invalid tenant slug format" none
    else if email_is_empty owner_email
    then invalid_tenant "owner email is required" (some err_empty_value)
    else ok (created_tenant env id name slug domain owner_email)
