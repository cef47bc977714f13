-- ===== src/Domain/Tenant/Plans.antt =====
-- domain/tenant/aggregate.go: updates, plans, usage, payment methods, suspension.
use pyairtable_go_services.Prelude.{
  ℕ, ◌+◌, ltb_ℤ, int_lt_float, String, Bool, true, false, not, ◌&&◌, ◌||◌, List, [], ◌∷◌, ◌++◌, map,
  Option, none, some, length, ltb, ◌==◌, str_eq, trim_space, if◌then◌else◌,
}
use pyairtable_go_services.Domain.Shared.Error.{
  Error, new_domain_error, err_code_business_rule, err_code_validation,
}
use pyairtable_go_services.Domain.Shared.Types.{Env}
use pyairtable_go_services.Domain.Shared.Event.{
  text, int, event_type_tenant_updated, event_type_tenant_plan_changed,
  event_type_tenant_deactivated,
}
use pyairtable_go_services.Domain.Shared.Aggregate.{raise_event}
use pyairtable_go_services.Domain.Tenant.Types.{
  TenantAggregate, TenantState, TenantUsage, PaymentMethod, tenant_status_active,
  tenant_status_suspended, tenant_status_deleted, plan_free, get_plan_limits, get_monthly_price,
}
use pyairtable_go_services.Domain.Tenant.Creation.{tenant_aggregate, thirty_days}

abbrev pub refusal : String → Option Error
refusal message = some (new_domain_error err_code_business_rule message none)

abbrev pub tenant_renames : String → TenantState → Bool
tenant_renames name t = not (str_eq name "") && not (str_eq name t.name)

abbrev pub tenant_changes : String → String → TenantState → Bool
tenant_changes name domain t = tenant_renames name t || not (str_eq domain t.domain)

unfoldable pub update_tenant :
    Env → String → String → TenantAggregate → TenantAggregate × Option Error
update_tenant env name domain t =
    if not (str_eq t.state.status tenant_status_active)
    then (t, refusal "cannot update inactive tenant")
    else let name' = if tenant_renames name t.state then trim_space name else t.state.name in
      let domain' =
        if str_eq domain t.state.domain then t.state.domain else env.to_lower (trim_space domain) in
      if tenant_changes name domain t.state
      then (
        record {
          base =
              raise_event env 1 event_type_tenant_updated tenant_aggregate
                (("tenant_id", text t.base.id)
                  ∷ ("name", text name')
                  ∷ ("domain", text domain')
                  ∷ [])
                t.base;
          state = record (t.state) { name = name'; domain = domain'; updated_at = env.now 0 };
        },
        none,
      )
      else (t, none)

unfoldable pub change_plan :
    Env → String → String → TenantAggregate → TenantAggregate × Option Error
change_plan env new_plan payment_method_id t =
    if not (str_eq t.state.status tenant_status_active)
    then (t, refusal "cannot change plan for inactive tenant")
    else if str_eq t.state.subscription.plan new_plan
    then (t, refusal "tenant already on this plan")
    else if not (str_eq new_plan plan_free) && str_eq payment_method_id ""
    then (
      t,
      some (new_domain_error err_code_validation "payment method required for paid plans" none),
    )
    else let s = record (t.state.subscription) {
      plan = new_plan;
      plan_id = new_plan;
      status = "active";
      updated_at = env.now 0;
    } in
      (
        record {
          base =
              raise_event env 2 event_type_tenant_plan_changed tenant_aggregate
                (("tenant_id", text t.base.id)
                  ∷ ("old_plan", text t.state.subscription.plan)
                  ∷ ("new_plan", text new_plan)
                  ∷ ("amount", int (get_monthly_price new_plan))
                  ∷ [])
                t.base;
          state = record (t.state) {
            subscription = if str_eq new_plan plan_free then s else record s {
              current_period = record {
                start_date = env.now 0;
                end_date = env.now 0 + thirty_days;
                amount = get_monthly_price new_plan;
                currency = "USD";
              };
              trial_ends_at = none;
            };
            quotas = get_plan_limits new_plan;
            updated_at = env.now 1;
          };
        },
        none,
      )

unfoldable pub update_usage : Env → TenantUsage → TenantAggregate → TenantAggregate × Option Error
update_usage env usage t =
    if ltb_ℤ t.state.quotas.max_users usage.current_users
    then (t, refusal "user quota exceeded")
    else if ltb_ℤ t.state.quotas.max_workspaces usage.current_workspaces
    then (t, refusal "workspace quota exceeded")
    else if ltb_ℤ t.state.quotas.max_projects usage.current_projects
    then (t, refusal "project quota exceeded")
    else if int_lt_float t.state.quotas.max_storage_gb usage.current_storage_gb
    then (t, refusal "storage quota exceeded")
    else (
      record t {
        state = record (t.state) {
          usage = record usage { last_updated = env.now 0 };
          updated_at = env.now 1;
        };
      },
      none,
    )

abbrev pub not_default : PaymentMethod → PaymentMethod
not_default m = record m { is_default = false }

-- The list that AddPaymentMethod leaves
unfoldable pub add_method : PaymentMethod → List PaymentMethod → List PaymentMethod
add_method m ms =
    if length ms == 0 || m.is_default
    then map not_default ms ++ record m { is_default = true } ∷ []
    else ms ++ m ∷ []

unfoldable pub add_payment_method :
    Env → PaymentMethod → TenantAggregate → TenantAggregate × Option Error
unfolding add_method
add_payment_method env m t =
    if not (str_eq t.state.status tenant_status_active)
    then (t, refusal "cannot add payment method to inactive tenant")
    else (
      record t {
        state = record (t.state) {
          billing = record (t.state.billing) {
            payment_methods = add_method m t.state.billing.payment_methods;
            updated_at = env.now 0;
          };
          updated_at = env.now 1;
        };
      },
      none,
    )

unfoldable pub suspend : Env → String → TenantAggregate → TenantAggregate × Option Error
suspend env reason t =
    if str_eq t.state.status tenant_status_suspended
    then (t, refusal "tenant is already suspended")
    else (
      record {
        base =
            raise_event env 1 event_type_tenant_deactivated tenant_aggregate
              (("tenant_id", text t.base.id)
                ∷ ("status", text tenant_status_suspended)
                ∷ ("reason", text reason)
                ∷ [])
              t.base;
        state = record (t.state) { status = tenant_status_suspended; updated_at = env.now 0 };
      },
      none,
    )

unfoldable pub reactivate : Env → TenantAggregate → TenantAggregate × Option Error
reactivate env t =
    if str_eq t.state.status tenant_status_active
    then (t, refusal "tenant is already active")
    else if str_eq t.state.status tenant_status_deleted
    then (t, refusal "cannot reactivate deleted tenant")
    else (
      record t {
        state = record (t.state) { status = tenant_status_active; updated_at = env.now 0 };
      },
      none,
    )

abbrev pub violation : Bool → String → List String
violation exceeded message = if exceeded then message ∷ [] else []

unfoldable pub check_quotas : TenantState → List String
check_quotas t =
    violation (ltb_ℤ t.quotas.max_users t.usage.current_users) "user quota exceeded"
    ++ violation (ltb_ℤ t.quotas.max_workspaces t.usage.current_workspaces)
        "workspace quota exceeded"
    ++ violation (ltb_ℤ t.quotas.max_projects t.usage.current_projects) "project quota exceeded"
    ++ violation (int_lt_float t.quotas.max_storage_gb t.usage.current_storage_gb)
        "storage quota exceeded"
    ++ violation (ltb_ℤ t.quotas.max_api_calls_per_month t.usage.current_api_calls_this_month)
        "API quota exceeded"

-- IsTrialExpired, at the time of the call
unfoldable pub is_trial_expired : ℕ → TenantState → Bool
is_trial_expired now t = elim t.subscription.trial_ends_at [
  | none ↦ false
  | some ends ↦ ltb ends now
]
