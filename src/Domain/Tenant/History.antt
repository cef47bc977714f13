-- ===== src/Domain/Tenant/History.antt =====
-- domain/tenant/aggregate.go: LoadFromHistory and the handlers of the single events.
use pyairtable_go_services.Prelude.{String, List, Option, none, some, str_eq, if◌then◌else◌}
use pyairtable_go_services.Domain.Shared.Error.{Outcome, ok, ◌>>=◌, or_panic}
use pyairtable_go_services.Domain.Shared.Event.{
  DomainEvent, get_string, event_type_tenant_created, event_type_tenant_updated,
  event_type_tenant_plan_changed, event_type_tenant_deactivated,
}
use pyairtable_go_services.Domain.Shared.History.{load_with}
use pyairtable_go_services.Domain.Tenant.Types.{
  TenantAggregate, TenantState, tenant_status_active, get_plan_limits,
}

-- The plan that an event names, where it names one, and its limits
abbrev on_plan : Option String → TenantState → TenantState
on_plan none t = t
on_plan (some plan) t = record t {
  subscription = record (t.subscription) { plan = plan };
  quotas = get_plan_limits plan;
}

abbrev tenant_or_keep : Option String → String → String
tenant_or_keep none old = old
tenant_or_keep (some v) old = v

apply_tenant_created_event : DomainEvent → TenantState → Outcome TenantState
unfolding get_string
apply_tenant_created_event event t = do
  name ← or_panic (get_string "name" event.payload)
  slug ← or_panic (get_string "slug" event.payload)
  domain ← or_panic (get_string "domain" event.payload)
  ok (
      on_plan (get_string "plan" event.payload)
        (record t { name = name; slug = slug; domain = domain; status = tenant_status_active }))

apply_tenant_updated_event : DomainEvent → TenantState → TenantState
unfolding get_string
apply_tenant_updated_event event t = record t {
  name = tenant_or_keep (get_string "name" event.payload) t.name;
  domain = tenant_or_keep (get_string "domain" event.payload) t.domain;
}

apply_tenant_plan_changed_event : DomainEvent → TenantState → TenantState
unfolding get_string
apply_tenant_plan_changed_event event t = on_plan (get_string "new_plan" event.payload) t

apply_tenant_deactivated_event : DomainEvent → TenantState → Outcome TenantState
unfolding get_string
apply_tenant_deactivated_event event t = do
  status ← or_panic (get_string "status" event.payload)
  ok (record t { status = status })

-- The `switch` of LoadFromHistory
unfoldable pub apply_tenant_event : DomainEvent → TenantState → Outcome TenantState
unfolding apply_tenant_created_event apply_tenant_updated_event apply_tenant_plan_changed_event
    apply_tenant_deactivated_event
apply_tenant_event event t =
    if str_eq event.event_type event_type_tenant_created
    then apply_tenant_created_event event t
    else if str_eq event.event_type event_type_tenant_updated
    then ok (apply_tenant_updated_event event t)
    else if str_eq event.event_type event_type_tenant_plan_changed
    then ok (apply_tenant_plan_changed_event event t)
    else if str_eq event.event_type event_type_tenant_deactivated
    then apply_tenant_deactivated_event event t
    else ok t

-- LoadFromHistory
unfoldable pub load_tenant_from_history :
    List DomainEvent → TenantAggregate → Outcome TenantAggregate
unfolding load_with
load_tenant_from_history events t = do
  (base, state) ← load_with apply_tenant_event events t.base t.state
  ok (record { base = base; state = state })
