-- ===== src/Tests/Tenants.antt =====
-- A tenant that pays, is suspended and comes back (domain/tenant).
use pyairtable_go_services.Prelude.{
  trim_space, pos, finite, ltb_ℤ, ◌≡◌, refl, true, false, List, [], ◌∷◌, none,
}
use pyairtable_go_services.Domain.Shared.Error.{ok}
use pyairtable_go_services.Domain.Shared.Types.{Env, Email, is_valid_email}
use pyairtable_go_services.Domain.Tenant.Types.{
  TenantAggregate, TenantUsage, PaymentMethod, get_plan_limits,
}
use pyairtable_go_services.Domain.Tenant.Creation.{created_tenant, new_tenant_aggregate}
use pyairtable_go_services.Domain.Tenant.Plans.{update_usage, suspend, check_quotas, violation}
use pyairtable_go_services.Domain.Tenant.Commands.{
  Command, changes_plan, adds_payment_method, updates_usage, suspends, reactivates, run,
}
use pyairtable_go_services.Domain.Tenant.Invariants.{
  IsBilled, tenant_run-IsBilled, update_usage-check_quotas,
}
use pyairtable_go_services.Domain.Tenant.Replay.{SameTenant}
use pyairtable_go_services.Repositories.Tenants.{tenant_from_events}
use pyairtable_go_services.Repositories.Tenants.Rebuild.{tenant_run_rebuilds}
use pyairtable_go_services.Tests.{world}

abbrev owner : Email
owner = record { value = "ada@example.org" }

abbrev acme : TenantAggregate
acme = created_tenant (world 5 "i5") "t1" "Acme" "acme" "acme.org" owner

abbrev card : PaymentMethod
card = record {
  id = "pm1";
  method_type = "card";
  last_four = "4242";
  expiry_month = 1;
  expiry_year = 2030;
  brand = "visa";
  is_default = false;
  updated_at = 1;
}

abbrev usage : TenantUsage
usage = record {
  current_users = pos 4;
  current_workspaces = pos 3;
  current_projects = pos 1;
  current_storage_gb = finite (pos 1) 1;
  current_api_calls_this_month = pos 2000;
  current_integrations = pos 0;
  last_updated = 0;
}

abbrev story : List (Env × Command)
story =
    (world 10 "i10", adds_payment_method card)
    ∷ (world 20 "i20", changes_plan "starter" "pm1")
    ∷ (world 30 "i30", updates_usage usage)
    ∷ (world 40 "i40", adds_payment_method (record card { id = "pm2"; is_default = true }))
    ∷ (world 50 "i50", suspends "unpaid")
    ∷ (world 60 "i60", reactivates)
    ∷ []

tenant_run-IsBilled_example : IsBilled (run story acme).state
tenant_run-IsBilled_example =
    tenant_run-IsBilled (world 5 "i5") "t1" "Acme" "acme" "acme.org" owner story

accepted : (update_usage (world 30 "i30") usage acme).1 ≡ none
unfolding update_usage created_tenant get_plan_limits
accepted = refl

update_usage-check_quotas_example :
    check_quotas (update_usage (world 30 "i30") usage acme).0.state
    ≡ violation
        (ltb_ℤ acme.state.quotas.max_api_calls_per_month usage.current_api_calls_this_month)
        "API quota exceeded"
update_usage-check_quotas_example = update_usage-check_quotas (world 30 "i30") usage acme accepted

abbrev halted : TenantAggregate
halted = (suspend (world 50 "i50") "unpaid" acme).0

tenant_run_rebuilds_example :
    let v = run story acme in
    (r : TenantAggregate) × (tenant_from_events (world 99 "i99") v.base.uncommitted_events ≡ ok r)
    × SameTenant v.state r.state
    × (r.base.id ≡ v.base.id)
    × (r.base.version ≡ v.base.version)
tenant_run_rebuilds_example =
    tenant_run_rebuilds (world 99 "i99") (world 5 "i5") "t1" "Acme" "acme" "acme.org" owner story
      {w = acme} (unfold is_valid_email in refl) (unfold trim_space in refl)
      (unfold trim_space in refl) (unfold trim_space in refl) (unfold new_tenant_aggregate in refl)
