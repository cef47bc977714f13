-- ===== src/Repositories/Tenants.antt =====
-- pkg/repositories/tenant_aggregate_repository.go: GetByID.
pub mod Rebuild
use pyairtable_go_services.Prelude.{String, List, [], ◌∷◌, Option, none, str_eq, not, if◌then◌else◌}
use pyairtable_go_services.Domain.Shared.Error.{
  Outcome, ok, fail, ◌>>=◌, or_panic, wrap, errorf, new_domain_error, err_code_not_found,
}
use pyairtable_go_services.Domain.Shared.Types.{Env, new_email}
use pyairtable_go_services.Domain.Shared.Event.{DomainEvent, get_string, event_type_tenant_created}
use pyairtable_go_services.Domain.Shared.Aggregate.{clear_uncommitted_events}
use pyairtable_go_services.Domain.Tenant.Types.{TenantAggregate}
use pyairtable_go_services.Domain.Tenant.Creation.{new_tenant_aggregate}
use pyairtable_go_services.Domain.Tenant.History.{load_tenant_from_history}
use pyairtable_go_services.EventStore.{Table, get_events}

-- "Create aggregate with data from first event", its creation event cleared
unfoldable pub blank_tenant : Env → DomainEvent → Outcome TenantAggregate
unfolding get_string new_email clear_uncommitted_events
blank_tenant env first = do
  tenant_id ← or_panic (get_string "tenant_id" first.payload)
  name ← or_panic (get_string "name" first.payload)
  slug ← or_panic (get_string "slug" first.payload)
  domain ← or_panic (get_string "domain" first.payload)
  owner_email ← or_panic (get_string "owner_email" first.payload)
  aggregate ←
      wrap "failed to create tenant aggregate: %w"
        (new_tenant_aggregate env tenant_id name slug domain (new_email owner_email).0)
  ok (record aggregate { base = clear_uncommitted_events aggregate.base })

-- GetByID behind the query, on the events that it gave
unfoldable pub tenant_from_events : Env → List DomainEvent → Outcome TenantAggregate
tenant_from_events env [] = fail (new_domain_error err_code_not_found "tenant not found" none)
tenant_from_events env (first ∷ rest) =
    if not (str_eq first.event_type event_type_tenant_created)
    then fail (errorf "first event must be TenantCreated, got %s" (first.event_type ∷ []))
    else blank_tenant env first >>= λ t.
        wrap "failed to load aggregate from history: %w" (load_tenant_from_history (first ∷ rest) t)

-- GetByID; `error` is what the query answered.
unfoldable pub get_tenant_by_id : Env → Option String → String → Table → Outcome TenantAggregate
unfolding tenant_from_events
get_tenant_by_id env error id rows =
    wrap "failed to get events: %w" (get_events error id rows) >>= tenant_from_events env
