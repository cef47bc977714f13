-- ===== src/Repositories/Workspaces.antt =====
-- pkg/repositories/workspace_aggregate_repository.go: GetByID.
pub mod Rebuild
pub mod Cycle
use pyairtable_go_services.Prelude.{String, List, [], ◌∷◌, Option, none, str_eq, not, if◌then◌else◌}
use pyairtable_go_services.Domain.Shared.Error.{
  Outcome, ok, fail, ◌>>=◌, or_panic, wrap, errorf, new_domain_error, err_code_not_found,
}
use pyairtable_go_services.Domain.Shared.Types.{Env}
use pyairtable_go_services.Domain.Shared.Event.{
  DomainEvent, get_string, event_type_workspace_created,
}
use pyairtable_go_services.Domain.Shared.Aggregate.{clear_uncommitted_events}
use pyairtable_go_services.Domain.Workspace.Types.{WorkspaceAggregate}
use pyairtable_go_services.Domain.Workspace.Lifecycle.{new_workspace_aggregate}
use pyairtable_go_services.Domain.Workspace.History.{load_workspace_from_history}
use pyairtable_go_services.EventStore.{Table, get_events}

-- "Create aggregate with data from first event", its creation event cleared
unfoldable pub blank_workspace : Env → DomainEvent → Outcome WorkspaceAggregate
unfolding get_string clear_uncommitted_events
blank_workspace env first = do
  workspace_id ← or_panic (get_string "workspace_id" first.payload)
  tenant_id ← or_panic (get_string "tenant_id" first.payload)
  name ← or_panic (get_string "name" first.payload)
  description ← or_panic (get_string "description" first.payload)
  owner_id ← or_panic (get_string "owner_id" first.payload)
  aggregate ←
      wrap "failed to create workspace aggregate: %w"
        (new_workspace_aggregate env workspace_id tenant_id name description owner_id)
  ok (record aggregate { base = clear_uncommitted_events aggregate.base })

-- GetByID behind the query, on the events that it gave
unfoldable pub workspace_from_events : Env → List DomainEvent → Outcome WorkspaceAggregate
workspace_from_events env [] = fail (new_domain_error err_code_not_found "workspace not found" none)
workspace_from_events env (first ∷ rest) =
    if not (str_eq first.event_type event_type_workspace_created)
    then fail (errorf "first event must be WorkspaceCreated, got %s" (first.event_type ∷ []))
    else blank_workspace env first >>= λ w.
        wrap "failed to load aggregate from history: %w"
          (load_workspace_from_history (first ∷ rest) w)

-- GetByID; `error` is what the query answered.
unfoldable pub get_workspace_by_id :
    Env → Option String → String → Table → Outcome WorkspaceAggregate
unfolding workspace_from_events
get_workspace_by_id env error id rows =
    wrap "failed to get events: %w" (get_events error id rows) >>= workspace_from_events env
