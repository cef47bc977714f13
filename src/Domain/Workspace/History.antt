-- ===== src/Domain/Workspace/History.antt =====
-- domain/workspace/aggregate.go: LoadFromHistory and the handlers of the single events.
use pyairtable_go_services.Prelude.{
  String, List, Option, none, some, lookup, insert, erase, str_eq, if◌then◌else◌,
}
use pyairtable_go_services.Domain.Shared.Error.{Outcome, ok, ◌>>=◌, or_panic}
use pyairtable_go_services.Domain.Shared.Event.{
  DomainEvent, get_string, event_type_workspace_created, event_type_workspace_updated,
  event_type_member_added, event_type_member_removed, event_type_member_role_changed,
  event_type_workspace_deactivated,
}
use pyairtable_go_services.Domain.Shared.History.{load_with}
use pyairtable_go_services.Domain.Workspace.Types.{
  WorkspaceAggregate, WorkspaceState, workspace_status_active,
}
use pyairtable_go_services.Domain.Workspace.Members.{new_member, with_role}

abbrev or_keep : Option String → String → String
or_keep none old = old
or_keep (some v) old = v

apply_workspace_created_event : DomainEvent → WorkspaceState → Outcome WorkspaceState
unfolding get_string
apply_workspace_created_event event w = do
  name ← or_panic (get_string "name" event.payload)
  description ← or_panic (get_string "description" event.payload)
  owner_id ← or_panic (get_string "owner_id" event.payload)
  ok (record w {
    name = name;
    description = description;
    owner_id = owner_id;
    status = workspace_status_active;
  })

apply_workspace_updated_event : DomainEvent → WorkspaceState → WorkspaceState
unfolding get_string
apply_workspace_updated_event event w = record w {
  name = or_keep (get_string "name" event.payload) w.name;
  description = or_keep (get_string "description" event.payload) w.description;
}

apply_member_added_event : DomainEvent → WorkspaceState → Outcome WorkspaceState
unfolding get_string
apply_member_added_event event w = do
  user_id ← or_panic (get_string "user_id" event.payload)
  role ← or_panic (get_string "role" event.payload)
  added_by ← or_panic (get_string "added_by" event.payload)
  ok (record w {
    members = insert user_id (new_member user_id role added_by event.occurred_at) w.members;
  })

apply_member_removed_event : DomainEvent → WorkspaceState → Outcome WorkspaceState
unfolding get_string
apply_member_removed_event event w = do
  user_id ← or_panic (get_string "user_id" event.payload)
  ok (record w { members = erase user_id w.members })

apply_member_role_changed_event : DomainEvent → WorkspaceState → Outcome WorkspaceState
unfolding get_string
apply_member_role_changed_event event w = do
  user_id ← or_panic (get_string "user_id" event.payload)
  new_role ← or_panic (get_string "new_role" event.payload)
  elim (lookup user_id w.members) [
    | none ↦ ok w
    | some m ↦
        ok
          (record w { members = insert user_id (with_role new_role event.occurred_at m) w.members })
  ]

apply_workspace_deactivated_event : DomainEvent → WorkspaceState → Outcome WorkspaceState
unfolding get_string
apply_workspace_deactivated_event event w = do
  status ← or_panic (get_string "status" event.payload)
  ok (record w { status = status })

-- The `switch` of LoadFromHistory
unfoldable pub apply_workspace_event : DomainEvent → WorkspaceState → Outcome WorkspaceState
unfolding apply_workspace_created_event apply_workspace_updated_event apply_member_added_event
    apply_member_removed_event apply_member_role_changed_event apply_workspace_deactivated_event
apply_workspace_event event w =
    if str_eq event.event_type event_type_workspace_created
    then apply_workspace_created_event event w
    else if str_eq event.event_type event_type_workspace_updated
    then ok (apply_workspace_updated_event event w)
    else if str_eq event.event_type event_type_member_added
    then apply_member_added_event event w
    else if str_eq event.event_type event_type_member_removed
    then apply_member_removed_event event w
    else if str_eq event.event_type event_type_member_role_changed
    then apply_member_role_changed_event event w
    else if str_eq event.event_type event_type_workspace_deactivated
    then apply_workspace_deactivated_event event w
    else ok w

-- LoadFromHistory
unfoldable pub load_workspace_from_history :
    List DomainEvent → WorkspaceAggregate → Outcome WorkspaceAggregate
unfolding load_with
load_workspace_from_history events w = do
  (base, state) ← load_with apply_workspace_event events w.base w.state
  ok (record { base = base; state = state })
