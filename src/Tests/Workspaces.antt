-- ===== src/Tests/Workspaces.antt =====
-- A workspace from creation to archive (domain/workspace, pkg/repositories).
use pyairtable_go_services.Prelude.{
  ◌≤◌, ◌≡◌, refl, true, List, [], ◌∷◌, none, some, length, lookup, insert, arith, trim_space,
}
use pyairtable_go_services.Domain.Shared.Error.{ok, err_code_forbidden}
use pyairtable_go_services.Domain.Shared.Types.{Env}
use pyairtable_go_services.Domain.Shared.Event.{DomainEvent, text}
use pyairtable_go_services.Domain.Shared.Aggregate.{raise_event}
use pyairtable_go_services.Domain.Workspace.Types.{
  WorkspaceAggregate, WorkspaceMember, get_default_permissions,
}
use pyairtable_go_services.Domain.Workspace.Members.{
  add_member, change_member_role, can_manage_workspace, can_manage_members, can_create_projects,
  get_member_count, refuse,
}
use pyairtable_go_services.Domain.Workspace.Lifecycle.{
  update_workspace, archive, create_project, created_workspace, new_workspace_aggregate,
}
use pyairtable_go_services.Domain.Workspace.History.{
  apply_workspace_event, load_workspace_from_history,
}
use pyairtable_go_services.Domain.Workspace.Commands.{
  Command, updates, adds_member, changes_role, creates_project, archives, step, run,
}
use pyairtable_go_services.Domain.Workspace.Ownership.{Owned, created-Owned}
use pyairtable_go_services.Domain.Workspace.Access.{
  workspace_run-Owned, success_needs_role, may, owner_creates_no_project,
}
use pyairtable_go_services.Domain.Workspace.Limits.{members_within_limit}
use pyairtable_go_services.Domain.Workspace.Replay.{SameWorkspace}
use pyairtable_go_services.EventStore.{
  Table, new_row, select, current_version, get_events, save_events,
}
use pyairtable_go_services.Repositories.{save, expected_version}
use pyairtable_go_services.Repositories.Workspaces.{
  blank_workspace, workspace_from_events, get_workspace_by_id,
}
use pyairtable_go_services.Repositories.Workspaces.Rebuild.{workspace_run_rebuilds}
use pyairtable_go_services.Repositories.Workspaces.Cycle.{get-save-get_workspace}
use pyairtable_go_services.Tests.{world, healthy}

abbrev lab : WorkspaceAggregate
lab = created_workspace (world 5 "i5") "w1" "t1" "Lab" "Experiments" "ada"

abbrev history : List (Env × Command)
history =
    (world 10 "i10", adds_member "bob" "member" "ada")
    ∷ (world 20 "i20", adds_member "eve" "admin" "bob")
    ∷ (world 30 "i30", creates_project "p1" "Engine" "" "bob" "public")
    ∷ (world 40 "i40", changes_role "bob" "admin" "ada")
    ∷ (world 50 "i50", updates "Laboratory" "Experiments" "bob")
    ∷ (world 60 "i60", archives "ada")
    ∷ []

-- Bob has just become a member, who may create projects but not add members.
abbrev half : List (Env × Command)
half = (world 10 "i10", adds_member "bob" "member" "ada") ∷ []

lab-Owned : Owned lab.state
lab-Owned = created-Owned (world 5 "i5") "w1" "t1" "Lab" "Experiments" "ada"

workspace_run-Owned_example : Owned (run history lab).state
workspace_run-Owned_example = workspace_run-Owned history lab lab-Owned

half_done :
    (step (world 30 "i30") (creates_project "p1" "Engine" "" "bob" "public") (run half lab)).1
    ≡ none
unfolding step run add_member create_project created_workspace can_manage_members
    can_create_projects get_member_count lookup insert get_default_permissions
half_done = refl

success_needs_role_example :
    (m : WorkspaceMember) × (lookup "bob" (run half lab).state.members ≡ some m)
    × (may (creates_project "p1" "Engine" "" "bob" "public") m.role ≡ true)
success_needs_role_example =
    success_needs_role (world 30 "i30") (creates_project "p1" "Engine" "" "bob" "public")
      (run half lab) (workspace_run-Owned half lab lab-Owned) half_done

owner_creates_no_project_example :
    let w = run history lab in
    create_project (world 9 "i9") "p2" "Notes" "" w.state.owner_id "public" w
    ≡ (w, refuse err_code_forbidden "insufficient permissions to create projects")
owner_creates_no_project_example =
    owner_creates_no_project (world 5 "i5") "w1" "t1" "Lab" "Experiments" "ada" history
      (world 9 "i9") "p2" "Notes" "" "public"

members_within_limit_example :
    get_member_count (run history lab).state ≤ (run history lab).state.settings.max_members
members_within_limit_example =
    members_within_limit (world 5 "i5") "w1" "t1" "Lab" "Experiments" "ada" history

workspace_run_rebuilds_example :
    let v = run history lab in
    (r : WorkspaceAggregate) × (workspace_from_events (world 99 "i99") v.base.uncommitted_events
      ≡ ok r)
    × SameWorkspace v.state r.state
    × (r.base.id ≡ v.base.id)
    × (r.base.tenant_id ≡ v.base.tenant_id)
    × (r.base.version ≡ v.base.version)
workspace_run_rebuilds_example =
    workspace_run_rebuilds (world 99 "i99") (world 5 "i5") "w1" "t1" "Lab" "Experiments" "ada"
      history {w = lab} (unfold trim_space in refl) (unfold trim_space in refl)
      (unfold new_workspace_aggregate in refl)

abbrev founded : DomainEvent
founded = record {
  event_id = "e1";
  event_type = "workspace.created";
  aggregate_id = "w1";
  aggregate_type = "WorkspaceAggregate";
  version = 1;
  occurred_at = 3;
  tenant_id = "t1";
  payload =
      ("workspace_id", text "w1")
      ∷ ("name", text "Lab")
      ∷ ("description", text "Experiments")
      ∷ ("owner_id", text "ada")
      ∷ ("tenant_id", text "t1")
      ∷ [];
}

abbrev rows : Table
rows = new_row founded ∷ []

abbrev stored : WorkspaceAggregate
stored = record {
  base = record { id = "w1"; version = 1; tenant_id = "t1"; uncommitted_events = [] };
  state = (created_workspace (world 70 "i70") "w1" "t1" "Lab" "Experiments" "ada").state;
}

loaded : get_workspace_by_id (world 70 "i70") none "w1" rows ≡ ok stored
unfolding get_workspace_by_id get_events workspace_from_events blank_workspace
    new_workspace_aggregate load_workspace_from_history raise_event apply_workspace_event
    created_workspace trim_space
loaded = refl

pending : length (run history stored).base.uncommitted_events ≡ 4
unfolding run step add_member change_member_role create_project update_workspace archive raise_event
    created_workspace can_manage_members can_manage_workspace can_create_projects get_member_count
    lookup insert get_default_permissions trim_space
pending = refl

saved : (save healthy rows (run history stored).base rows).2 ≡ none
unfolding run step add_member change_member_role create_project update_workspace archive raise_event
    created_workspace can_manage_members can_manage_workspace can_create_projects get_member_count
    lookup insert get_default_permissions trim_space save expected_version save_events
saved = refl

get-save-get_workspace_example :
    let v = run history stored in
    (r : WorkspaceAggregate) × (get_workspace_by_id
        (world 70 "i70")
        none
        "w1"
        (save healthy rows v.base rows).0
      ≡ ok r)
    × SameWorkspace v.state r.state
    × (r.base.version ≡ v.base.version)
get-save-get_workspace_example =
    get-save-get_workspace (world 70 "i70") healthy "w1" rows history stored
      (unfold select in (omega arith, tt)) loaded (unfold current_version in omega (arith, pending))
      saved
