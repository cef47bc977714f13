-- ===== src/Domain/Workspace/Access.antt =====
-- What a workspace keeps over any calls, and who may make them (domain/workspace/aggregate.go).
use pyairtable_go_services.Prelude.{
  String, Bool, true, false, ◌≡◌, refl, inl, inr, List, [], ◌∷◌, none, some, lookup, str_eq, arith,
  Option-cases, ◌||◌,
}
use pyairtable_go_services.Domain.Shared.Error.{err_code_forbidden}
use pyairtable_go_services.Domain.Shared.Types.{Env}
use pyairtable_go_services.Domain.Workspace.Types.{
  WorkspaceAggregate, WorkspaceState, WorkspaceMember, member_role_owner, member_role_admin,
  member_role_member, get_default_permissions,
}
use pyairtable_go_services.Domain.Workspace.Members.{
  add_member, remove_member, change_member_role, can_manage_workspace, can_manage_members,
  can_create_projects, refuse,
}
use pyairtable_go_services.Domain.Workspace.Lifecycle.{
  update_workspace, archive, create_project, created_workspace,
}
use pyairtable_go_services.Domain.Workspace.Commands.{
  Command, updates, adds_member, removes_member, changes_role, creates_project, archives, step, run,
}
use pyairtable_go_services.Domain.Workspace.Permissions.{
  creates_by_role, manages_workspace_by_role, manages_members_by_role,
}
use pyairtable_go_services.Domain.Workspace.Ownership.{Owned, step-Owned, created-Owned}

-- Through any run of calls, failing ones included, a workspace keeps an active owner under its
-- owner's identifier and no other member has that role; every member is active, stands under its own
-- identifier and has exactly the permissions of its role.
pub workspace_run-Owned :
    (cs : List (Env × Command)) (w : WorkspaceAggregate) → Owned w.state → Owned (run cs w).state
unfolding run
workspace_run-Owned [] w h = h
workspace_run-Owned ((env, c) ∷ cs) w h =
    workspace_run-Owned cs (step env c w).0 (step-Owned env c w h)

-- Who asks for a call
abbrev pub actor : Command → String
actor (updates n d by) = by
actor (adds_member u r by) = by
actor (removes_member u by) = by
actor (changes_role u r by) = by
actor (creates_project p n d by v) = by
actor (archives by) = by

abbrev pub may : Command → String → Bool
may (creates_project p n d by v) role = str_eq role member_role_member
may _ role = str_eq role member_role_owner || str_eq role member_role_admin

module _ (by : String) (w : WorkspaceState) (owned : Owned w) where
  manages_workspace-role :
      can_manage_workspace by w ≡ true
      → (m : WorkspaceMember) × (lookup by w.members ≡ some m)
        × ((str_eq m.role member_role_owner || str_eq m.role member_role_admin) ≡ true)
  unfolding can_manage_workspace
  manages_workspace-role c = elim (Option-cases (lookup by w.members)) [
    | inl gone ↦ absurd (ground arith)
    | inr (m, found) ↦
        let p = (owned.proper by m found).permissions in
        (m, found, ground (arith, manages_workspace_by_role m.role))
  ]

  manages_members-role :
      can_manage_members by w ≡ true
      → (m : WorkspaceMember) × (lookup by w.members ≡ some m)
        × ((str_eq m.role member_role_owner || str_eq m.role member_role_admin) ≡ true)
  unfolding can_manage_members
  manages_members-role c = elim (Option-cases (lookup by w.members)) [
    | inl gone ↦ absurd (ground arith)
    | inr (m, found) ↦
        let p = (owned.proper by m found).permissions in
        (m, found, ground (arith, manages_members_by_role m.role))
  ]

  creates_projects-role :
      can_create_projects by w ≡ true
      → (m : WorkspaceMember) × (lookup by w.members ≡ some m)
        × (str_eq m.role member_role_member ≡ true)
  unfolding can_create_projects
  creates_projects-role c = elim (Option-cases (lookup by w.members)) [
    | inl gone ↦ absurd (ground arith)
    | inr (m, found) ↦
        let p = (owned.proper by m found).permissions in
        (m, found, ground (arith, creates_by_role m.role))
  ]

-- Where the members are in order, a call succeeds only if the user who asks for it is a member whose
-- role allows it: owner or admin for everything but a project, which only the role member creates.
pub success_needs_role :
    (env : Env) (c : Command) (w : WorkspaceAggregate)
    → Owned w.state
    → (step env c w).1 ≡ none
    → (m : WorkspaceMember) × (lookup (actor c) w.state.members ≡ some m) × (may c m.role ≡ true)
unfolding step update_workspace add_member remove_member change_member_role create_project archive
success_needs_role env (updates n d by) w h ok = manages_workspace-role by w.state h (ground arith)
success_needs_role env (adds_member u r by) w h ok =
    manages_members-role by w.state h (ground arith)
success_needs_role env (removes_member u by) w h ok =
    manages_members-role by w.state h (ground arith)
success_needs_role env (changes_role u r by) w h ok =
    manages_members-role by w.state h (ground arith)
success_needs_role env (creates_project p n d by v) w h ok =
    creates_projects-role by w.state h (ground arith)
success_needs_role env (archives by) w h ok = manages_workspace-role by w.state h (ground arith)

Owned-manages :
    (w : WorkspaceState)
    → Owned w
    → (can_manage_workspace w.owner_id w ≡ true) × (can_manage_members w.owner_id w ≡ true)
unfolding can_manage_workspace can_manage_members
Owned-manages w h =
    rw
      (
        can_manage_workspace,
        can_manage_members,
        h.present,
        (h.proper _ h.member h.present).status,
        h.role,
      )
      (refl, refl)

Owned-creates_no_project : (w : WorkspaceState) → Owned w → can_create_projects w.owner_id w ≡ false
unfolding can_create_projects get_default_permissions
Owned-creates_no_project w h =
    let p = (h.proper _ h.member h.present).permissions in
    rw (can_create_projects, h.present, p, h.role, (h.proper _ h.member h.present).status) refl

-- After any run of calls on a new workspace its owner can manage it and its members.
owner_manages :
    (env : Env) (id tenant_id name description owner_id : String) (cs : List (Env × Command))
    → let w = (run cs (created_workspace env id tenant_id name description owner_id)).state in
      (can_manage_workspace w.owner_id w ≡ true) × (can_manage_members w.owner_id w ≡ true)
owner_manages env id tenant_id name description owner_id cs =
    Owned-manages _
      (workspace_run-Owned cs _ (created-Owned env id tenant_id name description owner_id))

-- The owner of a new workspace is refused every project, whatever calls went before: the role owner
-- does not hold create_projects, which CreateProject asks for.
pub owner_creates_no_project :
    (env : Env) (id tenant_id name description owner_id : String) (cs : List (Env × Command))
    (env' : Env) (project_id project_name text visibility : String)
    → let w = run cs (created_workspace env id tenant_id name description owner_id) in
      create_project env' project_id project_name text w.state.owner_id visibility w
      ≡ (w, refuse err_code_forbidden "insufficient permissions to create projects")
unfolding create_project
owner_creates_no_project env id tenant_id name description owner_id cs env' pid pname text v =
    let w = run cs (created_workspace env id tenant_id name description owner_id) in
    let h = workspace_run-Owned cs _ (created-Owned env id tenant_id name description owner_id) in
    rw (Owned-creates_no_project w.state h) refl
