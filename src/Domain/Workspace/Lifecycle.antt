-- ===== src/Domain/Workspace/Lifecycle.antt =====
-- domain/workspace/aggregate.go: creation, update, archiving, projects.
use pyairtable_go_services.Prelude.{
  ℕ, String, len, Bool, true, false, not, ◌&&◌, ◌||◌, [], ◌∷◌, Option, none, some, lookup, insert,
  trim_space, str_eq, ltb, if◌then◌else◌,
}
use pyairtable_go_services.Domain.Shared.Error.{
  Outcome, ok, fail, Error, new_domain_error, err_code_forbidden, err_code_business_rule,
  err_code_validation, err_code_already_exists, err_empty_value,
}
use pyairtable_go_services.Domain.Shared.Types.{Env}
use pyairtable_go_services.Domain.Shared.Event.{
  text, event_type_workspace_created, event_type_workspace_updated,
  event_type_workspace_deactivated,
}
use pyairtable_go_services.Domain.Shared.Aggregate.{new_base_aggregate_root, raise_event}
use pyairtable_go_services.Domain.Workspace.Types.{
  WorkspaceAggregate, WorkspaceState, Project, workspace_status_active, workspace_status_archived,
  member_role_owner, member_role_member, project_status_active, project_role_owner,
  project_visibility_public, permission_manage_projects, permission_edit_projects,
  permission_view_projects,
}
use pyairtable_go_services.Domain.Workspace.Members.{
  workspace_aggregate, refuse, can_manage_workspace, can_create_projects, new_member,
}

-- The aggregate behind the checks, its event raised; `time.Now` is read once, and once for the event.
unfoldable pub created_workspace :
    Env → String → String → String → String → String → WorkspaceAggregate
unfolding new_base_aggregate_root insert
created_workspace env id tenant_id name description owner_id = record {
  base =
      raise_event env 1 event_type_workspace_created workspace_aggregate
        (("workspace_id", text id)
          ∷ ("name", text name)
          ∷ ("description", text description)
          ∷ ("owner_id", text owner_id)
          ∷ ("tenant_id", text tenant_id)
          ∷ [])
        (new_base_aggregate_root id tenant_id);
  state = record {
    name = trim_space name;
    description = trim_space description;
    owner_id = owner_id;
    status = workspace_status_active;
    settings = record {
      is_public = false;
      allow_invitations = true;
      default_member_role = member_role_member;
      max_members = 100;
      updated_at = env.now 0;
    };
    members = insert owner_id (new_member owner_id member_role_owner owner_id (env.now 0)) [];
    projects = [];
    invitations = [];
    created_at = env.now 0;
    updated_at = env.now 0;
  };
}

unfoldable pub new_workspace_aggregate :
    Env → String → String → String → String → String → Outcome WorkspaceAggregate
unfolding created_workspace
new_workspace_aggregate env id tenant_id name description owner_id =
    if str_eq name ""
    then fail
        (new_domain_error err_code_validation "workspace name is required" (some err_empty_value))
    else if ltb 100 (len name)
    then fail (new_domain_error err_code_validation "workspace name too long" none)
    else if str_eq owner_id ""
    then fail (new_domain_error err_code_validation "owner ID is required" (some err_empty_value))
    else ok (created_workspace env id tenant_id name description owner_id)

abbrev pub renames : String → WorkspaceState → Bool
renames name w = not (str_eq name "") && not (str_eq name w.name)

abbrev pub workspace_changes : String → String → WorkspaceState → Bool
workspace_changes name description w = renames name w || not (str_eq description w.description)

unfoldable pub update_workspace :
    Env → String → String → String → WorkspaceAggregate → WorkspaceAggregate × Option Error
update_workspace env name description updated_by w =
    if not (can_manage_workspace updated_by w.state)
    then (w, refuse err_code_forbidden "insufficient permissions to update workspace")
    else if not (str_eq w.state.status workspace_status_active)
    then (w, refuse err_code_business_rule "cannot update inactive workspace")
    else if renames name w.state && ltb 100 (len name)
    then (w, refuse err_code_validation "workspace name too long")
    else let name' = if renames name w.state then trim_space name else w.state.name in
      let description' =
        if str_eq description w.state.description
        then w.state.description
        else trim_space description in
      if workspace_changes name description w.state
      then (
        record {
          base =
              raise_event env 1 event_type_workspace_updated workspace_aggregate
                (("workspace_id", text w.base.id)
                  ∷ ("name", text name')
                  ∷ ("description", text description')
                  ∷ ("updated_by", text updated_by)
                  ∷ [])
                w.base;
          state = record (w.state) {
            name = name';
            description = description';
            updated_at = env.now 0;
          };
        },
        none,
      )
      else (w, none)

unfoldable pub archive : Env → String → WorkspaceAggregate → WorkspaceAggregate × Option Error
archive env archived_by w =
    if not (can_manage_workspace archived_by w.state)
    then (w, refuse err_code_forbidden "insufficient permissions to archive workspace")
    else if str_eq w.state.status workspace_status_archived
    then (w, refuse err_code_business_rule "workspace is already archived")
    else (
      record {
        base =
            raise_event env 1 event_type_workspace_deactivated workspace_aggregate
              (("workspace_id", text w.base.id)
                ∷ ("status", text workspace_status_archived)
                ∷ ("archived_by", text archived_by)
                ∷ [])
              w.base;
        state = record (w.state) { status = workspace_status_archived; updated_at = env.now 0 };
      },
      none,
    )

abbrev new_project : String → String → String → String → String → ℕ → Project
new_project id name description created_by visibility now = record {
  id = id;
  name = trim_space name;
  description = trim_space description;
  owner_id = created_by;
  status = project_status_active;
  settings = record {
    is_public = str_eq visibility project_visibility_public;
    visibility = visibility;
    tags = [];
    updated_at = now;
  };
  members =
      insert created_by
        (record {
          user_id = created_by;
          role = project_role_owner;
          permissions =
              permission_manage_projects ∷ permission_edit_projects ∷ permission_view_projects ∷ [];
          joined_at = now;
          added_by = created_by;
        })
        [];
  created_at = now;
  updated_at = now;
}

unfoldable pub create_project :
    Env
    → String
    → String
    → String
    → String
    → String
    → WorkspaceAggregate
    → WorkspaceAggregate × Option Error
create_project env project_id name description created_by visibility w =
    if not (can_create_projects created_by w.state)
    then (w, refuse err_code_forbidden "insufficient permissions to create projects")
    else if not (str_eq w.state.status workspace_status_active)
    then (w, refuse err_code_business_rule "cannot create projects in inactive workspace")
    else if str_eq name ""
    then (
      w,
      some (new_domain_error err_code_validation "project name is required" (some err_empty_value)),
    )
    else elim (lookup project_id w.state.projects) [
      | some _ ↦ (w, refuse err_code_already_exists "project already exists")
      | none ↦ (
        record w {
          state = record (w.state) {
            projects =
                insert project_id
                  (new_project project_id name description created_by visibility (env.now 0))
                  w.state.projects;
            updated_at = env.now 1;
          };
        },
        none,
      )
    ]
