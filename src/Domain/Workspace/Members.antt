-- ===== src/Domain/Workspace/Members.antt =====
-- domain/workspace/aggregate.go: who may do what, and the members of a workspace. The map holds
-- pointers that only its own operations write through, so a member is kept by value.
use pyairtable_go_services.Prelude.{
  ℕ, suc, String, Bool, false, not, ◌&&◌, ◌||◌, [], ◌∷◌, Option, none, some, Dict, lookup, insert,
  erase, str_eq, leb, if◌then◌else◌,
}
use pyairtable_go_services.Domain.Shared.Error.{
  Error, new_domain_error, err_code_forbidden, err_code_business_rule, err_code_not_found,
  err_code_already_exists,
}
use pyairtable_go_services.Domain.Shared.Types.{Env}
use pyairtable_go_services.Domain.Shared.Event.{
  text, event_type_member_added, event_type_member_removed, event_type_member_role_changed,
}
use pyairtable_go_services.Domain.Shared.Aggregate.{raise_event}
use pyairtable_go_services.Domain.Workspace.Types.{
  WorkspaceAggregate, WorkspaceState, WorkspaceMember, workspace_status_active, member_role_owner,
  member_role_admin, member_status_active, permission_manage_workspace, permission_manage_members,
  permission_create_projects, get_default_permissions, has_permission,
}

abbrev pub workspace_aggregate : String
workspace_aggregate = "WorkspaceAggregate"

abbrev pub refuse : String → String → Option Error
refuse code message = some (new_domain_error code message none)

abbrev pub is_active : WorkspaceMember → Bool
is_active m = str_eq m.status member_status_active

abbrev pub manages : String → WorkspaceMember → Bool
manages permission m =
    str_eq m.role member_role_owner
    || str_eq m.role member_role_admin
    || has_permission m.permissions permission

unfoldable pub can_manage_workspace : String → WorkspaceState → Bool
can_manage_workspace user_id w = elim (lookup user_id w.members) [
  | none ↦ false
  | some m ↦ if not (is_active m) then false else manages permission_manage_workspace m
]

unfoldable pub can_manage_members : String → WorkspaceState → Bool
can_manage_members user_id w = elim (lookup user_id w.members) [
  | none ↦ false
  | some m ↦ if not (is_active m) then false else manages permission_manage_members m
]

unfoldable pub can_create_projects : String → WorkspaceState → Bool
unfolding get_default_permissions
can_create_projects user_id w = elim (lookup user_id w.members) [
  | none ↦ false
  | some m ↦
      if not (is_active m)
      then false
      else has_permission (get_default_permissions m.role) permission_create_projects
        || has_permission m.permissions permission_create_projects
]

-- The count of GetMemberCount over the map
unfoldable pub count_active : Dict WorkspaceMember → ℕ
count_active [] = 0
count_active ((k, m) ∷ ms) = let rest = count_active ms in if is_active m then suc rest else rest

unfoldable pub get_member_count : WorkspaceState → ℕ
unfolding count_active
get_member_count w = count_active w.members

abbrev pub new_member : String → String → String → ℕ → WorkspaceMember
new_member user_id role added_by now = record {
  user_id = user_id;
  role = role;
  permissions = get_default_permissions role;
  joined_at = now;
  updated_at = now;
  added_by = added_by;
  status = member_status_active;
}

unfoldable pub add_member :
    Env → String → String → String → WorkspaceAggregate → WorkspaceAggregate × Option Error
add_member env user_id role added_by w =
    if not (can_manage_members added_by w.state)
    then (w, refuse err_code_forbidden "insufficient permissions to add members")
    else if not (str_eq w.state.status workspace_status_active)
    then (w, refuse err_code_business_rule "cannot add members to inactive workspace")
    else elim (lookup user_id w.state.members) [
      | some _ ↦ (w, refuse err_code_already_exists "user is already a member")
      | none ↦
          if leb w.state.settings.max_members (get_member_count w.state)
          then (w, refuse err_code_business_rule "workspace member limit reached")
          else if str_eq role member_role_owner
          then (w, refuse err_code_business_rule "workspace can only have one owner")
          else (
            record {
              base =
                  raise_event env 2 event_type_member_added workspace_aggregate
                    (("workspace_id", text w.base.id)
                      ∷ ("user_id", text user_id)
                      ∷ ("role", text role)
                      ∷ ("added_by", text added_by)
                      ∷ [])
                    w.base;
              state = record (w.state) {
                members =
                    insert user_id (new_member user_id role added_by (env.now 0)) w.state.members;
                updated_at = env.now 1;
              };
            },
            none,
          )
    ]

unfoldable pub remove_member :
    Env → String → String → WorkspaceAggregate → WorkspaceAggregate × Option Error
remove_member env user_id removed_by w =
    if not (can_manage_members removed_by w.state)
    then (w, refuse err_code_forbidden "insufficient permissions to remove members")
    else elim (lookup user_id w.state.members) [
      | none ↦ (w, refuse err_code_not_found "member not found")
      | some m ↦
          if str_eq m.role member_role_owner
          then (w, refuse err_code_business_rule "cannot remove workspace owner")
          else if not (str_eq user_id removed_by) && not (can_manage_members removed_by w.state)
          then (w, refuse err_code_forbidden "insufficient permissions")
          else (
            record {
              base =
                  raise_event env 1 event_type_member_removed workspace_aggregate
                    (("workspace_id", text w.base.id)
                      ∷ ("user_id", text user_id)
                      ∷ ("role", text m.role)
                      ∷ ("removed_by", text removed_by)
                      ∷ [])
                    w.base;
              state = record (w.state) {
                members = erase user_id w.state.members;
                updated_at = env.now 0;
              };
            },
            none,
          )
    ]

abbrev pub with_role : String → ℕ → WorkspaceMember → WorkspaceMember
with_role role now m = record m {
  role = role;
  permissions = get_default_permissions role;
  updated_at = now;
}

unfoldable pub change_member_role :
    Env → String → String → String → WorkspaceAggregate → WorkspaceAggregate × Option Error
change_member_role env user_id new_role changed_by w =
    if not (can_manage_members changed_by w.state)
    then (w, refuse err_code_forbidden "insufficient permissions to change member roles")
    else elim (lookup user_id w.state.members) [
      | none ↦ (w, refuse err_code_not_found "member not found")
      | some m ↦
          if str_eq m.role member_role_owner || str_eq new_role member_role_owner
          then (w, refuse err_code_business_rule "cannot change owner role")
          else if str_eq m.role new_role
          then (w, refuse err_code_business_rule "member already has this role")
          else (
            record {
              base =
                  raise_event env 2 event_type_member_role_changed workspace_aggregate
                    (("workspace_id", text w.base.id)
                      ∷ ("user_id", text user_id)
                      ∷ ("old_role", text m.role)
                      ∷ ("new_role", text new_role)
                      ∷ ("changed_by", text changed_by)
                      ∷ [])
                    w.base;
              state = record (w.state) {
                members = insert user_id (with_role new_role (env.now 0) m) w.state.members;
                updated_at = env.now 1;
              };
            },
            none,
          )
    ]
