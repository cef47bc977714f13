-- ===== src/Domain/Workspace/Types.antt =====
-- domain/workspace/aggregate.go: roles and their permissions, members, projects, the aggregate.
use pyairtable_go_services.Prelude.{
  ℕ, String, Bool, ◌||◌, List, [], ◌∷◌, Option, Dict, exists, str_eq, if◌then◌else◌,
}
use pyairtable_go_services.Domain.Shared.Types.{Email}
use pyairtable_go_services.Domain.Shared.Aggregate.{BaseAggregateRoot}

-- WorkspaceStatus, MemberRole, Permission and the other enumerations are named strings.
abbrev pub workspace_status_active : String
workspace_status_active = "active"

abbrev pub workspace_status_suspended : String
workspace_status_suspended = "suspended"

abbrev pub workspace_status_archived : String
workspace_status_archived = "archived"

abbrev pub workspace_status_deleted : String
workspace_status_deleted = "deleted"

-- WorkspaceStatus.IsValid
unfoldable pub status_is_valid : String → Bool
status_is_valid s =
    str_eq s workspace_status_active
    || str_eq s workspace_status_suspended
    || str_eq s workspace_status_archived
    || str_eq s workspace_status_deleted

abbrev pub member_role_owner : String
member_role_owner = "owner"

abbrev pub member_role_admin : String
member_role_admin = "admin"

abbrev pub member_role_member : String
member_role_member = "member"

abbrev pub member_role_viewer : String
member_role_viewer = "viewer"

abbrev pub member_role_guest : String
member_role_guest = "guest"

abbrev pub permission_manage_workspace : String
permission_manage_workspace = "manage_workspace"

abbrev pub permission_manage_members : String
permission_manage_members = "manage_members"

abbrev pub permission_manage_projects : String
permission_manage_projects = "manage_projects"

abbrev pub permission_view_projects : String
permission_view_projects = "view_projects"

abbrev pub permission_edit_projects : String
permission_edit_projects = "edit_projects"

abbrev pub permission_create_projects : String
permission_create_projects = "create_projects"

abbrev pub permission_delete_projects : String
permission_delete_projects = "delete_projects"

abbrev pub permission_manage_integrations : String
permission_manage_integrations = "manage_integrations"

-- MemberRole.GetDefaultPermissions
unfoldable pub get_default_permissions : String → List String
get_default_permissions r =
    if str_eq r member_role_owner
    then permission_manage_workspace ∷ permission_manage_members ∷ permission_manage_projects
      ∷ permission_view_projects ∷ permission_edit_projects ∷ permission_delete_projects
      ∷ permission_manage_integrations ∷ []
    else if str_eq r member_role_admin
    then permission_manage_members ∷ permission_manage_projects ∷ permission_view_projects
      ∷ permission_edit_projects ∷ permission_delete_projects ∷ permission_manage_integrations ∷ []
    else if str_eq r member_role_member
    then permission_view_projects ∷ permission_edit_projects ∷ permission_create_projects ∷ []
    else if str_eq r member_role_viewer
    then permission_view_projects ∷ []
    else if str_eq r member_role_guest
    then permission_view_projects ∷ []
    else []

abbrev pub member_status_active : String
member_status_active = "active"

pub record WorkspaceMember : Type 0 where
  pub user_id : String
  pub role : String
  pub permissions : List String
  pub joined_at : ℕ
  pub updated_at : ℕ
  pub added_by : String
  pub status : String

-- `CustomFields` and `Integrations` are maps that no operation reads or fills.
pub record WorkspaceSettings : Type 0 where
  pub is_public : Bool
  pub allow_invitations : Bool
  pub default_member_role : String
  pub max_members : ℕ
  pub updated_at : ℕ

abbrev pub project_status_active : String
project_status_active = "active"

abbrev pub project_visibility_public : String
project_visibility_public = "public"

abbrev pub project_role_owner : String
project_role_owner = "owner"

pub record ProjectSettings : Type 0 where
  pub is_public : Bool
  pub visibility : String
  pub tags : List String
  pub updated_at : ℕ

pub record ProjectMember : Type 0 where
  pub user_id : String
  pub role : String
  pub permissions : List String
  pub joined_at : ℕ
  pub added_by : String

pub record Project : Type 0 where
  pub id : String
  pub name : String
  pub description : String
  pub owner_id : String
  pub status : String
  pub settings : ProjectSettings
  pub members : Dict ProjectMember
  pub created_at : ℕ
  pub updated_at : ℕ

pub record Invitation : Type 0 where
  pub id : String
  pub email : Email
  pub role : String
  pub invited_by : String
  pub status : String
  pub message : String
  pub expires_at : ℕ
  pub created_at : ℕ
  pub accepted_at : Option ℕ
  pub token : String

-- The fields of WorkspaceAggregate beside the root that it embeds.
pub record WorkspaceState : Type 0 where
  pub name : String
  pub description : String
  pub owner_id : String
  pub status : String
  pub settings : WorkspaceSettings
  pub members : Dict WorkspaceMember
  pub projects : Dict Project
  pub invitations : Dict Invitation
  pub created_at : ℕ
  pub updated_at : ℕ

pub record WorkspaceAggregate : Type 0 where
  pub base : BaseAggregateRoot
  pub state : WorkspaceState

-- hasPermission, and MemberRole.HasPermission on the defaults
abbrev pub has_permission : List String → String → Bool
has_permission permissions permission = exists (λ p. str_eq p permission) permissions
