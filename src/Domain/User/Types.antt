-- ===== src/Domain/User/Types.antt =====
-- domain/user/aggregate.go: statuses, roles and their permissions, sessions, the aggregate.
use pyairtable_go_services.Prelude.{
  ℕ, String, Bool, false, ◌||◌, List, [], ◌∷◌, Option, none, some, Dict, lookup, exists, str_eq,
  ltb,
}
use pyairtable_go_services.Domain.Shared.Types.{Email}
use pyairtable_go_services.Domain.Shared.Aggregate.{BaseAggregateRoot}

-- UserStatus, Role and Permission are named strings.
abbrev pub user_status_pending : String
user_status_pending = "pending"

abbrev pub user_status_active : String
user_status_active = "active"

abbrev pub user_status_suspended : String
user_status_suspended = "suspended"

abbrev pub user_status_deactivated : String
user_status_deactivated = "deactivated"

-- UserStatus.IsValid
unfoldable pub status_is_valid : String → Bool
status_is_valid s =
    str_eq s user_status_pending
    || str_eq s user_status_active
    || str_eq s user_status_suspended
    || str_eq s user_status_deactivated

abbrev pub role_user : String
role_user = "user"

abbrev pub role_admin : String
role_admin = "admin"

abbrev pub role_super_admin : String
role_super_admin = "super_admin"

abbrev pub role_workspace_owner : String
role_workspace_owner = "workspace_owner"

abbrev pub role_workspace_admin : String
role_workspace_admin = "workspace_admin"

abbrev pub role_workspace_member : String
role_workspace_member = "workspace_member"

abbrev pub role_workspace_viewer : String
role_workspace_viewer = "workspace_viewer"

abbrev pub permission_all : String
permission_all = "all"

abbrev pub permission_read_own_profile : String
permission_read_own_profile = "read_own_profile"

abbrev pub permission_update_own_profile : String
permission_update_own_profile = "update_own_profile"

abbrev pub permission_view_workspace : String
permission_view_workspace = "view_workspace"

abbrev pub permission_edit_workspace : String
permission_edit_workspace = "edit_workspace"

abbrev pub permission_manage_workspace : String
permission_manage_workspace = "manage_workspace"

abbrev pub permission_delete_workspace : String
permission_delete_workspace = "delete_workspace"

abbrev pub permission_manage_users : String
permission_manage_users = "manage_users"

abbrev pub permission_manage_tenant : String
permission_manage_tenant = "manage_tenant"

-- The map that Role.HasPermission builds.
abbrev pub role_permissions : Dict (List String)
role_permissions =
    (role_user, permission_read_own_profile ∷ permission_update_own_profile ∷ [])
    ∷ (
      role_workspace_viewer,
      permission_read_own_profile ∷ permission_update_own_profile ∷ permission_view_workspace ∷ [],
    )
    ∷ (
      role_workspace_member,
      permission_read_own_profile ∷ permission_update_own_profile ∷ permission_view_workspace
          ∷ permission_edit_workspace ∷ [],
    )
    ∷ (
      role_workspace_admin,
      permission_read_own_profile ∷ permission_update_own_profile ∷ permission_view_workspace
          ∷ permission_edit_workspace ∷ permission_manage_workspace ∷ [],
    )
    ∷ (
      role_workspace_owner,
      permission_read_own_profile ∷ permission_update_own_profile ∷ permission_view_workspace
          ∷ permission_edit_workspace ∷ permission_manage_workspace ∷ permission_delete_workspace
          ∷ [],
    )
    ∷ (
      role_admin,
      permission_read_own_profile ∷ permission_update_own_profile ∷ permission_view_workspace
          ∷ permission_edit_workspace ∷ permission_manage_workspace ∷ permission_delete_workspace
          ∷ permission_manage_users ∷ [],
    )
    ∷ (role_super_admin, permission_all ∷ [])
    ∷ []

-- Role.HasPermission
unfoldable pub role_has_permission : String → String → Bool
unfolding lookup
role_has_permission r permission = elim (lookup r role_permissions) [
  | none ↦ false
  | some permissions ↦ exists (λ p. str_eq p permission || str_eq p permission_all) permissions
]

pub record UserRole : Type 0 where
  pub role : String
  pub assigned_at : ℕ
  pub assigned_by : String
  pub expires_at : Option ℕ

-- `Preferences` is a map that no operation reads or fills.
pub record UserProfile : Type 0 where
  pub avatar : String
  pub timezone : String
  pub language : String
  pub updated_at : ℕ

pub record AuthSession : Type 0 where
  pub id : String
  pub token : String
  pub device_info : String
  pub ip_address : String
  pub user_agent : String
  pub created_at : ℕ
  pub expires_at : ℕ
  pub last_used_at : ℕ
  pub is_active : Bool

-- AuthSession.IsExpired, at the time of the call
unfoldable pub session_is_expired : ℕ → AuthSession → Bool
session_is_expired now s = ltb s.expires_at now

-- The fields of UserAggregate beside the root that it embeds.
pub record UserState : Type 0 where
  pub email : Email
  pub hashed_password : String
  pub first_name : String
  pub last_name : String
  pub status : String
  pub profile : UserProfile
  pub roles : List UserRole
  pub sessions : Dict AuthSession
  pub last_login_at : Option ℕ
  pub email_verified : Bool
  pub email_verified_at : Option ℕ
  pub created_at : ℕ
  pub updated_at : ℕ

pub record UserAggregate : Type 0 where
  pub base : BaseAggregateRoot
  pub state : UserState
