-- ===== src/Permissions.antt =====
-- permission-service/internal/services/services.go over the queries of
-- internal/repositories/repositories.go. What the database and Redis answer is a parameter: a query may
-- fail, and rows come in the order of the list. A key of the cache is the texts that the code joins by
-- colons; the identifiers hold no colon. Logging and the audit are left out.
pub mod Changes
pub mod Roles
pub mod Assignments
use pyairtable_go_services.Prelude.{
  ℕ, ◌+◌, String, Bool, true, false, not, ◌&&◌, ◌||◌, List, [], ◌∷◌, ◌++◌, Option, none, some,
  exists, filter, str_eq, ltb, if◌then◌else◌,
}

pub record Permission : Type 0 where
  pub resource_type : String
  pub action : String
  pub is_active : Bool

pub record Role : Type 0 where
  pub id : String
  pub name : String
  pub is_active : Bool
  pub tenant_id : Option String
  pub permissions : List Permission

pub record UserRole : Type 0 where
  pub user_id : String
  pub role_id : String
  pub resource_type : Option String
  pub resource_id : Option String
  pub tenant_id : String
  pub expires_at : Option ℕ
  pub is_active : Bool

pub record ResourcePermission : Type 0 where
  pub id : String
  pub user_id : String
  pub resource_type : String
  pub resource_id : String
  pub action : String
  pub permission : String
  pub tenant_id : String
  pub expires_at : Option ℕ

pub record CheckPermissionRequest : Type 0 where
  pub user_id : String
  pub resource_type : String
  pub resource_id : String
  pub action : String
  pub tenant_id : String

-- An entry of the cache: its key, what it holds, and when it goes.
pub record CacheEntry : Type 0 where
  pub key : CheckPermissionRequest
  pub allow : Bool
  pub expires_at : ℕ

pub record Store : Type 0 where
  pub roles : List Role
  pub user_roles : List UserRole
  pub permissions : List ResourcePermission
  pub cache : List CacheEntry

-- The time in nanoseconds, and which calls fail: those of Redis, the query of the direct permissions,
-- one of the queries of the user's roles, and the read of a role.
pub record Answers : Type 0 where
  pub now : ℕ
  pub cache_fails : Bool
  pub direct_fails : Bool
  pub roles_fail : Bool
  pub role_fails : String → Bool

pub data Reason : Type 0 where
  cached_allow cached_deny direct_allow direct_deny no_matching_permissions : Reason
  role_permission : String → Reason

abbrev pub is_key : CheckPermissionRequest → CheckPermissionRequest → Bool
is_key r s =
    str_eq r.tenant_id s.tenant_id
    && str_eq r.user_id s.user_id
    && str_eq r.resource_type s.resource_type
    && str_eq r.resource_id s.resource_id
    && str_eq r.action s.action

unfoldable pub cache_get : ℕ → CheckPermissionRequest → List CacheEntry → Option Bool
cache_get now req [] = none
cache_get now req (e ∷ cache) =
    let rest = cache_get now req cache in
    if is_key e.key req && ltb now e.expires_at then some e.allow else rest

-- Set with five minutes; the error is not looked at.
abbrev pub cache_set : Answers → CheckPermissionRequest → Bool → Store → Store
cache_set a req allow s = if a.cache_fails then s else record s {
  cache =
      record { key = req; allow = allow; expires_at = a.now + 300000000000 }
      ∷ filter (λ e. not (is_key e.key req)) s.cache;
}

-- `expires_at IS NULL OR expires_at > now`
abbrev pub is_unexpired : ℕ → Option ℕ → Bool
is_unexpired now none = true
is_unexpired now (some t) = ltb now t

-- `ExpiresAt != nil && ExpiresAt.Before(now)`
abbrev pub has_expired : ℕ → Option ℕ → Bool
has_expired now none = false
has_expired now (some t) = ltb t now

-- A condition that an empty text leaves out.
abbrev pub is_or_empty : String → String → Bool
is_or_empty wanted actual = str_eq wanted "" || str_eq actual wanted

abbrev pub is_user_permission : ℕ → CheckPermissionRequest → ResourcePermission → Bool
is_user_permission now req p =
    str_eq p.user_id req.user_id
    && str_eq p.tenant_id req.tenant_id
    && is_or_empty req.resource_type p.resource_type
    && is_or_empty req.resource_id p.resource_id
    && is_unexpired now p.expires_at

-- The loop of checkDirectPermission.
unfoldable pub first_decision : ℕ → String → List ResourcePermission → Option (Bool × Reason)
first_decision now action [] = none
first_decision now action (p ∷ permissions) =
    let rest = first_decision now action permissions in
    if str_eq p.action action && not (has_expired now p.expires_at)
    then if str_eq p.permission "allow"
      then some (true, direct_allow)
      else if str_eq p.permission "deny"
      then some (false, direct_deny)
      else rest
    else rest

unfoldable pub check_direct_permission :
    Answers → CheckPermissionRequest → Store → Option (Bool × Reason)
unfolding first_decision
check_direct_permission a req s =
    if a.direct_fails
    then none
    else first_decision a.now req.action (filter (is_user_permission a.now req) s.permissions)

abbrev pub is_null : Option String → Bool
is_null none = true
is_null (some t) = false

abbrev pub holds : Option String → String → Bool
holds none wanted = false
holds (some t) wanted = str_eq t wanted

abbrev pub is_on : String → String → UserRole → Bool
is_on resource_type resource_id u =
    if str_eq resource_type ""
    then is_null u.resource_type && is_null u.resource_id
    else if str_eq resource_id ""
    then holds u.resource_type resource_type
    else holds u.resource_type resource_type && holds u.resource_id resource_id

-- GetUserRoles of the repository.
unfoldable pub get_user_roles : String → String → String → String → List UserRole → List UserRole
get_user_roles user_id tenant_id resource_type resource_id user_roles =
    filter
      (λ u.
        str_eq u.user_id user_id
        && str_eq u.tenant_id tenant_id
        && u.is_active
        && is_on resource_type resource_id u)
      user_roles

-- The roles of the tenant, of the type and of the resource; getHierarchicalRoles gives none.
unfoldable pub get_user_effective_roles : CheckPermissionRequest → List UserRole → List UserRole
unfolding get_user_roles
get_user_effective_roles req user_roles =
    let global_roles = get_user_roles req.user_id req.tenant_id "" "" user_roles in
    let type_roles = get_user_roles req.user_id req.tenant_id req.resource_type "" user_roles in
    let resource_roles =
      get_user_roles req.user_id req.tenant_id req.resource_type req.resource_id user_roles in
    if str_eq req.resource_type ""
    then global_roles
    else if str_eq req.resource_id ""
    then global_roles ++ type_roles
    else global_roles ++ type_roles ++ resource_roles

unfoldable pub find_role : String → List Role → Option Role
find_role id [] = none
find_role id (r ∷ roles) = let rest = find_role id roles in if str_eq r.id id then some r else rest

abbrev pub get_role : Answers → String → List Role → Option Role
get_role a id roles = if a.role_fails id then none else find_role id roles

abbrev pub is_granted : CheckPermissionRequest → Permission → Bool
is_granted req p =
    str_eq p.resource_type req.resource_type && str_eq p.action req.action && p.is_active

abbrev pub grants : CheckPermissionRequest → Option Role → Bool
grants req none = false
grants req (some role) = role.is_active && exists (is_granted req) role.permissions

abbrev pub name_of : Option Role → String
name_of none = ""
name_of (some role) = role.name

-- The loop of checkRoleBasedPermission.
unfoldable pub first_grant :
    Answers → CheckPermissionRequest → List Role → List UserRole → Option (Bool × Reason)
unfolding find_role
first_grant a req roles [] = none
first_grant a req roles (u ∷ user_roles) =
    let rest = first_grant a req roles user_roles in
    if has_expired a.now u.expires_at || not u.is_active
    then rest
    else if grants req (get_role a u.role_id roles)
    then some (true, role_permission (name_of (get_role a u.role_id roles)))
    else rest

unfoldable pub check_role_based_permission :
    Answers → CheckPermissionRequest → Store → Option (Bool × Reason)
unfolding get_user_effective_roles first_grant
check_role_based_permission a req s =
    if a.roles_fail
    then none
    else first_grant a req s.roles (get_user_effective_roles req s.user_roles)

abbrev pub cached : Answers → CheckPermissionRequest → Store → Option Bool
cached a req s = if a.cache_fails then none else cache_get a.now req s.cache

-- The decision after the direct one, and after the one by roles.
abbrev pub or_else : Option (Bool × Reason) → Bool × Reason → Bool × Reason
or_else none next = next
or_else (some decision) next = decision

abbrev pub decide : Answers → CheckPermissionRequest → Store → Bool × Reason
decide a req s =
    or_else (check_direct_permission a req s)
      (or_else (check_role_based_permission a req s) (false, no_matching_permissions))

abbrev pub answer : Answers → CheckPermissionRequest → Option Bool → Store → (Bool × Reason) × Store
answer a req (some true) s = ((true, cached_allow), s)
answer a req (some false) s = ((false, cached_deny), s)
answer a req none s = (decide a req s, cache_set a req (decide a req s).0 s)

unfoldable pub check_permission : Answers → CheckPermissionRequest → Store → (Bool × Reason) × Store
unfolding check_direct_permission check_role_based_permission cache_get
check_permission a req s = answer a req (cached a req s) s
