-- ===== src/Permissions/Changes.antt =====
-- The calls that change roles and permissions (permission-service/internal/services/services.go): grants,
-- revocations, new roles and assignments of roles.
use pyairtable_go_services.Prelude.{
  String, Bool, true, false, not, ◌&&◌, List, [], ◌∷◌, ◌++◌, Option, none, some, filter, str_eq,
  if◌then◌else◌,
}
use pyairtable_go_services.Permissions.{
  Permission, Role, UserRole, ResourcePermission, CacheEntry, Store, find_role,
}

-- `perm:<tenant>:<user>:*`
abbrev pub is_of_user : String → String → CacheEntry → Bool
is_of_user user_id tenant_id e = str_eq e.key.tenant_id tenant_id && str_eq e.key.user_id user_id

-- The keys of the user go, where Redis does not fail; its error is only logged.
abbrev pub invalidate_user_permission_cache : Bool → String → String → Store → Store
invalidate_user_permission_cache fails user_id tenant_id s =
    if fails
    then s
    else record s { cache = filter (λ e. not (is_of_user user_id tenant_id e)) s.cache }

-- The errors are those of the database, and the refusals of the service.
pub data ChangeError : Type 0 where
  database not_found role_not_active role_already_assigned role_already_exists : ChangeError

-- GrantPermission, with the row to create.
unfoldable pub grant_permission :
    Bool → Bool → ResourcePermission → Store → Option ChangeError × Store
grant_permission create_fails cache_fails p s = if create_fails then (some database, s) else (
  none,
  invalidate_user_permission_cache cache_fails p.user_id p.tenant_id
      (record s { permissions = s.permissions ++ p ∷ [] }),
)

unfoldable pub find_permission : String → List ResourcePermission → Option ResourcePermission
find_permission id [] = none
find_permission id (p ∷ permissions) =
    let rest = find_permission id permissions in if str_eq p.id id then some p else rest

abbrev pub revoke_found :
    Bool → Bool → Option ResourcePermission → Store → Option ChangeError × Store
revoke_found delete_fails cache_fails none s = (some not_found, s)
revoke_found delete_fails cache_fails (some p) s = if delete_fails then (some database, s) else (
  none,
  invalidate_user_permission_cache cache_fails p.user_id p.tenant_id
      (record s { permissions = filter (λ q. not (str_eq q.id p.id)) s.permissions }),
)

unfoldable pub revoke_permission : Bool → Bool → String → Store → Option ChangeError × Store
unfolding find_permission
revoke_permission delete_fails cache_fails permission_id s =
    revoke_found delete_fails cache_fails (find_permission permission_id s.permissions) s

-- What a query by First gives: the address of its variable, which is not nil, and an error, where there
-- is no row or the query fails.
pub data Read {ℓ} (A : Type ℓ) : Type ℓ where
  row : A → Read A
  empty_row_not_found : Read A
  empty_row_failed : Read A

abbrev pub same_text : Option String → Option String → Bool
same_text none none = true
same_text (some a) (some b) = str_eq a b
same_text a b = false

abbrev pub is_same_assignment : UserRole → UserRole → Bool
is_same_assignment wanted u =
    str_eq u.user_id wanted.user_id
    && str_eq u.role_id wanted.role_id
    && str_eq u.tenant_id wanted.tenant_id
    && same_text wanted.resource_type u.resource_type
    && same_text wanted.resource_id u.resource_id

abbrev pub first_row {ℓ} : {A : Type ℓ} → (A → Bool) → List A → Read A
first_row p [] = empty_row_not_found
first_row p (x ∷ xs) = if p x then row x else first_row p xs

abbrev pub reading {ℓ} : {A : Type ℓ} → Bool → Read A → Read A
reading fails found = if fails then empty_row_failed else found

-- `existing != nil` holds for every answer of First.
abbrev pub is_not_nil {ℓ} : {A : Type ℓ} → Read A → Bool
is_not_nil (row x) = true
is_not_nil empty_row_not_found = true
is_not_nil empty_row_failed = true

abbrev pub is_other_error {ℓ} : {A : Type ℓ} → Read A → Bool
is_other_error (row x) = false
is_other_error empty_row_not_found = false
is_other_error empty_row_failed = true

-- AssignRole after the role was read: the row to create is `u`.
abbrev pub assign_active :
    Bool → Bool → UserRole → Read UserRole → Store → Option ChangeError × Store
assign_active create_fails cache_fails u existing s =
    if is_other_error existing
    then (some database, s)
    else if is_not_nil existing
    then (some role_already_assigned, s)
    else if create_fails
    then (some database, s)
    else (
      none,
      invalidate_user_permission_cache cache_fails u.user_id u.tenant_id
          (record s { user_roles = s.user_roles ++ u ∷ [] }),
    )

abbrev pub assign_found :
    Bool → Bool → Bool → UserRole → Option Role → Store → Option ChangeError × Store
assign_found read_fails create_fails cache_fails u none s = (some not_found, s)
assign_found read_fails create_fails cache_fails u (some role) s =
    if not role.is_active
    then (some role_not_active, s)
    else assign_active create_fails cache_fails u
        (reading read_fails (first_row (is_same_assignment u) s.user_roles)) s

unfoldable pub assign_role : Bool → Bool → Bool → UserRole → Store → Option ChangeError × Store
unfolding find_role
assign_role read_fails create_fails cache_fails u s =
    assign_found read_fails create_fails cache_fails u (find_role u.role_id s.roles) s

abbrev pub is_named : String → String → Role → Bool
is_named name tenant_id r = str_eq r.name name && same_text (some tenant_id) r.tenant_id

-- CreateRole, with the identifier of the row and the permissions that GetByNames finds, or its error.
abbrev pub create_new :
    Bool
    → Bool
    → String
    → String
    → String
    → Option (List Permission)
    → Read Role
    → Store
    → Option ChangeError × Store
create_new create_fails assign_fails id name tenant_id permissions existing s =
    if is_other_error existing
    then (some database, s)
    else if is_not_nil existing
    then (some role_already_exists, s)
    else if create_fails
    then (some database, s)
    else (
      none,
      record s {
        roles =
            s.roles
            ++ record {
              id = id;
              name = name;
              is_active = true;
              tenant_id = some tenant_id;
              permissions = if assign_fails then [] else or_none permissions;
            }
              ∷ [];
      },
    )
  where
    or_none : Option (List Permission) → List Permission
    or_none none = []
    or_none (some found) = found

unfoldable pub create_role :
    Bool
    → Bool
    → Bool
    → String
    → String
    → String
    → Option (List Permission)
    → Store
    → Option ChangeError × Store
create_role read_fails create_fails assign_fails id name tenant_id permissions s =
    create_new create_fails assign_fails id name tenant_id permissions
      (reading read_fails (first_row (is_named name tenant_id) s.roles)) s
