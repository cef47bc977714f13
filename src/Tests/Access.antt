-- ===== src/Tests/Access.antt =====
-- A user with a role on one table (permission-service).
use pyairtable_go_services.Prelude.{◌≡◌, refl, true, false, List, [], ◌∷◌, none, some, exists}
use pyairtable_go_services.Permissions.{
  Role, UserRole, ResourcePermission, CheckPermissionRequest, Store, Answers,
  check_direct_permission, decide, check_permission, cache_get, find_role,
}
use pyairtable_go_services.Permissions.Changes.{grant_permission}
use pyairtable_go_services.Permissions.Roles.{gives, check_permission-by_roles}
use pyairtable_go_services.Permissions.Assignments.{
  Change, grant, assign, create, obey_all, HasRolesOf, roles_never_change, granted_is_fresh,
}

abbrev editor : Role
editor = record {
  id = "r1";
  name = "editor";
  is_active = true;
  tenant_id = some "t1";
  permissions = record { resource_type = "project"; action = "update"; is_active = true } ∷ [];
}

abbrev assignment : UserRole
assignment = record {
  user_id = "u1";
  role_id = "r1";
  resource_type = some "project";
  resource_id = some "p1";
  tenant_id = "t1";
  expires_at = none;
  is_active = true;
}

abbrev store : Store
store = record { roles = editor ∷ []; user_roles = assignment ∷ []; permissions = []; cache = [] }

abbrev working : Answers
working = record {
  now = 5;
  cache_fails = false;
  direct_fails = false;
  roles_fail = false;
  role_fails = λ id. false;
}

-- The update of another project.
abbrev request : CheckPermissionRequest
request = record {
  user_id = "u1";
  resource_type = "project";
  resource_id = "p2";
  action = "update";
  tenant_id = "t1";
}

check_permission-by_roles_example :
    (check_permission working request store).0.0
    ≡ exists (gives working request (editor ∷ [])) (assignment ∷ [])
unfolding check_direct_permission cache_get
check_permission-by_roles_example =
    check_permission-by_roles working request store refl refl refl refl

-- The role on the first project reaches the other one.
other_project : exists (gives working request (editor ∷ [])) (assignment ∷ []) ≡ true
unfolding find_role
other_project = refl

abbrev denial : ResourcePermission
denial = record {
  id = "d1";
  user_id = "u1";
  resource_type = "project";
  resource_id = "p2";
  action = "update";
  permission = "deny";
  tenant_id = "t1";
  expires_at = none;
}

abbrev changes : List Change
changes =
    assign false false false (record assignment { user_id = "u2" })
    ∷ create false false false "r2" "viewer" "t1" (some [])
    ∷ grant false false denial
    ∷ []

roles_never_change_example : HasRolesOf store (obey_all changes store)
roles_never_change_example = roles_never_change changes store

granted_is_fresh_example :
    (check_permission working request (grant_permission false false denial store).1).0
    ≡ decide working request (record store { permissions = denial ∷ []; cache = [] })
granted_is_fresh_example = granted_is_fresh denial working request store refl refl
