-- ===== src/Permissions/Assignments.antt =====
-- What the calls on roles do (permission-service/internal/services/services.go).
use pyairtable_go_services.Prelude.{
  ℕ, ◌≡◌, refl, ◌∙◌, ap, subst, arith, inl, inr, String, Bool, true, false, not, List, [], ◌∷◌,
  ◌++◌, filter, str_eq, Option, none, some, Bool-cases,
}
use pyairtable_go_services.Permissions.{
  Permission, Role, UserRole, ResourcePermission, Store, Answers, CacheEntry, cache_get, cached,
  decide, answer, check_permission, CheckPermissionRequest, find_role,
}
use pyairtable_go_services.Permissions.Changes.{
  ChangeError, Read, row, empty_row_not_found, empty_row_failed, assign_active, assign_found,
  assign_role, create_new, create_role, reading, first_row, is_same_assignment, is_named,
  grant_permission, revoke_permission, revoke_found, find_permission,
  invalidate_user_permission_cache, is_of_user,
}

-- A call that is refused and changes nothing.
abbrev pub Refused : Store → Option ChangeError × Store → Type 0
Refused s result = (e : ChangeError) × (result ≡ (some e, s))

assign_active-Refused :
    (create_fails cache_fails : Bool) (u : UserRole) (existing : Read UserRole) (s : Store)
    → Refused s (assign_active create_fails cache_fails u existing s)
assign_active-Refused create_fails cache_fails u (row x) s = (_, refl)
assign_active-Refused create_fails cache_fails u empty_row_not_found s = (_, refl)
assign_active-Refused create_fails cache_fails u empty_row_failed s = (_, refl)

create_new-Refused :
    (create_fails assign_fails : Bool) (id name tenant_id : String)
    (permissions : Option (List Permission)) (existing : Read Role) (s : Store)
    → Refused s (create_new create_fails assign_fails id name tenant_id permissions existing s)
create_new-Refused create_fails assign_fails id name tenant_id permissions (row x) s = (_, refl)
create_new-Refused create_fails assign_fails id name tenant_id permissions empty_row_not_found s =
    (_, refl)
create_new-Refused create_fails assign_fails id name tenant_id permissions empty_row_failed s =
    (_, refl)

assign_found-Refused :
    (read_fails create_fails cache_fails : Bool) (u : UserRole) (role : Option Role) (s : Store)
    → Refused s (assign_found read_fails create_fails cache_fails u role s)
assign_found-Refused read_fails create_fails cache_fails u none s = (_, refl)
assign_found-Refused read_fails create_fails cache_fails u (some role) s =
    elim (Bool-cases role.is_active) [
      | inl active ↦ rw active (
          assign_active-Refused create_fails cache_fails u
            (reading read_fails (first_row (is_same_assignment u) s.user_roles)) s)
      | inr inactive ↦ rw inactive (_, refl)
    ]

-- The calls of the two services, each with what fails in it.
pub data Change : Type 0 where
  grant : Bool → Bool → ResourcePermission → Change
  revoke : Bool → Bool → String → Change
  assign : Bool → Bool → Bool → UserRole → Change
  create : Bool → Bool → Bool → String → String → String → Option (List Permission) → Change

abbrev pub obey : Change → Store → Option ChangeError × Store
obey (grant create_fails cache_fails p) s = grant_permission create_fails cache_fails p s
obey (revoke delete_fails cache_fails id) s = revoke_permission delete_fails cache_fails id s
obey (assign read_fails create_fails cache_fails u) s =
    assign_role read_fails create_fails cache_fails u s
obey (create read_fails create_fails assign_fails id name tenant_id permissions) s =
    create_role read_fails create_fails assign_fails id name tenant_id permissions s

abbrev pub obey_all : List Change → Store → Store
obey_all [] s = s
obey_all (c ∷ changes) s = obey_all changes (obey c s).1

abbrev pub HasRolesOf : Store → Store → Type 0
HasRolesOf before s = (s.roles ≡ before.roles) × (s.user_roles ≡ before.user_roles)

invalidate-HasRolesOf :
    (fails : Bool) (user_id tenant_id : String) (s : Store)
    → HasRolesOf s (invalidate_user_permission_cache fails user_id tenant_id s)
invalidate-HasRolesOf true user_id tenant_id s = (refl, refl)
invalidate-HasRolesOf false user_id tenant_id s = (refl, refl)

grant_permission-HasRolesOf :
    (create_fails cache_fails : Bool) (p : ResourcePermission) (s : Store)
    → HasRolesOf s (grant_permission create_fails cache_fails p s).1
unfolding grant_permission
grant_permission-HasRolesOf true cache_fails p s = (refl, refl)
grant_permission-HasRolesOf false cache_fails p s =
    invalidate-HasRolesOf cache_fails p.user_id p.tenant_id
      (record s { permissions = s.permissions ++ p ∷ [] })

revoke_found-HasRolesOf :
    (delete_fails cache_fails : Bool) (p : Option ResourcePermission) (s : Store)
    → HasRolesOf s (revoke_found delete_fails cache_fails p s).1
revoke_found-HasRolesOf delete_fails cache_fails none s = (refl, refl)
revoke_found-HasRolesOf true cache_fails (some p) s = (refl, refl)
revoke_found-HasRolesOf false cache_fails (some p) s =
    invalidate-HasRolesOf cache_fails p.user_id p.tenant_id
      (record s { permissions = filter (λ q. not (str_eq q.id p.id)) s.permissions })

Refused-HasRolesOf :
    (s : Store) (result : Option ChangeError × Store) → Refused s result → HasRolesOf s result.1
Refused-HasRolesOf s result (e, is) = (ap (λ r. r.1.roles) is, ap (λ r. r.1.user_roles) is)

obey-HasRolesOf : (c : Change) (s : Store) → HasRolesOf s (obey c s).1
unfolding revoke_permission assign_role create_role
obey-HasRolesOf (grant create_fails cache_fails p) s =
    grant_permission-HasRolesOf create_fails cache_fails p s
obey-HasRolesOf (revoke delete_fails cache_fails id) s =
    revoke_found-HasRolesOf delete_fails cache_fails (find_permission id s.permissions) s
obey-HasRolesOf (assign read_fails create_fails cache_fails u) s =
    Refused-HasRolesOf s _
      (assign_found-Refused read_fails create_fails cache_fails u (find_role u.role_id s.roles) s)
obey-HasRolesOf (create read_fails create_fails assign_fails id name tenant_id permissions) s =
    Refused-HasRolesOf s _ (
      create_new-Refused create_fails assign_fails id name tenant_id permissions
        (reading read_fails (first_row (is_named name tenant_id) s.roles)) s)

-- No run of grants, revocations, assignments and creations of roles changes a role or an assignment,
-- whatever fails or succeeds in it: the query for an existing row returns an address that is not nil
-- where there is no row, and AssignRole and CreateRole take that for a row.
pub roles_never_change : (changes : List Change) (s : Store) → HasRolesOf s (obey_all changes s)
roles_never_change [] s = (refl, refl)
roles_never_change (c ∷ changes) s =
    let (roles, user_roles) = obey-HasRolesOf c s in
    let (roles', user_roles') = roles_never_change changes (obey c s).1 in
    (roles' ∙ roles, user_roles' ∙ user_roles)

uncached :
    (now : ℕ) (req : CheckPermissionRequest) (cache : List CacheEntry)
    → cache_get now req (filter (λ e. not (is_of_user req.user_id req.tenant_id e)) cache) ≡ none
unfolding cache_get
uncached now req [] = refl
uncached now req (e ∷ cache) = ground (arith, uncached now req cache)

cached-none :
    (a : Answers) (req : CheckPermissionRequest) (user_id tenant_id : String) (s : Store)
    → req.user_id ≡ user_id
    → req.tenant_id ≡ tenant_id
    → cached a req (invalidate_user_permission_cache false user_id tenant_id s) ≡ none
cached-none a req user_id tenant_id s user tenant = elim (Bool-cases a.cache_fails) [
  | inl fails ↦ rw fails refl
  | inr works ↦ rw works (
      subst (λ u. cache_get a.now req (filter (λ e. not (is_of_user u tenant_id e)) s.cache) ≡ none)
        user
        (subst
          (λ t. cache_get a.now req (filter (λ e. not (is_of_user req.user_id t e)) s.cache) ≡ none)
          tenant (uncached a.now req s.cache)))
]

answered :
    (a : Answers) (req : CheckPermissionRequest) (hit : Option Bool) (s : Store)
    → hit ≡ none
    → (answer a req hit s).0 ≡ decide a req s
answered a req none s e = refl
answered a req (some b) s e = absurd (cc)

-- After a grant that succeeds and whose invalidation Redis carries out, no decision about the user in the
-- tenant comes from the cache: a check answers what the rows with the new permission say.
pub granted_is_fresh :
    (p : ResourcePermission) (a : Answers) (req : CheckPermissionRequest) (s : Store)
    → req.user_id ≡ p.user_id
    → req.tenant_id ≡ p.tenant_id
    → (check_permission a req (grant_permission false false p s).1).0
      ≡ decide a req (record s { permissions = s.permissions ++ p ∷ []; cache = [] })
unfolding check_permission grant_permission
granted_is_fresh p a req s user tenant =
    answered a req
      (cached a req (
        invalidate_user_permission_cache false p.user_id p.tenant_id
          (record s { permissions = s.permissions ++ p ∷ [] })))
      (invalidate_user_permission_cache false p.user_id p.tenant_id
        (record s { permissions = s.permissions ++ p ∷ [] }))
      (cached-none a req p.user_id p.tenant_id (record s { permissions = s.permissions ++ p ∷ [] })
        user tenant)
