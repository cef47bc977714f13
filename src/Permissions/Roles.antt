-- ===== src/Permissions/Roles.antt =====
-- What the roles of a user allow (permission-service/internal/services/services.go).
use pyairtable_go_services.Prelude.{
  ◌≡◌, refl, ◌∙◌, String, Bool, true, false, not, ◌&&◌, ◌||◌, List, [], ◌∷◌, ◌++◌, Option, none,
  some, exists, filter, str_eq, arith, if◌then◌else◌,
}
use pyairtable_go_services.Permissions.{
  Role, UserRole, CheckPermissionRequest, Store, Answers, Reason, is_null, holds, is_on,
  has_expired, get_user_roles, get_user_effective_roles, get_role, grants, first_grant,
  check_direct_permission, check_role_based_permission, cached, or_else, no_matching_permissions,
  decide, answer, check_permission,
}

exists-append :
    {A : Type 0} (p : A → Bool) (xs ys : List A) → exists p (xs ++ ys) ≡ exists p xs || exists p ys
exists-append p [] ys = refl
exists-append p (x ∷ xs) ys = ground (arith, exists-append p xs ys)

exists-filter :
    {A : Type 0} (p q : A → Bool) (xs : List A)
    → exists p (filter q xs) ≡ exists (λ x. q x && p x) xs
exists-filter p q [] = refl
exists-filter p q (x ∷ xs) = ground (arith, exists-filter p q xs)

exists-or :
    {A : Type 0} (p q : A → Bool) (xs : List A)
    → exists p xs || exists q xs ≡ exists (λ x. p x || q x) xs
exists-or p q [] = refl
exists-or p q (x ∷ xs) = ground (arith, exists-or p q xs)

exists-cong :
    {A : Type 0} (p q : A → Bool) (xs : List A) → ((x : A) → p x ≡ q x) → exists p xs ≡ exists q xs
exists-cong p q [] same = refl
exists-cong p q (x ∷ xs) same = ground (arith, same x, exists-cong p q xs same)

abbrev allowed_by : Option (Bool × Reason) → Bool
allowed_by none = false
allowed_by (some decision) = decision.0

-- An assignment that the loop over the roles accepts.
abbrev accepts : Answers → CheckPermissionRequest → List Role → UserRole → Bool
accepts a req roles u =
    not (has_expired a.now u.expires_at || not u.is_active)
    && grants req (get_role a u.role_id roles)

first_grant_lem :
    (a : Answers) (req : CheckPermissionRequest) (roles : List Role) (us : List UserRole)
    → allowed_by (first_grant a req roles us) ≡ exists (accepts a req roles) us
unfolding first_grant
first_grant_lem a req roles [] = refl
first_grant_lem a req roles (u ∷ us) = ground (arith, first_grant_lem a req roles us)

-- An assignment of the user in the tenant, for the whole tenant or for any resource of the type.
abbrev pub reaches : CheckPermissionRequest → UserRole → Bool
reaches req u =
    str_eq u.user_id req.user_id
    && str_eq u.tenant_id req.tenant_id
    && u.is_active
    && (is_null u.resource_type && is_null u.resource_id || holds u.resource_type req.resource_type)

abbrev pub gives : Answers → CheckPermissionRequest → List Role → UserRole → Bool
gives a req roles u =
    reaches req u && not (has_expired a.now u.expires_at) && grants req (get_role a u.role_id roles)

abbrev found : CheckPermissionRequest → String → String → UserRole → Bool
found req resource_type resource_id u =
    str_eq u.user_id req.user_id
    && str_eq u.tenant_id req.tenant_id
    && u.is_active
    && is_on resource_type resource_id u

exists-get_user_roles :
    (req : CheckPermissionRequest) (resource_type resource_id : String) (p : UserRole → Bool)
    (us : List UserRole)
    → exists p (get_user_roles req.user_id req.tenant_id resource_type resource_id us)
      ≡ exists (λ u. found req resource_type resource_id u && p u) us
unfolding get_user_roles
exists-get_user_roles req resource_type resource_id p us =
    exists-filter p (found req resource_type resource_id) us

abbrev global_of : CheckPermissionRequest → List UserRole → List UserRole
global_of req us = get_user_roles req.user_id req.tenant_id "" "" us

abbrev type_of : CheckPermissionRequest → List UserRole → List UserRole
type_of req us = get_user_roles req.user_id req.tenant_id req.resource_type "" us

abbrev resource_of : CheckPermissionRequest → List UserRole → List UserRole
resource_of req us = get_user_roles req.user_id req.tenant_id req.resource_type req.resource_id us

both : {a b c d : Bool} → a ≡ b → c ≡ d → a || c ≡ b || d
both {a} {b} {c} {d} e f = ground arith

pick :
    (p : UserRole → Bool) (b c : Bool) (xs ys zs : List UserRole) (v : Bool)
    → b ≡ false
    → exists p ys ≡ v
    → exists p zs ≡ v
    → exists p (if b then xs else if c then ys else zs) ≡ v
pick p true c xs ys zs v e g h = absurd (cc)
pick p false true xs ys zs v e g h = g
pick p false false xs ys zs v e g h = h

-- Every role of the type is found, also where the request names a resource.
exists-get_user_effective_roles :
    (req : CheckPermissionRequest) (p : UserRole → Bool) (us : List UserRole)
    → str_eq req.resource_type "" ≡ false
    → exists p (get_user_effective_roles req us) ≡ exists (λ u. reaches req u && p u) us
unfolding get_user_effective_roles
exists-get_user_effective_roles req p us typed =
    let on_type : exists p (global_of req us ++ type_of req us)
        ≡ exists (λ u. reaches req u && p u) us =
      exists-append p (global_of req us) (type_of req us)
      ∙ both (exists-get_user_roles req "" "" p us)
          (exists-get_user_roles req req.resource_type "" p us)
      ∙ exists-or (λ u. found req "" "" u && p u) (λ u. found req req.resource_type "" u && p u) us
      ∙ exists-cong (λ u. found req "" "" u && p u || found req req.resource_type "" u && p u)
          (λ u. reaches req u && p u) us (λ u. ground (arith, typed)) in
    let on_resource : exists p (resource_of req us)
        ≡ exists (λ u. found req req.resource_type req.resource_id u && p u) us =
      exists-get_user_roles req req.resource_type req.resource_id p us in
    pick p (str_eq req.resource_type "") (str_eq req.resource_id "") (global_of req us)
      (global_of req us ++ type_of req us)
      (global_of req us ++ type_of req us ++ resource_of req us)
      (exists (λ u. reaches req u && p u) us) typed on_type
      (exists-append p (global_of req us ++ type_of req us) (resource_of req us)
        ∙ both on_type on_resource
        ∙ exists-or (λ u. reaches req u && p u)
            (λ u. found req req.resource_type req.resource_id u && p u) us
        ∙ exists-cong
            (λ u. reaches req u && p u || found req req.resource_type req.resource_id u && p u)
            (λ u. reaches req u && p u) us (λ u. ground (arith, typed)))

-- The decision by roles.
by_roles :
    (a : Answers) (req : CheckPermissionRequest) (s : Store)
    → str_eq req.resource_type "" ≡ false
    → a.roles_fail ≡ false
    → allowed_by (check_role_based_permission a req s) ≡ exists (gives a req s.roles) s.user_roles
unfolding check_role_based_permission
by_roles a req s typed fine = rw fine (
    first_grant_lem a req s.roles (get_user_effective_roles req s.user_roles)
    ∙ exists-get_user_effective_roles req (accepts a req s.roles) s.user_roles typed
    ∙ exists-cong (λ u. reaches req u && accepts a req s.roles u) (gives a req s.roles) s.user_roles
        (λ u. ground arith))

or_denied :
    (decision : Option (Bool × Reason))
    → (or_else decision (false, no_matching_permissions)).0 ≡ allowed_by decision
or_denied none = refl
or_denied (some d) = refl

answer_uncached :
    (a : Answers) (req : CheckPermissionRequest) (hit : Option Bool) (s : Store)
    → hit ≡ none
    → (answer a req hit s).0.0 ≡ (decide a req s).0
answer_uncached a req none s e = refl
answer_uncached a req (some b) s e = absurd (cc)

undecided :
    (direct : Option (Bool × Reason)) (next : Bool × Reason)
    → direct ≡ none
    → (or_else direct next).0 ≡ next.0
undecided none next e = refl
undecided (some d) next e = absurd (cc)

-- Where neither the cache nor a direct permission decides, the roles can be read, and the request names
-- a type of resource (not the empty string), it is allowed just when some role assignment of the user in the tenant is active and not expired, is for the whole
-- tenant or for the type of the resource, and has an active role with an active permission for the type
-- and the action. The resource of the request and that of the assignment do not count: a role on one
-- resource gives its permissions on all resources of the type, and one for another type gives none.
pub check_permission-by_roles :
    (a : Answers) (req : CheckPermissionRequest) (s : Store)
    → cached a req s ≡ none
    → check_direct_permission a req s ≡ none
    → a.roles_fail ≡ false
    → str_eq req.resource_type "" ≡ false
    → (check_permission a req s).0.0 ≡ exists (gives a req s.roles) s.user_roles
unfolding check_permission
check_permission-by_roles a req s uncached direct fine typed =
    answer_uncached a req (cached a req s) s uncached
    ∙ undecided (check_direct_permission a req s) _ direct
    ∙ or_denied (check_role_based_permission a req s)
    ∙ by_roles a req s typed fine
