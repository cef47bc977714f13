-- ===== src/Domain/User/Roles.antt =====
-- domain/user/aggregate.go: the roles of a user. A loop reads the clock once for each entry that it
-- has to; entry i is compared with the clock at its i-th reading.
use pyairtable_go_services.Prelude.{
  ℕ, suc, String, Bool, true, false, not, ◌&&◌, List, [], ◌∷◌, ◌++◌, Option, none, some, exists,
  str_eq, ltb, if◌then◌else◌,
}
use pyairtable_go_services.Domain.Shared.Error.{Error, new_domain_error, err_code_not_found}
use pyairtable_go_services.Domain.Shared.Types.{Env}
use pyairtable_go_services.Domain.Shared.Event.{text, event_type_user_role_changed}
use pyairtable_go_services.Domain.Shared.Aggregate.{raise_event}
use pyairtable_go_services.Domain.User.Types.{
  UserAggregate, UserRole, role_user, user_status_active, role_has_permission,
}
use pyairtable_go_services.Domain.User.Account.{user_aggregate, broken_rule}

abbrev pub is_role : String → UserRole → Bool
is_role role r = str_eq r.role role

unfoldable pub add_role :
    Env → String → String → Option ℕ → UserAggregate → UserAggregate × Option Error
add_role env role assigned_by expires_at u =
    if not (str_eq u.state.status user_status_active)
    then (u, broken_rule "cannot add role to inactive user")
    else if exists (is_role role) u.state.roles
    then (u, broken_rule "user already has this role")
    else (
      record {
        base =
            raise_event env 2 event_type_user_role_changed user_aggregate
              (("user_id", text u.base.id)
                ∷ ("role", text role)
                ∷ ("action", text "added")
                ∷ ("assigned_by", text assigned_by)
                ∷ [])
              u.base;
        state = record (u.state) {
          roles =
              u.state.roles
              ++ record {
                role = role;
                assigned_at = env.now 0;
                assigned_by = assigned_by;
                expires_at = expires_at;
              }
                ∷ [];
          updated_at = env.now 1;
        };
      },
      none,
    )

-- `append(roles[:i], roles[i+1:]...)` at the first entry of the role
unfoldable pub remove_first : String → List UserRole → List UserRole
remove_first role [] = []
remove_first role (r ∷ rs) = if is_role role r then rs else r ∷ remove_first role rs

unfoldable pub remove_role : Env → String → String → UserAggregate → UserAggregate × Option Error
remove_role env role removed_by u =
    if not (str_eq u.state.status user_status_active)
    then (u, broken_rule "cannot remove role from inactive user")
    else if str_eq role role_user
    then (u, broken_rule "cannot remove base user role")
    else if exists (is_role role) u.state.roles
    then (
      record {
        base =
            raise_event env 1 event_type_user_role_changed user_aggregate
              (("user_id", text u.base.id)
                ∷ ("role", text role)
                ∷ ("action", text "removed")
                ∷ ("removed_by", text removed_by)
                ∷ [])
              u.base;
        state = record (u.state) {
          roles = remove_first role u.state.roles;
          updated_at = env.now 0;
        };
      },
      none,
    )
    else (u, some (new_domain_error err_code_not_found "role not found" none))

abbrev pub is_expired : ℕ → Option ℕ → Bool
is_expired now none = false
is_expired now (some t) = ltb t now

has_role_from : Env → ℕ → String → List UserRole → Bool
has_role_from env i role [] = false
has_role_from env i role (r ∷ rs) =
    let rest = has_role_from env (suc i) role rs in
    if is_role role r && not (is_expired (env.now i) r.expires_at) then true else rest

unfoldable pub has_role : Env → String → UserAggregate → Bool
unfolding has_role_from
has_role env role u = has_role_from env 0 role u.state.roles

has_permission_from : Env → ℕ → String → List UserRole → Bool
has_permission_from env i permission [] = false
has_permission_from env i permission (r ∷ rs) =
    let rest = has_permission_from env (suc i) permission rs in
    if is_expired (env.now i) r.expires_at
    then rest
    else if role_has_permission r.role permission
    then true
    else rest

unfoldable pub has_permission : Env → String → UserAggregate → Bool
unfolding has_permission_from
has_permission env permission u = has_permission_from env 0 permission u.state.roles
