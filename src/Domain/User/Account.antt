-- ===== src/Domain/User/Account.antt =====
-- domain/user/aggregate.go: creation, activation, deactivation and the profile.
use pyairtable_go_services.Prelude.{
  String, Bool, false, not, ◌&&◌, ◌||◌, [], ◌∷◌, Option, none, some, map_values, str_eq,
  if◌then◌else◌,
}
use pyairtable_go_services.Domain.Shared.Error.{
  Outcome, ok, fail, Error, new_domain_error, err_code_validation, err_code_business_rule,
  err_empty_value,
}
use pyairtable_go_services.Domain.Shared.Types.{Env, Email, email_is_empty}
use pyairtable_go_services.Domain.Shared.Event.{
  Payload, text, event_type_user_registered, event_type_user_activated, event_type_user_deactivated,
  event_type_user_updated,
}
use pyairtable_go_services.Domain.Shared.Aggregate.{new_base_aggregate_root, raise_event}
use pyairtable_go_services.Domain.User.Types.{
  UserAggregate, UserState, AuthSession, user_status_pending, user_status_active,
  user_status_deactivated, role_user,
}

abbrev pub user_aggregate : String
user_aggregate = "UserAggregate"

abbrev pub invalid : String → Outcome UserAggregate
invalid message = fail (new_domain_error err_code_validation message (some err_empty_value))

abbrev pub broken_rule : String → Option Error
broken_rule message = some (new_domain_error err_code_business_rule message none)

fresh_user : Env → Email → String → String → String → UserState
fresh_user env email hashed_password first_name last_name = record {
  email = email;
  hashed_password = hashed_password;
  first_name = first_name;
  last_name = last_name;
  status = user_status_pending;
  profile = record { avatar = ""; timezone = "UTC"; language = "en"; updated_at = env.now 0 };
  roles =
      record { role = role_user; assigned_at = env.now 1; assigned_by = ""; expires_at = none }
      ∷ [];
  sessions = [];
  last_login_at = none;
  email_verified = false;
  email_verified_at = none;
  created_at = env.now 2;
  updated_at = env.now 3;
}

abbrev registered_payload : String → String → Email → String → String → Payload
registered_payload id tenant_id email first_name last_name =
    ("user_id", text id)
    ∷ ("email", text email.value)
    ∷ ("first_name", text first_name)
    ∷ ("last_name", text last_name)
    ∷ ("tenant_id", text tenant_id)
    ∷ []

-- The aggregate behind the checks, its event raised
unfoldable pub created_user :
    Env → String → String → Email → String → String → String → UserAggregate
unfolding fresh_user new_base_aggregate_root
created_user env id tenant_id email hashed_password first_name last_name = record {
  base =
      raise_event env 4 event_type_user_registered user_aggregate
        (registered_payload id tenant_id email first_name last_name)
        (new_base_aggregate_root id tenant_id);
  state = fresh_user env email hashed_password first_name last_name;
}

unfoldable pub new_user_aggregate :
    Env → String → String → Email → String → String → String → Outcome UserAggregate
unfolding created_user email_is_empty
new_user_aggregate env id tenant_id email hashed_password first_name last_name =
    if email_is_empty email
    then invalid "email is required"
    else if str_eq hashed_password ""
    then invalid "password is required"
    else if str_eq first_name ""
    then invalid "first name is required"
    else ok (created_user env id tenant_id email hashed_password first_name last_name)

unfoldable pub activate : Env → UserAggregate → UserAggregate × Option Error
activate env u =
    if str_eq u.state.status user_status_active
    then (u, broken_rule "user is already active")
    else (
      record {
        base =
            raise_event env 1 event_type_user_activated user_aggregate
              (("user_id", text u.base.id) ∷ ("status", text user_status_active) ∷ []) u.base;
        state = record (u.state) { status = user_status_active; updated_at = env.now 0 };
      },
      none,
    )

abbrev pub end_session : AuthSession → AuthSession
end_session s = record s { is_active = false }

unfoldable pub deactivate : Env → String → UserAggregate → UserAggregate × Option Error
deactivate env reason u =
    if str_eq u.state.status user_status_deactivated
    then (u, broken_rule "user is already deactivated")
    else (
      record {
        base =
            raise_event env 1 event_type_user_deactivated user_aggregate
              (("user_id", text u.base.id)
                ∷ ("status", text user_status_deactivated)
                ∷ ("reason", text reason)
                ∷ [])
              u.base;
        state = record (u.state) {
          status = user_status_deactivated;
          updated_at = env.now 0;
          sessions = map_values end_session u.state.sessions;
        };
      },
      none,
    )

-- `if v != "" && v != old { old = v; hasChanges = true }`
abbrev changes : String → String → Bool
changes v old = not (str_eq v "") && not (str_eq v old)

abbrev updated : String → String → String
updated v old = if changes v old then v else old

-- `hasChanges` at the end of the five tests
abbrev pub profile_changes : String → String → String → String → String → UserState → Bool
profile_changes first_name last_name avatar timezone language u =
    changes first_name u.first_name
    || changes last_name u.last_name
    || not (str_eq avatar u.profile.avatar)
    || changes timezone u.profile.timezone
    || changes language u.profile.language

unfoldable pub update_profile :
    Env → String → String → String → String → String → UserAggregate → UserAggregate × Option Error
update_profile env first_name last_name avatar timezone language u =
    if not (str_eq u.state.status user_status_active)
    then (u, broken_rule "cannot update profile of inactive user")
    else let p = u.state.profile in
      let first_name' = updated first_name u.state.first_name in
      let last_name' = updated last_name u.state.last_name in
      let timezone' = updated timezone p.timezone in
      let language' = updated language p.language in
      if profile_changes first_name last_name avatar timezone language u.state
      then (
        record {
          base =
              raise_event env 2 event_type_user_updated user_aggregate
                (("user_id", text u.base.id)
                  ∷ ("first_name", text first_name')
                  ∷ ("last_name", text last_name')
                  ∷ ("avatar", text avatar)
                  ∷ ("timezone", text timezone')
                  ∷ ("language", text language')
                  ∷ [])
                u.base;
          state = record (u.state) {
            first_name = first_name';
            last_name = last_name';
            profile = record {
              avatar = avatar;
              timezone = timezone';
              language = language';
              updated_at = env.now 0;
            };
            updated_at = env.now 1;
          };
        },
        none,
      )
      else (u, none)
