-- ===== src/Domain/User/History.antt =====
-- domain/user/aggregate.go: LoadFromHistory and the handlers of the single events. A type assertion
-- that does not hold panics. Where an error is returned the receiver is of no further use.
use pyairtable_go_services.Prelude.{
  String, List, [], ◌∷◌, ◌++◌, Option, none, some, str_eq, if◌then◌else◌,
}
use pyairtable_go_services.Domain.Shared.Error.{Outcome, ok, ◌>>=◌, or_panic}
use pyairtable_go_services.Domain.Shared.Types.{new_email}
use pyairtable_go_services.Domain.Shared.Event.{
  DomainEvent, get_string, event_type_user_registered, event_type_user_activated,
  event_type_user_deactivated, event_type_user_updated, event_type_user_role_changed,
}
use pyairtable_go_services.Domain.Shared.History.{load_with}
use pyairtable_go_services.Domain.User.Types.{
  UserAggregate, UserState, user_status_pending, user_status_active, user_status_deactivated,
}
use pyairtable_go_services.Domain.User.Roles.{remove_first}

apply_user_registered_event : DomainEvent → UserState → Outcome UserState
unfolding get_string new_email
apply_user_registered_event event u = do
  email ← or_panic (get_string "email" event.payload)
  first_name ← or_panic (get_string "first_name" event.payload)
  last_name ← or_panic (get_string "last_name" event.payload)
  ok (record u {
    email = (new_email email).0;
    first_name = first_name;
    last_name = last_name;
    status = user_status_pending;
  })

-- `if v, ok := payload[k].(string); ok { old = v }`
abbrev pub or_keep : Option String → String → String
or_keep none old = old
or_keep (some v) old = v

apply_user_updated_event : DomainEvent → UserState → UserState
unfolding get_string
apply_user_updated_event event u =
    let p = event.payload in
    record u {
      first_name = or_keep (get_string "first_name" p) u.first_name;
      last_name = or_keep (get_string "last_name" p) u.last_name;
      profile = record (u.profile) {
        avatar = or_keep (get_string "avatar" p) u.profile.avatar;
        timezone = or_keep (get_string "timezone" p) u.profile.timezone;
        language = or_keep (get_string "language" p) u.profile.language;
      };
    }

apply_user_role_changed_event : DomainEvent → UserState → Outcome UserState
unfolding get_string
apply_user_role_changed_event event u = do
  role ← or_panic (get_string "role" event.payload)
  action ← or_panic (get_string "action" event.payload)
  if str_eq action "added"
      then ok (record u {
        roles =
            u.roles
            ++ record {
              role = role;
              assigned_at = event.occurred_at;
              assigned_by = "";
              expires_at = none;
            }
              ∷ [];
      })
      else if str_eq action "removed"
      then ok (record u { roles = remove_first role u.roles })
      else ok u

-- The `switch` of LoadFromHistory
unfoldable pub apply_user_event : DomainEvent → UserState → Outcome UserState
unfolding apply_user_registered_event apply_user_updated_event apply_user_role_changed_event
apply_user_event event u =
    if str_eq event.event_type event_type_user_registered
    then apply_user_registered_event event u
    else if str_eq event.event_type event_type_user_activated
    then ok (record u { status = user_status_active })
    else if str_eq event.event_type event_type_user_deactivated
    then ok (record u { status = user_status_deactivated })
    else if str_eq event.event_type event_type_user_updated
    then ok (apply_user_updated_event event u)
    else if str_eq event.event_type event_type_user_role_changed
    then apply_user_role_changed_event event u
    else ok u

-- LoadFromHistory
unfoldable pub load_user_from_history : List DomainEvent → UserAggregate → Outcome UserAggregate
unfolding load_with
load_user_from_history events u = do
  (base, state) ← load_with apply_user_event events u.base u.state
  ok (record { base = base; state = state })
