-- ===== src/Tests/Users.antt =====
-- A user from registration to deactivation (domain/user, pkg/repositories).
use pyairtable_go_services.Prelude.{
  ◌≡◌, refl, false, List, [], ◌∷◌, none, some, All, length, lookup, insert, map_values, arith,
}
use pyairtable_go_services.Domain.Shared.Error.{ok}
use pyairtable_go_services.Domain.Shared.Types.{Env, Email, is_valid_email}
use pyairtable_go_services.Domain.Shared.Event.{DomainEvent, text}
use pyairtable_go_services.Domain.Shared.Aggregate.{raise_event}
use pyairtable_go_services.Domain.User.Types.{UserAggregate, AuthSession}
use pyairtable_go_services.Domain.User.Account.{
  created_user, new_user_aggregate, activate, deactivate, update_profile,
}
use pyairtable_go_services.Domain.User.Sessions.{create_session}
use pyairtable_go_services.Domain.User.Roles.{add_role}
use pyairtable_go_services.Domain.User.History.{apply_user_event, load_user_from_history}
use pyairtable_go_services.Domain.User.Commands.{
  Command, activates, deactivates, updates_profile, adds_role, creates_session, step, run,
}
use pyairtable_go_services.Domain.User.Replay.{SameUser}
use pyairtable_go_services.Domain.User.Invariants.{inactive_user-no_session}
use pyairtable_go_services.EventStore.{
  get_events, save_events, Table, new_row, select, current_version,
}
use pyairtable_go_services.Repositories.{save, expected_version}
use pyairtable_go_services.Repositories.Users.{blank_user, user_from_events, get_user_by_id}
use pyairtable_go_services.Repositories.Users.Rebuild.{run_rebuilds}
use pyairtable_go_services.Repositories.Users.Cycle.{get-save-get_user}
use pyairtable_go_services.Repositories.Users.Expiry.{NeverExpires, loaded_roles-NeverExpires}
use pyairtable_go_services.Tests.{world, healthy}

abbrev ada_email : Email
ada_email = record { value = "ada@example.org" }

abbrev ada : UserAggregate
ada = created_user (world 5 "i5") "u1" "t1" ada_email "hash" "Ada" "Lovelace"

abbrev life : List (Env × Command)
life =
    (world 10 "i10", activates)
    ∷ (world 20 "i20", adds_role "admin" "root" (some 25))
    ∷ (world 30 "i30", creates_session (some "token") "laptop" "::1" "browser" 1000)
    ∷ (world 40 "i40", updates_profile "Ada" "King" "" "Europe/London" "")
    ∷ (world 50 "i50", adds_role "admin" "root" none)
    ∷ (world 60 "i60", deactivates "left")
    ∷ []

-- `life` as a run of the code, opened
life_ends : (run life ada).state.status ≡ "deactivated"
unfolding run step activate deactivate update_profile add_role create_session created_user
life_ends = refl

first_session : AuthSession
first_session = record {
  id = "i30";
  token = "token";
  device_info = "laptop";
  ip_address = "::1";
  user_agent = "browser";
  created_at = 30;
  expires_at = 1031;
  last_used_at = 32;
  is_active = false;
}

inactive_user-no_session_example : first_session.is_active ≡ false
inactive_user-no_session_example =
    inactive_user-no_session (world 5 "i5") "u1" "t1" ada_email "hash" "Ada" "Lovelace" life "i30"
      first_session
      (unfold run step activate deactivate update_profile add_role create_session created_user in
        refl)
      (unfold run step activate deactivate update_profile add_role create_session created_user
          first_session lookup insert map_values in
        refl)

run_rebuilds_example :
    let v = run life ada in
    (r : UserAggregate) × (user_from_events (world 99 "i99") v.base.uncommitted_events ≡ ok r)
    × SameUser v.state r.state
    × (r.base.id ≡ v.base.id)
    × (r.base.tenant_id ≡ v.base.tenant_id)
    × (r.base.version ≡ v.base.version)
run_rebuilds_example =
    run_rebuilds (world 99 "i99") (world 5 "i5") "u1" "t1" ada_email "hash" "Ada" "Lovelace" life
      {u = ada} (unfold is_valid_email in refl) (unfold new_user_aggregate in refl)

abbrev registered : DomainEvent
registered = record {
  event_id = "e1";
  event_type = "user.registered";
  aggregate_id = "u1";
  aggregate_type = "UserAggregate";
  version = 1;
  occurred_at = 3;
  tenant_id = "t1";
  payload =
      ("user_id", text "u1")
      ∷ ("email", text "ada@example.org")
      ∷ ("first_name", text "Ada")
      ∷ ("last_name", text "Lovelace")
      ∷ ("tenant_id", text "t1")
      ∷ [];
}

abbrev promoted : DomainEvent
promoted = record registered {
  event_id = "e2";
  event_type = "user.role_changed";
  version = 2;
  payload = ("role", text "admin") ∷ ("action", text "added") ∷ [];
}

abbrev rows : Table
rows = new_row registered ∷ new_row promoted ∷ []

-- The user that the table holds
abbrev stored : UserAggregate
stored = record {
  base = record { id = "u1"; version = 2; tenant_id = "t1"; uncommitted_events = [] };
  state = record {
    email = ada_email;
    hashed_password = "placeholder_hash";
    first_name = "Ada";
    last_name = "Lovelace";
    status = "pending";
    profile = record { avatar = ""; timezone = "UTC"; language = "en"; updated_at = 70 };
    roles =
        record { role = "user"; assigned_at = 71; assigned_by = ""; expires_at = none }
        ∷ record { role = "admin"; assigned_at = 3; assigned_by = ""; expires_at = none }
        ∷ [];
    sessions = [];
    last_login_at = none;
    email_verified = false;
    email_verified_at = none;
    created_at = 72;
    updated_at = 73;
  };
}

read : user_from_events (world 70 "i70") (registered ∷ promoted ∷ []) ≡ ok stored
unfolding user_from_events blank_user new_user_aggregate is_valid_email load_user_from_history
    raise_event apply_user_event
read = refl

loaded : get_user_by_id (world 70 "i70") none "u1" rows ≡ ok stored
unfolding get_user_by_id get_events
loaded = read

three_pending : length (run life stored).base.uncommitted_events ≡ 3
unfolding run step activate deactivate update_profile add_role create_session raise_event
three_pending = refl

saved : (save healthy rows (run life stored).base rows).2 ≡ none
unfolding run step activate deactivate update_profile add_role create_session raise_event save
    expected_version save_events
saved = refl

get-save-get_user_example :
    let v = run life stored in
    (r : UserAggregate) × (get_user_by_id
        (world 70 "i70")
        none
        "u1"
        (save healthy rows v.base rows).0
      ≡ ok r)
    × SameUser v.state r.state
    × (r.base.version ≡ v.base.version)
get-save-get_user_example =
    get-save-get_user (world 70 "i70") healthy "u1" rows life stored
      (unfold select in (omega arith, (omega arith, tt))) loaded
      (unfold current_version in omega (arith, three_pending)) saved

loaded_roles-NeverExpires_example : All NeverExpires stored.state.roles
loaded_roles-NeverExpires_example =
    loaded_roles-NeverExpires (world 70 "i70") (registered ∷ promoted ∷ []) stored read
