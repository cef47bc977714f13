-- ===== src/Tests/Store.antt =====
-- Saves and polls over a small table (pkg/eventstore, pkg/repositories).
use pyairtable_go_services.Prelude.{
  ℕ, ◌-◌, String, ◌≡◌, refl, [], ◌∷◌, ◌++◌, none, some, take, arith, eq_iff,
}
use pyairtable_go_services.Domain.Shared.Error.{ok, Error, wrapped}
use pyairtable_go_services.Domain.Shared.Types.{Email, next}
use pyairtable_go_services.Domain.Shared.Event.{DomainEvent}
use pyairtable_go_services.Domain.Shared.Aggregate.{
  BaseAggregateRoot, new_base_aggregate_root, raise_event,
}
use pyairtable_go_services.Domain.User.Account.{created_user, new_user_aggregate}
use pyairtable_go_services.Domain.Shared.Stamps.{IsStamped}
use pyairtable_go_services.EventStore.{
  Table, new_row, current_version, save_events, select, get_events, get_unprocessed_events,
  mark_events_as_processed, order_by_time, select_unprocessed,
}
use pyairtable_go_services.EventStore.Unique.{HasUniqueKeys, save_events-HasUniqueKeys}
use pyairtable_go_services.EventStore.Processing.{without, get_unprocessed-mark}
use pyairtable_go_services.Repositories.{save, expected_version}
use pyairtable_go_services.Repositories.Saving.{save-get_events}
use pyairtable_go_services.Repositories.First.{new_user, conflict, save_first_event_conflict}
use pyairtable_go_services.Repositories.Concurrency.{no_lost_update}
use pyairtable_go_services.Tests.{healthy, world}

abbrev event : String → ℕ → DomainEvent
event id version = record {
  event_id = id;
  event_type = "user.activated";
  aggregate_id = "u1";
  aggregate_type = "UserAggregate";
  version = version;
  occurred_at = 100 - version;
  tenant_id = "t1";
  payload = [];
}

abbrev pub rows : Table
rows = new_row (event "a" 1) ∷ new_row (event "b" 2) ∷ []

abbrev root : BaseAggregateRoot
root = record {
  id = "u1";
  version = 4;
  tenant_id = "t1";
  uncommitted_events = event "c" 3 ∷ event "d" 4 ∷ [];
}

abbrev address : Email
address = record { value = "ada@example.org" }

abbrev new_root : BaseAggregateRoot
new_root = (created_user (world 5 "i5") "u9" "t1" address "hash" "Ada" "Lovelace").base

stamped : IsStamped 2 root
stamped = record {
  numbered = (unfold next in refl, (unfold next in refl, tt));
  current = unfold next in refl;
  own = ((refl, refl), ((refl, refl), tt));
}

saved : (save healthy rows root rows).2 ≡ none
unfolding save save_events expected_version
saved = refl

save_events-HasUniqueKeys_example :
    HasUniqueKeys (save_events healthy rows "u1" (event "c" 3 ∷ []) 2 rows).0
save_events-HasUniqueKeys_example =
    save_events-HasUniqueKeys healthy rows "u1" (event "c" 3 ∷ []) 2 rows (
      ((λ same. ground (arith, eq_iff "a" "b", same), λ both. absurd (omega (arith, both.1))), tt),
      (tt, tt),
    )

save_first_event_conflict_example :
    save healthy rows new_root rows
    ≡ (rows, new_root, some (wrapped "failed to save events: %w" conflict))
save_first_event_conflict_example =
    save_first_event_conflict healthy rows rows new_root
      (new_user (world 5 "i5") "u9" "t1" address "hash" "Ada" "Lovelace"
        {u = created_user (world 5 "i5") "u9" "t1" address "hash" "Ada" "Lovelace"}
        (unfold new_user_aggregate in refl))
      (unfold current_version created_user raise_event new_base_aggregate_root in refl) refl refl

save-get_events_example :
    get_events none "u1" (save healthy rows root rows).0
    ≡ ok (select "u1" 0 rows ++ root.uncommitted_events)
save-get_events_example =
    save-get_events healthy "u1" rows root refl (unfold select in (omega arith, (omega arith, tt)))
      (unfold current_version in stamped) (unfold current_version in omega arith) saved

get_unprocessed-mark_example :
    get_unprocessed_events none 5 (mark_events_as_processed ("b" ∷ []) rows)
    ≡ ok (take 5 (without ("b" ∷ []) (order_by_time (select_unprocessed rows))))
get_unprocessed-mark_example = get_unprocessed-mark ("b" ∷ []) 5 rows

abbrev rival : BaseAggregateRoot
rival = record root { version = 3; uncommitted_events = event "x" 3 ∷ [] }

rival-IsStamped : IsStamped 2 rival
rival-IsStamped = record {
  numbered = (unfold next in refl, tt);
  current = unfold next in refl;
  own = ((refl, refl), tt);
}

no_lost_update_example :
    (error : Error) × ((save healthy rows rival (save healthy rows root rows).0).2 ≡ some error)
no_lost_update_example =
    no_lost_update healthy healthy rows rows rows 2 root rival refl stamped rival-IsStamped
      (λ e. cc e) (λ e. cc e) saved
