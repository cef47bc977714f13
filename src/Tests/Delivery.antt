-- ===== src/Tests/Delivery.antt =====
-- An outbox (pkg/outbox) with a row that has failed before.
use pyairtable_go_services.Prelude.{
  ◌≡◌, refl, true, false, take, filter, List, [], ◌∷◌, some, none, pos, arith,
}
use pyairtable_go_services.Domain.Shared.Event.{DomainEvent}
use pyairtable_go_services.Outbox.{
  OutboxEntry, OutboxConfig, Outbox, AddAnswers, Answers, failed, new_outbox, is_due, process_batch,
  add_event, get_pending_entries, order_by_creation, insert_by_creation,
}
use pyairtable_go_services.Outbox.Published.{Safe}
use pyairtable_go_services.Outbox.Runs.{
  Command, add, process, batch, cleanup, obey, obey_all, obey_all-Safe,
}
use pyairtable_go_services.Outbox.Unread.{Unread, is_empty, obey_all_publishes_nothing}
use pyairtable_go_services.Outbox.Retrying.{row, retry_all, Refuses, process_entry_exhausted}

abbrev config : OutboxConfig
config = record {
  batch_size = 50;
  max_retries = pos 3;
  retry_backoff_base = 60000000000;
  retry_backoff_max = 300000000000;
}

abbrev event : DomainEvent
event = record {
  event_id = "event";
  event_type = "user.registered";
  aggregate_id = "user";
  aggregate_type = "user";
  version = 2;
  occurred_at = 3;
  tenant_id = "tenant";
  payload = [];
}

abbrev added : AddAnswers
added = record {
  correlation_id = "correlation";
  id = "entry";
  now = 4;
  marshal_error = none;
  insert_error = none;
}

abbrev accepting : Answers
accepting = record { mark_error = none; publish_error = none; update_error = none; now = 10 }

abbrev refusing : Answers
refusing = record accepting { publish_error = some "broker is down" }

-- Two of three attempts have failed.
abbrev tried_twice : OutboxEntry
tried_twice = record {
  id = "old";
  aggregate_id = "user";
  aggregate_type = "user";
  event_type = "user.registered";
  event_version = 2;
  payload = [];
  correlation_id = "correlation";
  status = failed;
  created_at = 1;
  processed_at = none;
  retry_count = 2;
  max_retries = pos 3;
  next_retry_at = some 8;
  error_message = some "broker is down";
  tenant_id = "tenant";
}

abbrev outbox : Outbox
outbox = record new_outbox { rows = tried_twice ∷ [] }

abbrev day : List Command
day =
    add added event
    ∷ batch none (λ i. accepting) 10
    ∷ process accepting tried_twice
    ∷ cleanup none 20 5
    ∷ []

obey_all-Safe_example : Safe outbox (obey_all config day outbox)
obey_all-Safe_example = obey_all-Safe config day outbox ((λ p. absurd (cc)), tt)

abbrev calls : List Command
calls = add added event ∷ batch none (λ i. accepting) 10 ∷ []

obey_all_publishes_nothing_example :
    let after = obey_all config calls new_outbox in
    let read = take 50 (order_by_creation (filter (is_due 20) after.rows)) in
    (after.sent ≡ [])
    × Unread after.rows
    × (process_batch config none (λ i. accepting) 20 after ≡ (after, is_empty read))
obey_all_publishes_nothing_example =
    obey_all_publishes_nothing config calls new_outbox (λ i. accepting) 20 (refl, (refl, tt)) tt

-- The batch of the run above reads the entry that was added.
one_entry_read :
    let after = obey_all config calls new_outbox in
    is_empty (take 50 (order_by_creation (filter (is_due 20) after.rows))) ≡ false
unfolding obey_all obey add_event process_batch get_pending_entries order_by_creation
    insert_by_creation
one_entry_read = refl

process_entry_exhausted_example :
    (after : OutboxEntry) × (row "old"
        (retry_all config "old" (refusing ∷ refusing ∷ []) outbox).rows
      ≡ some after)
    × (after.status ≡ failed)
    × (after.retry_count ≡ 2)
    × (after.max_retries ≡ pos 3)
    × (after.next_retry_at ≡ some 8)
    × (is_due 30 after ≡ true)
process_entry_exhausted_example =
    let fails : Refuses refusing = (refl, ("broker is down", refl), refl) in
    process_entry_exhausted config (refusing ∷ refusing ∷ []) tried_twice outbox 10 30 refl refl
      refl refl (fails, (fails, tt)) (omega arith)
