-- ===== src/EventStore.antt =====
-- pkg/eventstore/postgres_event_store.go over the table domain_events of
-- migrations/001_create_event_store.sql, with its key on id and its UNIQUE(aggregate_id, version).
-- A payload goes through JSON and back: its texts stay, and no handler reads its numbers.
pub mod Unique
pub mod Order
pub mod Processing
use pyairtable_go_services.Prelude.{
  ℕ, suc, ◌+◌, String, Bool, true, false, not, ◌&&◌, ◌||◌, List, [], ◌∷◌, ◌++◌, map, Option, none,
  some, exists, length, take, str_eq, leb, ltb, ◌==◌, if◌then◌else◌,
}
use pyairtable_go_services.Domain.Shared.Error.{
  Error, errorf, Outcome, ok, fail, new_domain_error, err_code_conflict,
}
use pyairtable_go_services.Domain.Shared.Types.{ltb_int64, leb_int64}
use pyairtable_go_services.Domain.Shared.Event.{DomainEvent}

pub record Row : Type 0 where
  pub event : DomainEvent
  pub processed : Bool
  pub retry_count : ℕ

-- The rows in the order in which they were inserted.
abbrev pub Table : Type 0
Table = List Row

-- What the database answers to one call of SaveEvents: `some` at a statement that fails.
pub record Db : Type 0 where
  pub begin_error : Option String
  pub query_error : Option String
  pub insert_error : ℕ → Option String
  pub commit_error : Option String

abbrev pub is_of : String → Row → Bool
is_of aggregate_id r = str_eq r.event.aggregate_id aggregate_id

-- MAX(version) over the rows of an aggregate; the column is a BIGINT.
abbrev pub larger : ℕ → Option ℕ → ℕ
larger v none = v
larger v (some w) = if ltb_int64 v w then w else v

unfoldable pub max_version : String → Table → Option ℕ
max_version aggregate_id [] = none
max_version aggregate_id (r ∷ rows) =
    let rest = max_version aggregate_id rows in
    if is_of aggregate_id r then some (larger r.event.version rest) else rest

abbrev pub or_zero : Option ℕ → ℕ
or_zero none = 0
or_zero (some v) = v

-- SELECT COALESCE(MAX(version), 0) … WHERE aggregate_id = $1
unfoldable pub current_version : String → Table → ℕ
unfolding max_version
current_version aggregate_id rows = or_zero (max_version aggregate_id rows)

-- A row that a constraint of the table rules out beside e.
abbrev pub clashes : DomainEvent → Row → Bool
clashes e r =
    str_eq r.event.event_id e.event_id
    || (str_eq r.event.aggregate_id e.aggregate_id && r.event.version == e.version)

abbrev pub new_row : DomainEvent → Row
new_row e = record { event = e; processed = false; retry_count = 0 }

-- The loop of INSERT statements; `none` where one of them fails. The i-th answer of the database.
unfoldable pub insert_events : Db → ℕ → List DomainEvent → Table → Option Table
insert_events db i [] rows = some rows
insert_events db i (e ∷ events) rows = elim (db.insert_error i) [
  | some _ ↦ none
  | none ↦
      let rest = insert_events db (suc i) events (rows ++ new_row e ∷ []) in
      if exists (clashes e) rows then none else rest
]

-- SaveEvents. The version is checked on the rows that the transaction sees; other transactions may
-- have committed before it inserts into `rows`. An error rolls the transaction back.
unfoldable pub save_events :
    Db → Table → String → List DomainEvent → ℕ → Table → Table × Option Error
unfolding current_version insert_events
save_events db seen aggregate_id [] expected_version rows = (rows, none)
save_events db seen aggregate_id (e ∷ events) expected_version rows = elim db.begin_error [
  | some m ↦ (rows, some (errorf "failed to start transaction: %w" (m ∷ [])))
  | none ↦ elim db.query_error [
    | some m ↦ (rows, some (errorf "failed to check current version: %w" (m ∷ [])))
    | none ↦
        if not (current_version aggregate_id seen == expected_version)
        then (
          rows,
          some (
              new_domain_error err_code_conflict "concurrency conflict: expected version %d, got %d"
                none),
        )
        else elim (insert_events db 0 (e ∷ events) rows) [
          | none ↦ (rows, some (errorf "failed to insert event: %w" []))
          | some rows' ↦ elim db.commit_error [
            | some m ↦ (rows, some (errorf "failed to commit transaction: %w" (m ∷ [])))
            | none ↦ (rows', none)
          ]
        ]
  ]
]

-- `WHERE aggregate_id = $1 AND version > $2`
unfoldable pub select : String → ℕ → Table → List DomainEvent
select aggregate_id from_version [] = []
select aggregate_id from_version (r ∷ rows) =
    let rest = select aggregate_id from_version rows in
    if is_of aggregate_id r && ltb_int64 from_version r.event.version then r.event ∷ rest else rest

-- `ORDER BY version ASC`
unfoldable pub insert_by_version : DomainEvent → List DomainEvent → List DomainEvent
insert_by_version e [] = e ∷ []
insert_by_version e (x ∷ xs) =
    let rest = insert_by_version e xs in
    if leb_int64 e.version x.version then e ∷ x ∷ xs else x ∷ rest

unfoldable pub order_by_version : List DomainEvent → List DomainEvent
unfolding insert_by_version
order_by_version [] = []
order_by_version (e ∷ es) = insert_by_version e (order_by_version es)

-- GetEventsFromVersion; `error` is what the query answered.
unfoldable pub get_events_from_version :
    Option String → String → ℕ → Table → Outcome (List DomainEvent)
unfolding select order_by_version
get_events_from_version (some m) aggregate_id from_version rows =
    fail (errorf "failed to query events: %w" (m ∷ []))
get_events_from_version none aggregate_id from_version rows =
    ok (order_by_version (select aggregate_id from_version rows))

unfoldable pub get_events : Option String → String → Table → Outcome (List DomainEvent)
unfolding get_events_from_version
get_events error aggregate_id rows = get_events_from_version error aggregate_id 0 rows

-- `WHERE processed = false`
unfoldable pub select_unprocessed : Table → List DomainEvent
select_unprocessed [] = []
select_unprocessed (r ∷ rows) =
    let rest = select_unprocessed rows in if r.processed then rest else r.event ∷ rest

-- `ORDER BY occurred_at ASC`
unfoldable pub insert_by_time : DomainEvent → List DomainEvent → List DomainEvent
insert_by_time e [] = e ∷ []
insert_by_time e (x ∷ xs) =
    let rest = insert_by_time e xs in
    if leb e.occurred_at x.occurred_at then e ∷ x ∷ xs else x ∷ rest

unfoldable pub order_by_time : List DomainEvent → List DomainEvent
unfolding insert_by_time
order_by_time [] = []
order_by_time (e ∷ es) = insert_by_time e (order_by_time es)

-- GetUnprocessedEvents; `error` is what the query answered.
unfoldable pub get_unprocessed_events : Option String → ℕ → Table → Outcome (List DomainEvent)
unfolding select_unprocessed order_by_time
get_unprocessed_events (some m) limit rows =
    fail (errorf "failed to query unprocessed events: %w" (m ∷ []))
get_unprocessed_events none limit rows = ok (take limit (order_by_time (select_unprocessed rows)))

abbrev pub mark : Row → Row
mark r = record r { processed = true; retry_count = r.retry_count + 1 }

-- MarkEventAsProcessed, where the statement does not fail
unfoldable pub mark_event_as_processed : String → Table → Table
mark_event_as_processed event_id rows =
    map (λ r. if str_eq r.event.event_id event_id then mark r else r) rows

abbrev pub is_among : List String → DomainEvent → Bool
is_among event_ids e = exists (λ i. str_eq e.event_id i) event_ids

-- MarkEventsAsProcessed, `WHERE id = ANY($1)`, where the statement does not fail
unfoldable pub mark_events_as_processed : List String → Table → Table
mark_events_as_processed [] rows = rows
mark_events_as_processed (i ∷ event_ids) rows =
    map (λ r. if is_among (i ∷ event_ids) r.event then mark r else r) rows
