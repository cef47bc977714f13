-- ===== src/Outbox.antt =====
-- pkg/outbox/transactional_outbox.go over its table of createOutboxTable. An entry is read as the
-- columns that the code uses; what the database, the publisher and the clock answer are parameters.
-- Several workers run at once: an entry is processed from the copy that a worker has read.
pub mod Published
pub mod Runs
pub mod Unread
pub mod Retrying
use pyairtable_go_services.Prelude.{
  ℕ, zero, suc, ◌+◌, ◌-◌, ◌*◌, ◌^◌, String, Bool, true, false, not, ◌&&◌, ◌||◌, List, [], ◌∷◌, ◌++◌,
  map, Option, none, some, ℤ, pos, negsuc, pos_part, neg_part, ◌+ℤ◌, ltb_ℤ, wrap64, exists, filter,
  count, take, length, str_eq, leb, ltb, if◌then◌else◌,
}
use pyairtable_go_services.Domain.Shared.Event.{DomainEvent, Payload}

pub data OutboxStatus : Type 0 where
  pending processing published failed skipped : OutboxStatus

pub record OutboxEntry : Type 0 where
  pub id : String
  pub aggregate_id : String
  pub aggregate_type : String
  pub event_type : String
  pub event_version : ℕ
  pub payload : Payload
  pub correlation_id : String
  pub status : OutboxStatus
  pub created_at : ℕ
  pub processed_at : Option ℕ
  pub retry_count : ℕ
  pub max_retries : ℤ
  pub next_retry_at : Option ℕ
  pub error_message : Option String
  pub tenant_id : String

-- Durations are in nanoseconds.
pub record OutboxConfig : Type 0 where
  pub batch_size : ℕ
  pub max_retries : ℤ
  pub retry_backoff_base : ℕ
  pub retry_backoff_max : ℕ

pub record OutboxStats : Type 0 where
  pub total_events : ℤ
  pub published_events : ℤ
  pub failed_events : ℤ
  pub retry_events : ℤ
  pub last_processed_at : ℕ

-- The table, the counters, and the identifiers of the entries that the publisher has accepted.
pub record Outbox : Type 0 where
  pub rows : List OutboxEntry
  pub stats : OutboxStats
  pub sent : List String

abbrev pub new_outbox : Outbox
new_outbox = record {
  rows = [];
  stats = record {
    total_events = pos 0;
    published_events = pos 0;
    failed_events = pos 0;
    retry_events = pos 0;
    last_processed_at = 0;
  };
  sent = [];
}

-- What a call of AddEvent is given: the two identifiers of uuid.New, the time, and the errors of
-- json.Marshal and of the INSERT, if there are any.
pub record AddAnswers : Type 0 where
  pub correlation_id : String
  pub id : String
  pub now : ℕ
  pub marshal_error : Option String
  pub insert_error : Option String

pub data AddError : Type 0 where
  not_serialized not_inserted : AddError

-- The row that the INSERT writes: the columns that it does not name are NULL.
abbrev pub new_entry : OutboxConfig → AddAnswers → DomainEvent → OutboxEntry
new_entry config a e = record {
  id = a.id;
  aggregate_id = e.aggregate_id;
  aggregate_type = e.aggregate_type;
  event_type = e.event_type;
  event_version = e.version;
  payload = e.payload;
  correlation_id = a.correlation_id;
  status = pending;
  created_at = a.now;
  processed_at = none;
  retry_count = 0;
  max_retries = config.max_retries;
  next_retry_at = none;
  error_message = none;
  tenant_id = e.tenant_id;
}

abbrev pub has_id : String → OutboxEntry → Bool
has_id id e = str_eq e.id id

abbrev pub count_event : OutboxStats → OutboxStats
count_event s = record s { total_events = s.total_events +ℤ pos 1 }

-- AddEvent, in a transaction that commits.
unfoldable pub add_event :
    OutboxConfig → AddAnswers → DomainEvent → Outbox → Outbox × Option AddError
add_event config a e o = elim a.marshal_error [
  | some _ ↦ (o, some not_serialized)
  | none ↦ elim a.insert_error [
    | some _ ↦ (o, some not_inserted)
    | none ↦ if exists (has_id a.id) o.rows then (o, some not_inserted) else (
      record o { rows = o.rows ++ new_entry config a e ∷ []; stats = count_event o.stats },
      none,
    )
  ]
]

abbrev pub after_add :
    List OutboxEntry
    → (Outbox → Outbox × Option AddError)
    → Outbox × Option AddError
    → Outbox × Option AddError
after_add before next (o, some failure) = (record o { rows = before }, some failure)
after_add before next (o, none) = next o

-- AddEvents stops at the first error, which rolls the rows of the transaction back; the counter
-- stays. `before` holds the rows at its start.
unfoldable pub add_events_from :
    OutboxConfig
    → (ℕ → AddAnswers)
    → List OutboxEntry
    → ℕ
    → List DomainEvent
    → Outbox
    → Outbox × Option AddError
unfolding add_event
add_events_from config answers before i [] o = (o, none)
add_events_from config answers before i (e ∷ events) o =
    after_add before (add_events_from config answers before (suc i) events)
      (add_event config (answers i) e o)

unfoldable pub add_events :
    OutboxConfig → (ℕ → AddAnswers) → List DomainEvent → Outbox → Outbox × Option AddError
unfolding add_events_from
add_events config answers events o = add_events_from config answers o.rows 0 events o

abbrev pub time_reached : ℕ → Option ℕ → Bool
time_reached now none = false
time_reached now (some t) = leb t now

-- `status = 'pending' OR (status = 'failed' AND next_retry_at <= NOW())`
abbrev pub is_due_in : OutboxStatus → ℕ → Option ℕ → Bool
is_due_in pending now next_retry_at = true
is_due_in failed now next_retry_at = time_reached now next_retry_at
is_due_in other now next_retry_at = false

abbrev pub is_due : ℕ → OutboxEntry → Bool
is_due now e = is_due_in e.status now e.next_retry_at

-- `ORDER BY created_at ASC`
unfoldable pub insert_by_creation : OutboxEntry → List OutboxEntry → List OutboxEntry
insert_by_creation e [] = e ∷ []
insert_by_creation e (x ∷ xs) =
    let rest = insert_by_creation e xs in
    if leb e.created_at x.created_at then e ∷ x ∷ xs else x ∷ rest

unfoldable pub order_by_creation : List OutboxEntry → List OutboxEntry
unfolding insert_by_creation
order_by_creation [] = []
order_by_creation (e ∷ es) = insert_by_creation e (order_by_creation es)

-- rows.Scan reads error_message into a string, which fails at NULL.
abbrev pub is_null : Option String → Bool
is_null none = true
is_null (some s) = false

abbrev pub cannot_scan : OutboxEntry → Bool
cannot_scan e = is_null e.error_message

pub data Pending : Type 0 where
  query_failed scan_failed : Pending
  entries : List OutboxEntry → Pending

abbrev pub scan_all : List OutboxEntry → Pending
scan_all es = if exists cannot_scan es then scan_failed else entries es

unfoldable pub get_pending_entries : Option String → ℕ → OutboxConfig → List OutboxEntry → Pending
unfolding order_by_creation
get_pending_entries (some m) now config rows = query_failed
get_pending_entries none now config rows =
    scan_all (take config.batch_size (order_by_creation (filter (is_due now) rows)))

abbrev pub update_row : String → (OutboxEntry → OutboxEntry) → List OutboxEntry → List OutboxEntry
update_row id f [] = []
update_row id f (e ∷ rows) = (if has_id id e then f e else e) ∷ update_row id f rows

-- `CASE WHEN $1 = 'published' THEN NOW() ELSE processed_at END`
abbrev pub processed_at_of : OutboxStatus → ℕ → Option ℕ → Option ℕ
processed_at_of published now before = some now
processed_at_of other now before = before

abbrev pub with_status : ℕ → OutboxStatus → String → OutboxEntry → OutboxEntry
with_status now status error_message e = record e {
  status = status;
  error_message = some error_message;
  processed_at = processed_at_of status now e.processed_at;
}

unfoldable pub update_entry_status :
    ℕ → String → OutboxStatus → String → List OutboxEntry → List OutboxEntry
update_entry_status now id status error_message rows =
    update_row id (with_status now status error_message) rows

unfoldable pub update_entry_for_retry :
    String → ℕ → ℕ → String → List OutboxEntry → List OutboxEntry
update_entry_for_retry id retry_count next_retry_at error_message rows =
    update_row id
      (λ e. record e {
        status = failed;
        retry_count = retry_count;
        next_retry_at = some next_retry_at;
        error_message = some error_message;
      })
      rows

-- `1<<uint(n-1) * base`, an int64, and at most the maximum.
unfoldable pub retry_backoff : OutboxConfig → ℕ → ℤ
unfolding wrap64
retry_backoff config n =
    let backoff = wrap64 (pos (2 ^ (n - 1) * config.retry_backoff_base)) in
    if ltb_ℤ (pos config.retry_backoff_max) backoff then pos config.retry_backoff_max else backoff

abbrev pub add_duration : ℕ → ℤ → ℕ
add_duration now d = now + pos_part d - neg_part d

-- What one call of processEntry meets: the error of marking the entry, that of the publisher, and that
-- of the last UPDATE, if there are any; and the time.
pub record Answers : Type 0 where
  pub mark_error : Option String
  pub publish_error : Option String
  pub update_error : Option String
  pub now : ℕ

pub data ProcessError : Type 0 where
  not_marked not_recorded max_retries_exceeded retry_not_recorded scheduled_for_retry : ProcessError

abbrev pub count_retry : OutboxStats → OutboxStats
count_retry s = record s { retry_events = s.retry_events +ℤ pos 1 }

-- The early return where a call gave an error.
abbrev pub on_error {ℓ} : {A : Type ℓ} → Option String → A → A → A
on_error (some m) returned next = returned
on_error none returned next = next

unfoldable pub handle_publish_failure :
    OutboxConfig → Answers → OutboxEntry → String → Outbox → Outbox × Option ProcessError
unfolding update_entry_status update_entry_for_retry retry_backoff
handle_publish_failure config a e message o =
    let retry_count = e.retry_count + 1 in
    if not (ltb_ℤ (pos retry_count) e.max_retries)
    then on_error a.update_error (o, some not_recorded)
        (
          record o { rows = update_entry_status a.now e.id failed message o.rows },
          some max_retries_exceeded,
        )
    else on_error a.update_error (o, some retry_not_recorded)
        (
          record o {
            rows =
                update_entry_for_retry e.id retry_count
                  (add_duration a.now (retry_backoff config retry_count)) message o.rows;
            stats = count_retry o.stats;
          },
          some scheduled_for_retry,
        )

abbrev pub accept : OutboxEntry → Outbox → Outbox
accept e o = record o { sent = o.sent ++ e.id ∷ [] }

-- What follows once the publisher has accepted the entry.
unfoldable pub record_published : Answers → OutboxEntry → Outbox → Outbox × Option ProcessError
unfolding update_entry_status
record_published a e o =
    on_error a.update_error (o, some not_recorded)
      (record o { rows = update_entry_status a.now e.id published "" o.rows }, none)

abbrev pub mark_processing : Answers → OutboxEntry → Outbox → Outbox
mark_processing a e o = record o { rows = update_entry_status a.now e.id processing "" o.rows }

-- Publish, and what its answer leads to.
unfoldable pub publish :
    OutboxConfig → Answers → OutboxEntry → Option String → Outbox → Outbox × Option ProcessError
unfolding handle_publish_failure record_published
publish config a e (some m) o = handle_publish_failure config a e m o
publish config a e none o = record_published a e (accept e o)

unfoldable pub process_entry :
    OutboxConfig → Answers → OutboxEntry → Outbox → Outbox × Option ProcessError
unfolding publish update_entry_status
process_entry config a e o =
    on_error a.mark_error (o, some not_marked)
      (publish config a e a.publish_error (mark_processing a e o))

abbrev pub count_result : Option ProcessError → OutboxStats → OutboxStats
count_result none s = record s { published_events = s.published_events +ℤ pos 1 }
count_result (some e) s = record s { failed_events = s.failed_events +ℤ pos 1 }

-- The loop of processBatch over the entries that were read. The counters that the code keeps in local
-- variables are added as it goes.
unfoldable pub process_entries :
    OutboxConfig → (ℕ → Answers) → ℕ → List OutboxEntry → Outbox → Outbox
unfolding process_entry
process_entries config answers i [] o = o
process_entries config answers i (e ∷ es) o =
    let (o', error) = process_entry config (answers i) e o in
    process_entries config answers (suc i) es (record o' { stats = count_result error o'.stats })

abbrev pub stamp : ℕ → Outbox → Outbox
stamp now o = record o { stats = record o.stats { last_processed_at = now } }

-- `false` is the error of getPendingEntries. Nothing is stamped where there is no work.
abbrev pub process_pending : OutboxConfig → (ℕ → Answers) → ℕ → Pending → Outbox → Outbox × Bool
process_pending config answers now query_failed o = (o, false)
process_pending config answers now scan_failed o = (o, false)
process_pending config answers now (entries []) o = (o, true)
process_pending config answers now (entries (e ∷ es)) o =
    (stamp now (process_entries config answers 0 (e ∷ es) o), true)

unfoldable pub process_batch :
    OutboxConfig → Option String → (ℕ → Answers) → ℕ → Outbox → Outbox × Bool
unfolding get_pending_entries process_entries
process_batch config query_error answers now o =
    process_pending config answers now (get_pending_entries query_error now config o.rows) o

abbrev pub is_published : OutboxStatus → Bool
is_published published = true
is_published other = false

abbrev pub before_time : Option ℕ → ℕ → Bool
before_time none cutoff = false
before_time (some t) cutoff = ltb t cutoff

abbrev pub is_old : ℕ → OutboxEntry → Bool
is_old cutoff e = is_published e.status && before_time e.processed_at cutoff

-- `DELETE … WHERE status = 'published' AND processed_at < cutoff`
unfoldable pub cleanup_processed_entries : Option String → ℕ → ℕ → Outbox → Outbox × Bool
cleanup_processed_entries (some m) now older_than o = (o, false)
cleanup_processed_entries none now older_than o =
    (record o { rows = filter (λ e. not (is_old (now - older_than) e)) o.rows }, true)
