-- ===== src/Outbox/Unread.antt =====
-- What processBatch (pkg/outbox/transactional_outbox.go) makes of the rows that AddEvent writes: their
-- error_message is NULL, and rows.Scan reads it into a string.
use pyairtable_go_services.Prelude.{
  ℕ, zero, suc, ◌-◌, ◌≡◌, refl, ◌∙◌, inl, inr, String, Bool, true, false, not, List, [], ◌∷◌,
  Option, none, some, All, All-append, exists, filter, take, leb, Bool-cases, Option-cases,
}
use pyairtable_go_services.Domain.Shared.Event.{DomainEvent}
use pyairtable_go_services.Outbox.{
  OutboxEntry, OutboxConfig, Outbox, AddAnswers, AddError, after_add, has_id, add_event,
  add_events_from, add_events, is_due, insert_by_creation, order_by_creation, cannot_scan, scan_all,
  get_pending_entries, Answers, process_pending, process_batch, is_old, cleanup_processed_entries,
}
use pyairtable_go_services.Outbox.Runs.{
  Command, add, add_all, process, batch, cleanup, obey, obey_all,
}

abbrev pub is_empty : List OutboxEntry → Bool
is_empty [] = true
is_empty (e ∷ read) = false

-- No entry of the table has been processed yet.
abbrev pub Unread : List OutboxEntry → Type 0
Unread rows = All (λ e. cannot_scan e ≡ true) rows

Unread-filter :
    (keep : OutboxEntry → Bool) (rows : List OutboxEntry) → Unread rows → Unread (filter keep rows)
Unread-filter keep [] h = tt
Unread-filter keep (e ∷ rows) h = elim (Bool-cases (keep e)) [
  | inl kept ↦ rw kept (h.0, Unread-filter keep rows h.1)
  | inr gone ↦ rw gone (Unread-filter keep rows h.1)
]

Unread-insert :
    (e : OutboxEntry) (rows : List OutboxEntry)
    → cannot_scan e ≡ true
    → Unread rows
    → Unread (insert_by_creation e rows)
unfolding insert_by_creation
Unread-insert e [] h all = (h, tt)
Unread-insert e (x ∷ rows) h all = elim (Bool-cases (leb e.created_at x.created_at)) [
  | inl first ↦ rw first (h, all)
  | inr later ↦ rw later (all.0, Unread-insert e rows h all.1)
]

Unread-order : (rows : List OutboxEntry) → Unread rows → Unread (order_by_creation rows)
unfolding order_by_creation
Unread-order [] h = tt
Unread-order (e ∷ rows) h = Unread-insert e (order_by_creation rows) h.0 (Unread-order rows h.1)

Unread-take : (n : ℕ) (rows : List OutboxEntry) → Unread rows → Unread (take n rows)
Unread-take zero rows h = tt
Unread-take (suc n) [] h = tt
Unread-take (suc n) (e ∷ rows) h = (h.0, Unread-take n rows h.1)

module _ (config : OutboxConfig) where
  process_scan :
      (answers : ℕ → Answers) (now : ℕ) (read : List OutboxEntry) (o : Outbox)
      → Unread read
      → (process_pending config answers now (scan_all read) o).0 ≡ o
  process_scan answers now [] o h = refl
  process_scan answers now (e ∷ read) o h = rw (h.0) refl

  process-Unread :
      (query_error : Option String) (answers : ℕ → Answers) (now : ℕ) (o : Outbox)
      → Unread o.rows
      → (process_batch config query_error answers now o).0 ≡ o
  unfolding process_batch get_pending_entries
  process-Unread (some m) answers now o h = refl
  process-Unread none answers now o h =
      process_scan answers now
        (take config.batch_size (order_by_creation (filter (is_due now) o.rows))) o
        (Unread-take config.batch_size (order_by_creation (filter (is_due now) o.rows))
          (Unread-order (filter (is_due now) o.rows) (Unread-filter (is_due now) o.rows h)))

  -- What a call leaves: nothing published, and nothing processed.
  abbrev Idle : Outbox → Outbox → Type 0
  Idle before after = (after.sent ≡ before.sent) × Unread after.rows

  add_event-Idle :
      (a : AddAnswers) (e : DomainEvent) (o : Outbox)
      → Unread o.rows
      → Idle o (add_event config a e o).0
  unfolding add_event
  add_event-Idle a e o h = elim (Option-cases a.marshal_error) [
    | inl none_m ↦ elim (Option-cases a.insert_error) [
      | inl none_i ↦ elim (Bool-cases (exists (has_id a.id) o.rows)) [
        | inl taken ↦ rw (none_m, none_i, taken) (refl, h)
        | inr free ↦ rw (none_m, none_i, free) (refl, All-append _ o.rows _ h (refl, tt))
      ]
      | inr (m, some_i) ↦ rw (none_m, some_i) (refl, h)
    ]
    | inr (m, some_m) ↦ rw some_m (refl, h)
  ]

  after_add-Idle :
      (before : Outbox) (next : Outbox → Outbox × Option AddError)
      (result : Outbox × Option AddError)
      → Unread before.rows
      → result.0.sent ≡ before.sent
      → Idle before (next result.0).0
      → Idle before (after_add before.rows next result).0
  after_add-Idle before next (o, some failure) h same k = (same, h)
  after_add-Idle before next (o, none) h same k = k

  add_events_from-Idle :
      (answers : ℕ → AddAnswers) (before : Outbox) (i : ℕ) (events : List DomainEvent) (o : Outbox)
      → Unread before.rows
      → Idle before o
      → Idle before (add_events_from config answers before.rows i events o).0
  unfolding add_events_from
  add_events_from-Idle answers before i [] o h idle = idle
  add_events_from-Idle answers before i (e ∷ events) o h idle =
      let step = add_event-Idle (answers i) e o idle.1 in
      after_add-Idle before (add_events_from config answers before.rows (suc i) events)
        (add_event config (answers i) e o) h (step.0 ∙ idle.0)
        (add_events_from-Idle answers before (suc i) events (add_event config (answers i) e o).0 h
          (step.0 ∙ idle.0, step.1))

  cleanup-Idle :
      (error : Option String) (now older_than : ℕ) (o : Outbox)
      → Unread o.rows
      → Idle o (cleanup_processed_entries error now older_than o).0
  unfolding cleanup_processed_entries
  cleanup-Idle (some m) now older_than o h = (refl, h)
  cleanup-Idle none now older_than o h =
      (refl, Unread-filter (λ e. not (is_old (now - older_than) e)) o.rows h)

  -- A call of the outbox itself, which reads the entries from its table.
  abbrev pub is_own : Command → Bool
  is_own (process a e) = false
  is_own other = true

  obey-Idle :
      (c : Command) (o : Outbox) → is_own c ≡ true → Unread o.rows → Idle o (obey config c o)
  unfolding obey add_events
  obey-Idle (add a e) o own h = add_event-Idle a e o h
  obey-Idle (add_all answers events) o own h = add_events_from-Idle answers o 0 events o h (refl, h)
  obey-Idle (process a e) o own h = absurd (cc)
  obey-Idle (batch query_error answers now) o own h =
      rw (process-Unread query_error answers now o h) (refl, h)
  obey-Idle (cleanup error now older_than) o own h = cleanup-Idle error now older_than o h

  obey_all-Idle :
      (commands : List Command) (o : Outbox)
      → All (λ c. is_own c ≡ true) commands
      → Unread o.rows
      → Idle o (obey_all config commands o)
  unfolding obey_all
  obey_all-Idle [] o own h = (refl, h)
  obey_all-Idle (c ∷ commands) o own h =
      let step = obey-Idle c o own.0 h in
      let rest = obey_all-Idle commands (obey config c o) own.1 step.1 in (rest.0 ∙ step.0, rest.1)

  process_scan_result :
      (answers : ℕ → Answers) (now : ℕ) (read : List OutboxEntry) (o : Outbox)
      → Unread read
      → process_pending config answers now (scan_all read) o ≡ (o, is_empty read)
  process_scan_result answers now [] o h = refl
  process_scan_result answers now (e ∷ read) o h = rw (h.0) refl

  -- The outbox publishes nothing. From a table whose error_message columns are NULL, such as the empty
  -- one, after any run of added events, batches and cleanups, however the database and the publisher
  -- answer, the publisher has accepted no further entry and the columns are NULL. A batch that follows,
  -- whose query the database answers, changes nothing, and reports an error just when it reads an entry.
  pub obey_all_publishes_nothing :
      (commands : List Command) (o : Outbox) (answers : ℕ → Answers) (now : ℕ)
      → All (λ c. is_own c ≡ true) commands
      → Unread o.rows
      → let after = obey_all config commands o in
        let read = take config.batch_size (order_by_creation (filter (is_due now) after.rows)) in
        (after.sent ≡ o.sent)
        × Unread after.rows
        × (process_batch config none answers now after ≡ (after, is_empty read))
  unfolding process_batch get_pending_entries
  obey_all_publishes_nothing commands o answers now own h =
      let idle = obey_all-Idle commands o own h in
      let after = obey_all config commands o in
      let read = take config.batch_size (order_by_creation (filter (is_due now) after.rows)) in
      let unread =
        Unread-take config.batch_size (order_by_creation (filter (is_due now) after.rows)) (
          Unread-order (filter (is_due now) after.rows)
            (Unread-filter (is_due now) after.rows idle.1)) in
      (idle.0, idle.1, process_scan_result answers now read after unread)
