-- ===== src/Outbox/Runs.antt =====
-- Runs of the outbox (pkg/outbox/transactional_outbox.go): events are added, workers process batches
-- and entries that they read at some earlier time, and old entries are cleaned up.
use pyairtable_go_services.Prelude.{
  ℕ, suc, ◌-◌, ◌≡◌, ◌⊎◌, refl, ◌∙◌, inl, inr, String, Bool, true, not, List, [], ◌∷◌, ◌++◌, Option,
  none, some, arith, All-append, exists, filter, eq_iff, subst, Bool-cases, Option-cases,
}
use pyairtable_go_services.Domain.Shared.Event.{DomainEvent}
use pyairtable_go_services.Outbox.{
  OutboxEntry, OutboxConfig, Outbox, AddAnswers, AddError, after_add, has_id, add_event,
  add_events_from, add_events, Answers, process_entry, get_pending_entries, process_batch,
  is_published, is_old, cleanup_processed_entries,
}
use pyairtable_go_services.Outbox.Published.{
  is_sent, Accepted, in_table, Safe, Safe-refl, Safe-trans, process_entry-Safe,
  process_pending-Safe,
}

in_table-append :
    (id : String) (rows more : List OutboxEntry)
    → in_table id rows ≡ true
    → in_table id (rows ++ more) ≡ true
in_table-append id [] more h = absurd (cc)
in_table-append id (e ∷ rows) more h = elim (Bool-cases (has_id id e)) [
  | inl same ↦ rw same refl
  | inr other ↦ rw other (in_table-append id rows more (rw other at h))
]

-- What adding an event changes.
add_event_kept :
    (config : OutboxConfig) (a : AddAnswers) (e : DomainEvent) (o : Outbox)
    → Accepted o.rows o.sent
    → Safe o (add_event config a e o).0 × ((add_event config a e o).0.sent ≡ o.sent)
unfolding add_event
add_event_kept config a e o h = elim (Option-cases a.marshal_error) [
  | inl none_m ↦ elim (Option-cases a.insert_error) [
    | inl none_i ↦ elim (Bool-cases (exists (has_id a.id) o.rows)) [
      | inl taken ↦ rw (none_m, none_i, taken) (Safe-refl o h, refl)
      | inr free ↦
          rw (none_m, none_i, free)
            (
              record {
                accepted = All-append _ o.rows _ h (λ p. absurd (cc), tt);
                sent_kept = λ id m. m;
                rows_kept = λ id m. inl (in_table-append id o.rows _ m);
              },
              refl,
            )
    ]
    | inr (m, some_i) ↦ rw (none_m, some_i) (Safe-refl o h, refl)
  ]
  | inr (m, some_m) ↦ rw some_m (Safe-refl o h, refl)
]

-- Where AddEvents fails, the rows of its transaction go.
rolled_back :
    (before o : Outbox)
    → o.sent ≡ before.sent
    → Accepted before.rows before.sent
    → Safe before (record o { rows = before.rows })
rolled_back before o same h = record {
  accepted = rw same h;
  sent_kept = λ id m. rw same m;
  rows_kept = λ id m. inl m;
}

after_add-Safe :
    (before : Outbox) (next : Outbox → Outbox × Option AddError) (result : Outbox × Option AddError)
    → result.0.sent ≡ before.sent
    → Accepted before.rows before.sent
    → Safe before (next result.0).0
    → Safe before (after_add before.rows next result).0
after_add-Safe before next (o, some failure) same h k = rolled_back before o same h
after_add-Safe before next (o, none) same h k = k

add_events_from-Safe :
    (config : OutboxConfig) (answers : ℕ → AddAnswers) (before : Outbox) (i : ℕ)
    (events : List DomainEvent) (o : Outbox)
    → Accepted before.rows before.sent
    → Safe before o
    → o.sent ≡ before.sent
    → Safe before (add_events_from config answers before.rows i events o).0
unfolding add_events_from
add_events_from-Safe config answers before i [] o h safe same = safe
add_events_from-Safe config answers before i (e ∷ events) o h safe same =
    let (step, sent) = add_event_kept config (answers i) e o safe.accepted in
    after_add-Safe before (add_events_from config answers before.rows (suc i) events)
      (add_event config (answers i) e o) (sent ∙ same) h
      (add_events_from-Safe config answers before (suc i) events
        (add_event config (answers i) e o).0 h (Safe-trans safe step) (sent ∙ same))

Accepted-filter :
    (keep : OutboxEntry → Bool) (rows : List OutboxEntry) (sent : List String)
    → Accepted rows sent
    → Accepted (filter keep rows) sent
Accepted-filter keep [] sent h = tt
Accepted-filter keep (e ∷ rows) sent h = elim (Bool-cases (keep e)) [
  | inl kept ↦ rw kept (h.0, Accepted-filter keep rows sent h.1)
  | inr gone ↦ rw gone (Accepted-filter keep rows sent h.1)
]

old_published :
    (cutoff : ℕ) (e : OutboxEntry) → is_old cutoff e ≡ true → is_published e.status ≡ true
old_published cutoff e h = ground arith

-- An entry that the cleanup removes was accepted.
in_table-cleanup :
    (cutoff : ℕ) (id : String) (rows : List OutboxEntry) (sent : List String)
    → Accepted rows sent
    → in_table id rows ≡ true
    → (in_table id (filter (λ e. not (is_old cutoff e)) rows) ≡ true) ⊎ (is_sent id sent ≡ true)
in_table-cleanup cutoff id [] sent h m = absurd (cc)
in_table-cleanup cutoff id (e ∷ rows) sent h m = elim (Bool-cases (has_id id e)) [
  | inl same ↦ elim (Bool-cases (is_old cutoff e)) [
    | inl old ↦ inr (
        subst (λ k. is_sent k sent ≡ true) ((eq_iff e.id id).0 same)
          (h.0 (old_published cutoff e old)))
    | inr kept ↦ rw kept (inl (rw same refl))
  ]
  | inr other ↦ elim (in_table-cleanup cutoff id rows sent h.1 (rw other at m)) [
    | inl there ↦ elim (Bool-cases (is_old cutoff e)) [
      | inl old ↦ rw old (inl there)
      | inr kept ↦ rw kept (inl (rw other there))
    ]
    | inr gone ↦ inr gone
  ]
]

cleanup-Safe :
    (error : Option String) (now older_than : ℕ) (o : Outbox)
    → Accepted o.rows o.sent
    → Safe o (cleanup_processed_entries error now older_than o).0
unfolding cleanup_processed_entries
cleanup-Safe (some m) now older_than o h = Safe-refl o h
cleanup-Safe none now older_than o h = record {
  accepted = Accepted-filter (λ e. not (is_old (now - older_than) e)) o.rows o.sent h;
  sent_kept = λ id m. m;
  rows_kept = λ id m. in_table-cleanup (now - older_than) id o.rows o.sent h m;
}

-- A call of the outbox. `process` is one entry of a batch, as any worker has read it: the entries of
-- several batches may be interleaved in any order, and what was read may be out of date.
pub data Command : Type 0 where
  add : AddAnswers → DomainEvent → Command
  add_all : (ℕ → AddAnswers) → List DomainEvent → Command
  process : Answers → OutboxEntry → Command
  batch : Option String → (ℕ → Answers) → ℕ → Command
  cleanup : Option String → ℕ → ℕ → Command

module _ (config : OutboxConfig) where
  unfoldable pub obey : Command → Outbox → Outbox
  unfolding add_event add_events process_entry process_batch cleanup_processed_entries
  obey (add a e) o = (add_event config a e o).0
  obey (add_all answers events) o = (add_events config answers events o).0
  obey (process a e) o = (process_entry config a e o).0
  obey (batch query_error answers now) o = (process_batch config query_error answers now o).0
  obey (cleanup error now older_than) o = (cleanup_processed_entries error now older_than o).0

  unfoldable pub obey_all : List Command → Outbox → Outbox
  unfolding obey
  obey_all [] o = o
  obey_all (c ∷ commands) o = obey_all commands (obey c o)

  obey-Safe : (c : Command) (o : Outbox) → Accepted o.rows o.sent → Safe o (obey c o)
  unfolding obey add_events process_batch
  obey-Safe (add a e) o h = (add_event_kept config a e o h).0
  obey-Safe (add_all answers events) o h =
      add_events_from-Safe config answers o 0 events o h (Safe-refl o h) refl
  obey-Safe (process a e) o h = process_entry-Safe config a e o h
  obey-Safe (batch query_error answers now) o h =
      process_pending-Safe config answers now (get_pending_entries query_error now config o.rows) o
        h
  obey-Safe (cleanup error now older_than) o h = cleanup-Safe error now older_than o h

  -- No run of the outbox loses an entry: whatever fails, and however the workers interleave, an entry
  -- that was in the table is still there at the end or was accepted by the publisher, and every entry
  -- that is marked as published was accepted. At the start the entries marked as published were accepted.
  pub obey_all-Safe :
      (commands : List Command) (o : Outbox) → Accepted o.rows o.sent → Safe o (obey_all commands o)
  unfolding obey_all
  obey_all-Safe [] o h = Safe-refl o h
  obey_all-Safe (c ∷ commands) o h =
      let step = obey-Safe c o h in
      Safe-trans step (obey_all-Safe commands (obey c o) step.accepted)
