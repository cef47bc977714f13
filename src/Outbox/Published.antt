-- ===== src/Outbox/Published.antt =====
-- What no run of the outbox (pkg/outbox/transactional_outbox.go) loses: an entry leaves the table only
-- once the publisher has accepted it.
use pyairtable_go_services.Prelude.{
  ℕ, suc, ◌≡◌, ◌⊎◌, refl, sym, subst, inl, inr, String, Bool, true, not, List, [], ◌∷◌, ◌++◌,
  Option, none, some, arith, All, exists, str_eq, eq_iff, eq_refl, ltb_ℤ, pos, ◌+◌, Bool-cases,
}
use pyairtable_go_services.Outbox.{
  processing, published, failed, OutboxEntry, OutboxConfig, Outbox, has_id, update_row, with_status,
  update_entry_status, update_entry_for_retry, Answers, ProcessError, on_error, accept,
  mark_processing, publish, handle_publish_failure, record_published, process_entry,
  process_entries, Pending, query_failed, scan_failed, entries, process_pending, is_published,
}

abbrev pub is_sent : String → List String → Bool
is_sent id sent = exists (λ s. str_eq s id) sent

-- Every entry that is marked as published was accepted by the publisher.
abbrev pub Accepted : List OutboxEntry → List String → Type 0
Accepted rows sent = All (λ e. is_published e.status ≡ true → is_sent e.id sent ≡ true) rows

abbrev pub in_table : String → List OutboxEntry → Bool
in_table id rows = exists (has_id id) rows

-- A change of the outbox after which an entry is still in the table, or accepted.
pub record Safe (before after : Outbox) : Type 0 where
  pub accepted : Accepted after.rows after.sent
  pub sent_kept : (id : String) → is_sent id before.sent ≡ true → is_sent id after.sent ≡ true
  pub rows_kept :
      (id : String)
      → in_table id before.rows ≡ true
      → (in_table id after.rows ≡ true) ⊎ (is_sent id after.sent ≡ true)

pub Safe-refl : (o : Outbox) → Accepted o.rows o.sent → Safe o o
Safe-refl o h = record { accepted = h; sent_kept = λ id m. m; rows_kept = λ id m. inl m }

pub Safe-trans : {a b c : Outbox} → Safe a b → Safe b c → Safe a c
Safe-trans ab bc = record {
  accepted = bc.accepted;
  sent_kept = λ id m. bc.sent_kept id (ab.sent_kept id m);
  rows_kept = λ id m. elim (ab.rows_kept id m) [
    | inl there ↦ bc.rows_kept id there
    | inr gone ↦ inr (bc.sent_kept id gone)
  ];
}

-- An update of one row that keeps its identifier, and that marks it as published only if it was
-- accepted.
update_row-Accepted :
    (id : String) (f : OutboxEntry → OutboxEntry) (rows : List OutboxEntry) (sent : List String)
    → ((e : OutboxEntry)
        → has_id id e ≡ true
        → is_published (f e).status ≡ true
        → is_sent (f e).id sent ≡ true)
    → Accepted rows sent
    → Accepted (update_row id f rows) sent
update_row-Accepted id f [] sent marks h = tt
update_row-Accepted id f (e ∷ rows) sent marks h = elim (Bool-cases (has_id id e)) [
  | inl same ↦ rw same (marks e same, update_row-Accepted id f rows sent marks h.1)
  | inr other ↦ rw other (h.0, update_row-Accepted id f rows sent marks h.1)
]

in_table-update_row :
    (id key : String) (f : OutboxEntry → OutboxEntry) (rows : List OutboxEntry)
    → ((e : OutboxEntry) → (f e).id ≡ e.id)
    → in_table key (update_row id f rows) ≡ in_table key rows
in_table-update_row id key f [] keeps = refl
in_table-update_row id key f (e ∷ rows) keeps = elim (Bool-cases (has_id id e)) [
  | inl same ↦ rw (same, keeps e, in_table-update_row id key f rows keeps) refl
  | inr other ↦ rw (other, in_table-update_row id key f rows keeps) refl
]

update_row-Safe :
    (o o' : Outbox) (id : String) (f : OutboxEntry → OutboxEntry)
    → o'.rows ≡ update_row id f o.rows
    → o'.sent ≡ o.sent
    → ((e : OutboxEntry) → (f e).id ≡ e.id)
    → ((e : OutboxEntry)
        → has_id id e ≡ true
        → is_published (f e).status ≡ true
        → is_sent (f e).id o.sent ≡ true)
    → Accepted o.rows o.sent
    → Safe o o'
update_row-Safe o o' id f rows sent keeps marks h = record {
  accepted = rw (rows, sent) (update_row-Accepted id f o.rows o.sent marks h);
  sent_kept = λ key m. rw sent m;
  rows_kept = λ key m. inl (rw (rows, in_table-update_row id key f o.rows keeps) m);
}

on_error-Safe :
    (o : Outbox) (error : Option String) (returned next : Outbox × Option ProcessError)
    → Safe o returned.0
    → Safe o next.0
    → Safe o (on_error error returned next).0
on_error-Safe o (some m) returned next h k = h
on_error-Safe o none returned next h k = k

handle_publish_failure-Safe :
    (config : OutboxConfig) (a : Answers) (e : OutboxEntry) (message : String) (o : Outbox)
    → Accepted o.rows o.sent
    → Safe o (handle_publish_failure config a e message o).0
unfolding handle_publish_failure update_entry_status update_entry_for_retry
handle_publish_failure-Safe config a e message o h =
    elim (Bool-cases (not (ltb_ℤ (pos (e.retry_count + 1)) e.max_retries))) [
      | inl exceeded ↦ rw exceeded (
          on_error-Safe o a.update_error _ _ (Safe-refl o h) (
            update_row-Safe o _ e.id (with_status a.now failed message) refl refl (λ x. refl)
              (λ x m. λ p. absurd (cc)) h))
      | inr again ↦ rw again (
          on_error-Safe o a.update_error _ _ (Safe-refl o h)
            (update_row-Safe o _ e.id _ refl refl (λ x. refl) (λ x m. λ p. absurd (cc)) h))
    ]

is_sent-append :
    (id : String) (sent more : List String)
    → is_sent id sent ≡ true
    → is_sent id (sent ++ more) ≡ true
is_sent-append id [] more h = absurd (cc)
is_sent-append id (s ∷ sent) more h = elim (Bool-cases (str_eq s id)) [
  | inl e ↦ rw e refl
  | inr e ↦ rw e (is_sent-append id sent more (rw e at h))
]

is_sent_last : (id : String) (sent : List String) → is_sent id (sent ++ id ∷ []) ≡ true
is_sent_last id [] = rw (eq_refl id) refl
is_sent_last id (s ∷ sent) = ground (arith, is_sent_last id sent)

Accepted-append :
    (rows : List OutboxEntry) (sent more : List String)
    → Accepted rows sent
    → Accepted rows (sent ++ more)
Accepted-append [] sent more h = tt
Accepted-append (e ∷ rows) sent more h =
    ((λ p. is_sent-append e.id sent more (h.0 p)), Accepted-append rows sent more h.1)

accept-Safe : (e : OutboxEntry) (o : Outbox) → Accepted o.rows o.sent → Safe o (accept e o)
accept-Safe e o h = record {
  accepted = Accepted-append o.rows o.sent (e.id ∷ []) h;
  sent_kept = λ id m. is_sent-append id o.sent (e.id ∷ []) m;
  rows_kept = λ id m. inl m;
}

record_published-Safe :
    (a : Answers) (e : OutboxEntry) (o : Outbox)
    → Accepted o.rows o.sent
    → is_sent e.id o.sent ≡ true
    → Safe o (record_published a e o).0
unfolding record_published update_entry_status
record_published-Safe a e o h sent = on_error-Safe o a.update_error _ _ (Safe-refl o h) (
    update_row-Safe o _ e.id (with_status a.now published "") refl refl (λ x. refl)
      (λ x m p. subst (λ k. is_sent k o.sent ≡ true) (sym ((eq_iff x.id e.id).0 m)) sent) h)

publish-Safe :
    (config : OutboxConfig) (a : Answers) (e : OutboxEntry) (error : Option String) (o : Outbox)
    → Accepted o.rows o.sent
    → Safe o (publish config a e error o).0
unfolding publish
publish-Safe config a e (some m) o h = handle_publish_failure-Safe config a e m o h
publish-Safe config a e none o h =
    let accepts = accept-Safe e o h in
    Safe-trans accepts
      (record_published-Safe a e (accept e o) accepts.accepted (is_sent_last e.id o.sent))

pub process_entry-Safe :
    (config : OutboxConfig) (a : Answers) (e : OutboxEntry) (o : Outbox)
    → Accepted o.rows o.sent
    → Safe o (process_entry config a e o).0
unfolding process_entry update_entry_status
process_entry-Safe config a e o h =
    let marks =
      update_row-Safe o (mark_processing a e o) e.id (with_status a.now processing "") refl refl
        (λ x. refl) (λ x m. λ p. absurd (cc)) h in
    on_error-Safe o a.mark_error _ _ (Safe-refl o h) (
      Safe-trans marks
        (publish-Safe config a e a.publish_error (mark_processing a e o) marks.accepted))

with_stats-Safe :
    (o o' : Outbox) → o'.rows ≡ o.rows → o'.sent ≡ o.sent → Accepted o.rows o.sent → Safe o o'
with_stats-Safe o o' rows sent h = record {
  accepted = rw (rows, sent) h;
  sent_kept = λ id m. rw sent m;
  rows_kept = λ id m. inl (rw rows m);
}

process_entries-Safe :
    (config : OutboxConfig) (answers : ℕ → Answers) (i : ℕ) (es : List OutboxEntry) (o : Outbox)
    → Accepted o.rows o.sent
    → Safe o (process_entries config answers i es o)
unfolding process_entries
process_entries-Safe config answers i [] o h = Safe-refl o h
process_entries-Safe config answers i (e ∷ es) o h =
    let done = process_entry-Safe config (answers i) e o h in
    let counted =
      with_stats-Safe (process_entry config (answers i) e o).0 _ refl refl done.accepted in
    Safe-trans done
      (Safe-trans counted (process_entries-Safe config answers (suc i) es _ counted.accepted))

pub process_pending-Safe :
    (config : OutboxConfig) (answers : ℕ → Answers) (now : ℕ) (read : Pending) (o : Outbox)
    → Accepted o.rows o.sent
    → Safe o (process_pending config answers now read o).0
process_pending-Safe config answers now query_failed o h = Safe-refl o h
process_pending-Safe config answers now scan_failed o h = Safe-refl o h
process_pending-Safe config answers now (entries []) o h = Safe-refl o h
process_pending-Safe config answers now (entries (e ∷ es)) o h =
    let done = process_entries-Safe config answers 0 (e ∷ es) o h in
    Safe-trans done (with_stats-Safe _ _ refl refl done.accepted)
