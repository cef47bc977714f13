-- ===== src/Outbox/Retrying.antt =====
-- Retries of the outbox (pkg/outbox/transactional_outbox.go): the time that is waited before one, and
-- what the table holds once the retries are used up.
use native.Mathlib.Nat.{mul-le-mul_right, one-le-pow}
use pyairtable_go_services.Prelude.{
  ℕ, ◌+◌, ◌-◌, ◌*◌, ◌^◌, ◌≤◌, ◌≡◌, refl, sym, ap, subst, inl, inr, String, true, false, List, All,
  ℤ, [], ◌∷◌, Option, none, some, pos, ◌≤ℤ◌, ltb_ℤ, int64_max, wrap64_of_fits, arith, str_eq,
  if◌then◌else◌, Bool-cases,
}
use pyairtable_go_services.Outbox.{
  failed, processing, OutboxEntry, OutboxConfig, Outbox, Answers, has_id, is_due, is_due_in,
  time_reached, update_row, with_status, update_entry_status, handle_publish_failure, publish,
  process_entry, retry_backoff,
}

le_power_mul : (k base : ℕ) → base ≤ 2 ^ k * base
le_power_mul k base = omega (arith, mul-le-mul_right base (one-le-pow k 2 (omega arith)))

-- The wait before retry n is the base, doubled n - 1 times, and at most the maximum, where that
-- doubling fits an int64: it is never less than the base or the maximum, whichever is smaller.
retry_backoff_bounds :
    (config : OutboxConfig) (n : ℕ)
    → 2 ^ (n - 1) * config.retry_backoff_base ≤ int64_max
    → config.retry_backoff_base ≤ config.retry_backoff_max
    → (pos config.retry_backoff_base ≤ℤ retry_backoff config n)
      × (retry_backoff config n ≤ℤ pos config.retry_backoff_max)
unfolding retry_backoff
retry_backoff_bounds config n fits order =
    let least = le_power_mul (n - 1) config.retry_backoff_base in
    rw (wrap64_of_fits (pos (2 ^ (n - 1) * config.retry_backoff_base)) fits (omega arith))
      (ground arith)

-- The row of an entry.
abbrev pub row : String → List OutboxEntry → Option OutboxEntry
row id [] = none
row id (e ∷ rows) = if has_id id e then some e else row id rows

row-update_row :
    (id : String) (f : OutboxEntry → OutboxEntry) (rows : List OutboxEntry) (e : OutboxEntry)
    → ((x : OutboxEntry) → (f x).id ≡ x.id)
    → row id rows ≡ some e
    → row id (update_row id f rows) ≡ some (f e)
row-update_row id f [] e keeps h = absurd (cc)
row-update_row id f (x ∷ rows) e keeps h = elim (Bool-cases (has_id id x)) [
  | inl same ↦
      let is_x : x ≡ e = cc (rw same at h) in
      let still : has_id id (f x) ≡ true = subst (λ k. str_eq k id ≡ true) (sym (keeps x)) same in
      rw (same, still) (ap (λ y. some (f y)) is_x)
  | inr other ↦ rw (other, other) (row-update_row id f rows e keeps (rw other at h))
]

later_reached :
    (now later : ℕ) (t : Option ℕ)
    → now ≤ later
    → time_reached now t ≡ true
    → time_reached later t ≡ true
later_reached now later none h k = absurd (cc)
later_reached now later (some t) h k = ground arith

-- A call of processEntry whose publication fails, while the database does what it is asked.
abbrev pub Refuses : Answers → Type 0
Refuses a =
    (a.mark_error ≡ none)
    × ((message : String) × (a.publish_error ≡ some message))
    × (a.update_error ≡ none)

abbrev pub process_read : OutboxConfig → Answers → Option OutboxEntry → Outbox → Outbox
process_read config a none o = o
process_read config a (some e) o = (process_entry config a e o).0

-- A worker reads the row of the entry and processes what it has read, once for each of the answers.
unfoldable pub retry_all : OutboxConfig → String → List Answers → Outbox → Outbox
retry_all config id [] o = o
retry_all config id (a ∷ answers) o =
    retry_all config id answers (process_read config a (row id o.rows) o)

-- The row of an entry whose retries are used up: failed, with its counts and its next retry.
record Spent (id : String) (count : ℕ) (most : ℤ) (next : Option ℕ) (rows : List OutboxEntry)
    : Type 0 where
  entry : OutboxEntry
  there : row id rows ≡ some entry
  same_id : entry.id ≡ id
  is_failed : entry.status ≡ failed
  same_count : entry.retry_count ≡ count
  same_most : entry.max_retries ≡ most
  same_next : entry.next_retry_at ≡ next

refused :
    (config : OutboxConfig) (a : Answers) (e : OutboxEntry) (o : Outbox)
    → Refuses a
    → ltb_ℤ (pos (e.retry_count + 1)) e.max_retries ≡ false
    → (message : String) × ((process_entry config a e o).0.rows
        ≡ update_row e.id
            (with_status a.now failed message)
            (update_row e.id (with_status a.now processing "") o.rows))
unfolding process_entry publish handle_publish_failure update_entry_status
refused config a e o (marked, (message, fails), updated) used =
    (message, rw (marked, fails, used, updated) refl)

process_entry-Spent :
    (config : OutboxConfig) (a : Answers) (id : String) (count : ℕ) (most : ℤ) (next : Option ℕ)
    (o : Outbox)
    → ltb_ℤ (pos (count + 1)) most ≡ false
    → Refuses a
    → (s : Spent id count most next o.rows)
    → Spent id count most next (process_entry config a s.entry o).0.rows
process_entry-Spent config a id count most next o used fails s =
    let still : ltb_ℤ (pos (s.entry.retry_count + 1)) s.entry.max_retries ≡ false =
      rw (s.same_count, s.same_most) used in
    let (message, rows) = refused config a s.entry o fails still in
    let e = s.entry in
    let first = row-update_row id (with_status a.now processing "") o.rows e (λ x. refl) s.there in
    let second =
      row-update_row id (with_status a.now failed message)
        (update_row id (with_status a.now processing "") o.rows) (with_status a.now processing "" e)
        (λ x. refl) first in
    record {
      entry = with_status a.now failed message (with_status a.now processing "" e);
      there =
          subst
            (λ k.
              row id k
              ≡ some (with_status a.now failed message (with_status a.now processing "" e)))
            (sym (
              subst
                (λ i.
                  (process_entry config a e o).0.rows
                  ≡ update_row i (with_status a.now failed message)
                      (update_row i (with_status a.now processing "") o.rows))
                s.same_id rows))
            second;
      same_id = s.same_id;
      is_failed = refl;
      same_count = s.same_count;
      same_most = s.same_most;
      same_next = s.same_next;
    }

retry_all-Spent :
    (config : OutboxConfig) (id : String) (count : ℕ) (most : ℤ) (next : Option ℕ)
    (answers : List Answers) (o : Outbox)
    → ltb_ℤ (pos (count + 1)) most ≡ false
    → All Refuses answers
    → Spent id count most next o.rows
    → Spent id count most next (retry_all config id answers o).rows
unfolding retry_all
retry_all-Spent config id count most next [] o used fails s = s
retry_all-Spent config id count most next (a ∷ answers) o used fails s =
    subst
      (λ r. Spent id count most next (retry_all config id answers (process_read config a r o)).rows)
      (sym s.there)
      (retry_all-Spent config id count most next answers (process_entry config a s.entry o).0 used
        fails.1 (process_entry-Spent config a id count most next o used fails.0 s))

-- An entry whose retries are used up is retried for ever: however often a worker reads its row and
-- processes it, where the publication fails each time and the database does its part, the row is
-- failed, keeps the retry count, the limit and the time of the next retry that it had, and is due
-- again at every later time. The row was failed, and due at the time `now`.
pub process_entry_exhausted :
    (config : OutboxConfig) (answers : List Answers) (e : OutboxEntry) (o : Outbox) (now later : ℕ)
    → row e.id o.rows ≡ some e
    → e.status ≡ failed
    → is_due now e ≡ true
    → ltb_ℤ (pos (e.retry_count + 1)) e.max_retries ≡ false
    → All Refuses answers
    → now ≤ later
    → (after : OutboxEntry) × (row e.id (retry_all config e.id answers o).rows ≡ some after)
      × (after.status ≡ failed)
      × (after.retry_count ≡ e.retry_count)
      × (after.max_retries ≡ e.max_retries)
      × (after.next_retry_at ≡ e.next_retry_at)
      × (is_due later after ≡ true)
process_entry_exhausted config answers e o now later there status due used fails after =
    let s =
      retry_all-Spent config e.id e.retry_count e.max_retries e.next_retry_at answers o used fails
        (record {
          entry = e;
          there = there;
          same_id = refl;
          is_failed = status;
          same_count = refl;
          same_most = refl;
          same_next = refl;
        }) in
    let reached =
      later_reached now later e.next_retry_at after
        (subst (λ st. is_due_in st now e.next_retry_at ≡ true) status due) in
    (
      s.entry,
      s.there,
      s.is_failed,
      s.same_count,
      s.same_most,
      s.same_next,
      rw (s.is_failed, s.same_next) reached,
    )
