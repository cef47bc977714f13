-- ===== src/EventStore/Processing.antt =====
-- The events that wait to be processed (pkg/eventstore: GetUnprocessedEvents, MarkEventsAsProcessed).
use pyairtable_go_services.Prelude.{
  ℕ, ◌≤◌, ◌≡◌, String, refl, sym, ap, ◌∙◌, inl, inr, List, [], ◌∷◌, none, All, take, leb, leb→le,
  le→leb, arith, if◌then◌else◌, Bool-cases,
}
use pyairtable_go_services.Domain.Shared.Error.{ok}
use pyairtable_go_services.Domain.Shared.Event.{DomainEvent}
use pyairtable_go_services.EventStore.{
  Table, select_unprocessed, insert_by_time, order_by_time, get_unprocessed_events, is_among,
  mark_events_as_processed,
}

-- The events that are not among those of the identifiers, in their order
abbrev pub without : List String → List DomainEvent → List DomainEvent
without ids [] = []
without ids (e ∷ es) = if is_among ids e then without ids es else e ∷ without ids es

without-none : (es : List DomainEvent) → without [] es ≡ es
without-none [] = refl
without-none (e ∷ es) = ap (◌∷◌ e) (without-none es)

-- No event is lost, and none of those marked comes back: what waits after the marking is what waited
-- before less the events of the identifiers.
select_unprocessed-mark :
    (ids : List String) (rows : Table)
    → select_unprocessed (mark_events_as_processed ids rows) ≡ without ids (select_unprocessed rows)
unfolding select_unprocessed mark_events_as_processed
select_unprocessed-mark [] rows = sym (without-none (select_unprocessed rows))
select_unprocessed-mark (i ∷ ids) [] = refl
select_unprocessed-mark (i ∷ ids) (r ∷ rows) =
    ground (arith, select_unprocessed-mark (i ∷ ids) rows)

-- From oldest to newest
abbrev pub IsByTime : List DomainEvent → Type 0
IsByTime [] = Unit
IsByTime (e ∷ es) = All (λ x. e.occurred_at ≤ x.occurred_at) es × IsByTime es

abbrev Follow : DomainEvent → List DomainEvent → Type 0
Follow e = All (λ x. e.occurred_at ≤ x.occurred_at)

Follow-mono :
    (e x : DomainEvent) (es : List DomainEvent)
    → e.occurred_at ≤ x.occurred_at
    → Follow x es
    → Follow e es
Follow-mono e x [] le h = tt
Follow-mono e x (y ∷ es) le h = (omega (arith, le, h.0), Follow-mono e x es le h.1)

Follow-without :
    (ids : List String) (e : DomainEvent) (es : List DomainEvent)
    → Follow e es
    → Follow e (without ids es)
Follow-without ids e [] h = tt
Follow-without ids e (x ∷ es) h = elim (Bool-cases (is_among ids x)) [
  | inl gone ↦ rw gone (Follow-without ids e es h.1)
  | inr kept ↦ rw kept (h.0, Follow-without ids e es h.1)
]

insert-Follow :
    (e x : DomainEvent) (es : List DomainEvent)
    → e.occurred_at ≤ x.occurred_at
    → Follow e es
    → Follow e (insert_by_time x es)
unfolding insert_by_time
insert-Follow e x [] le h = (le, tt)
insert-Follow e x (y ∷ es) le h = elim (Bool-cases (leb x.occurred_at y.occurred_at)) [
  | inl before ↦ rw before (le, h)
  | inr behind ↦ rw behind (h.0, insert-Follow e x es le h.1)
]

insert-IsByTime :
    (e : DomainEvent) (es : List DomainEvent) → IsByTime es → IsByTime (insert_by_time e es)
unfolding insert_by_time
insert-IsByTime e [] h = (tt, tt)
insert-IsByTime e (x ∷ es) h = elim (Bool-cases (leb e.occurred_at x.occurred_at)) [
  | inl before ↦
      let le = leb→le e.occurred_at x.occurred_at before in
      rw before ((le, Follow-mono e x es le h.0), h)
  | inr behind ↦
      rw behind (insert-Follow x e es (ground (arith, behind)) h.0, insert-IsByTime e es h.1)
]

order-IsByTime : (es : List DomainEvent) → IsByTime (order_by_time es)
unfolding order_by_time
order-IsByTime [] = tt
order-IsByTime (e ∷ es) = insert-IsByTime e (order_by_time es) (order-IsByTime es)

insert-first :
    (e : DomainEvent) (es : List DomainEvent) → Follow e es → insert_by_time e es ≡ e ∷ es
unfolding insert_by_time
insert-first e [] h = refl
insert-first e (x ∷ es) h = rw (le→leb e.occurred_at x.occurred_at h.0) refl

insert-without :
    (ids : List String) (e : DomainEvent) (es : List DomainEvent)
    → IsByTime es
    → without ids (insert_by_time e es)
      ≡ (if is_among ids e then without ids es else insert_by_time e (without ids es))
unfolding insert_by_time
insert-without ids e [] h = refl
insert-without ids e (x ∷ es) h = elim (Bool-cases (leb e.occurred_at x.occurred_at)) [
  | inl before ↦
      let le = leb→le e.occurred_at x.occurred_at before in
      let first =
        insert-first e (without ids (x ∷ es))
          (Follow-without ids e (x ∷ es) (le, Follow-mono e x es le h.0)) in
      rw before (elim (Bool-cases (is_among ids e)) [
        | inl gone ↦ rw gone refl
        | inr kept ↦ rw kept (sym first)
      ])
  | inr behind ↦ ground (arith, behind, insert-without ids e es h.1)
]

order-without :
    (ids : List String) (es : List DomainEvent)
    → without ids (order_by_time es) ≡ order_by_time (without ids es)
unfolding order_by_time
order-without ids [] = refl
order-without ids (e ∷ es) =
    ground
      (arith, insert-without ids e (order_by_time es) (order-IsByTime es), order-without ids es)

-- GetUnprocessedEvents after MarkEventsAsProcessed gives, from oldest to newest and up to its limit,
-- the events that waited before, less all those of the marked identifiers: none of these comes back
-- and no other is lost.
pub get_unprocessed-mark :
    (ids : List String) (limit : ℕ) (rows : Table)
    → get_unprocessed_events none limit (mark_events_as_processed ids rows)
      ≡ ok (take limit (without ids (order_by_time (select_unprocessed rows))))
unfolding get_unprocessed_events
get_unprocessed-mark ids limit rows =
    ap (λ es. ok (take limit es))
      (ap order_by_time (select_unprocessed-mark ids rows)
        ∙ sym (order-without ids (select_unprocessed rows)))
