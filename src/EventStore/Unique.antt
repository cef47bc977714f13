-- ===== src/EventStore/Unique.antt =====
-- What SaveEvents keeps of the table's keys, and what it leaves alone (pkg/eventstore).
use pyairtable_go_services.Prelude.{
  ℕ, suc, String, ◌≡◌, ◌≢◌, eq_iff, refl, false, List, [], ◌∷◌, ◌++◌, none, some, All, All-append,
  exists, arith, map, subst, ◌⊎◌, inl, inr, Bool-cases, Option-cases,
}
use mathlib.Core.List.{append-nil, append_assoc}
use pyairtable_go_services.Domain.Shared.Error.{Error}
use pyairtable_go_services.Domain.Shared.Event.{DomainEvent}
use pyairtable_go_services.EventStore.{
  Table, Row, Db, clashes, new_row, insert_events, save_events, current_version,
}

-- Two rows that the keys of the table allow: other identifiers, and not the same version of one aggregate.
abbrev pub Apart : Row → Row → Type 0
Apart r r' =
    (r.event.event_id ≢ r'.event.event_id)
    × ¬ ((r.event.aggregate_id ≡ r'.event.aggregate_id) × (r.event.version ≡ r'.event.version))

-- Every row is apart from those behind it.
abbrev pub HasUniqueKeys : Table → Type 0
HasUniqueKeys [] = Unit
HasUniqueKeys (r ∷ rows) = All (Apart r) rows × HasUniqueKeys rows

no_clash-Apart : (e : DomainEvent) (r : Row) → clashes e r ≡ false → Apart r (new_row e)
no_clash-Apart e r free = (
  λ same. ground (arith, free, eq_iff r.event.event_id e.event_id, same),
  λ (same, version).
      ground (arith, free, eq_iff r.event.aggregate_id e.aggregate_id, same, version),
)

no_clash-append :
    (e : DomainEvent) (rows : Table)
    → exists (clashes e) rows ≡ false
    → HasUniqueKeys rows
    → HasUniqueKeys (rows ++ new_row e ∷ [])
no_clash-append e [] h u = (tt, tt)
no_clash-append e (r ∷ rows) h u = (
  All-append (Apart r) rows (new_row e ∷ []) u.0 (no_clash-Apart e r (ground arith), tt),
  no_clash-append e rows (ground arith) u.1,
)

insert_events-HasUniqueKeys :
    (db : Db) (i : ℕ) (es : List DomainEvent) (rows rows' : Table)
    → HasUniqueKeys rows
    → insert_events db i es rows ≡ some rows'
    → HasUniqueKeys rows'
unfolding insert_events
insert_events-HasUniqueKeys db i [] rows rows' u h =
    let e : rows ≡ rows' = ground arith in subst HasUniqueKeys e u
insert_events-HasUniqueKeys db i (e ∷ es) rows rows' u h =
    elim (Bool-cases (exists (clashes e) rows)) [
      | inl clash ↦ ground arith
      | inr free ↦
          insert_events-HasUniqueKeys db (suc i) es (rows ++ new_row e ∷ []) rows'
            (no_clash-append e rows free u) (ground arith)
    ]

insert_events-append :
    (db : Db) (i : ℕ) (es : List DomainEvent) (rows rows' : Table)
    → insert_events db i es rows ≡ some rows'
    → rows' ≡ rows ++ map new_row es
unfolding insert_events
insert_events-append db i [] rows rows' h = ground (arith, append-nil rows)
insert_events-append db i (e ∷ es) rows rows' h = ground (
  arith,
  insert_events-append db (suc i) es (rows ++ new_row e ∷ []) rows',
  append_assoc rows (new_row e ∷ []) (map new_row es),
)

-- A transaction that fails, at whichever statement, leaves the table as it was.
pub save_events_error_unchanged :
    (db : Db) (seen : Table) (id : String) (es : List DomainEvent) (expected : ℕ) (rows : Table)
    {error : Error}
    → (save_events db seen id es expected rows).1 ≡ some error
    → (save_events db seen id es expected rows).0 ≡ rows
unfolding save_events
save_events_error_unchanged db seen id [] expected rows h = refl
save_events_error_unchanged db seen id (e ∷ es) expected rows h = ground arith

-- A save that reports success has found the expected version in what it saw, and has added exactly
-- the given events behind the rows that were there.
pub save_events_success :
    (db : Db) (seen : Table) (id : String) (e : DomainEvent) (es : List DomainEvent) (expected : ℕ)
    (rows : Table)
    → (save_events db seen id (e ∷ es) expected rows).1 ≡ none
    → (current_version id seen ≡ expected)
      × ((save_events db seen id (e ∷ es) expected rows).0 ≡ rows ++ map new_row (e ∷ es))
unfolding save_events
save_events_success db seen id e es expected rows h =
    elim (Option-cases (insert_events db 0 (e ∷ es) rows)) [
      | inl failed ↦ ground arith
      | inr (rows', done) ↦ ground (arith, insert_events-append db 0 (e ∷ es) rows rows' done)
    ]

save_events-cases :
    (db : Db) (seen : Table) (id : String) (e : DomainEvent) (es : List DomainEvent) (expected : ℕ)
    (rows : Table)
    → let saved = (save_events db seen id (e ∷ es) expected rows).0 in
      (rows ≡ saved) ⊎ (insert_events db 0 (e ∷ es) rows ≡ some saved)
unfolding save_events
save_events-cases db seen id e es expected rows =
    elim (Option-cases (insert_events db 0 (e ∷ es) rows)) [
      | inl failed ↦ inl (ground arith)
      | inr (rows', done) ↦ ground arith
    ]

-- Whatever version a transaction read before others committed, no save breaks the table's keys: no
-- two rows share an id, and no two rows of an aggregate share a version.
pub save_events-HasUniqueKeys :
    (db : Db) (seen : Table) (id : String) (es : List DomainEvent) (expected : ℕ) (rows : Table)
    → HasUniqueKeys rows
    → HasUniqueKeys (save_events db seen id es expected rows).0
unfolding save_events
save_events-HasUniqueKeys db seen id [] expected rows u = u
save_events-HasUniqueKeys db seen id (e ∷ es) expected rows u =
    elim (save_events-cases db seen id e es expected rows) [
      | inl kept ↦ subst HasUniqueKeys kept u
      | inr done ↦ insert_events-HasUniqueKeys db 0 (e ∷ es) rows _ u done
    ]
