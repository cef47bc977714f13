-- ===== src/Repositories/Saving.antt =====
-- What Save does to an aggregate and to the table (pkg/repositories, pkg/eventstore).
use mathlib.Core.List.{append-nil}
use pyairtable_go_services.Prelude.{
  ℕ, ◌+◌, ◌<◌, String, ◌≡◌, ◌≢◌, refl, subst, ap, ◌∙◌, List, [], ◌∷◌, ◌++◌, none, some, length, All,
  arith, inl, inr, Option-cases,
}
use pyairtable_go_services.Domain.Shared.Error.{Error, ok}
use pyairtable_go_services.Domain.Shared.Types.{word, int64_room, next}
use pyairtable_go_services.Domain.Shared.Event.{DomainEvent}
use pyairtable_go_services.Domain.Shared.Aggregate.{BaseAggregateRoot}
use pyairtable_go_services.Domain.Shared.Stamps.{IsStamped, Numbered, version_after, IsOwn}
use pyairtable_go_services.EventStore.{Table, Db, current_version, save_events, select, get_events}
use pyairtable_go_services.EventStore.Unique.{save_events_error_unchanged, save_events_success}
use pyairtable_go_services.EventStore.Order.{
  IsAscending, get_events-save_events, order_by_version-IsAscending,
}
use pyairtable_go_services.Repositories.{expected_version, save, save_pending}

save_pending_error :
    (db : Db) (seen rows : Table) (es : List DomainEvent) (a : BaseAggregateRoot) (error : Error)
    → (save_pending db seen es a rows).2 ≡ some error
    → ((save_pending db seen es a rows).0 ≡ rows) × ((save_pending db seen es a rows).1 ≡ a)
unfolding save_pending
save_pending_error db seen rows [] a error h = (refl, refl)
save_pending_error db seen rows (e ∷ es) a error h =
    elim (Option-cases (save_events db seen a.id (e ∷ es) (expected_version a) rows).1) [
      | inl saved ↦ ground arith
      | inr (m, failed) ↦
          let same =
            save_events_error_unchanged db seen a.id (e ∷ es) (expected_version a) rows failed in
          ground arith
    ]

-- Where Save reports an error, the table and the aggregate, its pending events included, are as they
-- were before.
save_error_unchanged :
    (db : Db) (seen rows : Table) (a : BaseAggregateRoot) {error : Error}
    → (save db seen a rows).2 ≡ some error
    → ((save db seen a rows).0 ≡ rows) × ((save db seen a rows).1 ≡ a)
unfolding save
save_error_unchanged db seen rows a {error} h =
    save_pending_error db seen rows a.uncommitted_events a error h

pub save_pending_success :
    (db : Db) (seen rows : Table) (e : DomainEvent) (es : List DomainEvent) (a : BaseAggregateRoot)
    → (save_pending db seen (e ∷ es) a rows).2 ≡ none
    → let (rows', error) = save_events db seen a.id (e ∷ es) (expected_version a) rows in
      (error ≡ none) × ((save_pending db seen (e ∷ es) a rows).0 ≡ rows')
unfolding save_pending
save_pending_success db seen rows e es a h = ground arith

version_after-length :
    (v : ℕ) (es : List DomainEvent) → v + length es < word → version_after v es ≡ v + length es
unfolding next
version_after-length v [] h = omega arith
version_after-length v (e ∷ es) h =
    let e : next v ≡ v + 1 = omega arith in
    rw e (version_after-length (v + 1) es (omega arith) ∙ omega arith)

-- The version that Save expects in the table is the one from which the pending events are numbered.
expected_version-IsStamped :
    (saved : ℕ) (a : BaseAggregateRoot)
    → IsStamped saved a
    → saved + length a.uncommitted_events < word
    → expected_version a ≡ saved
unfolding expected_version
expected_version-IsStamped saved a s room =
    omega (arith, s.current, version_after-length saved a.uncommitted_events room)

save_pending_get :
    (db : Db) (rows : Table) (es : List DomainEvent) (a : BaseAggregateRoot)
    → IsAscending 0 (select a.id 0 rows)
    → expected_version a ≡ current_version a.id rows
    → Numbered (current_version a.id rows) es
    → current_version a.id rows + length es < int64_room
    → All (IsOwn a.id a.tenant_id) es
    → (save_pending db rows es a rows).2 ≡ none
    → get_events none a.id (save_pending db rows es a rows).0 ≡ ok (select a.id 0 rows ++ es)
unfolding save_pending get_events
save_pending_get db rows [] a asc exp num room own done =
    rw append-nil (ap ok (order_by_version-IsAscending 0 _ asc))
save_pending_get db rows (e ∷ es) a asc exp num room own done =
    let (ok_save, table) = save_pending_success db rows rows e es a done in
    let saved = rw exp at ok_save in
    rw (table, exp) (get_events-save_events db a.id a.tenant_id e es rows asc num room own saved).0

save_get :
    (db : Db) (rows : Table) (a : BaseAggregateRoot)
    → IsAscending 0 (select a.id 0 rows)
    → IsStamped (current_version a.id rows) a
    → current_version a.id rows + length a.uncommitted_events < int64_room
    → (save db rows a rows).2 ≡ none
    → get_events none a.id (save db rows a rows).0 ≡ ok (select a.id 0 rows ++ a.uncommitted_events)
unfolding save
save_get db rows a asc s room done =
    save_pending_get db rows a.uncommitted_events a asc
      (expected_version-IsStamped (current_version a.id rows) a s (omega arith)) s.numbered room
      s.own done

-- Where the pending events run on from the version that the table has of the aggregate, a Save that
-- reports success makes the next load give the saved events followed by the pending ones. The rows
-- of the aggregate rise in their versions, and the int64 version has room for the events.
pub save-get_events :
    (db : Db) (id : String) (rows : Table) (a : BaseAggregateRoot)
    → a.id ≡ id
    → IsAscending 0 (select id 0 rows)
    → IsStamped (current_version id rows) a
    → current_version id rows + length a.uncommitted_events < int64_room
    → (save db rows a rows).2 ≡ none
    → get_events none id (save db rows a rows).0 ≡ ok (select id 0 rows ++ a.uncommitted_events)
save-get_events db id rows a e =
    subst
      (λ i.
        IsAscending 0 (select i 0 rows)
        → IsStamped (current_version i rows) a
        → current_version i rows + length a.uncommitted_events < int64_room
        → (save db rows a rows).2 ≡ none
        → get_events none i (save db rows a rows).0 ≡ ok (select i 0 rows ++ a.uncommitted_events))
      e (save_get db rows a)

save_pending_version :
    (db : Db) (seen rows : Table) (es : List DomainEvent) (a : BaseAggregateRoot)
    → es ≢ []
    → (save_pending db seen es a rows).2 ≡ none
    → current_version a.id seen ≡ expected_version a
save_pending_version db seen rows [] a some_pending done = absurd (some_pending refl)
save_pending_version db seen rows (e ∷ es) a some_pending done =
    (save_events_success db seen a.id e es (expected_version a) rows
      (save_pending_success db seen rows e es a done).0).0

-- A Save that reports success, of at least one event and numbered on from the version `saved`, has
-- found just that version of the aggregate in the table that it saw.
save_success_version :
    (db : Db) (seen rows : Table) (saved : ℕ) (a : BaseAggregateRoot)
    → IsStamped saved a
    → saved + length a.uncommitted_events < word
    → a.uncommitted_events ≢ []
    → (save db seen a rows).2 ≡ none
    → current_version a.id seen ≡ saved
unfolding save
save_success_version db seen rows saved a s room some_pending done =
    save_pending_version db seen rows a.uncommitted_events a some_pending done
    ∙ expected_version-IsStamped saved a s room
