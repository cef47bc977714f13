-- ===== src/Repositories.antt =====
-- pkg/repositories: Save, which the three repositories share word for word. GetByID of each is in a
-- child.
pub mod Users
pub mod Workspaces
pub mod Tenants
pub mod Saving
pub mod First
pub mod Concurrency
use pyairtable_go_services.Prelude.{
  ℕ, ◌+◌, ◌-◌, ◌%◌, String, List, [], ◌∷◌, Option, none, some, length,
}
use pyairtable_go_services.Domain.Shared.Error.{Error, wrapped}
use pyairtable_go_services.Domain.Shared.Types.{word}
use pyairtable_go_services.Domain.Shared.Event.{DomainEvent}
use pyairtable_go_services.Domain.Shared.Aggregate.{BaseAggregateRoot, clear_uncommitted_events}
use pyairtable_go_services.EventStore.{Table, Db, save_events}

-- `GetVersion().Int() - int64(len(events))`, on 64-bit words
unfoldable pub expected_version : BaseAggregateRoot → ℕ
expected_version a = (a.version + word - length a.uncommitted_events % word) % word

unfoldable pub save_pending :
    Db
    → Table
    → List DomainEvent
    → BaseAggregateRoot
    → Table
    → Table × BaseAggregateRoot × Option Error
unfolding expected_version clear_uncommitted_events
save_pending db seen [] a rows = (rows, a, none)
save_pending db seen (e ∷ events) a rows =
    let (rows', error) = save_events db seen a.id (e ∷ events) (expected_version a) rows in
    elim error [
      | some e ↦ (rows', a, some (wrapped "failed to save events: %w" e))
      | none ↦ (rows', clear_uncommitted_events a, none)
    ]

-- Save, on the aggregate's root. The table that the check sees, and the one that it writes to.
unfoldable pub save :
    Db → Table → BaseAggregateRoot → Table → Table × BaseAggregateRoot × Option Error
unfolding save_pending
save db seen a rows = save_pending db seen a.uncommitted_events a rows
