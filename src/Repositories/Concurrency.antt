-- ===== src/Repositories/Concurrency.antt =====
-- Two users of a repository that change the same aggregate (pkg/repositories, pkg/eventstore).
use pyairtable_go_services.Prelude.{
  ℕ, String, ◌≡◌, ◌≢◌, refl, sym, ◌∙◌, subst, true, List, [], ◌∷◌, ◌++◌, map, none, some, exists,
  All, eq_iff, arith, inl, inr, Option-cases, Bool,
}
use pyairtable_go_services.Domain.Shared.Error.{Error}
use pyairtable_go_services.Domain.Shared.Event.{DomainEvent}
use pyairtable_go_services.Domain.Shared.Aggregate.{BaseAggregateRoot}
use pyairtable_go_services.Domain.Shared.Stamps.{IsStamped, Numbered, IsOwn}
use pyairtable_go_services.EventStore.{Table, Row, Db, clashes, new_row, insert_events, save_events}
use pyairtable_go_services.EventStore.Unique.{save_events_success}
use pyairtable_go_services.Repositories.{expected_version, save, save_pending}
use pyairtable_go_services.Repositories.Saving.{save_pending_success}

exists-behind :
    (p : Row → Bool) (rows : Table) (r : Row) (rest : Table)
    → p r ≡ true
    → exists p (rows ++ r ∷ rest) ≡ true
exists-behind p [] r rest h = ground arith
exists-behind p (x ∷ rows) r rest h = ground (arith, exists-behind p rows r rest h)

-- An event whose aggregate and version are taken is not inserted.
clashing_insert :
    (db : Db) (f : DomainEvent) (fs : List DomainEvent) (rows : Table)
    → exists (clashes f) rows ≡ true
    → insert_events db 0 (f ∷ fs) rows ≡ none
unfolding insert_events
clashing_insert db f fs rows h = ground arith

clashing_save :
    (db : Db) (seen rows : Table) (id : String) (f : DomainEvent) (fs : List DomainEvent)
    (expected : ℕ)
    → exists (clashes f) rows ≡ true
    → (save_events db seen id (f ∷ fs) expected rows).1 ≢ none
unfolding save_events
clashing_save db seen rows id f fs expected h done = ground (arith, clashing_insert db f fs rows h)

second_clashes :
    (e f : DomainEvent)
    → e.aggregate_id ≡ f.aggregate_id
    → e.version ≡ f.version
    → clashes f (new_row e) ≡ true
second_clashes e f i v =
    ground (arith, eq_iff e.aggregate_id f.aggregate_id, eq_iff e.event_id f.event_id)

second_fails :
    (db db' : Db) (seen seen' rows : Table) (saved : ℕ) (a b : BaseAggregateRoot)
    (es fs : List DomainEvent)
    → a.id ≡ b.id
    → Numbered saved es
    → Numbered saved fs
    → All (IsOwn a.id a.tenant_id) es
    → All (IsOwn b.id b.tenant_id) fs
    → es ≢ []
    → fs ≢ []
    → (save_pending db seen es a rows).2 ≡ none
    → (save_pending db' seen' fs b (save_pending db seen es a rows).0).2 ≢ none
second_fails db db' seen seen' rows saved a b [] fs i n m o p x y done again = x refl
second_fails db db' seen seen' rows saved a b (e ∷ es) [] i n m o p x y done again = y refl
second_fails db db' seen seen' rows saved a b (e ∷ es) (f ∷ fs) i n m o p x y done again =
    let (stored, table) = save_pending_success db seen rows e es a done in
    let rows' = save_events_success db seen a.id e es (expected_version a) rows stored in
    let clash = second_clashes e f (o.0.0 ∙ i ∙ sym p.0.0) (n.0 ∙ sym m.0) in
    let taken = exists-behind (clashes f) rows (new_row e) (map new_row es) clash in
    let now = (save_pending db seen (e ∷ es) a rows).0 in
    clashing_save db' seen' now b.id f fs (expected_version b)
      (subst (λ t. exists (clashes f) t ≡ true) (sym (table ∙ rows'.1)) taken)
      (save_pending_success db' seen' now f fs b again).0

-- Of two copies of an aggregate that were changed from the same saved version, only one is saved:
-- once the Save of the first has succeeded, the Save of the other reports an error, whatever rows its
-- transaction saw when it checked the version.
pub no_lost_update :
    (db db' : Db) (seen seen' rows : Table) (saved : ℕ) (a b : BaseAggregateRoot)
    → a.id ≡ b.id
    → IsStamped saved a
    → IsStamped saved b
    → a.uncommitted_events ≢ []
    → b.uncommitted_events ≢ []
    → (save db seen a rows).2 ≡ none
    → (error : Error) × ((save db' seen' b (save db seen a rows).0).2 ≡ some error)
unfolding save
no_lost_update db db' seen seen' rows saved a b i s t x y done =
    elim (Option-cases (save db' seen' b (save db seen a rows).0).2) [
      | inr failed ↦ failed
      | inl again ↦ absurd (
          second_fails db db' seen seen' rows saved a b a.uncommitted_events b.uncommitted_events i
            s.numbered t.numbered s.own t.own x y done again)
    ]
