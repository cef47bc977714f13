-- ===== src/Domain/Shared/Tracking.antt =====
-- A live aggregate beside the one that its events rebuild. S is the state without the root.
use pyairtable_go_services.Prelude.{◌≡◌, sym, ◌∙◌, List, [], ◌∷◌, ◌++◌}
use mathlib.Core.List.{append_assoc}
use pyairtable_go_services.Domain.Shared.Error.{Outcome, ok}
use pyairtable_go_services.Domain.Shared.Event.{DomainEvent}
use pyairtable_go_services.Domain.Shared.Aggregate.{BaseAggregateRoot, apply_event}

module _ {S : Type 0} (apply : DomainEvent → S → Outcome S) (Same : S → S → Type 0) where
  -- What a call that takes root a to b and leaves state s' means for a rebuilt state t: it raised
  -- nothing and t still agrees, or its one event takes t to a state that agrees.
  pub data Follows (a b : BaseAggregateRoot) (s' t : S) : Type 0 where
    unchanged : b ≡ a → Same s' t → Follows a b s' t
    replayed :
        (e : DomainEvent) (t' : S)
        → b ≡ apply_event a e
        → e.aggregate_id ≡ a.id
        → e.version ≡ b.version
        → apply e t ≡ ok t'
        → Same s' t'
        → Follows a b s' t

module _ {S : Type 0} (apply : DomainEvent → S → Outcome S) (Same : S → S → Type 0)
    (Loads : List DomainEvent → BaseAggregateRoot → S → Type 0) where
  -- The saved events and those not yet saved rebuild an aggregate of the same version and identity
  -- whose state agrees with the live one.
  pub record Tracks (saved : List DomainEvent) (a : BaseAggregateRoot) (s : S) : Type 0 where
    pub root : BaseAggregateRoot
    pub state : S
    pub loads : Loads (saved ++ a.uncommitted_events) root state
    pub same : Same s state
    pub same_id : root.id ≡ a.id
    pub same_version : root.version ≡ a.version
    pub same_tenant : root.tenant_id ≡ a.tenant_id

  -- Loading one event more is loading what is there and applying the event.
  abbrev pub LoadsAppend : Type 0
  LoadsAppend =
      (es : List DomainEvent) (e : DomainEvent) (b : BaseAggregateRoot) (t u : S)
      → Loads es b t
      → e.aggregate_id ≡ b.id
      → apply e t ≡ ok u
      → Loads (es ++ e ∷ []) (record b { version = e.version }) u

  pub Follows-Tracks :
      LoadsAppend
      → (saved : List DomainEvent) (a b : BaseAggregateRoot) (s s' : S) → (t : Tracks saved a s)
      → Follows apply Same a b s' t.state
      → Tracks saved b s'
  unfolding apply_event
  Follows-Tracks loads_append saved a b s s' t (Follows.unchanged e h) = record {
    root = t.root;
    state = t.state;
    loads = rw e t.loads;
    same = h;
    same_id = rw e t.same_id;
    same_version = rw e t.same_version;
    same_tenant = rw e t.same_tenant;
  }
  Follows-Tracks loads_append saved a b s s' t (Follows.replayed e t' p i v r h) = record {
    root = record (t.root) { version = e.version };
    state = t';
    loads =
        rw (p, ← append_assoc saved a.uncommitted_events (e ∷ []))
          (loads_append (saved ++ a.uncommitted_events) e t.root t.state t' t.loads
            (i ∙ sym t.same_id) r);
    same = h;
    same_id = rw p t.same_id;
    same_version = v;
    same_tenant = rw p t.same_tenant;
  }
