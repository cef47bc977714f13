-- ===== src/Domain/Shared/Stamps.antt =====
-- How the aggregate root numbers and addresses its events (domain/shared/aggregate.go).
use pyairtable_go_services.Prelude.{
  ℕ, String, ◌≡◌, refl, sym, subst, ap, ◌∙◌, List, [], ◌∷◌, ◌++◌, All, All-append,
}
use pyairtable_go_services.Domain.Shared.Types.{Env, next}
use pyairtable_go_services.Domain.Shared.Event.{DomainEvent, Payload}
use pyairtable_go_services.Domain.Shared.Aggregate.{BaseAggregateRoot, raise_event}

-- The versions run on from v, one for each event.
abbrev pub Numbered : ℕ → List DomainEvent → Type 0
Numbered v [] = Unit
Numbered v (e ∷ es) = (e.version ≡ next v) × Numbered (next v) es

-- The version after so many events.
abbrev pub version_after : ℕ → List DomainEvent → ℕ
version_after v [] = v
version_after v (e ∷ es) = version_after (next v) es

abbrev pub IsOwn : String → String → DomainEvent → Type 0
IsOwn id tenant_id e = (e.aggregate_id ≡ id) × (e.tenant_id ≡ tenant_id)

-- What is not yet saved runs on from the version that is, up to the aggregate's own version.
pub record IsStamped (saved : ℕ) (a : BaseAggregateRoot) : Type 0 where
  pub numbered : Numbered saved a.uncommitted_events
  pub current : a.version ≡ version_after saved a.uncommitted_events
  pub own : All (IsOwn a.id a.tenant_id) a.uncommitted_events

-- A call of an aggregate leaves its root alone or raises one event on it.
pub data Raises (a b : BaseAggregateRoot) : Type 0 where
  quiet : b ≡ a → Raises a b
  raised :
      (env : Env) (i : ℕ) (event_type aggregate_type : String) (payload : Payload)
      → b ≡ raise_event env i event_type aggregate_type payload a
      → Raises a b

Numbered-append :
    (v : ℕ) (es : List DomainEvent) (e : DomainEvent)
    → Numbered v es
    → e.version ≡ next (version_after v es)
    → Numbered v (es ++ e ∷ [])
Numbered-append v [] e n h = (h, tt)
Numbered-append v (x ∷ es) e n h = (n.0, Numbered-append (next v) es e n.1 h)

version_after-append :
    (v : ℕ) (es : List DomainEvent) (e : DomainEvent)
    → version_after v (es ++ e ∷ []) ≡ next (version_after v es)
version_after-append v [] e = refl
version_after-append v (x ∷ es) e = version_after-append (next v) es e

raise_event-IsStamped :
    (saved : ℕ) (env : Env) (i : ℕ) (t k : String) (p : Payload) (a : BaseAggregateRoot)
    → IsStamped saved a
    → IsStamped saved (raise_event env i t k p a)
unfolding raise_event
raise_event-IsStamped saved env i t k p a s = record {
  numbered = Numbered-append saved a.uncommitted_events _ s.numbered (ap next s.current);
  current = ap next s.current ∙ sym (version_after-append saved a.uncommitted_events _);
  own = All-append _ a.uncommitted_events _ s.own ((refl, refl), tt);
}

pub Raises-IsStamped :
    (saved : ℕ) (a b : BaseAggregateRoot) → Raises a b → IsStamped saved a → IsStamped saved b
Raises-IsStamped saved a b (quiet e) s = rw e s
Raises-IsStamped saved a b (raised env i t k p e) s =
    rw e (raise_event-IsStamped saved env i t k p a s)

pub Raises-id : (a b : BaseAggregateRoot) → Raises a b → b.id ≡ a.id
unfolding raise_event
Raises-id a b (quiet e) = rw e
Raises-id a b (raised env i t k p e) = rw e

-- An aggregate with nothing to save is stamped at its own version.
pub clean-IsStamped :
    (saved : ℕ) (a : BaseAggregateRoot)
    → a.uncommitted_events ≡ []
    → a.version ≡ saved
    → IsStamped saved a
clean-IsStamped saved a none_new v = record {
  numbered = subst (Numbered saved) (sym none_new) tt;
  current = v ∙ ap (version_after saved) (sym none_new);
  own = subst (All (IsOwn a.id a.tenant_id)) (sym none_new) tt;
}
