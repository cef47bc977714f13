-- ===== src/Domain/Shared/History.antt =====
-- The form that LoadFromHistory has in every aggregate of domain/: the root reads the events first,
-- and then a loop hands each of them to the handler of its type.
use pyairtable_go_services.Prelude.{
  ℕ, All, ◌≡◌, refl, sym, ap, ◌∙◌, List, [], ◌∷◌, ◌++◌, none, some, str_eq, eq_iff, inl, inr, arith,
  Bool-cases,
}
use pyairtable_go_services.Domain.Shared.Error.{Outcome, ok, fail, ◌>>=◌, >>=-eq-ok}
use pyairtable_go_services.Domain.Shared.Event.{DomainEvent}
use pyairtable_go_services.Domain.Shared.Aggregate.{BaseAggregateRoot, load_from_history}

base-append :
    (es : List DomainEvent) (e : DomainEvent) (a b : BaseAggregateRoot)
    → load_from_history a es ≡ (b, none)
    → e.aggregate_id ≡ b.id
    → load_from_history a (es ++ e ∷ []) ≡ (record b { version = e.version }, none)
unfolding load_from_history
base-append [] e a b h i = ground (arith, eq_iff e.aggregate_id a.id)
base-append (x ∷ es) e a b h i = elim (Bool-cases (str_eq x.aggregate_id a.id)) [
  | inl own ↦
      rw own
        (base-append es e (record a { version = x.version }) b (rw (own, load_from_history) at h) i)
  | inr foreign ↦ ground arith
]

-- The root keeps what it has not saved.
base_uncommitted :
    (es : List DomainEvent) (a : BaseAggregateRoot)
    → (load_from_history a es).0.uncommitted_events ≡ a.uncommitted_events
unfolding load_from_history
base_uncommitted [] a = refl
base_uncommitted (x ∷ es) a = ground (arith, base_uncommitted es (record a { version = x.version }))

-- The version of the last event, or v.
abbrev pub last_version : ℕ → List DomainEvent → ℕ
last_version v [] = v
last_version v (e ∷ es) = last_version e.version es

base_loaded :
    (es : List DomainEvent) (a b : BaseAggregateRoot)
    → load_from_history a es ≡ (b, none)
    → (b.id ≡ a.id) × (b.version ≡ last_version a.version es) × All (λ e. e.aggregate_id ≡ a.id) es
unfolding load_from_history
base_loaded [] a b h = (ground arith, ground arith, tt)
base_loaded (x ∷ es) a b h = elim (Bool-cases (str_eq x.aggregate_id a.id)) [
  | inl own ↦
      let (i, v, o) =
        base_loaded es (record a { version = x.version }) b (rw (own, load_from_history) at h) in
      (i, v, ((eq_iff x.aggregate_id a.id).0 own, o))
  | inr foreign ↦ ground arith
]

module _ {ℓ} {S : Type ℓ} (apply : DomainEvent → S → Outcome S) where
  -- `for _, event := range events { switch … }`
  unfoldable pub replay : List DomainEvent → S → Outcome S
  replay [] s = ok s
  replay (event ∷ events) s = apply event s >>= replay events

  unfoldable pub load_with :
      List DomainEvent → BaseAggregateRoot → S → Outcome (BaseAggregateRoot × S)
  unfolding replay load_from_history
  load_with events base s =
      let (base', error) = load_from_history base events in
      elim error [ some e ↦ fail e | none ↦ replay events s >>= λ s'. ok (base', s') ]

  replay-append :
      (es : List DomainEvent) (e : DomainEvent) (s t : S) {u : Outcome S}
      → replay es s ≡ ok t
      → apply e t ≡ u
      → replay (es ++ e ∷ []) s ≡ (u >>= replay [])
  unfolding replay
  replay-append [] e s t h k = ground arith
  replay-append (x ∷ es) e s t h k =
      let (s', p, r) = >>=-eq-ok (apply x s) (replay es) h in rw p (replay-append es e s' t r k)

  pub load_with-parts :
      (es : List DomainEvent) (a b : BaseAggregateRoot) (s t : S)
      → load_with es a s ≡ ok (b, t)
      → (load_from_history a es ≡ (b, none)) × (replay es s ≡ ok t)
  unfolding load_with
  load_with-parts es a b s t h = ground arith

  pub load_with-append :
      (es : List DomainEvent) (e : DomainEvent) (a b : BaseAggregateRoot) (s t u : S)
      → load_with es a s ≡ ok (b, t)
      → e.aggregate_id ≡ b.id
      → apply e t ≡ ok u
      → load_with (es ++ e ∷ []) a s ≡ ok (record b { version = e.version }, u)
  unfolding load_with
  load_with-append es e a b s t u h i k =
      let (p, q) = load_with-parts es a b s t h in
      ground (arith, base-append es e a b p i, replay-append es e s t q k)

  pub load_with_uncommitted :
      (es : List DomainEvent) (a b : BaseAggregateRoot) (s t : S)
      → load_with es a s ≡ ok (b, t)
      → b.uncommitted_events ≡ a.uncommitted_events
  load_with_uncommitted es a b s t h =
      let (p, _) = load_with-parts es a b s t h in
      sym (ap (λ r. r.0.uncommitted_events) p) ∙ base_uncommitted es a

  -- A load that succeeds has met only events of the aggregate, and ends at the last one's version.
  pub load_with_loaded :
      (es : List DomainEvent) (a b : BaseAggregateRoot) (s t : S)
      → load_with es a s ≡ ok (b, t)
      → (b.id ≡ a.id)
        × (b.version ≡ last_version a.version es)
        × All (λ e. e.aggregate_id ≡ a.id) es
  load_with_loaded es a b s t h = base_loaded es a b (load_with-parts es a b s t h).0
