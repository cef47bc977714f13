-- ===== src/EventStore/Order.antt =====
-- The order in which GetEvents hands events back (pkg/eventstore).
use pyairtable_go_services.Prelude.{
  ℕ, ◌+◌, ◌<◌, ◌≤◌, String, ◌≡◌, refl, sym, ap, ◌∙◌, subst, true, ◌&&◌, List, [], ◌∷◌, ◌++◌, map,
  none, All, length, Option, some, false, eq_iff, str_eq, arith, Bool-cases, inl, inr,
  if◌then◌else◌,
}
use pyairtable_go_services.Domain.Shared.Error.{ok}
use pyairtable_go_services.Domain.Shared.Types.{int64_room, rank, ltb_int64, next}
use pyairtable_go_services.Domain.Shared.Event.{DomainEvent}
use pyairtable_go_services.Domain.Shared.Stamps.{Numbered, IsOwn}
use pyairtable_go_services.Domain.Shared.History.{last_version}
use pyairtable_go_services.EventStore.{
  Table, Row, Db, is_of, new_row, larger, max_version, or_zero, current_version, save_events,
  select, order_by_version, get_events,
}
use pyairtable_go_services.EventStore.Unique.{save_events_success}

-- The versions rise from above v, in the order of int64.
abbrev pub IsAscending : ℕ → List DomainEvent → Type 0
IsAscending v [] = Unit
IsAscending v (e ∷ es) = (rank v < rank e.version) × IsAscending e.version es

pub order_by_version-IsAscending :
    (v : ℕ) (es : List DomainEvent) → IsAscending v es → order_by_version es ≡ es
unfolding order_by_version
order_by_version-IsAscending v [] h = refl
order_by_version-IsAscending v (e ∷ []) h = refl
order_by_version-IsAscending v (e ∷ x ∷ es) h =
    rw (order_by_version-IsAscending e.version (x ∷ es) h.1) (ground arith)

IsAscending-append :
    (v m : ℕ) (xs ys : List DomainEvent)
    → IsAscending v xs
    → All (λ e. rank e.version ≤ rank m) xs
    → rank v ≤ rank m
    → IsAscending m ys
    → IsAscending v (xs ++ ys)
IsAscending-append v m [] [] a b l h = tt
IsAscending-append v m [] (y ∷ ys) a b l h = (omega arith, h.1)
IsAscending-append v m (x ∷ xs) ys a b l h =
    (a.0, IsAscending-append x.version m xs ys a.1 b.1 b.0 h)

-- Consecutive versions rise as long as the 64-bit counter does not wrap.
Numbered-IsAscending :
    (v : ℕ) (es : List DomainEvent) → Numbered v es → v + length es < int64_room → IsAscending v es
unfolding next
Numbered-IsAscending v [] n h = tt
Numbered-IsAscending v (e ∷ es) n h = (
  omega (arith, n.0),
  Numbered-IsAscending e.version es (subst (λ k. Numbered k es) (sym n.0) n.1) (omega (arith, n.0)),
)

All-mono :
    (m k : ℕ) (es : List DomainEvent)
    → rank m ≤ rank k
    → All (λ e. rank e.version ≤ rank m) es
    → All (λ e. rank e.version ≤ rank k) es
All-mono m k [] h a = tt
All-mono m k (e ∷ es) h a = (omega arith, All-mono m k es h a.1)

select-none : (id : String) (rows : Table) → max_version id rows ≡ none → select id 0 rows ≡ []
unfolding max_version select
select-none id [] h = refl
select-none id (r ∷ rows) h = ground (arith, select-none id rows)

larger-ge : (v : ℕ) (m : Option ℕ) → rank v ≤ rank (larger v m)
larger-ge v none = omega arith
larger-ge v (some w) = ground arith

bounded_step :
    (id : String) (r : Row) (rows : Table) (m : Option ℕ)
    → max_version id rows ≡ m
    → All (λ e. rank e.version ≤ rank (or_zero m)) (select id 0 rows)
    → All (λ e. rank e.version ≤ rank (larger r.event.version m)) (select id 0 rows)
bounded_step id r rows none h all = rw (select-none id rows h) tt
bounded_step id r rows (some w) h all =
    All-mono w (larger r.event.version (some w)) (select id 0 rows) (ground arith) all

select-le-current_version :
    (id : String) (rows : Table)
    → All (λ e. rank e.version ≤ rank (current_version id rows)) (select id 0 rows)
unfolding current_version select max_version
select-le-current_version id [] = tt
select-le-current_version id (r ∷ rows) =
    let rest = select-le-current_version id rows in
    let step = bounded_step id r rows (max_version id rows) refl rest in
    elim (Bool-cases (is_of id r)) [
      | inr other ↦ rw other rest
      | inl own ↦ elim (Bool-cases (ltb_int64 0 r.event.version)) [
        | inl hit ↦ rw (own, hit) (larger-ge r.event.version (max_version id rows), step)
        | inr miss ↦ rw (own, miss) step
      ]
    ]

select-append :
    (id : String) (v : ℕ) (xs ys : Table)
    → select id v (xs ++ ys) ≡ select id v xs ++ select id v ys
unfolding select
select-append id v [] ys = refl
select-append id v (r ∷ xs) ys = ground (arith, select-append id v xs ys)

select-new_row :
    (id tenant_id : String) (v : ℕ) (es : List DomainEvent)
    → int64_room ≤ rank v
    → All (IsOwn id tenant_id) es
    → IsAscending v es
    → select id 0 (map new_row es) ≡ es
unfolding select
select-new_row id tenant_id v [] n o a = refl
select-new_row id tenant_id v (e ∷ es) n o a =
    let own : str_eq e.aggregate_id id ≡ true = (eq_iff e.aggregate_id id).1 o.0.0 in
    let later : ltb_int64 0 e.version ≡ true = ground (arith, a.0, n) in
    rw (own, later, select-new_row id tenant_id e.version es (omega (arith, a.0)) o.1 a.1) refl

-- A save that succeeds, of events that run on from the version of the aggregate, is what a load
-- gives next: the events that were there, and then the new ones, in their order.
pub get_events-save_events :
    (db : Db) (id tenant_id : String) (e : DomainEvent) (es : List DomainEvent) (rows : Table)
    → IsAscending 0 (select id 0 rows)
    → Numbered (current_version id rows) (e ∷ es)
    → current_version id rows + length (e ∷ es) < int64_room
    → All (IsOwn id tenant_id) (e ∷ es)
    → let (rows', error) = save_events db rows id (e ∷ es) (current_version id rows) rows in
      error ≡ none
      → (get_events none id rows' ≡ ok (select id 0 rows ++ e ∷ es))
        × IsAscending 0 (select id 0 rows')
unfolding get_events
get_events-save_events db id tenant_id e es rows asc num room own done =
    let new = Numbered-IsAscending (current_version id rows) (e ∷ es) num room in
    let all =
      IsAscending-append 0 (current_version id rows) (select id 0 rows) (e ∷ es) asc
        (select-le-current_version id rows) (omega arith) new in
    let selected =
      ap (select id 0) (save_events_success db rows id e es (current_version id rows) rows done).1
      ∙ select-append id 0 rows (map new_row (e ∷ es))
      ∙ ap (λ xs. select id 0 rows ++ xs)
          (select-new_row id tenant_id (current_version id rows) (e ∷ es) (omega arith) own new) in
    rw selected (ap ok (order_by_version-IsAscending 0 _ all), all)

-- The version after the rows, where they rise from v and the maximum of their versions is m.
abbrev raised_to : ℕ → Option ℕ → ℕ
raised_to v none = v
raised_to v (some w) = if ltb_int64 v w then w else v

last_version-from :
    (id : String) (v : ℕ) (rows : Table)
    → int64_room ≤ rank v
    → IsAscending v (select id 0 rows)
    → last_version v (select id 0 rows) ≡ raised_to v (max_version id rows)
unfolding select max_version
last_version-from id v [] nonneg h = refl
last_version-from id v (r ∷ rows) nonneg h = elim (Bool-cases (is_of id r)) [
  | inl own ↦ elim (Bool-cases (ltb_int64 0 r.event.version)) [
    | inl hit ↦
        let h' : (rank v < rank r.event.version) × IsAscending r.event.version (select id 0 rows) =
          rw (own, hit, select) at h in
        let rest = last_version-from id r.event.version rows (ground (arith, hit)) h'.1 in
        rw (own, hit, rest) (up v r.event.version (max_version id rows) h'.0)
    | inr miss ↦
        let rest = last_version-from id v rows nonneg (rw (own, miss, select) at h) in
        rw (own, miss, rest) (down v r.event.version (max_version id rows) nonneg miss)
  ]
  | inr other ↦ rw (other, last_version-from id v rows nonneg (rw (other, select) at h)) refl
]
  where
    up :
        (v x : ℕ) (m : Option ℕ) → rank v < rank x → raised_to x m ≡ raised_to v (some (larger x m))
    up v x none h = ground arith
    up v x (some w) h = ground arith

    down :
        (v x : ℕ) (m : Option ℕ)
        → int64_room ≤ rank v
        → ltb_int64 0 x ≡ false
        → raised_to v m ≡ raised_to v (some (larger x m))
    down v x none h k = ground arith
    down v x (some w) h k = ground arith

-- The version of an aggregate whose rows rise is that of its last row, where it is not negative.
pub last_version-current_version :
    (id : String) (rows : Table)
    → IsAscending 0 (select id 0 rows)
    → current_version id rows < int64_room
    → last_version 0 (select id 0 rows) ≡ current_version id rows
unfolding current_version
last_version-current_version id rows h nonneg =
    last_version-from id 0 rows (omega arith) h ∙ from_zero (max_version id rows) nonneg
  where
    from_zero : (m : Option ℕ) → or_zero m < int64_room → raised_to 0 m ≡ or_zero m
    from_zero none h = refl
    from_zero (some w) h = ground arith

pub select-IsOf :
    (id : String) (v : ℕ) (rows : Table) → All (λ e. e.aggregate_id ≡ id) (select id v rows)
unfolding select
select-IsOf id v [] = tt
select-IsOf id v (r ∷ rows) = elim (Bool-cases (is_of id r && ltb_int64 v r.event.version)) [
  | inl hit ↦ rw hit (ground (arith, eq_iff r.event.aggregate_id id), select-IsOf id v rows)
  | inr miss ↦ rw miss (select-IsOf id v rows)
]
