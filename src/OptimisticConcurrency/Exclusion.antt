-- ===== src/OptimisticConcurrency/Exclusion.antt =====
-- Locks under any calls of the manager (pkg/repository/optimistic_concurrency.go).
use text.Mathlib.TextEquality.{eq_iff}
use pyairtable_go_services.Prelude.{
  ℕ, ◌+◌, ◌<◌, ◌≡◌, refl, ◌∙◌, ap, inl, inr, String, false, List, [], ◌∷◌, Option, none, some, ℤ,
  Dict, lookup, lookup-insert, lookup-erase, str_eq, eqb_ℤ, arith, Bool-cases,
}
use pyairtable_go_services.EventStore.{Table}
use pyairtable_go_services.OptimisticConcurrency.{
  database_version, retry, abort, merge, overwrite, ConflictResolver, Candidate, Resolution,
  resolve_conflict, ConcurrencyControlManager, register_aggregate_version,
  update_version_after_save, apply_resolution, handle_conflict, expected_db_version,
  compare_versions, check_expected, check_optimistic_concurrency, already_locked, is_held, differs,
  acquire_optimistic_lock, release_optimistic_lock, live_locks, cleanup_expired_locks,
}

-- The calls on a manager, with the time, the rows or the error that a call reads.
pub data Call : Type 0 where
  acquire : ℕ → String → ℤ → ℕ → Call
  release : String → Call
  cleanup : ℕ → Call
  register updated : String → ℤ → Call
  check : Option String → Table → Candidate → Call

abbrev pub obey : Call → ConcurrencyControlManager → ConcurrencyControlManager
obey (acquire now id expected duration) m = (acquire_optimistic_lock now id expected duration m).0
obey (release id) m = release_optimistic_lock id m
obey (cleanup now) m = cleanup_expired_locks now m
obey (register id version) m = register_aggregate_version id version m
obey (updated id version) m = update_version_after_save id version m
obey (check error rows c) m = (check_optimistic_concurrency error rows c m).1

abbrev pub obey_all : List Call → ConcurrencyControlManager → ConcurrencyControlManager
obey_all [] m = m
obey_all (call ∷ calls) m = obey_all calls (obey call m)

-- A call before a time that does not release a lock.
abbrev pub Keeps : String → ℕ → Call → Type 0
Keeps id expiry (acquire now other expected duration) = now < expiry
Keeps id expiry (release other) = str_eq other id ≡ false
Keeps id expiry (cleanup now) = now < expiry
Keeps id expiry call = Unit

abbrev pub AllKeep : String → ℕ → List Call → Type 0
AllKeep id expiry [] = Unit
AllKeep id expiry (call ∷ calls) = Keeps id expiry call × AllKeep id expiry calls

abbrev Held : String → ℕ → ConcurrencyControlManager → Type 0
Held id expiry m = lookup id m.locks ≡ some expiry

lookup-live_locks :
    (id : String) (now expiry : ℕ) (locks : Dict ℕ)
    → lookup id locks ≡ some expiry
    → now < expiry
    → lookup id (live_locks now locks) ≡ some expiry
unfolding lookup live_locks
lookup-live_locks id now expiry [] h before = absurd (cc)
lookup-live_locks id now expiry (l ∷ locks) h before =
    ground (arith, h, before, lookup-live_locks id now expiry locks)

apply_resolution-locks :
    (id : String) (expected actual : ℤ) (r : Resolution) (m : ConcurrencyControlManager)
    → (apply_resolution id expected actual r m).1.locks ≡ m.locks
apply_resolution-locks id expected actual (action, some e) m = refl
apply_resolution-locks id expected actual (retry, none) m = refl
apply_resolution-locks id expected actual (overwrite, none) m = refl
apply_resolution-locks id expected actual (abort, none) m = refl
apply_resolution-locks id expected actual (merge, none) m = refl

handle_conflict-locks :
    (c : Candidate) (expected actual : ℤ) (resolver : Option ConflictResolver)
    (m : ConcurrencyControlManager)
    → (handle_conflict c expected actual resolver m).1.locks ≡ m.locks
unfolding handle_conflict
handle_conflict-locks c expected actual none m = refl
handle_conflict-locks c expected actual (some resolver) m =
    apply_resolution-locks c.id expected actual (resolve_conflict c resolver).0
      (record m { conflict_resolver = some (resolve_conflict c resolver).1 })

compare_versions-locks :
    (c : Candidate) (actual : ℤ) (m : ConcurrencyControlManager)
    → (compare_versions c actual m).1.locks ≡ m.locks
unfolding compare_versions
compare_versions-locks c actual m = elim (Bool-cases (eqb_ℤ actual (expected_db_version c))) [
  | inl same ↦ rw same refl
  | inr other ↦ rw other (handle_conflict-locks c _ actual m.conflict_resolver _)
]

check_expected-locks :
    (known : Option ℤ) (error : Option String) (rows : Table) (c : Candidate)
    (m : ConcurrencyControlManager)
    → (check_expected known error rows c m).1.locks ≡ m.locks
unfolding check_expected
check_expected-locks none error rows c m = refl
check_expected-locks (some expected) (some e) rows c m = refl
check_expected-locks (some expected) none rows c m =
    compare_versions-locks c (database_version c.id rows) m

-- A lock that is held stays so: the same one is refused, another one is kept apart.
acquire-Held :
    (id other : String) (now expiry duration : ℕ) (expected : ℤ) (m : ConcurrencyControlManager)
    → Held id expiry m
    → now < expiry
    → Held id expiry (acquire_optimistic_lock now other expected duration m).0
unfolding acquire_optimistic_lock
acquire-Held id other now expiry duration expected m held before =
    elim (Bool-cases (is_held now (lookup other m.locks))) [
      | inl locked ↦ rw locked held
      | inr unlocked ↦ elim (Bool-cases (differs expected (lookup other m.version_cache))) [
        | inl mismatch ↦ rw (unlocked, mismatch) held
        | inr fine ↦
            rw (unlocked, fine)
              (elim (Bool-cases (str_eq other id)) [
                | inl same ↦ absurd (ground (arith, eq_iff other id, held, unlocked, same, before))
                | inr apart ↦ rw (lookup-insert other id (now + duration) m.locks, apart) held
              ])
      ]
    ]

obey-Held :
    (id : String) (expiry : ℕ) (call : Call) (m : ConcurrencyControlManager)
    → Keeps id expiry call
    → Held id expiry m
    → Held id expiry (obey call m)
unfolding cleanup_expired_locks check_optimistic_concurrency
obey-Held id expiry (acquire now other expected duration) m before held =
    acquire-Held id other now expiry duration expected m held before
obey-Held id expiry (release other) m apart held = rw (lookup-erase other id m.locks, apart) held
obey-Held id expiry (cleanup now) m before held =
    lookup-live_locks id now expiry m.locks held before
obey-Held id expiry (register other version) m keeps held = held
obey-Held id expiry (updated other version) m keeps held = held
obey-Held id expiry (check error rows c) m keeps held =
    ap (lookup id) (check_expected-locks (lookup c.id m.expected_versions) error rows c _) ∙ held

obey_all-Held :
    (id : String) (expiry : ℕ) (calls : List Call) (m : ConcurrencyControlManager)
    → AllKeep id expiry calls
    → Held id expiry m
    → Held id expiry (obey_all calls m)
obey_all-Held id expiry [] m keeps held = held
obey_all-Held id expiry (call ∷ calls) m keeps held =
    obey_all-Held id expiry calls (obey call m) keeps.1 (obey-Held id expiry call m keeps.0 held)

acquired-Held :
    (now duration : ℕ) (id : String) (expected : ℤ) (m : ConcurrencyControlManager)
    → (acquire_optimistic_lock now id expected duration m).1 ≡ none
    → Held id (now + duration) (acquire_optimistic_lock now id expected duration m).0
unfolding acquire_optimistic_lock
acquired-Held now duration id expected m = elim (Bool-cases (is_held now (lookup id m.locks))) [
  | inl locked ↦ rw locked (λ h. absurd (cc))
  | inr unlocked ↦ elim (Bool-cases (differs expected (lookup id m.version_cache))) [
    | inl mismatch ↦ rw (unlocked, mismatch) (λ h. absurd (cc))
    | inr fine ↦
        rw (unlocked, fine)
          (λ h. ground (arith, lookup-insert id id (now + duration) m.locks, eq_iff id id))
  ]
]

Held-refuses :
    (later duration expiry : ℕ) (id : String) (expected : ℤ) (m : ConcurrencyControlManager)
    → Held id expiry m
    → later < expiry
    → (acquire_optimistic_lock later id expected duration m).1 ≡ some already_locked
unfolding acquire_optimistic_lock
Held-refuses later duration expiry id expected m held before = rw held (ground arith)

-- A lock excludes all others on its aggregate: once it is acquired for a duration, whatever calls of the
-- manager follow before its expiry, other than its release, a further attempt before the expiry is
-- refused, with the expected version it may have and for any duration.
pub lock_excludes :
    (now duration : ℕ) (id : String) (expected : ℤ) (m : ConcurrencyControlManager)
    (calls : List Call) (later duration' : ℕ) (expected' : ℤ)
    → (acquire_optimistic_lock now id expected duration m).1 ≡ none
    → AllKeep id (now + duration) calls
    → later < now + duration
    → (acquire_optimistic_lock later id expected' duration'
        (obey_all calls (acquire_optimistic_lock now id expected duration m).0)).1
      ≡ some already_locked
lock_excludes now duration id expected m calls later duration' expected' acquired keeps before =
    Held-refuses later duration' (now + duration) id expected' _
      (obey_all-Held id (now + duration) calls _ keeps
        (acquired-Held now duration id expected m acquired))
      before
