-- ===== src/OptimisticConcurrency/Checks.antt =====
-- What a check of the version shows (pkg/repository/optimistic_concurrency.go).
use text.Mathlib.TextEquality.{eq_iff}
use pyairtable_go_services.Prelude.{
  ◌≡◌, ◌⊎◌, refl, inl, inr, String, true, false, Option, none, some, ℤ, lookup, lookup-insert,
  eqb_ℤ, arith, Bool-cases,
}
use pyairtable_go_services.EventStore.{Table}
use pyairtable_go_services.OptimisticConcurrency.{
  database_version, retry, abort, merge, overwrite, ConflictResolver, Candidate, Resolution,
  resolve_conflict, ConcurrencyControlManager, VersionCheckResult, plus_detected, plus_check,
  with_metrics, apply_resolution, handle_conflict, expected_db_version, compare_versions,
  check_expected, check_optimistic_concurrency,
}

-- A conflict that an overwrite resolves: the version to expect is the one in the database.
abbrev pub Overwritten : ℤ → VersionCheckResult → Type 0
Overwritten actual result =
    (result.conflict_detected ≡ true)
    × (result.resolve_action ≡ some overwrite)
    × (result.expected_version ≡ actual)

-- A result that lets the aggregate be saved: of versions that agree, or by an overwrite.
abbrev pub Sound : Candidate → ℤ → VersionCheckResult → Type 0
Sound c actual result =
    ((result.conflict_detected ≡ false) × (eqb_ℤ actual (expected_db_version c) ≡ true))
    ⊎ Overwritten actual result

apply_resolution-Overwritten :
    (id : String) (expected actual : ℤ) (r : Resolution) (m : ConcurrencyControlManager)
    → (apply_resolution id expected actual r m).0.is_valid ≡ true
    → Overwritten actual (apply_resolution id expected actual r m).0
apply_resolution-Overwritten id expected actual (action, some e) m valid = absurd (cc)
apply_resolution-Overwritten id expected actual (retry, none) m valid = absurd (cc)
apply_resolution-Overwritten id expected actual (overwrite, none) m valid = (refl, refl, refl)
apply_resolution-Overwritten id expected actual (abort, none) m valid = absurd (cc)
apply_resolution-Overwritten id expected actual (merge, none) m valid = absurd (cc)

handle_conflict-Overwritten :
    (c : Candidate) (expected actual : ℤ) (resolver : Option ConflictResolver)
    (m : ConcurrencyControlManager)
    → (handle_conflict c expected actual resolver m).0.is_valid ≡ true
    → Overwritten actual (handle_conflict c expected actual resolver m).0
unfolding handle_conflict
handle_conflict-Overwritten c expected actual none m valid = absurd (cc)
handle_conflict-Overwritten c expected actual (some resolver) m valid =
    apply_resolution-Overwritten c.id expected actual (resolve_conflict c resolver).0
      (record m { conflict_resolver = some (resolve_conflict c resolver).1 }) valid

compare_versions-Sound :
    (c : Candidate) (actual : ℤ) (m : ConcurrencyControlManager)
    → (compare_versions c actual m).0.is_valid ≡ true
    → Sound c actual (compare_versions c actual m).0
unfolding compare_versions
compare_versions-Sound c actual m = elim (Bool-cases (eqb_ℤ actual (expected_db_version c))) [
  | inl same ↦ rw same (λ valid. inl (refl, refl))
  | inr other ↦ rw other (λ valid. inr (
      handle_conflict-Overwritten c (expected_db_version c) actual m.conflict_resolver
        (with_metrics plus_detected m) valid))
]

known_Sound :
    (known : Option ℤ) (expected : ℤ) (error : Option String) (rows : Table) (c : Candidate)
    (m : ConcurrencyControlManager)
    → known ≡ some expected
    → (check_expected known error rows c m).0.is_valid ≡ true
    → Sound c (database_version c.id rows) (check_expected known error rows c m).0
unfolding check_expected
known_Sound none expected error rows c m e valid = absurd (cc)
known_Sound (some version) expected (some failure) rows c m e valid = absurd (cc)
known_Sound (some version) expected none rows c m e valid =
    compare_versions-Sound c (database_version c.id rows) m valid

-- A check that is valid, of an aggregate that the manager knows, found in the database the version that
-- the aggregate had before its pending events; or it met a conflict, the resolver chose to overwrite,
-- and the version to expect is the one in the database. No other resolver's answer, and no error of the
-- query, makes a check valid.
pub valid_check-Sound :
    (error : Option String) (rows : Table) (c : Candidate) (m : ConcurrencyControlManager)
    (expected : ℤ)
    → lookup c.id m.expected_versions ≡ some expected
    → (check_optimistic_concurrency error rows c m).0.is_valid ≡ true
    → Sound c (database_version c.id rows) (check_optimistic_concurrency error rows c m).0
unfolding check_optimistic_concurrency
valid_check-Sound error rows c m expected known =
    known_Sound (lookup c.id m.expected_versions) expected error rows c (with_metrics plus_check m)
      known

apply_resolution-conflict_detected :
    (id : String) (expected actual : ℤ) (r : Resolution) (m : ConcurrencyControlManager)
    → (apply_resolution id expected actual r m).0.conflict_detected ≡ true
apply_resolution-conflict_detected id expected actual (action, some e) m = refl
apply_resolution-conflict_detected id expected actual (retry, none) m = refl
apply_resolution-conflict_detected id expected actual (overwrite, none) m = refl
apply_resolution-conflict_detected id expected actual (abort, none) m = refl
apply_resolution-conflict_detected id expected actual (merge, none) m = refl

handle_conflict-conflict_detected :
    (c : Candidate) (expected actual : ℤ) (resolver : Option ConflictResolver)
    (m : ConcurrencyControlManager)
    → (handle_conflict c expected actual resolver m).0.conflict_detected ≡ true
unfolding handle_conflict
handle_conflict-conflict_detected c expected actual none m = refl
handle_conflict-conflict_detected c expected actual (some resolver) m =
    apply_resolution-conflict_detected c.id expected actual (resolve_conflict c resolver).0
      (record m { conflict_resolver = some (resolve_conflict c resolver).1 })

stale_conflicts :
    (known : Option ℤ) (version : ℤ) (rows : Table) (c : Candidate) (m : ConcurrencyControlManager)
    → known ≡ some version
    → eqb_ℤ (database_version c.id rows) (expected_db_version c) ≡ false
    → (check_expected known none rows c m).0.conflict_detected ≡ true
unfolding check_expected compare_versions
stale_conflicts none version rows c m e stale = absurd (cc)
stale_conflicts (some known) version rows c m e stale = rw stale (
    handle_conflict-conflict_detected c (expected_db_version c) (database_version c.id rows)
      m.conflict_resolver (with_metrics plus_detected m))

registered :
    (known : Option ℤ) (rows : Table) (c : Candidate) (m : ConcurrencyControlManager)
    → known ≡ none
    → ((check_expected known none rows c m).0.is_valid ≡ true)
      × (lookup c.id (check_expected known none rows c m).1.expected_versions ≡ some c.version)
unfolding check_expected
registered none rows c m e =
    (refl, ground (arith, lookup-insert c.id c.id c.version m.expected_versions, eq_iff c.id c.id))
registered (some version) rows c m e = absurd (cc)

-- An aggregate whose version, less its pending events, is not the one in the database passes the manager's
-- first check of it, which does not ask the database, and meets a conflict at a second check of the same
-- aggregate and rows.
pub first_check_is_blind :
    (rows : Table) (c : Candidate) (m : ConcurrencyControlManager)
    → lookup c.id m.expected_versions ≡ none
    → eqb_ℤ (database_version c.id rows) (expected_db_version c) ≡ false
    → let first = check_optimistic_concurrency none rows c m in
      (first.0.is_valid ≡ true)
      × ((check_optimistic_concurrency none rows c first.1).0.conflict_detected ≡ true)
unfolding check_optimistic_concurrency
first_check_is_blind rows c m unknown stale =
    let (valid, known) =
      registered (lookup c.id m.expected_versions) rows c (with_metrics plus_check m) unknown in
    (valid, stale_conflicts _ c.version rows c _ known stale)
