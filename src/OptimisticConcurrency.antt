-- ===== src/OptimisticConcurrency.antt =====
-- pkg/repository/optimistic_concurrency.go: the versions that a process has seen, its locks, and the
-- resolvers of conflicts. A time is in nanoseconds; the metrics of durations and logging are left out.
pub mod Exclusion
pub mod Retries
pub mod Checks
use pyairtable_go_services.Prelude.{
  ℕ, ◌+◌, String, Bool, true, false, not, List, [], ◌∷◌, Option, none, some, ℤ, pos, ◌+ℤ◌, ◌-ℤ◌,
  eqb_ℤ, ltb_ℤ, wrap64, Dict, lookup, insert, erase, str_eq, ltb, if◌then◌else◌,
}
use pyairtable_go_services.EventStore.{Table, current_version}

pub data ResolveAction : Type 0 where
  retry abort merge overwrite : ResolveAction

-- The resolvers. The smart one has a resolver for each type name, and maybe a fallback.
mutual
  pub data ConflictResolver : Type 0 where
    abort_on_conflict : ConflictResolver
    retry_on_conflict : ℤ → Dict ℤ → ConflictResolver
    overwrite_on_conflict : Dict Bool → ConflictResolver
    smart : Strategies → ConflictResolver
    smart_or : Strategies → ConflictResolver → ConflictResolver

  pub data Strategies : Type 0 where
    no_strategy : Strategies
    strategy : String → ConflictResolver → Strategies → Strategies

-- The aggregate, as the checks read it; `pending` counts its uncommitted events.
pub record Candidate : Type 0 where
  pub id : String
  pub type_name : String
  pub version : ℤ
  pub pending : ℕ

pub data ResolveError : Type 0 where
  max_retries_exceeded overwrite_not_allowed : ResolveError

abbrev pub Resolution : Type 0
Resolution = ResolveAction × Option ResolveError

-- A key that is missing counts 0 retries.
abbrev pub or_zero : Option ℤ → ℤ
or_zero none = pos 0
or_zero (some n) = n

abbrev pub retries_of : String → Dict ℤ → ℤ
retries_of id counts = or_zero (lookup id counts)

abbrev pub resolve_by_retry : String → ℤ → Dict ℤ → Resolution × ConflictResolver
resolve_by_retry id max_retries counts =
    if not (ltb_ℤ (retries_of id counts) max_retries)
    then ((abort, some max_retries_exceeded), retry_on_conflict max_retries (erase id counts))
    else (
      (retry, none),
      retry_on_conflict max_retries (insert id (retries_of id counts +ℤ pos 1) counts),
    )

abbrev pub is_allowed : String → Dict Bool → Bool
is_allowed type_name allowed = elim (lookup type_name allowed) [ none ↦ false | some b ↦ b ]

unfoldable mutual
  pub resolve_conflict : Candidate → ConflictResolver → Resolution × ConflictResolver
  resolve_conflict c abort_on_conflict = ((abort, none), abort_on_conflict)
  resolve_conflict c (retry_on_conflict max_retries counts) =
      resolve_by_retry c.id max_retries counts
  resolve_conflict c (overwrite_on_conflict allowed) =
      if is_allowed c.type_name allowed
      then ((overwrite, none), overwrite_on_conflict allowed)
      else ((abort, some overwrite_not_allowed), overwrite_on_conflict allowed)
  resolve_conflict c (smart strategies) = elim (resolve_with c strategies) [
    | none ↦ ((abort, none), smart strategies)
    | some (resolution, strategies') ↦ (resolution, smart strategies')
  ]
  resolve_conflict c (smart_or strategies fallback) =
      let (resolution, fallback') = resolve_conflict c fallback in
      elim (resolve_with c strategies) [
        | none ↦ (resolution, smart_or strategies fallback')
        | some (found, strategies') ↦ (found, smart_or strategies' fallback)
      ]

  -- The strategy for the type of the aggregate, if one is registered.
  pub resolve_with : Candidate → Strategies → Option (Resolution × Strategies)
  resolve_with c no_strategy = none
  resolve_with c (strategy type_name resolver strategies) =
      let (resolution, resolver') = resolve_conflict c resolver in
      if str_eq type_name c.type_name
      then some (resolution, strategy type_name resolver' strategies)
      else elim (resolve_with c strategies) [
        | none ↦ none
        | some (found, strategies') ↦ some (found, strategy type_name resolver strategies')
      ]

-- ResetRetryCount
abbrev pub reset_retry_count : String → ConflictResolver → ConflictResolver
reset_retry_count id (retry_on_conflict max_retries counts) =
    retry_on_conflict max_retries (erase id counts)
reset_retry_count id other = other

pub record ConcurrencyMetrics : Type 0 where
  pub total_checks : ℤ
  pub conflicts_detected : ℤ
  pub conflicts_resolved : ℤ
  pub lock_timeouts : ℤ
  pub successful_locks : ℤ

pub record ConcurrencyControlManager : Type 0 where
  pub version_cache : Dict ℤ
  pub expected_versions : Dict ℤ
  pub locks : Dict ℕ
  pub conflict_resolver : Option ConflictResolver
  pub metrics : ConcurrencyMetrics

abbrev pub new_concurrency_control_manager : Option ConflictResolver → ConcurrencyControlManager
new_concurrency_control_manager resolver = record {
  version_cache = [];
  expected_versions = [];
  locks = [];
  conflict_resolver = resolver;
  metrics = record {
    total_checks = pos 0;
    conflicts_detected = pos 0;
    conflicts_resolved = pos 0;
    lock_timeouts = pos 0;
    successful_locks = pos 0;
  };
}

-- RegisterAggregateVersion, and UpdateVersionAfterSave, which does the same.
abbrev pub register_aggregate_version :
    String → ℤ → ConcurrencyControlManager → ConcurrencyControlManager
register_aggregate_version id version m = record m {
  version_cache = insert id version m.version_cache;
  expected_versions = insert id version m.expected_versions;
}

abbrev pub update_version_after_save :
    String → ℤ → ConcurrencyControlManager → ConcurrencyControlManager
update_version_after_save id version m = record m {
  version_cache = insert id version m.version_cache;
  expected_versions = insert id version m.expected_versions;
}

pub data CheckError : Type 0 where
  query_failed conflict aborted merge_not_implemented : CheckError
  not_resolved : ResolveError → CheckError

pub record VersionCheckResult : Type 0 where
  pub is_valid : Bool
  pub expected_version : ℤ
  pub actual_version : ℤ
  pub conflict_detected : Bool
  pub resolve_action : Option ResolveAction
  pub error : Option CheckError

abbrev pub plus_check : ConcurrencyMetrics → ConcurrencyMetrics
plus_check x = record x { total_checks = x.total_checks +ℤ pos 1 }

abbrev pub plus_detected : ConcurrencyMetrics → ConcurrencyMetrics
plus_detected x = record x { conflicts_detected = x.conflicts_detected +ℤ pos 1 }

abbrev pub plus_resolved : ConcurrencyMetrics → ConcurrencyMetrics
plus_resolved x = record x { conflicts_resolved = x.conflicts_resolved +ℤ pos 1 }

abbrev pub with_metrics :
    (ConcurrencyMetrics → ConcurrencyMetrics)
    → ConcurrencyControlManager
    → ConcurrencyControlManager
with_metrics f m = record m { metrics = f m.metrics }

abbrev pub conflicting :
    ℤ → ℤ → Bool → Option ResolveAction → Option CheckError → VersionCheckResult
conflicting expected actual valid action error = record {
  is_valid = valid;
  expected_version = expected;
  actual_version = actual;
  conflict_detected = true;
  resolve_action = action;
  error = error;
}

-- What the action of the resolver makes of the result and of the metrics; an error of the resolver
-- returns before the cache is updated.
abbrev pub apply_resolution :
    String
    → ℤ
    → ℤ
    → Resolution
    → ConcurrencyControlManager
    → VersionCheckResult × ConcurrencyControlManager
apply_resolution id expected actual (action, some e) m =
    (conflicting expected actual false none (some (not_resolved e)), m)
apply_resolution id expected actual (retry, none) m = (
  conflicting expected actual false (some retry) none,
  record (with_metrics plus_resolved m) { version_cache = insert id actual m.version_cache },
)
apply_resolution id expected actual (overwrite, none) m = (
  conflicting actual actual true (some overwrite) none,
  record (with_metrics plus_resolved m) { version_cache = insert id actual m.version_cache },
)
apply_resolution id expected actual (abort, none) m = (
  conflicting expected actual false (some abort) (some aborted),
  record m { version_cache = insert id actual m.version_cache },
)
apply_resolution id expected actual (merge, none) m = (
  conflicting expected actual false (some merge) (some merge_not_implemented),
  record m { version_cache = insert id actual m.version_cache },
)

unfoldable pub handle_conflict :
    Candidate
    → ℤ
    → ℤ
    → Option ConflictResolver
    → ConcurrencyControlManager
    → VersionCheckResult × ConcurrencyControlManager
unfolding resolve_conflict
handle_conflict c expected actual none m = (
  conflicting expected actual false none (some conflict),
  record m { version_cache = insert c.id actual m.version_cache },
)
handle_conflict c expected actual (some resolver) m =
    let (resolution, resolver') = resolve_conflict c resolver in
    apply_resolution c.id expected actual resolution
      (record m { conflict_resolver = some resolver' })

abbrev pub valid_result : ℤ → ℤ → VersionCheckResult
valid_result expected actual = record {
  is_valid = true;
  expected_version = expected;
  actual_version = actual;
  conflict_detected = false;
  resolve_action = none;
  error = none;
}

abbrev pub failed_query : VersionCheckResult
failed_query = record {
  is_valid = false;
  expected_version = pos 0;
  actual_version = pos 0;
  conflict_detected = false;
  resolve_action = none;
  error = some query_failed;
}

abbrev pub expected_db_version : Candidate → ℤ
expected_db_version c = c.version -ℤ pos c.pending

-- The comparison with the version in the database.
unfoldable pub compare_versions :
    Candidate → ℤ → ConcurrencyControlManager → VersionCheckResult × ConcurrencyControlManager
unfolding handle_conflict
compare_versions c actual m =
    if not (eqb_ℤ actual (expected_db_version c))
    then handle_conflict c (expected_db_version c) actual m.conflict_resolver
        (with_metrics plus_detected m)
    else (
      valid_result (expected_db_version c) actual,
      record m { version_cache = insert c.id actual m.version_cache },
    )

-- getDatabaseVersion: the int64 of the bit pattern.
abbrev pub database_version : String → Table → ℤ
database_version id rows = wrap64 (pos (current_version id rows))

-- The check of an aggregate with or without an expected version: the first one is registered.
unfoldable pub check_expected :
    Option ℤ
    → Option String
    → Table
    → Candidate
    → ConcurrencyControlManager
    → VersionCheckResult × ConcurrencyControlManager
unfolding compare_versions current_version
check_expected none query_error rows c m =
    (valid_result c.version c.version, register_aggregate_version c.id c.version m)
check_expected (some expected) (some error) rows c m = (failed_query, m)
check_expected (some expected) none rows c m = compare_versions c (database_version c.id rows) m

-- CheckOptimisticConcurrency: `query_error` is what the database answers to getDatabaseVersion.
unfoldable pub check_optimistic_concurrency :
    Option String
    → Table
    → Candidate
    → ConcurrencyControlManager
    → VersionCheckResult × ConcurrencyControlManager
unfolding check_expected
check_optimistic_concurrency query_error rows c m =
    check_expected (lookup c.id m.expected_versions) query_error rows c (with_metrics plus_check m)

pub data LockError : Type 0 where
  already_locked version_mismatch : LockError

-- A lock is held until its expiry.
abbrev pub is_held : ℕ → Option ℕ → Bool
is_held now none = false
is_held now (some expiry) = ltb now expiry

abbrev pub differs : ℤ → Option ℤ → Bool
differs version none = false
differs version (some cached) = not (eqb_ℤ cached version)

abbrev pub plus_timeout : ConcurrencyMetrics → ConcurrencyMetrics
plus_timeout x = record x { lock_timeouts = x.lock_timeouts +ℤ pos 1 }

abbrev pub plus_lock : ConcurrencyMetrics → ConcurrencyMetrics
plus_lock x = record x { successful_locks = x.successful_locks +ℤ pos 1 }

unfoldable pub acquire_optimistic_lock :
    ℕ → String → ℤ → ℕ → ConcurrencyControlManager → ConcurrencyControlManager × Option LockError
acquire_optimistic_lock now id expected duration m =
    if is_held now (lookup id m.locks)
    then (with_metrics plus_timeout m, some already_locked)
    else if differs expected (lookup id m.version_cache)
    then (m, some version_mismatch)
    else (record (with_metrics plus_lock m) { locks = insert id (now + duration) m.locks }, none)

abbrev pub release_optimistic_lock : String → ConcurrencyControlManager → ConcurrencyControlManager
release_optimistic_lock id m = record m { locks = erase id m.locks }

unfoldable pub live_locks : ℕ → Dict ℕ → Dict ℕ
live_locks now [] = []
live_locks now (l ∷ locks) =
    let rest = live_locks now locks in if ltb l.1 now then rest else l ∷ rest

unfoldable pub cleanup_expired_locks : ℕ → ConcurrencyControlManager → ConcurrencyControlManager
unfolding live_locks
cleanup_expired_locks now m = record m { locks = live_locks now m.locks }
