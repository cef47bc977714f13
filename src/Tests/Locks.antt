-- ===== src/Tests/Locks.antt =====
-- Locks, conflicts and checks of one aggregate (pkg/repository/optimistic_concurrency.go).
use pyairtable_go_services.Prelude.{
  ◌≡◌, refl, true, List, [], lookup, insert, ◌-ℤ◌, ◌∷◌, none, some, pos, arith,
}
use pyairtable_go_services.OptimisticConcurrency.{
  retry_on_conflict, Candidate, resolve_conflict, ConcurrencyControlManager,
  new_concurrency_control_manager, register_aggregate_version, check_optimistic_concurrency,
  already_locked, acquire_optimistic_lock,
}
use pyairtable_go_services.OptimisticConcurrency.Exclusion.{
  Call, acquire, release, cleanup, check, obey_all, lock_excludes,
}
use pyairtable_go_services.OptimisticConcurrency.Retries.{
  after_conflicts, answer_after, retries_end,
}
use pyairtable_go_services.OptimisticConcurrency.Checks.{
  Sound, valid_check-Sound, first_check_is_blind,
}
use pyairtable_go_services.Tests.Store.{rows}

-- The store holds version 2 of it.
abbrev user : Candidate
user = record { id = "u1"; type_name = "UserAggregate"; version = pos 4; pending = 2 }

abbrev other_user : Candidate
other_user = record user { id = "u2" }

abbrev stale_user : Candidate
stale_user = record user { pending = 1 }

abbrev fresh : ConcurrencyControlManager
fresh = new_concurrency_control_manager (some (retry_on_conflict (pos 1) []))

abbrev known : ConcurrencyControlManager
known = register_aggregate_version "u1" (pos 2) fresh

abbrev calls : List Call
calls =
    acquire 3 "u1" (pos 2) 9
    ∷ acquire 3 "u2" (pos 2) 9
    ∷ release "u2"
    ∷ cleanup 4
    ∷ check none rows user
    ∷ []

lock_excludes_example :
    (acquire_optimistic_lock 8 "u1"
      (pos 2)
      5
      (obey_all calls (acquire_optimistic_lock 1 "u1" (pos 2) 10 known).0)).1
    ≡ some already_locked
unfolding acquire_optimistic_lock lookup insert
lock_excludes_example =
    lock_excludes 1 10 "u1" (pos 2) known calls 8 5 (pos 2) refl
      (omega arith, (omega arith, (refl, (omega arith, (tt, tt))))) (omega arith)

retries_end_example :
    (resolve_conflict user
      (after_conflicts (user ∷ other_user ∷ []) (retry_on_conflict (pos 1) []))).0
    ≡ answer_after 1 1
unfolding lookup
retries_end_example =
    retries_end 1 (user ∷ other_user ∷ []) user [] (omega arith) refl (omega arith)

valid_check-Sound_example : Sound user (pos 2) (check_optimistic_concurrency none rows user known).0
unfolding check_optimistic_concurrency lookup insert ◌-ℤ◌
valid_check-Sound_example = valid_check-Sound none rows user known (pos 2) refl refl

first_check_is_blind_example :
    ((check_optimistic_concurrency none rows stale_user fresh).0.is_valid ≡ true)
    × ((check_optimistic_concurrency none rows stale_user
          (check_optimistic_concurrency none rows stale_user fresh).1).0.conflict_detected
        ≡ true)
unfolding check_optimistic_concurrency lookup insert ◌-ℤ◌
first_check_is_blind_example = first_check_is_blind rows stale_user fresh refl refl
