-- ===== src/Tests/Breaker.antt =====
-- A breaker that trips, refuses, probes and closes (pkg/circuitbreaker).
use pyairtable_go_services.Prelude.{
  ◌≤◌, ◌+◌, ◌*◌, ℕ, ◌≡◌, ◌≢◌, refl, inl, true, false, List, All, [], ◌∷◌, some, arith,
}
use pyairtable_go_services.CircuitBreaker.{
  closed, half_open, opened, CircuitBreaker, Config, zero_counts, err_open_state, before_request,
  after_request, Attempt, returns, panics, new_circuit_breaker,
}
use pyairtable_go_services.CircuitBreaker.Counting.{count}
use pyairtable_go_services.CircuitBreaker.Invariant.{Inv}
use pyairtable_go_services.CircuitBreaker.Traffic.{
  Traffic, Calls, here, next, admitted, finished, start, Calls-Inv, probes_in_flight,
}
use pyairtable_go_services.CircuitBreaker.Requests.{trip_rejects}
use pyairtable_go_services.CircuitBreaker.Recovery.{run, successes, recovers}
use pyairtable_go_services.CircuitBreaker.Stuck.{is_refused, outcomes, half_open_stuck}

abbrev config : Config
config = record { max_requests = 2; interval = 0; timeout = 10; ready_to_trip = λ c. true }

abbrev tripped : CircuitBreaker
tripped = record {
  config = config;
  state = opened;
  generation = 2;
  counts = zero_counts;
  expiry = 15;
  changes = [];
}

abbrev calm : CircuitBreaker
calm = record tripped { state = closed; expiry = 0 }

abbrev probing : CircuitBreaker
probing = record tripped { state = half_open; expiry = 0 }

trip_rejects_example :
    let cb' = after_request 2 false 20 calm in
    (cb'.state ≡ opened) × (before_request 25 cb' ≡ (cb', some err_open_state))
trip_rejects_example = trip_rejects calm 20 25 refl (inl refl) refl (omega arith)

abbrev stuck : CircuitBreaker
stuck = record tripped { config = record config { max_requests = 0 } }

abbrev attempts : List (ℕ × ℕ × Attempt)
attempts = (10, 11, returns true) ∷ (20, 21, returns true) ∷ (90, 91, panics) ∷ []

half_open_stuck_example :
    All (λ error. is_refused error ≡ true) (outcomes attempts stuck)
    × ((run attempts stuck).state ≢ closed)
half_open_stuck_example = half_open_stuck stuck attempts refl refl

recovers_example : (run (successes ((20, 21) ∷ (22, 23) ∷ [])) tripped).state ≡ closed
recovers_example = recovers tripped 20 21 ((22, 23) ∷ []) refl (omega arith) refl (omega arith)

-- A request that fails opens the breaker, and after the timeout a probe is let through.
abbrev requested : Traffic
requested = record { breaker = (before_request 6 (start config 5).breaker).0; flying = 1 ∷ [] }

abbrev failed : Traffic
failed = record { breaker = after_request 1 false 7 requested.breaker; flying = [] }

abbrev probed : Traffic
probed = record { breaker = (before_request 20 failed.breaker).0; flying = 3 ∷ [] }

calls : Calls (start config 5) 3 probed
unfolding before_request after_request new_circuit_breaker
calls =
    next (next (next here (admitted 6 refl refl refl)) (finished 7 1 false [] [] refl refl refl))
      (admitted 20 refl refl refl)

probed_half_open : probed.breaker.state ≡ half_open
unfolding before_request after_request new_circuit_breaker
probed_half_open = refl

Calls-Inv_example : Inv (2 * 3 + 1) 3 probed.breaker probed.flying
Calls-Inv_example = Calls-Inv config 5 3 probed (omega arith) calls

probes_in_flight_example :
    count probed.breaker.generation probed.flying ≤ probed.breaker.config.max_requests
probes_in_flight_example = probes_in_flight config 5 3 probed (omega arith) calls probed_half_open
