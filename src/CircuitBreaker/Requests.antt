-- ===== src/CircuitBreaker/Requests.antt =====
-- What a single request meets (pkg/circuitbreaker): tripping and probing.
use pyairtable_go_services.Prelude.{ℕ, ◌+◌, ◌≤◌, ◌≡◌, true, false, some, arith, ◌⊎◌}
use pyairtable_go_services.CircuitBreaker.{
  closed, half_open, opened, CircuitBreaker, err_open_state, on_failure_counts, before_request,
  after_request,
}

-- A failure of the running generation that, counted in, makes readyToTrip true opens a closed
-- breaker whose interval is not over, and it then refuses every request until the timeout is over.
pub trip_rejects :
    (cb : CircuitBreaker) (now later : ℕ)
    → cb.state ≡ closed
    → (cb.expiry ≡ 0) ⊎ (now ≤ cb.expiry)
    → cb.config.ready_to_trip (on_failure_counts cb.counts) ≡ true
    → later ≤ now + cb.config.timeout
    → let cb' = after_request cb.generation false now cb in
      (cb'.state ≡ opened) × (before_request later cb' ≡ (cb', some err_open_state))
unfolding after_request before_request
trip_rejects cb now later c steady trips early = ground arith

-- One failed probe opens a half-open breaker again, for a full timeout.
probe_failure :
    (cb : CircuitBreaker) (now later : ℕ)
    → cb.state ≡ half_open
    → later ≤ now + cb.config.timeout
    → let cb' = after_request cb.generation false now cb in
      (cb'.state ≡ opened) × (before_request later cb' ≡ (cb', some err_open_state))
unfolding after_request before_request
probe_failure cb now later h early = ground arith
