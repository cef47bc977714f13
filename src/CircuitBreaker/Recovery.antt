-- ===== src/CircuitBreaker/Recovery.antt =====
-- How a breaker closes again (pkg/circuitbreaker): after its timeout it closes with the max_requests-th
-- successful probe in a row.
use pyairtable_go_services.Prelude.{
  ℕ, suc, ◌+◌, ◌<◌, ◌≡◌, ap, ◌∙◌, true, List, [], ◌∷◌, arith, length,
}
use pyairtable_go_services.CircuitBreaker.{
  closed, half_open, opened, CircuitBreaker, execute, Attempt, returns,
}

-- Requests one after the other, each with its times; how many the breaker refused is not asked.
unfoldable pub run : List (ℕ × ℕ × Attempt) → CircuitBreaker → CircuitBreaker
run [] cb = cb
run ((start, finish, attempt) ∷ rs) cb = run rs (execute start finish attempt cb).0

-- Times of requests that all succeed
abbrev pub successes : List (ℕ × ℕ) → List (ℕ × ℕ × Attempt)
successes [] = []
successes ((start, finish) ∷ ts) = (start, finish, returns true) ∷ successes ts

-- A half-open breaker that k probes have passed, with none failed
abbrev Passed : ℕ → CircuitBreaker → Type 0
Passed k cb =
    (cb.state ≡ half_open) × (cb.counts.requests ≡ k) × (cb.counts.consecutive_successes ≡ k)

probe_passes :
    (k : ℕ) (start finish : ℕ) (cb : CircuitBreaker)
    → Passed k cb
    → suc k < cb.config.max_requests
    → cb.config.max_requests < 4294967296
    → let cb' = (execute start finish (returns true) cb).0 in
      Passed (suc k) cb' × (cb'.config ≡ cb.config)
unfolding execute
probe_passes k start finish cb p more small = ground arith

last_probe_closes :
    (k : ℕ) (start finish : ℕ) (cb : CircuitBreaker)
    → Passed k cb
    → suc k ≡ cb.config.max_requests
    → cb.config.max_requests < 4294967296
    → (execute start finish (returns true) cb).0.state ≡ closed
unfolding execute
last_probe_closes k start finish cb p last small = ground arith

first_probe :
    (start finish : ℕ) (cb : CircuitBreaker)
    → cb.state ≡ opened
    → cb.expiry < start
    → 1 < cb.config.max_requests
    → let cb' = (execute start finish (returns true) cb).0 in
      Passed 1 cb' × (cb'.config ≡ cb.config)
unfolding execute
first_probe start finish cb o late more = ground arith

only_probe :
    (start finish : ℕ) (cb : CircuitBreaker)
    → cb.state ≡ opened
    → cb.expiry < start
    → cb.config.max_requests ≡ 1
    → (execute start finish (returns true) cb).0.state ≡ closed
unfolding execute
only_probe start finish cb o late one = ground arith

probes_close :
    (k m : ℕ) (ts : List (ℕ × ℕ)) (cb : CircuitBreaker)
    → Passed k cb
    → cb.config.max_requests ≡ m
    → m < 4294967296
    → 0 < length ts
    → k + length ts ≡ m
    → (run (successes ts) cb).state ≡ closed
unfolding run
probes_close k m [] cb p e small some_left n = absurd (omega arith)
probes_close k m ((start, finish) ∷ []) cb p e small some_left n =
    last_probe_closes k start finish cb p (omega arith) (omega arith)
probes_close k m ((start, finish) ∷ t ∷ ts) cb p e small some_left n =
    let (p', same) = probe_passes k start finish cb p (omega arith) (omega arith) in
    probes_close (suc k) m (t ∷ ts) _ p' (ap (λ c. c.max_requests) same ∙ e) small (omega arith)
      (omega arith)

-- From an open breaker, whose timeout is over when the first of them starts, max_requests successful
-- requests in a row, whenever they run after that, end in a closed breaker.
pub recovers :
    (cb : CircuitBreaker) (start finish : ℕ) (ts : List (ℕ × ℕ))
    → cb.state ≡ opened
    → cb.expiry < start
    → suc (length ts) ≡ cb.config.max_requests
    → cb.config.max_requests < 4294967296
    → (run (successes ((start, finish) ∷ ts)) cb).state ≡ closed
unfolding run
recovers cb start finish [] o late n small = only_probe start finish cb o late (omega arith)
recovers cb start finish (t ∷ ts) o late n small =
    let (p, same) = first_probe start finish cb o late (omega arith) in
    probes_close 1 cb.config.max_requests (t ∷ ts) _ p (ap (λ c. c.max_requests) same) small
      (omega arith) (omega arith)
