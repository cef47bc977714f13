-- ===== src/CircuitBreaker/Stuck.antt =====
-- A breaker whose MaxRequests is 0 (pkg/circuitbreaker), which NewCircuitBreaker takes as it is.
use pyairtable_go_services.Prelude.{
  ℕ, ◌≡◌, ◌≢◌, ◌⊎◌, inl, inr, Bool, true, false, List, [], ◌∷◌, Option, none, some, All, arith,
}
use pyairtable_go_services.CircuitBreaker.{
  State, closed, half_open, opened, CircuitBreaker, RequestError, execute, Attempt,
}
use pyairtable_go_services.CircuitBreaker.Recovery.{run}

abbrev pub is_refused : Option RequestError → Bool
is_refused none = false
is_refused (some error) = true

-- What each of the requests, one after the other, meets.
unfoldable pub outcomes : List (ℕ × ℕ × Attempt) → CircuitBreaker → List (Option RequestError)
outcomes [] cb = []
outcomes ((start, finish, attempt) ∷ rs) cb =
    let (cb', error) = execute start finish attempt cb in error ∷ outcomes rs cb'

abbrev Stuck : CircuitBreaker → Type 0
Stuck cb = ((cb.state ≡ opened) ⊎ (cb.state ≡ half_open)) × (cb.config.max_requests ≡ 0)

execute-Stuck :
    (start finish : ℕ) (attempt : Attempt) (cb : CircuitBreaker)
    → Stuck cb
    → let (cb', error) = execute start finish attempt cb in Stuck cb' × (is_refused error ≡ true)
unfolding execute
execute-Stuck start finish attempt cb (inl o, z) = ground (arith, o, z)
execute-Stuck start finish attempt cb (inr h, z) = ground (arith, h, z)

run-Stuck :
    (rs : List (ℕ × ℕ × Attempt)) (cb : CircuitBreaker)
    → Stuck cb
    → All (λ error. is_refused error ≡ true) (outcomes rs cb) × Stuck (run rs cb)
unfolding outcomes run
run-Stuck [] cb s = (tt, s)
run-Stuck ((start, finish, attempt) ∷ rs) cb s =
    let (s', refused) = execute-Stuck start finish attempt cb s in
    let (rest, end) = run-Stuck rs (execute start finish attempt cb).0 s' in ((refused, rest), end)

not_closed : (state : State) → (state ≡ opened) ⊎ (state ≡ half_open) → state ≢ closed
not_closed closed s = absurd (ground (arith, s))
not_closed half_open s = λ e. absurd (cc)
not_closed opened s = λ e. absurd (cc)

-- A breaker configured with max_requests 0 never lets a request through again once it has opened,
-- however long after its timeout: each of any requests that follow, one after the other, is refused,
-- and after them the breaker is not closed.
pub half_open_stuck :
    (cb : CircuitBreaker) (rs : List (ℕ × ℕ × Attempt))
    → cb.state ≡ opened
    → cb.config.max_requests ≡ 0
    → All (λ error. is_refused error ≡ true) (outcomes rs cb) × ((run rs cb).state ≢ closed)
half_open_stuck cb rs o none_allowed =
    let (refused, stuck) = run-Stuck rs cb (inl o, none_allowed) in
    (refused, not_closed (run rs cb).state stuck.0)
