-- ===== src/CircuitBreaker.antt =====
-- pkg/circuitbreaker/circuit_breaker.go. Time is an argument: a time is the nanoseconds since Go's
-- zero time, and a duration is not negative. What onStateChange is told is kept in a list, newest
-- first; logging is left out. A call holds the mutex, so each is one step.
pub mod Presets
pub mod Counting
pub mod Invariant
pub mod Traffic
pub mod Requests
pub mod Recovery
pub mod Stuck
use pyairtable_go_services.Prelude.{
  ℕ, ◌+◌, ◌%◌, Bool, true, false, not, ◌&&◌, List, [], ◌∷◌, Option, none, some, ltb, leb, ◌==◌,
  if◌then◌else◌,
}

pub data State : Type 0 where
  closed half_open opened : State

-- The fields of Counts are uint32.
pub record Counts : Type 0 where
  pub requests : ℕ
  pub total_successes : ℕ
  pub total_failures : ℕ
  pub consecutive_successes : ℕ
  pub consecutive_failures : ℕ

pub record Config : Type 0 where
  pub max_requests : ℕ
  pub interval : ℕ
  pub timeout : ℕ
  pub ready_to_trip : Counts → Bool

pub record CircuitBreaker : Type 0 where
  pub config : Config
  pub state : State
  pub generation : ℕ
  pub counts : Counts
  pub expiry : ℕ
  pub changes : List (State × State)

pub data RequestError : Type 0 where
  err_too_many_requests err_open_state : RequestError

abbrev pub u32 : ℕ → ℕ
u32 n = n % 4294967296

abbrev pub u64 : ℕ → ℕ
u64 n = n % 18446744073709551616

-- Counts.clear
abbrev pub zero_counts : Counts
zero_counts = record {
  requests = 0;
  total_successes = 0;
  total_failures = 0;
  consecutive_successes = 0;
  consecutive_failures = 0;
}

abbrev pub on_request_counts : Counts → Counts
on_request_counts c = record c { requests = u32 (c.requests + 1) }

abbrev pub on_success_counts : Counts → Counts
on_success_counts c = record c {
  total_successes = u32 (c.total_successes + 1);
  consecutive_successes = u32 (c.consecutive_successes + 1);
  consecutive_failures = 0;
}

abbrev pub on_failure_counts : Counts → Counts
on_failure_counts c = record c {
  total_failures = u32 (c.total_failures + 1);
  consecutive_failures = u32 (c.consecutive_failures + 1);
  consecutive_successes = 0;
}

-- The expiry that toNewGeneration sets; 0 is the zero time.
abbrev pub expiry_of : Config → State → ℕ → ℕ
expiry_of c closed now = if c.interval == 0 then 0 else now + c.interval
expiry_of c opened now = now + c.timeout
expiry_of c half_open now = 0

unfoldable pub to_new_generation : ℕ → CircuitBreaker → CircuitBreaker
to_new_generation now cb = record cb {
  generation = u64 (cb.generation + 1);
  counts = zero_counts;
  expiry = expiry_of cb.config cb.state now;
}

abbrev pub same_state : State → State → Bool
same_state closed closed = true
same_state half_open half_open = true
same_state opened opened = true
same_state _ _ = false

unfoldable pub set_state : State → ℕ → CircuitBreaker → CircuitBreaker
unfolding to_new_generation
set_state state now cb =
    if same_state cb.state state
    then cb
    else let cb' = to_new_generation now (record cb { state = state }) in
      record cb' { changes = (cb.state, state) ∷ cb.changes }

-- The `switch` of currentState
refresh : State → ℕ → CircuitBreaker → CircuitBreaker
unfolding to_new_generation set_state
refresh closed now cb =
    if not (cb.expiry == 0) && ltb cb.expiry now then to_new_generation now cb else cb
refresh opened now cb = if ltb cb.expiry now then set_state half_open now cb else cb
refresh half_open now cb = cb

-- currentState; the state and the generation that it returns are those of the result.
unfoldable pub current_state : ℕ → CircuitBreaker → CircuitBreaker
unfolding refresh
current_state now cb = refresh cb.state now cb

-- NewCircuitBreaker
unfoldable pub new_circuit_breaker : Config → ℕ → CircuitBreaker
unfolding to_new_generation
new_circuit_breaker config now = to_new_generation now (record {
  config = config;
  state = closed;
  generation = 0;
  counts = zero_counts;
  expiry = 0;
  changes = [];
})

pub admit : State → CircuitBreaker → CircuitBreaker × Option RequestError
admit opened cb = (cb, some err_open_state)
admit half_open cb =
    if leb cb.config.max_requests cb.counts.requests
    then (cb, some err_too_many_requests)
    else (record cb { counts = on_request_counts cb.counts }, none)
admit closed cb = (record cb { counts = on_request_counts cb.counts }, none)

-- beforeRequest; the generation that it returns is that of the result.
unfoldable pub before_request : ℕ → CircuitBreaker → CircuitBreaker × Option RequestError
unfolding current_state admit
before_request now cb = let cb' = current_state now cb in admit cb'.state cb'

pub on_success : State → ℕ → CircuitBreaker → CircuitBreaker
unfolding set_state
on_success half_open now cb =
    let cb' = record cb { counts = on_success_counts cb.counts } in
    if leb cb.config.max_requests cb'.counts.consecutive_successes
    then set_state closed now cb'
    else cb'
on_success _ now cb = record cb { counts = on_success_counts cb.counts }

pub on_failure : State → ℕ → CircuitBreaker → CircuitBreaker
unfolding set_state
on_failure closed now cb =
    let cb' = record cb { counts = on_failure_counts cb.counts } in
    if cb.config.ready_to_trip cb'.counts then set_state opened now cb' else cb'
on_failure half_open now cb =
    set_state opened now (record cb { counts = on_failure_counts cb.counts })
on_failure opened now cb = record cb { counts = on_failure_counts cb.counts }

unfoldable pub after_request : ℕ → Bool → ℕ → CircuitBreaker → CircuitBreaker
unfolding current_state on_success on_failure
after_request before success now cb =
    let cb' = current_state now cb in
    if not (cb'.generation == before)
    then cb'
    else if success
    then on_success cb'.state now cb'
    else on_failure cb'.state now cb'

-- What the request function does: it returns, with what isSuccessful says of its error, or panics.
pub data Attempt : Type 0 where
  returns : Bool → Attempt
  panics : Attempt

abbrev pub succeeded : Attempt → Bool
succeeded (returns b) = b
succeeded panics = false

-- Execute, where nothing else reaches the breaker while the request runs; `some` where the breaker
-- refuses it. A panic counts as a failure and goes on to the caller.
unfoldable pub execute : ℕ → ℕ → Attempt → CircuitBreaker → CircuitBreaker × Option RequestError
unfolding before_request after_request
execute start finish attempt cb =
    let (cb', error) = before_request start cb in
    elim error [
      | some e ↦ (cb', some e)
      | none ↦ (after_request cb'.generation (succeeded attempt) finish cb', none)
    ]
