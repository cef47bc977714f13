-- ===== src/CircuitBreaker/Presets.antt =====
-- pkg/circuitbreaker: when the ready-made breakers trip. A float64 quotient of two uint32 meets the
-- constants 0.5, 0.6 and 0.7 exactly where the fraction does, since unequal fractions of this size
-- differ by more than the rounding.
use pyairtable_go_services.Prelude.{ℕ, ◌*◌, Bool, ◌&&◌, ◌||◌, ltb, leb}
use pyairtable_go_services.CircuitBreaker.{Counts, Config}

abbrev second : ℕ
second = 1000000000

-- At least `calls` requests, some failure, and failures / requests ≥ tenths / 10
abbrev pub failure_rate : ℕ → ℕ → Counts → Bool
failure_rate calls tenths c =
    leb calls c.requests
    && ltb 0 c.total_failures
    && leb (tenths * c.requests) (10 * c.total_failures)

unfoldable pub default_ready_to_trip : Counts → Bool
default_ready_to_trip c = failure_rate 5 6 c

-- NewDefaultCircuitBreaker
abbrev pub default_config : Config
default_config = record {
  max_requests = 10;
  interval = 60 * second;
  timeout = 30 * second;
  ready_to_trip = failure_rate 5 6;
}

-- NewHTTPCircuitBreaker
abbrev pub http_config : Config
http_config = record {
  max_requests = 5;
  interval = 30 * second;
  timeout = 60 * second;
  ready_to_trip = failure_rate 3 5;
}

abbrev pub database_ready_to_trip : Counts → Bool
database_ready_to_trip c = leb 3 c.consecutive_failures || failure_rate 5 7 c

-- NewDatabaseCircuitBreaker
abbrev pub database_config : Config
database_config = record {
  max_requests = 3;
  interval = 120 * second;
  timeout = 30 * second;
  ready_to_trip = database_ready_to_trip;
}
