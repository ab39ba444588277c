-- ===== src/Context/Breaker.antt =====
-- src/context.rs: the circuit breaker before the Scaleway API. An `Instant` is a number of
-- nanoseconds; `opened_at.elapsed()` is 0 where the clock has not passed `opened_at`.
pub mod Laws
use scaleway_operator.Prelude.{ℕ, ◌+◌, ◌-◌, u32, Bool, true, false, leb, ltb, if◌then◌else◌}

abbrev pub circuit_failure_threshold : ℕ
circuit_failure_threshold = 5

-- 60 s in nanoseconds
abbrev pub circuit_open_timeout : ℕ
circuit_open_timeout = 60000000000

pub data CircuitBreakerState : Type 0 where
  closed : ℕ → CircuitBreakerState  -- failure_count : u32
  opened : ℕ → CircuitBreakerState  -- opened_at
  half_open : CircuitBreakerState

-- The answer, and the state it leaves.
unfoldable pub is_circuit_open : ℕ → CircuitBreakerState → Bool × CircuitBreakerState
is_circuit_open now (opened opened_at) =
    if ltb (now - opened_at) circuit_open_timeout
    then (true, opened opened_at)
    else (false, half_open)
is_circuit_open now (closed failure_count) = (false, closed failure_count)
is_circuit_open now half_open = (false, half_open)

unfoldable pub record_scaleway_failure : ℕ → CircuitBreakerState → CircuitBreakerState
record_scaleway_failure now (closed failure_count) =
    if leb circuit_failure_threshold (u32 (failure_count + 1))
    then opened now
    else closed (u32 (failure_count + 1))
record_scaleway_failure now half_open = opened now
record_scaleway_failure now (opened opened_at) = opened opened_at

unfoldable pub record_scaleway_success : CircuitBreakerState → CircuitBreakerState
record_scaleway_success half_open = closed 0
record_scaleway_success (closed failure_count) = closed 0
record_scaleway_success (opened opened_at) = opened opened_at
