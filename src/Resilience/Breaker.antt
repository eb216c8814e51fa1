-- ===== src/Resilience/Breaker.antt =====
-- `CircuitBreaker` of integrations/resilience.py. A method takes the clock's reading `now` and
-- returns the new breaker; times are whole ticks of the injected monotonic clock.
pub mod Laws
pub mod Trace
mod Tests
use ai_cybersecurity_soc_ana.Common.{
  Bool, Option, false, if◌then◌else◌, leb, ltb, none, some, true, ℕ, ◌&&◌, ◌+◌,
}

pub data BreakerState : Type 0 where
  closed opened half_open : BreakerState

pub record CircuitBreaker : Type 0 where
  pub failure_threshold : ℕ
  pub reset_seconds : ℕ
  pub failures : ℕ
  pub opened_at : Option ℕ
  pub probing : Bool  -- `_half_open`

-- The constructor raises `ValueError` on a threshold below 1.
pub init : ℕ → ℕ → Option CircuitBreaker
init threshold reset =
    if ltb threshold 1
    then none
    else some (record {
      failure_threshold = threshold;
      reset_seconds = reset;
      failures = 0;
      opened_at = none;
      probing = false;
    })

-- The property `state`. `now - opened_at >= reset` is written without the subtraction.
state_at : ℕ → ℕ → Option ℕ → BreakerState
state_at now reset none = closed
state_at now reset (some t) = if leb (t + reset) now then half_open else opened

pub state : ℕ → CircuitBreaker → BreakerState
unfolding state_at
state now b = state_at now b.reset_seconds b.opened_at

-- `allow`: only the half-open state changes the breaker, by handing out its one probe.
allow_in : BreakerState → CircuitBreaker → CircuitBreaker × Bool
allow_in closed b = (b, true)
allow_in opened b = (b, false)
allow_in half_open b = if b.probing then (b, false) else (record b { probing = true }, true)

pub allow : ℕ → CircuitBreaker → CircuitBreaker × Bool
unfolding allow_in state
allow now b = allow_in (state now b) b

pub record_success : CircuitBreaker → CircuitBreaker
record_success b = record b { failures = 0; opened_at = none; probing = false }

abbrev is_none : Option ℕ → Bool
is_none none = true
is_none (some _) = false

pub record_failure : ℕ → CircuitBreaker → CircuitBreaker
record_failure now b =
    if b.probing
    then record b { opened_at = some now; probing = false }
    else if leb b.failure_threshold (b.failures + 1) && is_none b.opened_at
    then record b { failures = b.failures + 1; opened_at = some now }
    else record b { failures = b.failures + 1 }
