-- ===== src/Resilience/Breaker/Laws.antt =====
-- The invariant of the circuit breaker, and what each call does in each state.
use ai_cybersecurity_soc_ana.Common.{
  arith, false, none, some, true, ℕ, ◌<◌, ◌↔◌, ◌≡◌, ◌≢◌, ◌≤◌, ◌⊎◌,
}
use ai_cybersecurity_soc_ana.Resilience.Breaker.{
  CircuitBreaker, allow, closed, half_open, init, record_failure, record_success, state,
}

-- A breaker is open only after enough failures, and only an open breaker has a probe out.
pub record IsValid (b : CircuitBreaker) : Type 0 where
  pub positive : 0 < b.failure_threshold
  pub tripped : b.opened_at ≢ none → b.failure_threshold ≤ b.failures
  pub untripped : b.opened_at ≡ none → b.failures < b.failure_threshold
  pub probe_open : b.probing ≡ true → b.opened_at ≢ none

pub init-IsValid : (t r : ℕ) {b : CircuitBreaker} → init t r ≡ some b → IsValid b
unfolding init
init-IsValid t r e = ground arith

pub allow-IsValid : (now : ℕ) (b : CircuitBreaker) → IsValid b → IsValid (allow now b).0
unfolding allow
allow-IsValid now b h = ground arith

pub record_success-IsValid : (b : CircuitBreaker) → IsValid b → IsValid (record_success b)
unfolding record_success
record_success-IsValid b h = ground arith

pub record_failure-IsValid :
    (now : ℕ) (b : CircuitBreaker) → IsValid b → IsValid (record_failure now b)
unfolding record_failure
record_failure-IsValid now b h = ground arith

-- A call goes ahead exactly when the breaker is closed, or half open with no probe out.
pub allow_iff :
    (now : ℕ) (b : CircuitBreaker)
    → ((allow now b).1 ≡ true)
      ↔ ((state now b ≡ closed) ⊎ ((state now b ≡ half_open) × (b.probing ≡ false)))
unfolding allow
allow_iff now b = ground arith

-- The failed probe restarts the recovery clock.
pub probe_failure :
    (now : ℕ) (b : CircuitBreaker)
    → b.probing ≡ true
    → ((record_failure now b).opened_at ≡ some now) × ((record_failure now b).probing ≡ false)
unfolding record_failure
probe_failure now b p = ground arith
