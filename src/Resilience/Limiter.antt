-- ===== src/Resilience/Limiter.antt =====
-- `RateLimiter` of integrations/resilience.py: a token bucket. Tokens are counted in parts of a
-- token so fine that the capacity, the refill of one clock tick and every request are whole.
pub mod Laws
mod Tests
use ai_cybersecurity_soc_ana.Common.{
  Bool, Option, false, if◌then◌else◌, ltb, min, none, some, true, ℕ, ◌*◌, ◌+◌, ◌-◌,
}

pub record RateLimiter : Type 0 where
  pub capacity : ℕ
  pub per_tick : ℕ  -- `per_second`, in parts for each tick
  pub tokens : ℕ
  pub updated_at : ℕ

-- The constructor raises `ValueError` on a capacity below one token, which is `parts` parts.
pub init : ℕ → ℕ → ℕ → ℕ → Option RateLimiter
init parts capacity per_tick now =
    if ltb capacity 1
    then none
    else some (record {
      capacity = capacity * parts;
      per_tick = per_tick;
      tokens = capacity * parts;
      updated_at = now;
    })

-- `max(0.0, now - updated_at)` is the subtraction of ℕ, which stops at 0.
pub refill : ℕ → RateLimiter → RateLimiter
refill now r = record r {
  updated_at = now;
  tokens = min r.capacity (r.tokens + (now - r.updated_at) * r.per_tick);
}

pub available : ℕ → RateLimiter → RateLimiter × ℕ
unfolding refill
available now r = let r' = refill now r in (r', r'.tokens)

pub try_acquire : ℕ → ℕ → RateLimiter → RateLimiter × Bool
unfolding refill
try_acquire now wanted r =
    let r' = refill now r in
    if ltb r'.tokens wanted then (r', false) else (record r' { tokens = r'.tokens - wanted }, true)
