-- ===== src/Resilience/Limiter/Tests.antt =====
-- Runs of the token bucket at concrete times: capacity 2 tokens of 10 parts, 3 parts each tick.
use ai_cybersecurity_soc_ana.Common.{
  List, [], arith, refl, some, true, ◌*◌, ◌+◌, ◌-◌, ◌↔◌, ◌∷◌, ◌≡◌, ◌≤◌,
}
use ai_cybersecurity_soc_ana.Resilience.Limiter.{RateLimiter, init, try_acquire}
use ai_cybersecurity_soc_ana.Resilience.Limiter.Laws.{
  IsValid, Request, acquire_after_polls_iff, last_time, serve, serve_bound,
}

abbrev full : RateLimiter
full = record { capacity = 20; per_tick = 3; tokens = 20; updated_at = 100 }

abbrev requests : List Request
requests = (100, 10) ∷ (100, 10) ∷ (101, 10) ∷ (104, 10) ∷ []

starts_full : init 10 2 3 100 ≡ some full
unfolding init
starts_full = refl

grants_three : (serve requests full).1 ≡ 30
unfolding serve try_acquire
grants_three = refl

serve_bound_example :
    let (r', granted) = serve requests full in
    IsValid r'
    × (granted + r'.tokens
        ≤ full.tokens + (last_time full.updated_at requests - full.updated_at) * full.per_tick)
serve_bound_example = serve_bound requests full (omega arith) (omega arith)

abbrev drained : RateLimiter
drained = record full { tokens = 0 }

abbrev polls : List Request
polls = (101, 10) ∷ (102, 10) ∷ (103, 10) ∷ []

acquire_after_polls_iff_example :
    ((try_acquire 104 10 (serve polls drained).0).1 ≡ true)
    ↔ (10 ≤ drained.tokens + (104 - drained.updated_at) * drained.per_tick)
unfolding try_acquire
acquire_after_polls_iff_example =
    acquire_after_polls_iff polls 104 10 drained (omega arith) (omega arith)
      (refl, (refl, (refl, tt))) (omega arith)
