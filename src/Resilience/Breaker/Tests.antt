-- ===== src/Resilience/Breaker/Tests.antt =====
-- Runs of the breaker at concrete times.
use ai_cybersecurity_soc_ana.Common.{[], arith, false, none, refl, some, true, ◌∷◌, ◌≡◌, ◌≤◌}
use ai_cybersecurity_soc_ana.Resilience.Breaker.{CircuitBreaker, allow, init, record_failure, state}
use ai_cybersecurity_soc_ana.Resilience.Breaker.Laws.{IsValid}
use ai_cybersecurity_soc_ana.Resilience.Breaker.Trace.{ask, count_true, fail_all, one_probe}

abbrev fresh : CircuitBreaker
fresh = record {
  failure_threshold = 3;
  reset_seconds = 60;
  failures = 0;
  opened_at = none;
  probing = false;
}

abbrev tripped_at_7 : CircuitBreaker
tripped_at_7 = record fresh { failures = 3; opened_at = some 7 }

rejects_zero : init 0 60 ≡ none
unfolding init
rejects_zero = refl

trips_on_the_third : fail_all (5 ∷ 6 ∷ 7 ∷ []) fresh ≡ tripped_at_7
unfolding fail_all record_failure
trips_on_the_third = refl

recovers : (ask (66 ∷ 67 ∷ 68 ∷ []) tripped_at_7).1 ≡ false ∷ true ∷ false ∷ []
unfolding ask allow state
recovers = refl

fresh-IsValid : IsValid fresh
fresh-IsValid = ground arith

one_probe_example :
    (count_true (ask (70 ∷ 71 ∷ []) tripped_at_7).1 ≤ 1)
    × (tripped_at_7.probing ≡ true → count_true (ask (70 ∷ 71 ∷ []) tripped_at_7).1 ≡ 0)
one_probe_example = one_probe (70 ∷ 71 ∷ []) tripped_at_7 (ground arith)
