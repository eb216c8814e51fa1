-- ===== src/Resilience/Breaker/Trace.antt =====
-- What a caller sees over a history of calls to the breaker.
use ai_cybersecurity_soc_ana.Common.{
  All, Bool, List, Option-cases, [], arith, false, if◌then◌else◌, inl, inr, leb, length, none, refl,
  some, suc, true, ℕ, ◌+◌, ◌<◌, ◌↔◌, ◌∷◌, ◌≡◌, ◌≢◌, ◌≤◌, Bool-cases,
}
use ai_cybersecurity_soc_ana.Resilience.Breaker.{CircuitBreaker, allow, record_failure}
use ai_cybersecurity_soc_ana.Resilience.Breaker.Laws.{IsValid}

-- Asks of the breaker, each at its own time: the answers, in order.
unfoldable pub ask : List ℕ → CircuitBreaker → CircuitBreaker × List Bool
ask [] b = (b, [])
ask (now ∷ times) b =
    let (b', answer) = allow now b in let (b'', answers) = ask times b' in (b'', answer ∷ answers)

abbrev pub count_true : List Bool → ℕ
count_true [] = 0
count_true (true ∷ l) = suc (count_true l)
count_true (false ∷ l) = count_true l

-- Failures in a row, each at its own time.
unfoldable pub fail_all : List ℕ → CircuitBreaker → CircuitBreaker
fail_all [] b = b
fail_all (now ∷ times) b = fail_all times (record_failure now b)

allow_tripped :
    (now t : ℕ) (b : CircuitBreaker)
    → b.opened_at ≡ some t
    → let (b', answer) = allow now b in
      (b'.opened_at ≡ some t)
      × (count_true (answer ∷ []) + (if b.probing then 1 else 0) ≡ (if b'.probing then 1 else 0))
unfolding allow
allow_tripped now t b e = ground arith

ask_tripped :
    (times : List ℕ) (t : ℕ) (b : CircuitBreaker)
    → b.opened_at ≡ some t
    → count_true (ask times b).1 + (if b.probing then 1 else 0) ≤ 1
unfolding ask
ask_tripped [] t b e = ground arith
ask_tripped (now ∷ times) t b e =
    ground (arith, allow_tripped now t b e, ask_tripped times t (allow now b).0)

-- Until an outcome is recorded, a tripped breaker lets one call through at most, however often
-- and whenever it is asked; none, if its probe is already out.
pub one_probe :
    (times : List ℕ) (b : CircuitBreaker)
    → b.opened_at ≢ none
    → (count_true (ask times b).1 ≤ 1) × (b.probing ≡ true → count_true (ask times b).1 ≡ 0)
one_probe times b h = elim (Option-cases b.opened_at) [
  | inl e ↦ absurd (h e)
  | inr (t, e) ↦ ground (arith, ask_tripped times t b e)
]

-- While the recovery time of an open breaker has not passed, every call is refused and the breaker
-- stays as it is.
open_refuses :
    (times : List ℕ) (t : ℕ) (b : CircuitBreaker)
    → b.opened_at ≡ some t
    → All (λ now. now < t + b.reset_seconds) times
    → (count_true (ask times b).1 ≡ 0) × ((ask times b).0 ≡ b)
unfolding ask
open_refuses [] t b e h = (refl, refl)
open_refuses (now ∷ times) t b e h =
    let same : allow now b ≡ (b, false) = unfold allow in ground arith in
    rw same (open_refuses times t b e h.1)

fail_tripped :
    (times : List ℕ) (t : ℕ) (b : CircuitBreaker)
    → b.opened_at ≡ some t
    → b.probing ≡ false
    → (fail_all times b).opened_at ≡ some t
unfolding fail_all record_failure
fail_tripped [] t b e p = e
fail_tripped (now ∷ times) t b e p =
    let b' = record_failure now b in fail_tripped times t b' (ground arith) (ground arith)

fail_one :
    (now : ℕ) (b : CircuitBreaker)
    → b.opened_at ≡ none
    → b.probing ≡ false
    → let b' = record_failure now b in
      (b'.probing ≡ false)
      × (b'.failures ≡ b.failures + 1)
      × (b'.failure_threshold ≡ b.failure_threshold)
      × (b'.opened_at ≡ (if leb b.failure_threshold (b.failures + 1) then some now else none))
unfolding record_failure
fail_one now b e p = ground arith

fails_trip :
    (times : List ℕ) (b : CircuitBreaker)
    → b.opened_at ≡ none
    → b.probing ≡ false
    → b.failures < b.failure_threshold
    → ((fail_all times b).opened_at ≢ none) ↔ (b.failure_threshold ≤ b.failures + length times)
unfolding fail_all
fails_trip [] b e p low = (λ h. absurd (h e), λ h. absurd (omega arith))
fails_trip (now ∷ times) b e p low =
    let (calm, counted, kept, opened) = fail_one now b e p in
    elim (Bool-cases (leb b.failure_threshold (b.failures + 1))) [
      | inl over ↦
          let at : (record_failure now b).opened_at ≡ some now = ground arith in
          let after : (fail_all times (record_failure now b)).opened_at ≡ some now =
            fail_tripped times now (record_failure now b) at calm in
          ((λ h. ground arith), λ h. ground arith)
      | inr under ↦
          let rest = fails_trip times (record_failure now b) (ground arith) calm (ground arith) in
          ((λ h. omega (arith, rest.0 h)), λ h. rest.1 (omega arith))
    ]

-- A valid closed breaker trips on a run of failures exactly when the run brings its count up to
-- the threshold: fewer leave it closed, and no later failure of the run closes it again.
trips_iff :
    (times : List ℕ) (b : CircuitBreaker)
    → IsValid b
    → b.opened_at ≡ none
    → ((fail_all times b).opened_at ≢ none) ↔ (b.failure_threshold ≤ b.failures + length times)
trips_iff times b v e = fails_trip times b e (ground arith) (v.untripped e)
