-- ===== src/Resilience/Limiter/Laws.antt =====
-- What the token bucket grants over any history of requests.
use ai_cybersecurity_soc_ana.Common.{
  List, [], ap, arith, false, if◌then◌else◌, ltb, refl, some, sym, true, ℕ, ◌*◌, ◌+◌, ◌-◌, ◌<◌, ◌↔◌,
  ◌∙◌, ◌∷◌, ◌≡◌, ◌≤◌,
}
use ai_cybersecurity_soc_ana.Resilience.Limiter.{RateLimiter, init, refill, try_acquire}
use native.Mathlib.Nat.{add-mul}

abbrev pub IsValid : RateLimiter → Type 0
IsValid r = r.tokens ≤ r.capacity

pub init-IsValid :
    (parts capacity per_tick now : ℕ) {r : RateLimiter}
    → init parts capacity per_tick now ≡ some r
    → IsValid r × (r.tokens ≡ capacity * parts)
unfolding init
init-IsValid parts capacity per_tick now e = ground arith

-- A call's time and the tokens that it asks for.
abbrev pub Request : Type 0
Request = ℕ × ℕ

-- The bucket after the requests, and the tokens granted in all.
unfoldable pub serve : List Request → RateLimiter → RateLimiter × ℕ
serve [] r = (r, 0)
serve ((now, wanted) ∷ rest) r =
    let (r', granted) = try_acquire now wanted r in
    let (r'', total) = serve rest r' in (r'', (if granted then wanted else 0) + total)

-- The clock never runs back: each request comes no earlier than the one before.
abbrev pub IsMonotonic : ℕ → List Request → Type 0
IsMonotonic t [] = Unit {0}
IsMonotonic t ((now, wanted) ∷ rest) = (t ≤ now) × IsMonotonic now rest

abbrev pub last_time : ℕ → List Request → ℕ
last_time t [] = t
last_time t ((now, wanted) ∷ rest) = last_time now rest

last_time-ge : (t : ℕ) (l : List Request) → IsMonotonic t l → t ≤ last_time t l
last_time-ge t [] h = omega arith
last_time-ge t ((now, wanted) ∷ l) h = omega (arith, last_time-ge now l h.1, h.0)

acquire_lem :
    (now wanted : ℕ) (r : RateLimiter)
    → IsValid r
    → let (r', granted) = try_acquire now wanted r in
      IsValid r'
      × ((if granted then wanted else 0) + r'.tokens ≤ r.tokens + (now - r.updated_at) * r.per_tick)
      × (r'.updated_at ≡ now)
      × (r'.per_tick ≡ r.per_tick)
      × (r'.capacity ≡ r.capacity)
unfolding try_acquire
acquire_lem now wanted r h = ground arith

split_elapsed : (a b c p : ℕ) → a ≤ b → b ≤ c → (b - a) * p + (c - b) * p ≡ (c - a) * p
split_elapsed a b c p h k = sym (add-mul (b - a) (c - b) p) ∙ ap (λ x. x * p) (omega arith)

serve_from :
    (requests : List Request) (t : ℕ) (r : RateLimiter)
    → r.updated_at ≡ t
    → IsValid r
    → IsMonotonic t requests
    → let (r', granted) = serve requests r in
      IsValid r' × (granted + r'.tokens ≤ r.tokens + (last_time t requests - t) * r.per_tick)
unfolding serve
serve_from [] t r e v m = (v, omega arith)
serve_from ((now, wanted) ∷ rest) t r e v m =
    let r' = (try_acquire now wanted r).0 in
    let (valid, spent, updated, rate, _) = acquire_lem now wanted r v in
    let (valid', bound) = serve_from rest now r' updated valid m.1 in
    let split =
      split_elapsed t now (last_time now rest) r.per_tick m.0 (last_time-ge now rest m.1) in
    (valid', grind arith)

-- Over any requests that the clock orders, what is granted and what is left in the bucket together
-- never exceed what the bucket held at the start plus the refill of the time that passed; and the
-- bucket never overflows.
pub serve_bound :
    (requests : List Request) (r : RateLimiter)
    → IsValid r
    → IsMonotonic r.updated_at requests
    → let (r', granted) = serve requests r in
      IsValid r'
      × (granted + r'.tokens
          ≤ r.tokens + (last_time r.updated_at requests - r.updated_at) * r.per_tick)
serve_bound requests r v m = serve_from requests r.updated_at r refl v m

-- A refused request takes no token: the bucket is only refilled.
pub refusal_takes_nothing :
    (now wanted : ℕ) (r : RateLimiter)
    → (try_acquire now wanted r).1 ≡ false
    → ((try_acquire now wanted r).0 ≡ refill now r) × ((refill now r).tokens < wanted)
unfolding try_acquire refill
refusal_takes_nothing now wanted r h = ground arith

refill_twice :
    (t now : ℕ) (r : RateLimiter)
    → r.updated_at ≤ t
    → t ≤ now
    → refill now (refill t r) ≡ refill now r
unfolding refill
refill_twice t now r h k =
    let split = split_elapsed r.updated_at t now r.per_tick h k in
    ap (λ n. record r { updated_at = now; tokens = n }) (grind arith)

acquire_after_refill :
    (t now wanted : ℕ) (r : RateLimiter)
    → r.updated_at ≤ t
    → t ≤ now
    → try_acquire now wanted (refill t r) ≡ try_acquire now wanted r
unfolding try_acquire
acquire_after_refill t now wanted r h k =
    ap
      (λ q.
        if ltb q.tokens wanted then (q, false) else (record q { tokens = q.tokens - wanted }, true))
      (refill_twice t now r h k)

refill_time : (t : ℕ) (r : RateLimiter) → (refill t r).updated_at ≡ t
unfolding refill
refill_time t r = refl

-- Each of the requests, one after the other, is refused.
abbrev pub AreRefused : List Request → RateLimiter → Type 0
AreRefused [] r = Unit
AreRefused ((now, wanted) ∷ rest) r =
    let (r', granted) = try_acquire now wanted r in (granted ≡ false) × AreRefused rest r'

refusals_change_nothing :
    (polls : List Request) (t now wanted : ℕ) (r : RateLimiter)
    → r.updated_at ≡ t
    → IsMonotonic t polls
    → last_time t polls ≤ now
    → AreRefused polls r
    → try_acquire now wanted (serve polls r).0 ≡ try_acquire now wanted r
unfolding serve
refusals_change_nothing [] t now wanted r e m l h = refl
refusals_change_nothing ((at, asked) ∷ polls) t now wanted r e m l h =
    let (same, short) = refusal_takes_nothing at asked r h.0 in
    let updated : (try_acquire at asked r).0.updated_at ≡ at = rw same (refill_time at r) in
    let rest =
      refusals_change_nothing polls at now wanted (try_acquire at asked r).0 updated m.1 l h.1 in
    rest
    ∙ ap (try_acquire now wanted) same
    ∙ acquire_after_refill at now wanted r (rw e m.0) (omega (arith, last_time-ge at polls m.1, l))

granted_iff :
    (now wanted : ℕ) (r : RateLimiter)
    → wanted ≤ r.capacity
    → ((try_acquire now wanted r).1 ≡ true)
      ↔ (wanted ≤ r.tokens + (now - r.updated_at) * r.per_tick)
unfolding try_acquire
granted_iff now wanted r c = (λ h. ground arith, λ h. ground arith)

-- A client that polls is never starved: after any requests that the clock orders and that are all
-- refused, a request for no more than the capacity is granted exactly if the tokens that the bucket
-- held before the first of them and the refill of the whole time since then cover it.
pub acquire_after_polls_iff :
    (polls : List Request) (now wanted : ℕ) (r : RateLimiter)
    → IsMonotonic r.updated_at polls
    → last_time r.updated_at polls ≤ now
    → AreRefused polls r
    → wanted ≤ r.capacity
    → ((try_acquire now wanted (serve polls r).0).1 ≡ true)
      ↔ (wanted ≤ r.tokens + (now - r.updated_at) * r.per_tick)
acquire_after_polls_iff polls now wanted r m l h c =
    rw (refusals_change_nothing polls r.updated_at now wanted r refl m l h)
      (granted_iff now wanted r c)
