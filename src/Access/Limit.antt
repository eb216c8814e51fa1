-- ===== src/Access/Limit.antt =====
-- What the rate limit lets through.
use ai_cybersecurity_soc_ana.Common.{
  List, [], arith, if◌then◌else◌, refl, ℕ, ◌&&◌, ◌+◌, ◌/◌, ◌<◌, ◌==◌, ◌∷◌, ◌≡◌, ◌≤◌, Bool-cases,
  inl, inr, ltb, ltb→lt, min,
}
use ai_cybersecurity_soc_ana.Access.RateLimit.{
  Hit, IsOrdered, Request, asked, count_of, dispatch, evict_old_buckets, passed, set_count,
}

count_of-set_count :
    (c b d a n : ℕ) (hits : List Hit)
    → count_of d a (set_count c b n hits) ≡ (if (c == d) && (b == a) then n else count_of d a hits)
unfolding count_of set_count
count_of-set_count c b d a n [] = ground arith
count_of-set_count c b d a n (h ∷ hits) = ground (arith, count_of-set_count c b d a n hits)

count_of-evict :
    (current d a : ℕ) (hits : List Hit)
    → current ≤ a
    → count_of d a (evict_old_buckets current hits) ≡ count_of d a hits
unfolding count_of evict_old_buckets
count_of-evict current d a [] h = refl
count_of-evict current d a (x ∷ hits) h = ground (arith, h, count_of-evict current d a hits h)

-- What a request leaves of a count of its own window or a later one.
count_of-dispatch :
    (m c b d a : ℕ) (hits : List Hit)
    → b ≤ a
    → count_of d a (dispatch m c b hits).0
      ≡ (if (c == d) && (b == a) then count_of c b hits + 1 else count_of d a hits)
unfolding dispatch
count_of-dispatch m c b d a hits h = ground (
  arith,
  h,
  count_of-set_count c b d a (count_of c b hits + 1) hits,
  count_of-evict b d a (set_count c b (count_of c b hits + 1) hits) h,
)

none_asked :
    (window client bucket from : ℕ) (requests : List Request)
    → bucket < from
    → IsOrdered window from requests
    → asked window client bucket requests ≡ 0
unfolding asked
none_asked window client bucket from [] h k = refl
none_asked window client bucket from ((c, time) ∷ requests) h k =
    let rest =
      none_asked window client bucket (time / window) requests (omega (arith, h, k.0)) k.1 in
    let later : bucket < time / window = omega (arith, h, k.0) in ground (arith, rest, later)

passed-le-asked :
    (m window client bucket : ℕ) (hits : List Hit) (requests : List Request)
    → passed m window client bucket hits requests ≤ asked window client bucket requests
unfolding passed asked
passed-le-asked m window client bucket hits [] = omega arith
passed-le-asked m window client bucket hits ((c, time) ∷ requests) =
    ground
      (arith, passed-le-asked m window client bucket (dispatch m c (time / window) hits).0 requests)

-- One request, in terms of the counts before and after it.
step_through :
    (m c b client bucket : ℕ) (hits : List Hit) (passes asks held : ℕ)
    → held ≡ (
        if (c == client) && (b == bucket)
        then count_of c b hits + 1
        else count_of client bucket hits)
    → passes + min m held ≡ min m (held + asks)
    → (if (dispatch m c b hits).1 then (if (c == client) && (b == bucket) then 1 else 0) else 0)
        + passes
        + min m (count_of client bucket hits)
      ≡ min m
          (count_of client bucket hits + ((if (c == client) && (b == bucket) then 1 else 0) + asks))
unfolding dispatch
step_through m c b client bucket hits passes asks held e h =
    elim (Bool-cases ((c == client) && (b == bucket))) [
      | inl same ↦
          let p : c ≡ client = ground (arith, same) in
          let q : b ≡ bucket = ground (arith, same) in ground (arith, p, q, same, e, h)
      | inr other ↦ ground (arith, other, e, h)
    ]

passed_from :
    (m window client bucket from : ℕ) (hits : List Hit) (requests : List Request)
    → IsOrdered window from requests
    → from ≤ bucket
    → passed m window client bucket hits requests + min m (count_of client bucket hits)
      ≡ min m (count_of client bucket hits + asked window client bucket requests)
unfolding passed asked
passed_from m window client bucket from hits [] h k = omega arith
passed_from m window client bucket from hits ((c, time) ∷ requests) h k =
    let b = time / window in
    let hits' = (dispatch m c b hits).0 in
    elim (Bool-cases (ltb bucket b)) [
      | inl over ↦
          let beyond = ltb→lt bucket b over in
          let nobody = none_asked window client bucket b requests beyond h.1 in
          let nothing = passed-le-asked m window client bucket hits' requests in
          ground (arith, beyond, nobody, nothing)
      | inr open' ↦
          let not_over : b ≤ bucket = ground (arith, open') in
          let rest = passed_from m window client bucket b hits' requests h.1 not_over in
          let held = count_of-dispatch m c b client bucket hits not_over in
          step_through m c b client bucket hits (passed m window client bucket hits' requests)
            (asked window client bucket requests) (count_of client bucket hits') held rest
    ]

-- In each window each client is let through exactly as often as it asks, up to the maximum: the
-- requests of other clients and of other windows do not count. The clock does not go back.
pub passed_lem :
    (m window client bucket : ℕ) (requests : List Request)
    → IsOrdered window 0 requests
    → passed m window client bucket [] requests ≡ min m (asked window client bucket requests)
unfolding count_of
passed_lem m window client bucket requests h =
    let all_of = passed_from m window client bucket 0 [] requests h (omega arith) in
    omega (arith, all_of)
