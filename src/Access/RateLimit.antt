-- ===== src/Access/RateLimit.antt =====
-- `RateLimitMiddleware` of backend/middleware/rate_limit.py. Clients are numbered, and the clock is
-- an argument, in whole seconds.
use ai_cybersecurity_soc_ana.Common.{
  Bool, List, [], if◌then◌else◌, leb, ltb, ℕ, ◌&&◌, ◌+◌, ◌/◌, ◌==◌, ◌∷◌, ◌≤◌,
}

-- `_hits`: the count of each client in each window.
pub record Hit : Type 0 where
  pub client : ℕ
  pub bucket : ℕ
  pub count : ℕ

abbrev pub is_of : ℕ → ℕ → Hit → Bool
is_of client bucket h = (h.client == client) && (h.bucket == bucket)

-- `self._hits.get(key, 0)`
unfoldable pub count_of : ℕ → ℕ → List Hit → ℕ
count_of client bucket [] = 0
count_of client bucket (h ∷ hits) =
    if is_of client bucket h then h.count else count_of client bucket hits

-- `self._hits[key] = count`
unfoldable pub set_count : ℕ → ℕ → ℕ → List Hit → List Hit
set_count client bucket count [] = record { client = client; bucket = bucket; count = count } ∷ []
set_count client bucket count (h ∷ hits) =
    if is_of client bucket h
    then record h { count = count } ∷ hits
    else h ∷ set_count client bucket count hits

-- `_evict_old_buckets`
unfoldable pub evict_old_buckets : ℕ → List Hit → List Hit
evict_old_buckets current [] = []
evict_old_buckets current (h ∷ hits) =
    if ltb h.bucket current
    then evict_old_buckets current hits
    else h ∷ evict_old_buckets current hits

-- `dispatch` in a window: whether the request is let through, or answered with 429.
unfoldable pub dispatch : ℕ → ℕ → ℕ → List Hit → List Hit × Bool
unfolding count_of set_count evict_old_buckets
dispatch max_requests client bucket hits =
    let count = count_of client bucket hits + 1 in
    let counted = set_count client bucket count hits in
    (if count == 1 then evict_old_buckets bucket counted else counted, leb count max_requests)

-- A request is its client and its time.
abbrev pub Request : Type 0
Request = ℕ × ℕ

abbrev pub is_asked : ℕ → ℕ → ℕ → Request → ℕ
is_asked window client bucket (c, time) =
    if (c == client) && (time / window == bucket) then 1 else 0

-- The requests of one client in one window, and those of them that are let through.
unfoldable pub asked : ℕ → ℕ → ℕ → List Request → ℕ
asked window client bucket [] = 0
asked window client bucket (r ∷ requests) =
    is_asked window client bucket r + asked window client bucket requests

unfoldable pub passed : ℕ → ℕ → ℕ → ℕ → List Hit → List Request → ℕ
unfolding dispatch
passed max_requests window client bucket hits [] = 0
passed max_requests window client bucket hits ((c, time) ∷ requests) =
    let (hits', through) = dispatch max_requests c (time / window) hits in
    (if through then is_asked window client bucket (c, time) else 0)
    + passed max_requests window client bucket hits' requests

-- The clock does not go back behind the window at hand.
abbrev pub IsOrdered : ℕ → ℕ → List Request → Type 0
IsOrdered window from [] = Unit
IsOrdered window from ((c, time) ∷ requests) =
    (from ≤ time / window) × IsOrdered window (time / window) requests
