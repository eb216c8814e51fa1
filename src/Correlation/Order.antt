-- ===== src/Correlation/Order.antt =====
-- The events of a bucket in the order of their times, and what that means for its episodes.
use ai_cybersecurity_soc_ana.Common.Sorting.{insert_by, insert_by-All, sort_by}
use ai_cybersecurity_soc_ana.Common.{
  All, Bool-cases, In, In-append, List, [], arith, inl, inr, refl, sym, ℕ, ◌++◌, ◌+◌, ◌<◌, ◌∷◌, ◌≤◌,
}
use ai_cybersecurity_soc_ana.Correlation.Events.{NormalizedEvent}
use ai_cybersecurity_soc_ana.Correlation.Episodes.{last_time}
use ai_cybersecurity_soc_ana.Correlation.Windows.{AreApart, concat}
use ai_cybersecurity_soc_ana.Correlation.Buckets.{is_earlier}

abbrev pub IsSince : ℕ → NormalizedEvent → Type 0
IsSince time e = time ≤ e.event_time

abbrev pub IsSorted : List NormalizedEvent → Type 0
IsSorted [] = Unit
IsSorted (e ∷ es) = All (IsSince e.event_time) es × IsSorted es

IsSince-earlier :
    (t u : ℕ) (es : List NormalizedEvent) → t ≤ u → All (IsSince u) es → All (IsSince t) es
IsSince-earlier t u [] h k = tt
IsSince-earlier t u (e ∷ es) h k = (omega (arith, h, k.0), IsSince-earlier t u es h k.1)

insert_by-IsSorted :
    (e : NormalizedEvent) (es : List NormalizedEvent)
    → IsSorted es
    → IsSorted (insert_by is_earlier e es)
unfolding insert_by
insert_by-IsSorted e [] h = (tt, tt)
insert_by-IsSorted e (f ∷ es) h = elim (Bool-cases (is_earlier e f)) [
  | inl before ↦
      let sooner : e.event_time ≤ f.event_time = ground (arith, before) in
      rw before ((sooner, IsSince-earlier e.event_time f.event_time es sooner h.0), h)
  | inr later ↦
      let sooner : f.event_time ≤ e.event_time = ground (arith, later) in
      rw later (
        insert_by-All is_earlier (IsSince f.event_time) e es sooner h.0,
        insert_by-IsSorted e es h.1,
      )
]

pub sort_by-IsSorted : (es : List NormalizedEvent) → IsSorted (sort_by is_earlier es)
unfolding sort_by
sort_by-IsSorted [] = tt
sort_by-IsSorted (e ∷ es) = insert_by-IsSorted e (sort_by is_earlier es) (sort_by-IsSorted es)

since_In :
    (t : ℕ) (a : NormalizedEvent) (es : List NormalizedEvent)
    → All (IsSince t) es
    → In a es
    → t ≤ a.event_time
since_In t a (e ∷ es) h (inl same) = rw (sym same) (h.0)
since_In t a (e ∷ es) h (inr i) = since_In t a es h.1 i
since_In t a [] h i = absurd i

time-le-last_time :
    (a : NormalizedEvent) (es : List NormalizedEvent)
    → IsSorted es
    → In a es
    → a.event_time ≤ last_time es
time-le-last_time a [] h i = absurd i
time-le-last_time a (e ∷ []) h (inl same) = rw (sym same) (omega arith)
time-le-last_time a (e ∷ []) h (inr i) = absurd i
time-le-last_time a (e ∷ f ∷ es) h (inl same) =
    let rest = time-le-last_time f (f ∷ es) h.1 (inl refl) in
    let first : e.event_time ≤ f.event_time = h.0.0 in rw (sym same) (omega (arith, first, rest))
time-le-last_time a (e ∷ f ∷ es) h (inr i) = time-le-last_time a (f ∷ es) h.1 i

All-first :
    (P : NormalizedEvent → Type 0) (es fs : List NormalizedEvent) → All P (es ++ fs) → All P es
All-first P [] fs h = tt
All-first P (e ∷ es) fs h = (h.0, All-first P es fs h.1)

IsSorted-parts : (es fs : List NormalizedEvent) → IsSorted (es ++ fs) → IsSorted es × IsSorted fs
IsSorted-parts [] fs h = (tt, h)
IsSorted-parts (e ∷ es) fs h =
    let (p, q) = IsSorted-parts es fs h.1 in ((All-first (IsSince e.event_time) es fs h.0, p), q)

-- An event of a later episode comes more than a window after each event of the first.
later_apart :
    (window : ℕ) (c : List NormalizedEvent) (episodes : List (List NormalizedEvent))
    (a b : NormalizedEvent)
    → AreApart window (c ∷ episodes)
    → IsSorted c
    → IsSorted (concat episodes)
    → In a c
    → In b (concat episodes)
    → a.event_time + window < b.event_time
later_apart window c [] a b h p q i j = absurd j
later_apart window c ([] ∷ episodes) a b h p q i j = absurd h
later_apart window c ((e ∷ es) ∷ episodes) a b (d, gap, rest) p q i (inl same) =
    rw (sym same) (omega (arith, gap, time-le-last_time a c p i))
later_apart window c ((e ∷ es) ∷ episodes) a b (d, gap, rest) p q i (inr j) =
    omega
      (arith, gap, time-le-last_time a c p i, since_In e.event_time b (es ++ concat episodes) q.0 j)

apart-tail :
    (window : ℕ) (c : List NormalizedEvent) (episodes : List (List NormalizedEvent))
    → AreApart window (c ∷ episodes)
    → AreApart window episodes
apart-tail window c [] h = tt
apart-tail window c ([] ∷ episodes) h = absurd h
apart-tail window c ((e ∷ es) ∷ episodes) (d, gap, rest) = rest

-- Two events at most a window apart are in one episode.
pub one_episode :
    (window : ℕ) (episodes : List (List NormalizedEvent)) (a b : NormalizedEvent)
    → AreApart window episodes
    → IsSorted (concat episodes)
    → In a (concat episodes)
    → In b (concat episodes)
    → a.event_time ≤ b.event_time + window
    → b.event_time ≤ a.event_time + window
    → (es : List NormalizedEvent) × In es episodes × In a es × In b es
one_episode window [] a b h s i j u v = absurd i
one_episode window (c ∷ episodes) a b h s i j u v =
    let (p, q) = IsSorted-parts c (concat episodes) s in
    elim (In-append a c (concat episodes) i) [
      | inl ia ↦ elim (In-append b c (concat episodes) j) [
        | inl jb ↦ (c, inl refl, ia, jb)
        | inr jb ↦
            let far = later_apart window c episodes a b h p q ia jb in
            absurd (omega (arith, far, v))
      ]
      | inr ia ↦ elim (In-append b c (concat episodes) j) [
        | inl jb ↦
            let far = later_apart window c episodes b a h p q jb ia in
            absurd (omega (arith, far, u))
        | inr jb ↦
            let (es, there, ka, kb) =
              one_episode window episodes a b (apart-tail window c episodes h) q ia jb u v in
            (es, inr there, ka, kb)
      ]
    ]
