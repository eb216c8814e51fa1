-- ===== src/Correlation/Complete.antt =====
-- That `correlate_events` leaves no pair of related events apart.
use ai_cybersecurity_soc_ana.Correlation.Events.{Correlation, NormalizedEvent}
use ai_cybersecurity_soc_ana.Correlation.Windows.{split_by_gap_lem}
use ai_cybersecurity_soc_ana.Correlation.Episodes.{split_by_gap, unique_event_ids, unique_from}
use ai_cybersecurity_soc_ana.Correlation.Filled.{bucket_of, fill-adds}
use ai_cybersecurity_soc_ana.Correlation.Order.{one_episode, sort_by-IsSorted}
use ai_cybersecurity_soc_ana.Correlation.Carried.{Carries, same_key-eq}
use ai_cybersecurity_soc_ana.Correlation.Buckets.{
  BucketKey, Buckets, correlate_events, correlation_of, fill, is_earlier, is_first, report_buckets,
  report_episodes, same_key,
}
use ai_cybersecurity_soc_ana.Common.Sorting.{sort_by, sort_by-In}
use ai_cybersecurity_soc_ana.Common.{
  Bool-cases, In, In-append_left, In-append_right, List, [], ap, arith, false, inl, inr, length,
  ltb, refl, sym, true, ℕ, ◌+◌, ◌∷◌, ◌≡◌, ◌≢◌, ◌≤◌,
}
use ai_cybersecurity_soc_ana.Common.Sets.{contains}

-- The bucket of a key is one of the buckets.
bucket-In :
    (k : BucketKey) (a : NormalizedEvent) (buckets : Buckets) (held : List NormalizedEvent)
    → bucket_of k buckets ≡ held
    → In a held
    → In (k, held) buckets
unfolding bucket_of
bucket-In k a [] held e h = absurd (rw (sym e) at h)
bucket-In k a ((l, es) ∷ buckets) held e h = elim (Bool-cases (same_key l k)) [
  | inl same ↦ let key = same_key-eq l k same in let bucket : es ≡ held = rw same at e in inl (cc)
  | inr other ↦ inr (bucket-In k a buckets held (rw other at e) h)
]

kept_after :
    (a : ℕ) (seen : List ℕ) (e : NormalizedEvent) (es : List NormalizedEvent)
    → In e es
    → e.event_id ≡ a
    → contains a seen ≡ false
    → contains a (unique_from seen es) ≡ true
unfolding unique_from
kept_after a seen e [] h n u = absurd h
kept_after a seen e (f ∷ es) (inl same) n u =
    let named : f.event_id ≡ a = rw same n in ground (arith, named, u)
kept_after a seen e (f ∷ es) (inr h) n u =
    ground (arith, u, kept_after a seen e es h n, kept_after a (f.event_id ∷ seen) e es h n)

-- An episode's ids are those of its events.
kept_id :
    (e : NormalizedEvent) (es : List NormalizedEvent)
    → In e es
    → contains e.event_id (unique_event_ids es) ≡ true
unfolding unique_event_ids
kept_id e es h = kept_after e.event_id [] e es h refl refl

one_held : (a : ℕ) (l : List ℕ) → contains a l ≡ true → 1 ≤ length l
one_held a [] h = absurd (cc)
one_held a (x ∷ l) h = omega arith

two_held : (a b : ℕ) (l : List ℕ) → a ≢ b → contains a l ≡ true → contains b l ≡ true → 2 ≤ length l
two_held a b [] n h k = absurd (cc)
two_held a b (x ∷ l) n h k = ground (arith, n, h, k, one_held a l, one_held b l)

report-In :
    (minimum : ℕ) (k : BucketKey) (es : List NormalizedEvent)
    (episodes : List (List NormalizedEvent))
    → minimum ≤ length (unique_event_ids es)
    → In es episodes
    → In (correlation_of k es (unique_event_ids es)) (report_episodes minimum k episodes)
unfolding report_episodes
report-In minimum k es [] h i = absurd i
report-In minimum k es (c ∷ episodes) h (inl same) =
    let enough : ltb (length (unique_event_ids c)) minimum ≡ false = rw same (ground (arith, h)) in
    rw enough (inl (ap (λ x. correlation_of k x (unique_event_ids x)) same))
report-In minimum k es (c ∷ episodes) h (inr i) =
    let rest = report-In minimum k es episodes h i in
    elim (Bool-cases (ltb (length (unique_event_ids c)) minimum)) [
      | inl few ↦ rw few rest
      | inr enough ↦ rw enough (inr rest)
    ]

buckets-In :
    (window minimum : ℕ) (k : BucketKey) (es : List NormalizedEvent) (buckets : Buckets)
    (c : Correlation)
    → In (k, es) buckets
    → In c (report_episodes minimum k (split_by_gap window (sort_by is_earlier es)))
    → In c (report_buckets window minimum buckets)
unfolding report_buckets
buckets-In window minimum k es [] c i h = absurd i
buckets-In window minimum k es ((l, fs) ∷ buckets) c (inl same) h =
    In-append_left c (report_episodes minimum l (split_by_gap window (sort_by is_earlier fs)))
      (report_buckets window minimum buckets)
      (rw (ap (λ (b : BucketKey × List NormalizedEvent). b.0) same)
        (rw (ap (λ (b : BucketKey × List NormalizedEvent). b.1) same) h))
buckets-In window minimum k es ((l, fs) ∷ buckets) c (inr i) h =
    In-append_right c (report_episodes minimum l (split_by_gap window (sort_by is_earlier fs)))
      (report_buckets window minimum buckets) (buckets-In window minimum k es buckets c i h)

-- Nothing related is kept apart: two events that carry one identifier, have different ids and are at
-- most a window apart in time are listed together in a correlation with that identifier, unless more
-- than two events are asked for.
pub related_reported :
    (window minimum : ℕ) (events : List NormalizedEvent) (k : BucketKey) (a b : NormalizedEvent)
    → minimum ≤ 2
    → In a events
    → In b events
    → Carries k a
    → Carries k b
    → a.event_id ≢ b.event_id
    → a.event_time ≤ b.event_time + window
    → b.event_time ≤ a.event_time + window
    → (c : Correlation) × In c (correlate_events window minimum events)
      × (◌≡◌ {A = BucketKey} (c.kind, c.key) k)
      × (contains a.event_id c.event_ids ≡ true)
      × (contains b.event_id c.event_ids ≡ true)
unfolding correlate_events
related_reported window minimum events k a b m i j ka kb other u v =
    let buckets = fill events [] in
    let held = bucket_of k buckets in
    let ordered = sort_by is_earlier held in
    let episodes = split_by_gap window ordered in
    let (joined, apart) = split_by_gap_lem window ordered in
    let ia : In a ordered = sort_by-In is_earlier a held (fill-adds k a events [] ka i) in
    let ib : In b ordered = sort_by-In is_earlier b held (fill-adds k b events [] kb j) in
    let (es, there, ja, jb) =
      one_episode window episodes a b apart (rw joined (sort_by-IsSorted held)) (rw joined ia)
        (rw joined ib) u v in
    let ids = unique_event_ids es in
    let two = two_held a.event_id b.event_id ids other (kept_id a es ja) (kept_id b es jb) in
    (
      correlation_of k es ids,
      buckets-In window minimum k held (sort_by is_first buckets) (correlation_of k es ids)
          (sort_by-In is_first (k, held) buckets
            (bucket-In k a buckets held refl (fill-adds k a events [] ka i)))
          (report-In minimum k es episodes (omega (arith, m, two)) there),
      refl,
      kept_id a es ja,
      kept_id b es jb,
    )
