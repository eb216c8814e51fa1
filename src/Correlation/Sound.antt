-- ===== src/Correlation/Sound.antt =====
-- What `correlate_events` reports: episodes of events that share an identifier.
use ai_cybersecurity_soc_ana.Correlation.Carried.{
  AreSound, Carries, add_entities-AreSound, add_named-AreSound,
}
use ai_cybersecurity_soc_ana.Common.{
  All, Bool-cases, In, List, [], arith, inl, inr, length, ltb, refl, ℕ, ◌++◌, ◌∷◌, ◌≡◌, ◌≤◌,
}
use ai_cybersecurity_soc_ana.Common.Sorting.{sort_by, sort_by-All}
use ai_cybersecurity_soc_ana.Correlation.Events.{
  Correlation, EntityType, NormalizedEvent, shared_actor, shared_address, shared_host,
  shared_process,
}
use ai_cybersecurity_soc_ana.Correlation.Episodes.{split_by_gap, unique_event_ids}
use ai_cybersecurity_soc_ana.Correlation.Windows.{AreApart, IsDense, concat, split_by_gap_lem}
use ai_cybersecurity_soc_ana.Correlation.Buckets.{
  BucketKey, Buckets, add_event, correlate_events, correlation_of, fill, is_earlier, is_first,
  report_buckets, report_episodes,
}

-- An event of the list that carries the key.
abbrev pub IsEvidence : List NormalizedEvent → BucketKey → NormalizedEvent → Type 0
IsEvidence events k e = Carries k e × In e events

add_event-AreSound :
    (events : List NormalizedEvent) (e : NormalizedEvent) (buckets : Buckets)
    → In e events
    → AreSound (IsEvidence events) buckets
    → AreSound (IsEvidence events) (add_event e buckets)
unfolding add_event
add_event-AreSound events e buckets there h =
    let P = IsEvidence events in
    add_entities-AreSound P shared_process EntityType.process e.entities e _ (λ s has. (has, there))
      (add_entities-AreSound P shared_address EntityType.ip_address e.entities e _
        (λ s has. (has, there))
        (add_named-AreSound P shared_actor e.actor e _ (λ n. ((n, refl), there))
          (add_named-AreSound P shared_host e.host e buckets (λ n. ((n, refl), there)) h)))

fill-AreSound :
    (all_events events : List NormalizedEvent) (buckets : Buckets)
    → All (λ e. In e all_events) events
    → AreSound (IsEvidence all_events) buckets
    → AreSound (IsEvidence all_events) (fill events buckets)
unfolding fill
fill-AreSound all_events [] buckets i h = h
fill-AreSound all_events (e ∷ events) buckets i h =
    fill-AreSound all_events events (add_event e buckets) i.1
      (add_event-AreSound all_events e buckets i.0 h)

All-weaken :
    (P Q : NormalizedEvent → Type 0) (es : List NormalizedEvent)
    → ((e : NormalizedEvent) → P e → Q e)
    → All P es
    → All Q es
All-weaken P Q [] f h = tt
All-weaken P Q (e ∷ es) f h = (f e h.0, All-weaken P Q es f h.1)

All-In : (events : List NormalizedEvent) → All (λ e. In e events) events
All-In [] = tt
All-In (e ∷ events) = (
  inl refl,
  All-weaken (λ f. In f events) (λ f. In f (e ∷ events)) events (λ f i. inr i) (All-In events),
)

All-split :
    (P : NormalizedEvent → Type 0) (es fs : List NormalizedEvent)
    → All P (es ++ fs)
    → All P es × All P fs
All-split P [] fs h = (tt, h)
All-split P (e ∷ es) fs h = let (p, q) = All-split P es fs h.1 in ((h.0, p), q)

-- Every correlation is made of an episode of events that carry its key, and lists enough events.
abbrev pub IsFounded : ℕ → ℕ → List NormalizedEvent → Correlation → Type 0
IsFounded window minimum events c =
    (k : BucketKey) × (episode : List NormalizedEvent) × (c
      ≡ correlation_of k episode (unique_event_ids episode))
    × IsDense window episode
    × All (IsEvidence events k) episode
    × (minimum ≤ length c.event_ids)

head-IsDense :
    (window : ℕ) (es : List NormalizedEvent) (episodes : List (List NormalizedEvent))
    → AreApart window (es ∷ episodes)
    → IsDense window es × AreApart window episodes
head-IsDense window es [] h = (h, tt)
head-IsDense window es ([] ∷ episodes) h = absurd h
head-IsDense window es ((f ∷ fs) ∷ episodes) (d, g, h) = (d, h)

report_episodes-IsFounded :
    (window minimum : ℕ) (events : List NormalizedEvent) (k : BucketKey)
    (episodes : List (List NormalizedEvent))
    → AreApart window episodes
    → All (IsEvidence events k) (concat episodes)
    → All (IsFounded window minimum events) (report_episodes minimum k episodes)
unfolding report_episodes
report_episodes-IsFounded window minimum events k [] h p = tt
report_episodes-IsFounded window minimum events k (es ∷ episodes) h p =
    let (dense, apart) = head-IsDense window es episodes h in
    let (here, later) = All-split (IsEvidence events k) es (concat episodes) p in
    let rest = report_episodes-IsFounded window minimum events k episodes apart later in
    elim (Bool-cases (ltb (length (unique_event_ids es)) minimum)) [
      | inl few ↦ rw few rest
      | inr enough ↦ rw enough ((k, es, refl, dense, here, ground (arith, enough)), rest)
    ]

All-append :
    (P : Correlation → Type 0) (cs ds : List Correlation) → All P cs → All P ds → All P (cs ++ ds)
All-append P [] ds h k = k
All-append P (c ∷ cs) ds h k = (h.0, All-append P cs ds h.1 k)

report_buckets-IsFounded :
    (window minimum : ℕ) (events : List NormalizedEvent) (buckets : Buckets)
    → All (λ (b : BucketKey × List NormalizedEvent). All (IsEvidence events b.0) b.1) buckets
    → All (IsFounded window minimum events) (report_buckets window minimum buckets)
unfolding report_buckets
report_buckets-IsFounded window minimum events [] h = tt
report_buckets-IsFounded window minimum events ((k, es) ∷ buckets) h =
    let ordered = sort_by is_earlier es in
    let (joined, apart) = split_by_gap_lem window ordered in
    let sorted = sort_by-All is_earlier (IsEvidence events k) es h.0 in
    All-append (IsFounded window minimum events) _ _
      (report_episodes-IsFounded window minimum events k (split_by_gap window ordered) apart
        (rw joined sorted))
      (report_buckets-IsFounded window minimum events buckets h.1)

AreSound-All :
    (events : List NormalizedEvent) (buckets : Buckets)
    → AreSound (IsEvidence events) buckets
    → All (λ (b : BucketKey × List NormalizedEvent). All (IsEvidence events b.0) b.1) buckets
AreSound-All events [] h = tt
AreSound-All events ((k, es) ∷ buckets) h = (h.0, AreSound-All events buckets h.1)

-- Every correlation that is reported has its reason: there is an episode of the given events, each of
-- which carries the correlation's identifier and comes at most a window after the one before, whose
-- distinct ids, bounds and key the correlation lists; and it lists at least the minimum of ids.
pub correlate_events-IsFounded :
    (window minimum : ℕ) (events : List NormalizedEvent)
    → All (IsFounded window minimum events) (correlate_events window minimum events)
unfolding correlate_events
correlate_events-IsFounded window minimum events =
    report_buckets-IsFounded window minimum events (sort_by is_first (fill events [])) (
      sort_by-All is_first
        (λ (b : BucketKey × List NormalizedEvent). All (IsEvidence events b.0) b.1) (fill events [])
        (AreSound-All events (fill events []) (fill-AreSound events events [] (All-In events) tt)))
