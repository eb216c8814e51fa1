-- ===== src/Correlation/Buckets.antt =====
-- `correlate_events` of tools/correlation.py.
use ai_cybersecurity_soc_ana.Common.{
  Bool, List, [], if◌then◌else◌, leb, length, ltb, ℕ, ◌&&◌, ◌++◌, ◌==◌, ◌||◌, ◌∷◌,
}
use ai_cybersecurity_soc_ana.Common.Sorting.{sort_by}
use ai_cybersecurity_soc_ana.Common.Text.{Text, eq_text, leb_text, lower}
use ai_cybersecurity_soc_ana.Correlation.Events.{
  Correlation, CorrelationKind, Entity, EntityType, NormalizedEvent, shared_actor, shared_address,
  shared_host, shared_process,
}
use ai_cybersecurity_soc_ana.Correlation.Episodes.{last_time, split_by_gap, unique_event_ids}

-- The key of a bucket, and the values of the kinds in the order of their texts.
abbrev pub BucketKey : Type 0
BucketKey = CorrelationKind × Text

abbrev pub kind_rank : CorrelationKind → ℕ
kind_rank shared_actor = 0
kind_rank shared_address = 1
kind_rank shared_host = 2
kind_rank shared_process = 3

abbrev pub same_key : BucketKey → BucketKey → Bool
same_key (k, s) (l, t) = (kind_rank k == kind_rank l) && eq_text s t

abbrev pub Buckets : Type 0
Buckets = List (BucketKey × List NormalizedEvent)

-- `buckets[key].append(event)` on a `defaultdict`.
unfoldable pub add_to : BucketKey → NormalizedEvent → Buckets → Buckets
add_to k e [] = (k, e ∷ []) ∷ []
add_to k e ((l, es) ∷ buckets) =
    let rest = add_to k e buckets in
    if same_key l k then (l, es ++ e ∷ []) ∷ buckets else (l, es) ∷ rest

-- An absent name adds nothing.
unfoldable pub add_named : CorrelationKind → Text → NormalizedEvent → Buckets → Buckets
unfolding add_to lower
add_named kind [] e buckets = buckets
add_named kind (c ∷ s) e buckets = add_to (kind, lower (c ∷ s)) e buckets

abbrev pub entity_rank : EntityType → ℕ
entity_rank EntityType.host = 0
entity_rank EntityType.user = 1
entity_rank EntityType.ip_address = 2
entity_rank EntityType.domain = 3
entity_rank EntityType.url = 4
entity_rank EntityType.file_hash = 5
entity_rank EntityType.file_path = 6
entity_rank EntityType.process = 7

-- The inner loop over the entities, for one entry of `_CORRELATION_ENTITIES`.
unfoldable pub add_entities :
    CorrelationKind → EntityType → List Entity → NormalizedEvent → Buckets → Buckets
unfolding add_to lower
add_entities kind type [] e buckets = buckets
add_entities kind type (n ∷ entities) e buckets = add_entities kind type entities e (
    if entity_rank n.type == entity_rank type
    then add_to (kind, lower n.value) e buckets
    else buckets)

unfoldable pub add_event : NormalizedEvent → Buckets → Buckets
unfolding add_named add_entities
add_event e buckets = add_entities shared_process EntityType.process e.entities e (
    add_entities shared_address EntityType.ip_address e.entities e
      (add_named shared_actor e.actor e (add_named shared_host e.host e buckets)))

unfoldable pub fill : List NormalizedEvent → Buckets → Buckets
unfolding add_event
fill [] buckets = buckets
fill (e ∷ events) buckets = fill events (add_event e buckets)

-- The orders of the two sorts.
abbrev pub is_first : BucketKey × List NormalizedEvent → BucketKey × List NormalizedEvent → Bool
is_first ((k, s), es) ((l, t), fs) =
    ltb (kind_rank k) (kind_rank l) || ((kind_rank k == kind_rank l) && leb_text s t)

abbrev pub is_earlier : NormalizedEvent → NormalizedEvent → Bool
is_earlier a b =
    ltb a.event_time b.event_time || ((a.event_time == b.event_time) && leb a.event_id b.event_id)

abbrev pub first_time : List NormalizedEvent → ℕ
first_time [] = 0
first_time (e ∷ es) = e.event_time

abbrev pub correlation_of : BucketKey → List NormalizedEvent → List ℕ → Correlation
correlation_of (kind, key) episode ids = record {
  kind = kind;
  key = key;
  event_ids = ids;
  window_start = first_time episode;
  window_end = last_time episode;
}

-- The loop over the episodes of a bucket.
unfoldable pub report_episodes : ℕ → BucketKey → List (List NormalizedEvent) → List Correlation
unfolding unique_event_ids
report_episodes minimum k [] = []
report_episodes minimum k (episode ∷ episodes) =
    let ids = unique_event_ids episode in
    let rest = report_episodes minimum k episodes in
    if ltb (length ids) minimum then rest else correlation_of k episode ids ∷ rest

-- The loop over the sorted buckets.
unfoldable pub report_buckets : ℕ → ℕ → Buckets → List Correlation
unfolding report_episodes split_by_gap sort_by
report_buckets window minimum [] = []
report_buckets window minimum ((k, bucket) ∷ buckets) =
    report_episodes minimum k (split_by_gap window (sort_by is_earlier bucket))
    ++ report_buckets window minimum buckets

unfoldable pub correlate_events : ℕ → ℕ → List NormalizedEvent → List Correlation
unfolding report_buckets fill sort_by leb_text
correlate_events window minimum events =
    report_buckets window minimum (sort_by is_first (fill events []))
