-- ===== src/Correlation/Tests.antt =====
-- The correlation of a few events.
use ai_cybersecurity_soc_ana.Correlation.Complete.{related_reported}
use ai_cybersecurity_soc_ana.Correlation.Sound.{IsFounded, correlate_events-IsFounded}
use ai_cybersecurity_soc_ana.Correlation.Buckets.{BucketKey, correlate_events}
use ai_cybersecurity_soc_ana.Correlation.Events.{Correlation, NormalizedEvent, shared_host}
use ai_cybersecurity_soc_ana.Common.Sets.{contains}
use ai_cybersecurity_soc_ana.Common.Text.{Text, codes, lower}
use ai_cybersecurity_soc_ana.Common.{All, In, List, [], arith, inl, inr, refl, true, ℕ, ◌∷◌, ◌≡◌}

-- Two events of one host within a minute, the names in different case, and one of a later day.
abbrev at : ℕ → ℕ → Text → NormalizedEvent
at id time name = record {
  event_id = id;
  event_time = time;
  host = name;
  actor = [];
  entities = [];
}

abbrev first : NormalizedEvent
first = at 1 100 (codes "Web1")

abbrev second : NormalizedEvent
second = at 2 130 (codes "web1")

abbrev much_later : NormalizedEvent
much_later = at 3 90000 (codes "web1")

abbrev events : List NormalizedEvent
events = second ∷ much_later ∷ first ∷ []

one_correlation :
    correlate_events 60 2 events
    ≡ record {
      kind = shared_host;
      key = codes "web1";
      event_ids = 1 ∷ 2 ∷ [];
      window_start = 100;
      window_end = 130;
    }
      ∷ []
unfolding correlate_events
one_correlation = refl

correlate_events-IsFounded_example : All (IsFounded 60 2 events) (correlate_events 60 2 events)
correlate_events-IsFounded_example = correlate_events-IsFounded 60 2 events

related_reported_example :
    (c : Correlation) × In c (correlate_events 60 2 events)
    × (◌≡◌ {A = BucketKey} (c.kind, c.key) (shared_host, codes "web1"))
    × (contains 1 c.event_ids ≡ true)
    × (contains 2 c.event_ids ≡ true)
unfolding lower
related_reported_example =
    related_reported 60 2 events (shared_host, codes "web1") first second (omega arith)
      (inr (inr (inl refl))) (inl refl) ((λ e. cc), refl) ((λ e. cc), refl) (omega arith)
      (omega arith) (omega arith)
