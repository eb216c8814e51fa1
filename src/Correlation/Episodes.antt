-- ===== src/Correlation/Episodes.antt =====
-- `_split_by_gap` and `_unique_event_ids` of tools/correlation.py.
use ai_cybersecurity_soc_ana.Common.{List, [], if◌then◌else◌, ltb, ℕ, ◌++◌, ◌+◌, ◌∷◌}
use ai_cybersecurity_soc_ana.Common.Sets.{contains}
use ai_cybersecurity_soc_ana.Correlation.Events.{NormalizedEvent}

-- `events[-1].event_time`
abbrev pub last_time : List NormalizedEvent → ℕ
last_time [] = 0
last_time (e ∷ []) = e.event_time
last_time (e ∷ f ∷ es) = last_time (f ∷ es)

-- The loop, with the current episode.
unfoldable pub split_from :
    ℕ → List NormalizedEvent → List NormalizedEvent → List (List NormalizedEvent)
split_from window [] [] = []
split_from window (c ∷ current) [] = (c ∷ current) ∷ []
split_from window [] (e ∷ events) = split_from window (e ∷ []) events
split_from window (c ∷ current) (e ∷ events) =
    let apart = split_from window (e ∷ []) events in
    let within = split_from window (c ∷ current ++ e ∷ []) events in
    if ltb (last_time (c ∷ current) + window) e.event_time then (c ∷ current) ∷ apart else within

unfoldable pub split_by_gap : ℕ → List NormalizedEvent → List (List NormalizedEvent)
unfolding split_from
split_by_gap window events = split_from window [] events

unfoldable pub unique_from : List ℕ → List NormalizedEvent → List ℕ
unique_from seen [] = []
unique_from seen (e ∷ events) =
    let known = unique_from seen events in
    let fresh = unique_from (e.event_id ∷ seen) events in
    if contains e.event_id seen then known else e.event_id ∷ fresh

unfoldable pub unique_event_ids : List NormalizedEvent → List ℕ
unfolding unique_from
unique_event_ids events = unique_from [] events
