-- ===== src/Correlation/Windows.antt =====
-- What an episode is: `_split_by_gap` cuts exactly at the gaps that are wider than the window.
use mathlib.Core.List.{append_assoc}
use ai_cybersecurity_soc_ana.Common.{
  Bool-cases, List, [], ap, arith, inl, inr, ltb, ltb→lt, refl, ℕ, ◌++◌, ◌+◌, ◌<◌, ◌∙◌, ◌∷◌, ◌≡◌,
  ◌≤◌,
}
use ai_cybersecurity_soc_ana.Correlation.Events.{NormalizedEvent}
use ai_cybersecurity_soc_ana.Correlation.Episodes.{last_time, split_by_gap, split_from}

-- An episode has an event, and each event comes at most a window after the one before.
abbrev pub IsDense : ℕ → List NormalizedEvent → Type 0
IsDense window [] = ⊥
IsDense window (e ∷ []) = Unit
IsDense window (e ∷ f ∷ es) = (f.event_time ≤ e.event_time + window) × IsDense window (f ∷ es)

-- Each episode is dense, and the next one starts more than a window after its end.
abbrev pub AreApart : ℕ → List (List NormalizedEvent) → Type 0
AreApart window [] = Unit
AreApart window (c ∷ []) = IsDense window c
AreApart window (c ∷ [] ∷ episodes) = ⊥
AreApart window (c ∷ (e ∷ es) ∷ episodes) =
    IsDense window c × (last_time c + window < e.event_time) × AreApart window ((e ∷ es) ∷ episodes)

abbrev pub concat : List (List NormalizedEvent) → List NormalizedEvent
concat [] = []
concat (es ∷ episodes) = es ++ concat episodes

IsDense-snoc :
    (window : ℕ) (c : NormalizedEvent) (current : List NormalizedEvent) (e : NormalizedEvent)
    → IsDense window (c ∷ current)
    → e.event_time ≤ last_time (c ∷ current) + window
    → IsDense window (c ∷ current ++ e ∷ [])
IsDense-snoc window c [] e h k = (k, tt)
IsDense-snoc window c (d ∷ current) e h k = (h.0, IsDense-snoc window d current e h.1 k)

split_from-lem :
    (window : ℕ) (c : NormalizedEvent) (current events : List NormalizedEvent)
    → IsDense window (c ∷ current)
    → (first : List NormalizedEvent) × (rest : List (List NormalizedEvent)) × (split_from window
          (c ∷ current)
          events
        ≡ (c ∷ first) ∷ rest)
      × (concat ((c ∷ first) ∷ rest) ≡ (c ∷ current) ++ events)
      × AreApart window ((c ∷ first) ∷ rest)
unfolding split_from
split_from-lem window c current [] h = (current, [], refl, refl, h)
split_from-lem window c current (e ∷ events) h =
    elim (Bool-cases (ltb (last_time (c ∷ current) + window) e.event_time)) [
      | inl gap ↦
          let (first, rest, same, joined, apart) = split_from-lem window e [] events tt in
          (
            current,
            (e ∷ first) ∷ rest,
            rw gap (ap (λ l. (c ∷ current) ∷ l) same),
            ap (λ l. (c ∷ current) ++ l) joined,
            (h, ltb→lt (last_time (c ∷ current) + window) e.event_time gap, apart),
          )
      | inr near ↦
          let close_by : e.event_time ≤ last_time (c ∷ current) + window = ground (arith, near) in
          let (first, rest, same, joined, apart) =
            split_from-lem window c (current ++ e ∷ []) events
              (IsDense-snoc window c current e h close_by) in
          (
            first,
            rest,
            rw near same,
            joined ∙ ap (λ l. c ∷ l) (append_assoc current (e ∷ []) events),
            apart,
          )
    ]

-- The episodes together are the events in their order; each has at least one event, within an
-- episode each event comes at most a window after the one before, and between two episodes there is
-- a gap of more than a window.
pub split_by_gap_lem :
    (window : ℕ) (events : List NormalizedEvent)
    → let episodes = split_by_gap window events in
      (concat episodes ≡ events) × AreApart window episodes
unfolding split_by_gap split_from
split_by_gap_lem window [] = (refl, tt)
split_by_gap_lem window (e ∷ events) =
    let (first, rest, same, joined, apart) = split_from-lem window e [] events tt in
    (ap concat same ∙ joined, rw same apart)
