-- ===== src/Scoring/Severity/Score.antt =====
-- How far the score can move, and what moves it.
use ai_cybersecurity_soc_ana.Scoring.Severity.{
  DetectionSignal, corroborating_rules, corroboration_min_weight, score_severity, severity_level,
  asset_bonus, corroboration, strongest, substantive,
}
use ai_cybersecurity_soc_ana.Common.{
  All, List, [], arith, if◌then◌else◌, length, ltb, refl, ℕ, ◌++◌, ◌+◌, ◌<◌, ◌∷◌, ◌≡◌, ◌≤◌,
}
use ai_cybersecurity_soc_ana.Common.Sets.{length-to_set-cons}
use ai_cybersecurity_soc_ana.Enums.{severity_rank}

-- Every signal's weight is at most 10.0, as `DetectionSignal.weight` is validated.
abbrev pub HasValidWeights : List DetectionSignal → Type 0
HasValidWeights = All (λ s. s.weight ≤ 100)

strongest-ge_start :
    (best : DetectionSignal) (l : List DetectionSignal) → best.weight ≤ (strongest best l).weight
unfolding strongest
strongest-ge_start best [] = omega arith
strongest-ge_start best (s ∷ l) =
    ground (arith, strongest-ge_start (if ltb best.weight s.weight then s else best) l)

strongest-ge :
    (best : DetectionSignal) (l : List DetectionSignal)
    → All (λ s. s.weight ≤ (strongest best l).weight) l
unfolding strongest
strongest-ge best [] = tt
strongest-ge best (s ∷ l) = (
  ground (arith, strongest-ge_start (if ltb best.weight s.weight then s else best) l),
  strongest-ge (if ltb best.weight s.weight then s else best) l,
)

strongest_valid :
    (best : DetectionSignal) (l : List DetectionSignal)
    → best.weight ≤ 100
    → HasValidWeights l
    → (strongest best l).weight ≤ 100
unfolding strongest
strongest_valid best [] h v = h
strongest_valid best (s ∷ l) h v =
    strongest_valid (if ltb best.weight s.weight then s else best) l (ground arith) v.1

weights_below :
    (m n : ℕ) (l : List DetectionSignal)
    → HasValidWeights l
    → All (λ s. s.weight ≤ m) l
    → ((w : ℕ) → w ≤ 100 → w ≤ m → w ≤ n)
    → All (λ s. s.weight ≤ n) l
weights_below m n [] v h f = tt
weights_below m n (s ∷ l) v h f = (f s.weight v.0 h.0, weights_below m n l v.1 h.1 f)

corroboration-le : (rules : ℕ) → corroboration rules ≤ 20
unfolding corroboration
corroboration-le rules = omega arith

asset_bonus-le : (assets : List ℕ) → asset_bonus assets ≤ 10
unfolding asset_bonus
asset_bonus-le [] = omega arith
asset_bonus-le (a ∷ assets) = omega arith

-- The score is at least the weight of every signal that fired, at most 10.0, and exceeds the
-- strongest weight by no more than 3.0: however many rules fire, corroboration adds at most 2.0 and
-- critical assets 1.0.
pub score_bounds :
    (s : DetectionSignal) (l : List DetectionSignal) (assets : List ℕ)
    → HasValidWeights (s ∷ l)
    → let score = (score_severity (s ∷ l) assets).score in
      All (λ x. x.weight ≤ score) (s ∷ l) × (score ≤ 100) × (score ≤ (strongest s l).weight + 30)
unfolding score_severity
score_bounds s l assets v =
    let start = strongest-ge_start s l in
    let most = strongest_valid s l v.0 v.1 in
    let rules = length (corroborating_rules (s ∷ l)) in
    (
      (
        ground (arith, strongest-ge_start s l, v.0),
        weights_below _ _ l v.1 (strongest-ge s l) (λ w valid le. ground (arith, most)),
      ),
      ground arith,
      ground (arith, corroboration-le rules, asset_bonus-le assets),
    )

strongest_append :
    (best x : DetectionSignal) (l : List DetectionSignal)
    → x.weight ≤ (strongest best l).weight
    → strongest best (l ++ x ∷ []) ≡ strongest best l
unfolding strongest
strongest_append best x [] h = ground arith
strongest_append best x (s ∷ l) h =
    strongest_append (if ltb best.weight s.weight then s else best) x l h

substantive_append :
    (x : DetectionSignal) (l : List DetectionSignal)
    → x.weight < corroboration_min_weight
    → substantive (l ++ x ∷ []) ≡ substantive l
unfolding substantive
substantive_append x [] h = ground arith
substantive_append x (s ∷ l) h = ground (arith, substantive_append x l h)

-- A context signal, one too light to corroborate, never changes the score or the level of an
-- assessment that already has a signal at least as heavy.
context_changes_nothing :
    (s x : DetectionSignal) (l : List DetectionSignal) (assets : List ℕ)
    → x.weight < corroboration_min_weight
    → x.weight ≤ (strongest s l).weight
    → let a = score_severity (s ∷ l) assets in
      let b = score_severity (s ∷ (l ++ x ∷ [])) assets in (b.score ≡ a.score) × (b.level ≡ a.level)
unfolding score_severity corroborating_rules
context_changes_nothing s x l assets light below =
    let e = strongest_append s x l below in
    let f = substantive_append x (s ∷ l) light in (rw (e, f) refl, rw (e, f) refl)

strongest_mono :
    (a b : DetectionSignal) (l : List DetectionSignal)
    → a.weight ≤ b.weight
    → (strongest a l).weight ≤ (strongest b l).weight
unfolding strongest
strongest_mono a b [] h = h
strongest_mono a b (s ∷ l) h =
    strongest_mono (if ltb a.weight s.weight then s else a) (if ltb b.weight s.weight then s else b)
      l (ground arith)

rules_mono :
    (s x : DetectionSignal) (l : List DetectionSignal)
    → length (corroborating_rules (s ∷ l)) ≤ length (corroborating_rules (x ∷ s ∷ l))
unfolding corroborating_rules substantive
rules_mono s x l = ground (
  arith,
  length-to_set-cons x.rule_id (s.rule_id ∷ substantive l),
  length-to_set-cons x.rule_id (substantive l),
)

-- More evidence never lowers the score.
evidence_raises :
    (s x : DetectionSignal) (l : List DetectionSignal) (assets : List ℕ)
    → (score_severity (s ∷ l) assets).score ≤ (score_severity (x ∷ s ∷ l) assets).score
unfolding score_severity
evidence_raises s x l assets =
    let more = rules_mono s x l in
    let heavier = strongest_mono s (if ltb x.weight s.weight then s else x) l (ground arith) in
    let best = strongest s l in
    let best' = strongest (if ltb x.weight s.weight then s else x) l in
    unfold corroboration in omega (arith, more, heavier)

-- A higher score never has a lower level.
pub severity_level_mono :
    (a b : ℕ) → a ≤ b → severity_rank (severity_level a) ≤ severity_rank (severity_level b)
unfolding severity_level
severity_level_mono a b h = ground arith
