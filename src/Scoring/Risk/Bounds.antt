-- ===== src/Scoring/Risk/Bounds.antt =====
-- What the risk score promises to the remediation queue.
use mathlib.Core.List.{Memᴰ}
use ai_cybersecurity_soc_ana.Common.{
  All, Bool, Bool-cases, List, [], arith, false, if◌then◌else◌, inl, inr, ltb, refl, true, ℕ, ◌-◌,
  ◌∷◌, ◌≡◌, ◌≢◌, ◌≤◌, ◌⊎◌,
}
use ai_cybersecurity_soc_ana.Enums.{Severity, TriagePriority, severity_rank, priority_rank}
use ai_cybersecurity_soc_ana.Scoring.Risk.{
  RiskInputs, RiskScore, combine_risk, derive_priority, discounted, score_risk, raised,
  round_tenths, worst,
}

-- A confirmed finding of severity up to 10.0 is never scored below its severity, and no finding
-- above 10.0.
pub risk_bounds :
    (i : RiskInputs)
    → i.severity_score ≤ 100
    → ((score_risk i).score ≤ 100)
      × (i.applicability_confirmed ≡ true → i.severity_score ≤ (score_risk i).score)
unfolding score_risk
risk_bounds i h = ground arith

-- A candidate, however severe, exposed and exploited, never scores above 8.1, so its level is never
-- critical: only a confirmed finding can be.
pub candidate_never_critical :
    (i : RiskInputs)
    → i.severity_score ≤ 100
    → i.applicability_confirmed ≡ false
    → ((score_risk i).score ≤ 81) × ((score_risk i).level ≢ Severity.critical)
unfolding score_risk
candidate_never_critical i h c = ground arith

-- One finding is at least as bad as another in every input that the prioritizer reads.
pub record IsWorse (i j : RiskInputs) : Type 0 where
  pub severity : i.severity_score ≤ j.severity_score
  pub confirmed : i.applicability_confirmed ≡ true → j.applicability_confirmed ≡ true
  pub exploited : i.exploitation_observed ≡ true → j.exploitation_observed ≡ true
  pub reachable : i.internet_reachable ≡ true → j.internet_reachable ≡ true
  pub critical : i.asset_critical ≡ true → j.asset_critical ≡ true

raised_mono : (i j : RiskInputs) → IsWorse i j → raised i ≤ raised j
unfolding raised
raised_mono i j h = ground arith

discounted_mono : (i j : RiskInputs) → IsWorse i j → discounted i ≤ discounted j
unfolding discounted
discounted_mono i j h = ground (arith, raised_mono i j h)

round_tenths_mono : (a b : ℕ) → a ≤ b → round_tenths a ≤ round_tenths b
unfolding round_tenths
round_tenths_mono a b h = omega arith

-- A finding that is at least as bad in every input never scores lower.
pub risk_mono : (i j : RiskInputs) → IsWorse i j → (score_risk i).score ≤ (score_risk j).score
unfolding score_risk
risk_mono i j h = round_tenths_mono (discounted i) (discounted j) (discounted_mono i j h)

-- Without observed exploitation the queue's priority follows the level of the score: urgent for
-- critical, high for high, medium for medium, and low for the rest. Observed exploitation is always
-- urgent.
pub priority_follows_level :
    (i : RiskInputs) (exploited : Bool)
    → let risk = score_risk i in
      let priority = derive_priority risk exploited in
      (exploited ≡ true → priority ≡ TriagePriority.urgent)
      × (exploited ≡ false → (priority_rank priority ≡ severity_rank risk.level - 1))
unfolding score_risk derive_priority
priority_follows_level i exploited = ground arith

worst-ge_start : (best : RiskScore) (l : List RiskScore) → best.score ≤ (worst best l).score
unfolding worst
worst-ge_start best [] = omega arith
worst-ge_start best (r ∷ l) =
    ground (arith, worst-ge_start (if ltb best.score r.score then r else best) l)

worst-ge : (best : RiskScore) (l : List RiskScore) → All (λ r. r.score ≤ (worst best l).score) l
unfolding worst
worst-ge best [] = tt
worst-ge best (r ∷ l) = (
  ground (arith, worst-ge_start (if ltb best.score r.score then r else best) l),
  worst-ge (if ltb best.score r.score then r else best) l,
)

worst_member :
    (best : RiskScore) (l : List RiskScore) → (worst best l ≡ best) ⊎ Memᴰ (worst best l) l
unfolding worst
worst_member best [] = inl refl
worst_member best (r ∷ l) = elim (Bool-cases (ltb best.score r.score)) [
  | inl over ↦
      rw over (elim (worst_member r l) [ inl e ↦ inr (Memᴰ.head e) | inr m ↦ inr (Memᴰ.tail m) ])
  | inr under ↦ rw under (elim (worst_member best l) [ inl e ↦ inl e | inr m ↦ inr (Memᴰ.tail m) ])
]

-- The plan's overall risk is that of one of its findings, score, level and factors, and no finding
-- scores higher.
pub combined_is_worst :
    (r : RiskScore) (l : List RiskScore)
    → Memᴰ (combine_risk (r ∷ l)) (r ∷ l)
      × All (λ x. x.score ≤ (combine_risk (r ∷ l)).score) (r ∷ l)
unfolding combine_risk
combined_is_worst r l = elim (worst_member r l) [
  | inl e ↦ (Memᴰ.head e, (worst-ge_start r l, worst-ge r l))
  | inr m ↦ (Memᴰ.tail m, (worst-ge_start r l, worst-ge r l))
]
