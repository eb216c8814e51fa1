-- ===== src/Scoring/Risk/Tests.antt =====
-- Risks of single findings and of a plan.
use ai_cybersecurity_soc_ana.Scoring.Risk.{RiskInputs, combine_risk, score_risk}
use ai_cybersecurity_soc_ana.Common.{All, [], arith, false, refl, true, ◌∷◌, ◌≡◌, ◌≢◌, ◌≤◌}
use ai_cybersecurity_soc_ana.Enums.{Severity}
use ai_cybersecurity_soc_ana.Scoring.Risk.Bounds.{candidate_never_critical, combined_is_worst}
use mathlib.Core.List.{Memᴰ}

abbrev exposed : RiskInputs
exposed = record {
  severity_score = 75;
  applicability_confirmed = true;
  exploitation_observed = true;
  internet_reachable = true;
  asset_critical = false;
}

abbrev lead : RiskInputs
lead = record exposed {
  applicability_confirmed = false;
  asset_critical = true;
  severity_score = 81;
}

scores : ((score_risk exposed).score ≡ 100) × ((score_risk lead).score ≡ 70)
unfolding score_risk
scores = (refl, refl)

candidate_never_critical_example :
    ((score_risk lead).score ≤ 81) × ((score_risk lead).level ≢ Severity.critical)
candidate_never_critical_example = candidate_never_critical lead (omega arith) refl

combined_is_worst_instance :
    let plan = score_risk lead ∷ score_risk exposed ∷ [] in
    Memᴰ (combine_risk plan) plan × All (λ x. x.score ≤ (combine_risk plan).score) plan
combined_is_worst_instance = combined_is_worst (score_risk lead) (score_risk exposed ∷ [])
