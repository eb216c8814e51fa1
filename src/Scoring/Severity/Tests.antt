-- ===== src/Scoring/Severity/Tests.antt =====
-- Assessments of small incidents.
use ai_cybersecurity_soc_ana.Common.{
  All, List, [], any, arith, refl, true, ◌+◌, ◌↔◌, ◌∷◌, ◌≡◌, ◌≢◌, ◌≤◌, ◌⊎◌,
}
use ai_cybersecurity_soc_ana.Common.Sets.{difference, to_set}
use ai_cybersecurity_soc_ana.Enums.{Severity, Verdict}
use ai_cybersecurity_soc_ana.Scoring.Severity.{
  DetectionSignal, SeverityAssessment, context_rules, corroborating_rules, critical_assets,
  derive_verdict, is_hostile, rules_corroborate, score_severity, severity_level, strongest,
  strongest_signal,
}
use ai_cybersecurity_soc_ana.Scoring.Severity.Score.{score_bounds}
use ai_cybersecurity_soc_ana.Scoring.Severity.Verdicts.{HasTwoRules, malicious_iff}

abbrev brute_force : DetectionSignal
brute_force = record { rule_id = 1; weight = 75; event_ids = 10 ∷ 11 ∷ [] }

abbrev new_service : DetectionSignal
new_service = record { rule_id = 2; weight = 60; event_ids = 12 ∷ [] }

abbrev interpreter : DetectionSignal
interpreter = record { rule_id = 3; weight = 25; event_ids = 12 ∷ [] }

program : Unit {0}
unfolding score_severity corroborating_rules strongest derive_verdict is_hostile to_set difference
    severity_level
program = tt

abbrev assessed : SeverityAssessment
assessed = record {
  score = 90;
  level = Severity.critical;
  factors =
      strongest_signal 1 75 ∷ rules_corroborate 2 5 ∷ context_rules 1 ∷ critical_assets 10 ∷ [];
}

assesses : score_severity (interpreter ∷ brute_force ∷ new_service ∷ []) (7 ∷ []) ≡ assessed
unfolding program
assesses = refl

hardens :
    derive_verdict assessed (interpreter ∷ brute_force ∷ new_service ∷ []) [] ≡ Verdict.malicious
unfolding program
hardens = refl

score_bounds_instance :
    let score = (score_severity (brute_force ∷ new_service ∷ []) (7 ∷ [])).score in
    All (λ x. x.weight ≤ score) (brute_force ∷ new_service ∷ [])
    × (score ≤ 100)
    × (score ≤ (strongest brute_force (new_service ∷ [])).weight + 30)
score_bounds_instance = score_bounds brute_force (new_service ∷ []) (7 ∷ []) (omega arith)

malicious_iff_example : (derive_verdict assessed (brute_force ∷ []) [] ≡ Verdict.malicious) ↔ (
    (◌≢◌ {A = List DetectionSignal} (brute_force ∷ []) [])
    × ((any is_hostile [] ≡ true) ⊎ ((70 ≤ assessed.score) × HasTwoRules (brute_force ∷ []))))
malicious_iff_example = malicious_iff assessed (brute_force ∷ []) []

abbrev at_level : Severity → SeverityAssessment
at_level level = record assessed { level = level }
