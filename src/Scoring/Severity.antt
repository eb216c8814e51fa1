-- ===== src/Scoring/Severity.antt =====
-- tools/severity.py. A weight or score of 7.5 is 75 tenths; the rule catalogue uses no finer weight,
-- so `round(_, 1)` changes nothing. A confidence is counted in ten-thousandths.
pub mod Score
pub mod Verdicts
mod Tests
use ai_cybersecurity_soc_ana.Common.{
  Bool, List, Option, [], any, false, if◌then◌else◌, leb, length, ltb, min, none, not, some, true,
  ℕ, ◌&&◌, ◌*◌, ◌++◌, ◌+◌, ◌-◌, ◌||◌, ◌∷◌,
}
use ai_cybersecurity_soc_ana.Common.Sets.{difference, to_set}
use ai_cybersecurity_soc_ana.Enums
use ai_cybersecurity_soc_ana.Enums.{
  Severity, TriagePriority, Verdict, is_benign, is_suspicious, is_malicious, is_critical, is_high,
  is_medium,
}

-- The part of `DetectionSignal` that the scoring reads.
pub record DetectionSignal : Type 0 where
  pub rule_id : ℕ
  pub weight : ℕ
  pub event_ids : List ℕ

pub data IocReputation : Type 0 where
  malicious suspicious benign unknown : IocReputation

-- The part of `IocIndicator` that the scoring reads.
pub record IocIndicator : Type 0 where
  pub reputation : IocReputation
  pub enriched : Bool

asserts_bad : IocReputation → Bool
asserts_bad IocReputation.malicious = true
asserts_bad IocReputation.suspicious = true
asserts_bad _ = false

pub is_hostile : IocIndicator → Bool
unfolding asserts_bad
is_hostile ioc = ioc.enriched && asserts_bad ioc.reputation

-- One line of the assessment's `factors`, with the numbers that it reports.
pub data Factor : Type 0 where
  no_signals : Factor
  strongest_signal : (rule_id weight : ℕ) → Factor
  rules_corroborate : (count amount : ℕ) → Factor
  context_rules : (count : ℕ) → Factor
  critical_assets : (amount : ℕ) → Factor

pub record SeverityAssessment : Type 0 where
  pub score : ℕ
  pub level : Severity
  pub factors : List Factor

abbrev pub corroboration_min_weight : ℕ
corroboration_min_weight = 40

substantive : List DetectionSignal → List ℕ
substantive [] = []
substantive (s ∷ l) =
    if leb corroboration_min_weight s.weight then s.rule_id ∷ substantive l else substantive l

pub corroborating_rules : List DetectionSignal → List ℕ
unfolding substantive
corroborating_rules l = to_set (substantive l)

-- `_SEVERITY_BANDS`, checked in descending order.
unfoldable pub severity_level : ℕ → Severity
severity_level score =
    if leb 90 score
    then Severity.critical
    else if leb 70 score
    then Severity.high
    else if leb 40 score
    then Severity.medium
    else if leb 1 score
    then Severity.low
    else Severity.info

-- `max(signals, key=weight)`: the first of the heaviest.
pub strongest : DetectionSignal → List DetectionSignal → DetectionSignal
strongest best [] = best
strongest best (s ∷ l) = strongest (if ltb best.weight s.weight then s else best) l

corroboration : ℕ → ℕ
corroboration rules = min 20 (5 * (rules - 1))

asset_bonus : List ℕ → ℕ
asset_bonus [] = 0
asset_bonus (a ∷ assets) = 10

rule_ids : List DetectionSignal → List ℕ
rule_ids [] = []
rule_ids (s ∷ l) = s.rule_id ∷ rule_ids l

when : Bool → Factor → List Factor
when true f = f ∷ []
when false f = []

factors_of : DetectionSignal → ℕ → ℕ → ℕ → List Factor
unfolding corroboration when
factors_of best rules context bonus =
    strongest_signal best.rule_id best.weight
    ∷ (when (ltb 0 (corroboration rules)) (rules_corroborate rules (corroboration rules))
        ++ (when (ltb 0 context) (context_rules context)
            ++ when (ltb 0 bonus) (critical_assets bonus)))

pub score_severity : List DetectionSignal → List ℕ → SeverityAssessment
unfolding corroborating_rules strongest corroboration asset_bonus rule_ids factors_of severity_level
score_severity [] assets = record { score = 0; level = Severity.info; factors = no_signals ∷ [] }
score_severity (s ∷ l) assets =
    let best = strongest s l in
    let rules = length (corroborating_rules (s ∷ l)) in
    let context = length (difference (to_set (rule_ids (s ∷ l))) (corroborating_rules (s ∷ l))) in
    let score = min 100 (best.weight + corroboration rules + asset_bonus assets) in
    record {
      score = score;
      level = severity_level score;
      factors = factors_of best rules context (asset_bonus assets);
    }

pub derive_verdict : SeverityAssessment → List DetectionSignal → List IocIndicator → Verdict
unfolding corroborating_rules is_hostile
derive_verdict severity [] iocs = Verdict.benign
derive_verdict severity (s ∷ l) iocs =
    if any is_hostile iocs
    then Verdict.malicious
    else if leb 70 severity.score && leb 2 (length (corroborating_rules (s ∷ l)))
    then Verdict.malicious
    else Verdict.suspicious

pub derive_priority : Verdict → SeverityAssessment → Bool → TriagePriority
derive_priority verdict severity asset =
    if is_benign verdict
    then TriagePriority.low
    else if is_critical severity.level || (asset && is_malicious verdict)
    then TriagePriority.urgent
    else if is_high severity.level || asset
    then TriagePriority.high
    else if is_medium severity.level
    then TriagePriority.medium
    else TriagePriority.low

-- Why a case is escalated.
pub data Reason : Type 0 where
  low_confidence missing_evidence inconclusive : Reason

-- The result `(True, reason)` is `some reason`, and `(False, None)` is `none`.
pub assess_escalation : Verdict → SeverityAssessment → ℕ → Bool → List ℕ → Option Reason
assess_escalation verdict severity confidence asset gaps =
    let high_impact = is_high severity.level || (is_critical severity.level || asset) in
    if not high_impact || is_benign verdict
    then none
    else if ltb confidence 6000
    then some low_confidence
    else if ltb 0 (length gaps)
    then some missing_evidence
    else if is_suspicious verdict
    then some inconclusive
    else none
