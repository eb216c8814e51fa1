-- ===== src/Scoring/Risk.antt =====
-- services/risk.py. Base scores are tenths; the discount for unconfirmed applicability works in
-- hundredths, which `round(_, 1)` brings back to tenths. A product by 0.6 is never half way between
-- two tenths, so the direction in which Python rounds a tie plays no part.
pub mod Bounds
mod Tests
use ai_cybersecurity_soc_ana.Common.{
  Bool, List, [], false, if◌then◌else◌, leb, ltb, min, true, ℕ, ◌*◌, ◌++◌, ◌+◌, ◌-◌, ◌/◌, ◌∷◌,
}
use ai_cybersecurity_soc_ana.Enums.{Severity, TriagePriority, Verdict}
use ai_cybersecurity_soc_ana.Scoring.Severity.{severity_level}

pub record RiskInputs : Type 0 where
  pub severity_score : ℕ
  pub applicability_confirmed : Bool
  pub exploitation_observed : Bool
  pub internet_reachable : Bool
  pub asset_critical : Bool

pub data FactorName : Type 0 where
  severity exploitation_observed internet_reachable critical_asset : FactorName
  unconfirmed_applicability : FactorName

-- A factor's weight in hundredths: added, or, for the discount, taken off.
pub data Weight : Type 0 where
  adds takes_off : ℕ → Weight

pub record RiskFactor : Type 0 where
  pub name : FactorName
  pub weight : Weight

pub record RiskScore : Type 0 where
  pub score : ℕ
  pub level : Severity
  pub factors : List RiskFactor

factor_if : Bool → FactorName → ℕ → List RiskFactor
factor_if true name n = record { name = name; weight = adds n } ∷ []
factor_if false name n = []

-- The sum before the discount, in tenths.
raised : RiskInputs → ℕ
raised i =
    i.severity_score
    + (if i.exploitation_observed then 15 else 0)
    + (if i.internet_reachable then 10 else 0)
    + (if i.asset_critical then 10 else 0)

-- The sum after the discount, in hundredths.
pub discounted : RiskInputs → ℕ
unfolding raised
discounted i = if i.applicability_confirmed then raised i * 10 else raised i * 6

discount_factor : RiskInputs → List RiskFactor
unfolding raised
discount_factor i =
    if i.applicability_confirmed
    then []
    else record {
      name = unconfirmed_applicability;
      weight = takes_off (raised i * 10 - raised i * 6);
    }
      ∷ []

-- `round(min(10.0, max(0.0, score)), 1)`
round_tenths : ℕ → ℕ
round_tenths hundredths = (min 1000 hundredths + 5) / 10

pub score_risk : RiskInputs → RiskScore
unfolding discounted round_tenths factor_if discount_factor severity_level
score_risk i =
    let final = round_tenths (discounted i) in
    record {
      score = final;
      level = severity_level final;
      factors =
          record { name = severity; weight = adds (i.severity_score * 10) }
          ∷ (factor_if i.exploitation_observed exploitation_observed 150
              ++ (factor_if i.internet_reachable internet_reachable 100
                  ++ (factor_if i.asset_critical critical_asset 100 ++ discount_factor i)));
    }

pub derive_priority : RiskScore → Bool → TriagePriority
derive_priority risk exploited =
    if exploited
    then TriagePriority.urgent
    else if leb 90 risk.score
    then TriagePriority.urgent
    else if leb 70 risk.score
    then TriagePriority.high
    else if leb 40 risk.score
    then TriagePriority.medium
    else TriagePriority.low

-- `max(scores, key=score)`: the first of the highest.
worst : RiskScore → List RiskScore → RiskScore
worst best [] = best
worst best (r ∷ l) = worst (if ltb best.score r.score then r else best) l

pub combine_risk : List RiskScore → RiskScore
unfolding worst severity_level
combine_risk [] = record { score = 0; level = severity_level 0; factors = [] }
combine_risk (r ∷ l) =
    let w = worst r l in record { score = w.score; level = w.level; factors = w.factors }

pub verdict_severity_floor : Verdict → ℕ
verdict_severity_floor Verdict.malicious = 70
verdict_severity_floor Verdict.suspicious = 40
verdict_severity_floor Verdict.benign = 0
