-- ===== src/Scoring/Severity/Verdicts.antt =====
-- When a verdict hardens, when a case escalates, and which case comes first.
use ai_cybersecurity_soc_ana.Common.Sets.{contains, to_set, two_members_iff}
use ai_cybersecurity_soc_ana.Common.{
  All, Bool, Bool-cases, In, List, [], any, ap, arith, false, inl, inr, leb, length, none, refl,
  sym, true, ℕ, ◌<◌, ◌==◌, ◌↔◌, ◌∙◌, ◌∷◌, ◌≡◌, ◌≢◌, ◌≤◌, ◌⊎◌,
}
use ai_cybersecurity_soc_ana.Enums.{Severity, TriagePriority, Verdict, severity_rank, priority_rank}
use ai_cybersecurity_soc_ana.Scoring.Severity.{
  DetectionSignal, IocIndicator, SeverityAssessment, assess_escalation, corroborating_rules,
  corroboration_min_weight, derive_priority, derive_verdict, is_hostile, substantive,
}

-- Two signals that each weigh 4.0 or more and come from different rules.
abbrev pub HasTwoRules : List DetectionSignal → Type 0
HasTwoRules signals =
    (a : DetectionSignal) × (b : DetectionSignal) × In a signals
    × In b signals
    × (40 ≤ a.weight)
    × (40 ≤ b.weight)
    × (a.rule_id ≢ b.rule_id)

In-substantive :
    (s : DetectionSignal) (l : List DetectionSignal)
    → In s l
    → 40 ≤ s.weight
    → contains s.rule_id (substantive l) ≡ true
unfolding substantive
In-substantive s [] i heavy = absurd i
In-substantive s (x ∷ l) (inl e) heavy = rw e (ground arith)
In-substantive s (x ∷ l) (inr i) heavy = ground (arith, In-substantive s l i heavy)

substantive-In :
    (rule : ℕ) (l : List DetectionSignal)
    → contains rule (substantive l) ≡ true
    → (s : DetectionSignal) × In s l × (40 ≤ s.weight) × (s.rule_id ≡ rule)
unfolding substantive
substantive-In rule [] h = absurd (cc)
substantive-In rule (x ∷ l) h =
    let later = substantive-In rule l in
    elim (Bool-cases (leb corroboration_min_weight x.weight)) [
      | inl heavy ↦ elim (Bool-cases (rule == x.rule_id)) [
        | inl here ↦ (x, inl refl, ground arith, ground arith)
        | inr other ↦ let (s, i, w, e) = later (ground arith) in (s, inr i, w, e)
      ]
      | inr light ↦ let (s, i, w, e) = later (ground arith) in (s, inr i, w, e)
    ]

two_rules_iff :
    (signals : List DetectionSignal)
    → (2 ≤ length (corroborating_rules signals)) ↔ HasTwoRules signals
unfolding corroborating_rules
two_rules_iff signals =
    let members = two_members_iff (substantive signals) in
    (
      λ h.
          let (x, y, i, j, n) = members.0 h in
          let (a, in_a, heavy_a, at_a) = substantive-In x signals i in
          let (b, in_b, heavy_b, at_b) = substantive-In y signals j in
          (a, b, in_a, in_b, heavy_a, heavy_b, λ e. n (sym at_a ∙ e ∙ at_b)),
      λ (a, b, i, j, u, v, n).
          members.1
            (a.rule_id, b.rule_id, In-substantive a signals i u, In-substantive b signals j v, n),
    )

counted_iff :
    (severity : SeverityAssessment) (signals : List DetectionSignal) (iocs : List IocIndicator)
    → (derive_verdict severity signals iocs ≡ Verdict.malicious) ↔ (
        (signals ≢ [])
        × ((any is_hostile iocs ≡ true)
            ⊎ ((70 ≤ severity.score) × (2 ≤ length (corroborating_rules signals)))))
unfolding derive_verdict
counted_iff severity [] iocs = ((λ h. absurd (ground arith)), λ h. absurd (h.0 refl))
counted_iff severity (s ∷ l) iocs = (
  (λ h. ((λ e. ground arith), ground arith)),
  λ h. elim (h.1) [ inl hostile ↦ ground arith | inr (high, many) ↦ ground arith ],
)

-- An assessment is malicious exactly when something fired and either an intelligence source calls
-- an indicator bad, or the score reaches 7.0 and two of the signals, each of weight 4.0 or more, come
-- from different rules.
pub malicious_iff :
    (severity : SeverityAssessment) (signals : List DetectionSignal) (iocs : List IocIndicator)
    → (derive_verdict severity signals iocs ≡ Verdict.malicious) ↔ (
        (signals ≢ [])
        × ((any is_hostile iocs ≡ true) ⊎ ((70 ≤ severity.score) × HasTwoRules signals)))
malicious_iff severity signals iocs =
    let counted = counted_iff severity signals iocs in
    let rules = two_rules_iff signals in
    (
      λ h.
          let (fired, why) = counted.0 h in
          (
            fired,
            elim why [ inl hostile ↦ inl hostile | inr (high, many) ↦ inr (high, rules.0 many) ],
          ),
      λ (fired, why). counted.1 (
        fired,
        elim why [ inl hostile ↦ inl hostile | inr (high, two) ↦ inr (high, rules.1 two) ],
      ),
    )

-- Every signal comes from one rule.
abbrev pub IsOneRule : ℕ → List DetectionSignal → Type 0
IsOneRule rule = All (λ s. s.rule_id ≡ rule)

contains_rule :
    (rule : ℕ) (l : List DetectionSignal)
    → IsOneRule rule l
    → (substantive l ≡ [])
      ⊎ ((contains rule (substantive l) ≡ true) × (length (to_set (substantive l)) ≡ 1))
unfolding substantive to_set
contains_rule rule [] h = inl refl
contains_rule rule (s ∷ l) h = elim (contains_rule rule l h.1) [
  | inl none_yet ↦ elim (Bool-cases (leb corroboration_min_weight s.weight)) [
    | inl heavy ↦ inr (ground (arith, h.0), ground (arith, h.0))
    | inr light ↦ inl (ground arith)
  ]
  | inr (in_set, one) ↦ inr (ground (arith, h.0), ground (arith, h.0))
]

-- However often and however heavily one rule fires, it cannot make a verdict malicious on its own.
pub one_rule_is_no_verdict :
    (severity : SeverityAssessment) (rule : ℕ) (signals : List DetectionSignal)
    (iocs : List IocIndicator)
    → IsOneRule rule signals
    → any is_hostile iocs ≡ false
    → derive_verdict severity signals iocs ≢ Verdict.malicious
unfolding corroborating_rules to_set
one_rule_is_no_verdict severity rule signals iocs h quiet e =
    elim (((counted_iff severity signals iocs).0 e).1) [
      | inl hostile ↦ cc
      | inr (_, many) ↦ elim (contains_rule rule signals h) [
        | inl nothing ↦ ground (arith, ap (λ l. length (to_set l)) nothing)
        | inr (_, one) ↦ omega arith
      ]
    ]

-- A case escalates exactly when it would hurt, is not benign, and is uncertain: low confidence, a
-- gap in the evidence, or a verdict that is only suspicious. So what passes without escalation has
-- a malicious verdict, confidence of 0.6 or more, and no gap.
escalation_iff :
    (verdict : Verdict) (severity : SeverityAssessment) (confidence : ℕ) (asset : Bool)
    (gaps : List ℕ)
    → (assess_escalation verdict severity confidence asset gaps ≡ none) ↔ (
        ((severity_rank severity.level < severity_rank Severity.high) × (asset ≡ false))
        ⊎ ((verdict ≡ Verdict.benign)
            ⊎ ((verdict ≡ Verdict.malicious) × (6000 ≤ confidence) × (gaps ≡ []))))
unfolding assess_escalation
escalation_iff verdict severity confidence asset [] = (λ h. ground arith, λ h. ground arith)
escalation_iff verdict severity confidence asset (g ∷ gaps) = (λ h. ground arith, λ h. ground arith)

-- A critical level, or a malicious verdict on a critical asset, is urgent; nothing else is.
pub urgent_iff :
    (verdict : Verdict) (severity : SeverityAssessment) (asset : Bool)
    → (derive_priority verdict severity asset ≡ TriagePriority.urgent) ↔ (
        (verdict ≢ Verdict.benign)
        × ((severity.level ≡ Severity.critical) ⊎ ((asset ≡ true) × (verdict ≡ Verdict.malicious))))
unfolding derive_priority
urgent_iff verdict severity asset = (λ h. ground arith, λ h. ground arith)

-- A suspicious finding of medium severity on a critical asset has the same priority as one of high
-- severity elsewhere: it does not come first in the queue.
critical_asset_ties :
    (a b : SeverityAssessment)
    → a.level ≡ Severity.medium
    → b.level ≡ Severity.high
    → derive_priority Verdict.suspicious a true ≡ derive_priority Verdict.suspicious b false
unfolding derive_priority
critical_asset_ties a b h k = ground arith

-- Worse severity, a critical asset, or a malicious verdict in place of a suspicious one never
-- lowers the priority.
pub priority_mono :
    (a b : SeverityAssessment) (v w : Verdict) (x y : Bool)
    → severity_rank a.level ≤ severity_rank b.level
    → (x ≡ true → y ≡ true)
    → (v ≢ Verdict.benign → w ≢ Verdict.benign)
    → (v ≡ Verdict.malicious → w ≡ Verdict.malicious)
    → priority_rank (derive_priority v a x) ≤ priority_rank (derive_priority w b y)
unfolding derive_priority
priority_mono a b v w x y level asset known bad = ground arith
