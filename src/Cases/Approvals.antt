-- ===== src/Cases/Approvals.antt =====
-- What a person decides on a recommendation: when it is recorded, and that it stays.
use ai_cybersecurity_soc_ana.Enums.{TriagePriority}
use ai_cybersecurity_soc_ana.Cases.Plans.{
  Decided, already_decided, by_id, decide_found, decide_recommendation, is_blank, is_pending,
  no_actor, record_remediation_plan, recorded, set_approval,
}
use ai_cybersecurity_soc_ana.Cases.Tables.{
  ApprovalStatus, Recommendation, Tables, approved, edited, pending, rejected,
}
use ai_cybersecurity_soc_ana.Common.Text.{Text, strip}
use ai_cybersecurity_soc_ana.Common.{
  Bool-cases, List, Option, [], arith, false, if◌then◌else◌, inl, inr, none, refl, some, ℕ, ◌++◌,
  ◌==◌, ◌↔◌, ◌∷◌, ◌≡◌, ◌≢◌,
}

by_id-set_approval :
    (k j : ℕ) (decision : ApprovalStatus) (rs : List Recommendation) (r : Recommendation)
    → by_id k rs ≡ some r
    → by_id j (set_approval k decision rs)
      ≡ (if k == j then some (record r { approval_status = decision }) else by_id j rs)
unfolding by_id set_approval
by_id-set_approval k j decision [] r h = absurd (cc)
by_id-set_approval k j decision (q ∷ rs) r h =
    ground (arith, h, by_id-set_approval k j decision rs r)

by_id-append :
    (k : ℕ) (rs qs : List Recommendation) (r : Recommendation)
    → by_id k rs ≡ some r
    → by_id k (rs ++ qs) ≡ some r
unfolding by_id
by_id-append k [] qs r h = absurd (cc)
by_id-append k (q ∷ rs) qs r h = ground (arith, h, by_id-append k rs qs r)

abbrev pub IsUndecided : Option Recommendation → Type 0
IsUndecided none = ⊥
IsUndecided (some r) = r.approval_status ≡ pending

abbrev pub IsRecorded : Decided → Type 0
IsRecorded (recorded t) = Unit
IsRecorded _ = ⊥

abbrev pub after_decision : Tables → Decided → Tables
after_decision t (recorded t') = t'
after_decision t _ = t

found_iff :
    (k : ℕ) (decision : ApprovalStatus) (t : Tables) (o : Option Recommendation)
    → IsRecorded (decide_found k decision t o) ↔ IsUndecided o
unfolding decide_found
found_iff k decision t none = (λ h. h, λ h. h)
found_iff k decision t (some r) =
    elim (r.approval_status)
      as (λ s.
        IsRecorded (
          if is_pending s
          then recorded (record t { recommendations = set_approval k decision t.recommendations })
          else already_decided)
        ↔ (s ≡ pending)) [
          | pending ↦ (λ h. refl, λ h. tt)
          | approved ↦ (λ h. absurd h, λ h. absurd (cc))
          | rejected ↦ (λ h. absurd h, λ h. absurd (cc))
          | edited ↦ (λ h. absurd h, λ h. absurd (cc))
        ]

actor_iff :
    (k : ℕ) (decision : ApprovalStatus) (actor : Text) (t : Tables)
    → decision ≢ pending
    → IsRecorded
        (if is_blank actor then no_actor else decide_found k decision t (by_id k t.recommendations))
      ↔ ((decision ≢ pending) × (actor ≢ []) × IsUndecided (by_id k t.recommendations))
actor_iff k decision [] t n = (λ h. absurd h, λ (d, a, u). absurd (a refl))
actor_iff k decision (c ∷ actor) t n =
    let found = found_iff k decision t (by_id k t.recommendations) in
    (λ h. (n, λ e. cc, found.0 h), λ (d, a, u). found.1 u)

found-decided :
    (j : ℕ) (decision : ApprovalStatus) (t : Tables) (k : ℕ) (r : Recommendation)
    (o : Option Recommendation)
    → by_id j t.recommendations ≡ o
    → by_id k t.recommendations ≡ some r
    → is_pending r.approval_status ≡ false
    → by_id k (after_decision t (decide_found j decision t o)).recommendations ≡ some r
unfolding decide_found
found-decided j decision t k r none f h e = h
found-decided j decision t k r (some q) f h e =
    ground (arith, f, h, e, by_id-set_approval j k decision t.recommendations q f)

decision-decided :
    (j : ℕ) (decision : ApprovalStatus) (actor : Text) (t : Tables) (k : ℕ) (r : Recommendation)
    → by_id k t.recommendations ≡ some r
    → is_pending r.approval_status ≡ false
    → by_id k (after_decision t (decide_recommendation j decision actor t)).recommendations ≡ some r
unfolding decide_recommendation
decision-decided j decision actor t k r h e =
    let kept = found-decided j decision t k r (by_id j t.recommendations) refl h e in
    elim (Bool-cases (is_pending decision)) [
      | inl undone ↦ rw undone h
      | inr taken ↦ rw taken (elim (Bool-cases (is_blank (strip actor))) [
        | inl blank ↦ rw blank h
        | inr named ↦ rw named kept
      ])
    ]

-- A decision on a recommendation is recorded exactly if it is one that a person can take, names
-- who took it, and the recommendation exists and is still pending.
decide_recommendation_lem :
    (k : ℕ) (decision : ApprovalStatus) (actor : Text) (t : Tables)
    → IsRecorded (decide_recommendation k decision actor t)
      ↔ ((decision ≢ pending) × (strip actor ≢ []) × IsUndecided (by_id k t.recommendations))
unfolding decide_recommendation
decide_recommendation_lem k pending actor t = (λ h. absurd h, λ (d, a, u). d refl)
decide_recommendation_lem k approved actor t = actor_iff k approved (strip actor) t (λ e. cc)
decide_recommendation_lem k rejected actor t = actor_iff k rejected (strip actor) t (λ e. cc)
decide_recommendation_lem k edited actor t = actor_iff k edited (strip actor) t (λ e. cc)

-- What a plan or a decision does to the recommendations.
pub data PlanStep : Type 0 where
  plans : ℕ → List (Text × TriagePriority) → PlanStep
  decides : ℕ → ApprovalStatus → Text → PlanStep

unfoldable pub perform : PlanStep → Tables → Tables
unfolding record_remediation_plan decide_recommendation
perform (plans i plan) t = record_remediation_plan i plan t
perform (decides k decision actor) t = after_decision t (decide_recommendation k decision actor t)

unfoldable pub perform_all : List PlanStep → Tables → Tables
unfolding perform
perform_all [] t = t
perform_all (s ∷ steps) t = perform_all steps (perform s t)

perform-decided :
    (s : PlanStep) (t : Tables) (k : ℕ) (r : Recommendation)
    → by_id k t.recommendations ≡ some r
    → is_pending r.approval_status ≡ false
    → by_id k (perform s t).recommendations ≡ some r
unfolding perform record_remediation_plan
perform-decided (plans i plan) t k r h e = by_id-append k t.recommendations _ r h
perform-decided (decides j decision actor) t k r h e = decision-decided j decision actor t k r h e

-- What a person decided on a recommendation stays: no later plan and no later decision, in any
-- order, changes a recommendation that is not pending.
pub decided_stays :
    (steps : List PlanStep) (t : Tables) (k : ℕ) (r : Recommendation)
    → by_id k t.recommendations ≡ some r
    → is_pending r.approval_status ≡ false
    → by_id k (perform_all steps t).recommendations ≡ some r
unfolding perform_all
decided_stays [] t k r h e = h
decided_stays (s ∷ steps) t k r h e =
    decided_stays steps (perform s t) k r (perform-decided s t k r h e) e
