-- ===== src/Graph/Finish.antt =====
-- Runs of the graph end: no edge goes back but the redirect of the gate.
use ai_cybersecurity_soc_ana.Graph.Gate.{IsSettled, ended_by_decision, last_of_append}
use ai_cybersecurity_soc_ana.Graph.Builder.{
  Reaches, Run, Step, execute, further, here, next_node, runs, start,
}
use ai_cybersecurity_soc_ana.Graph.Nodes.{
  GraphState, Input, act, gate_arm, route_after_gate, route_after_threat,
}
use ai_cybersecurity_soc_ana.Graph.History.{
  NodeName, close, cve_research, human_gate, ingest_seed, log_analysis, notify, remediation, report,
  threat_detection, triage,
}
use ai_cybersecurity_soc_ana.Enums.{DecisionType, closed, is_benign}
use ai_cybersecurity_soc_ana.Common.{
  All, Bool, List, Option, [], arith, false, if◌then◌else◌, length, none, refl, some, true, ℕ, ◌<◌,
  ◌∷◌, ◌≡◌, ◌≢◌, ◌≤◌,
}

-- How many nodes run at most, if the gate is not answered by a redirect.
abbrev pub rank : NodeName → ℕ
rank ingest_seed = 10
rank log_analysis = 9
rank threat_detection = 8
rank cve_research = 7
rank report = 6
rank remediation = 5
rank triage = 4
rank human_gate = 3
rank notify = 2
rank close = 1

abbrev pub remaining : Option NodeName → ℕ
remaining none = 0
remaining (some n) = rank n

rank-positive : (n : NodeName) → 0 < rank n
rank-positive ingest_seed = omega arith
rank-positive log_analysis = omega arith
rank-positive threat_detection = omega arith
rank-positive cve_research = omega arith
rank-positive report = omega arith
rank-positive remediation = omega arith
rank-positive triage = omega arith
rank-positive human_gate = omega arith
rank-positive notify = omega arith
rank-positive close = omega arith

rank-bound : (n : NodeName) → rank n ≤ 10
rank-bound ingest_seed = omega arith
rank-bound log_analysis = omega arith
rank-bound threat_detection = omega arith
rank-bound cve_research = omega arith
rank-bound report = omega arith
rank-bound remediation = omega arith
rank-bound triage = omega arith
rank-bound human_gate = omega arith
rank-bound notify = omega arith
rank-bound close = omega arith

remaining-bound : (at : Option NodeName) → remaining at ≤ 10
remaining-bound none = omega arith
remaining-bound (some n) = rank-bound n

gate-remaining : (d : DecisionType) → d ≢ DecisionType.redirect → rank (gate_arm (some d)) ≤ 2
unfolding gate_arm
gate-remaining DecisionType.approve h = omega arith
gate-remaining DecisionType.edit h = omega arith
gate-remaining DecisionType.reject h = omega arith
gate-remaining DecisionType.redirect h = absurd (h refl)

research-remaining : (b : Bool) → rank (if b then report else cve_research) ≤ 7
research-remaining true = omega arith
research-remaining false = omega arith

act-remaining :
    (n : NodeName) (i : Input) (s : GraphState)
    → i.decision ≢ DecisionType.redirect
    → remaining (next_node n (act n i s)) < rank n
unfolding next_node act route_after_gate route_after_threat
act-remaining ingest_seed i s h = omega arith
act-remaining log_analysis i s h = omega arith
act-remaining threat_detection i s h =
    omega (arith, research-remaining (is_benign i.assessment.verdict))
act-remaining cve_research i s h = omega arith
act-remaining report i s h = omega arith
act-remaining remediation i s h = omega arith
act-remaining triage i s h = omega arith
act-remaining human_gate i s h =
    rw (last_of_append s.human_decisions i.decision) (omega (arith, gate-remaining i.decision h))
act-remaining notify i s h = omega arith
act-remaining close i s h = omega arith

abbrev pub NoRedirect : List Input → Type 0
NoRedirect = All (λ i. i.decision ≢ DecisionType.redirect)

ends_from :
    (is : List Input) (at : Option NodeName) (s : GraphState)
    → NoRedirect is
    → remaining at ≤ length is
    → (execute is (record { at = at; state = s })).at ≡ none
unfolding execute
ends_from [] none s h k = refl
ends_from [] (some n) s h k = absurd (omega (arith, k, rank-positive n))
ends_from (i ∷ is) none s h k = refl
ends_from (i ∷ is) (some n) s h k =
    ends_from is (next_node n (act n i s)) (act n i s) h.1
      (omega (arith, k, act-remaining n i s h.0))

Step-Reaches : (r q p : Run) → Step r q → Reaches q p → Reaches r p
Step-Reaches r q p first (here _) = further r r q (here r) first
Step-Reaches r q p first (further _ m _ before last) =
    further r m p (Step-Reaches r q m first before) last

pub execute-Reaches :
    (is : List Input) (at : Option NodeName) (s : GraphState)
    → let r : Run = record { at = at; state = s } in Reaches r (execute is r)
unfolding execute
execute-Reaches [] at s = here _
execute-Reaches (i ∷ is) none s = here _
execute-Reaches (i ∷ is) (some n) s =
    Step-Reaches _ _ _ (runs n i s) (execute-Reaches is (next_node n (act n i s)) (act n i s))

Reaches-join : (r q p : Run) → Reaches r q → Reaches q p → Reaches r p
Reaches-join r q p first (here _) = first
Reaches-join r q p first (further _ m _ before last) =
    further r m p (Reaches-join r q m first before) last

-- Every investigation can be brought to its end: from whatever point a run reached, ten further
-- transitions without a redirect at the gate end it, closed, by a decision of a person.
pub ten_steps_close :
    (r : Run) (is : List Input)
    → Reaches start r
    → NoRedirect is
    → 10 ≤ length is
    → let q = execute is r in (q.at ≡ none) × (q.state.status ≡ closed) × IsSettled q.state
ten_steps_close r is path h k =
    let ended = ends_from is r.at r.state h (omega (arith, k, remaining-bound r.at)) in
    let (is_closed, settled) =
      ended_by_decision (execute is r)
        (Reaches-join start r (execute is r) path (execute-Reaches is r.at r.state)) ended in
    (ended, is_closed, settled)
