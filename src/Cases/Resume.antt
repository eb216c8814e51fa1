-- ===== src/Cases/Resume.antt =====
-- `resume` of graph/runtime.py always comes to rest.
use ai_cybersecurity_soc_ana.Common.{arith, inl, inr, none, refl, some, suc, zero, ℕ, ◌≡◌, ◌⊎◌}
use ai_cybersecurity_soc_ana.Cases.Decision.{resume, until_stop, with_decision}
use ai_cybersecurity_soc_ana.Graph.Builder.{Run, after, next_node}
use ai_cybersecurity_soc_ana.Graph.Nodes.{GraphState, Input, act, route_after_threat}
use ai_cybersecurity_soc_ana.Enums.{DecisionType}
use ai_cybersecurity_soc_ana.Graph.History.{NodeName}
use ai_cybersecurity_soc_ana.Cases.Gate.{gate_state, resume-gate, rest_of}

-- The run has ended, or is paused before the human gate.
abbrev IsAtRest : Run → Type 0
IsAtRest r = (r.at ≡ none) ⊎ (r.at ≡ some NodeName.human_gate)

route-cases :
    (s : GraphState)
    → (route_after_threat s ≡ NodeName.cve_research) ⊎ (route_after_threat s ≡ NodeName.report)
unfolding route_after_threat
route-cases s = ground arith

-- From the node after the threat detection, five more nodes are enough.
routed-IsAtRest :
    (fuel : ℕ) (inp : Input) (n : NodeName) (s : GraphState)
    → (n ≡ NodeName.cve_research) ⊎ (n ≡ NodeName.report)
    → IsAtRest
        (until_stop (suc (suc (suc (suc (suc fuel))))) inp (record { at = some n; state = s }))
unfolding until_stop after next_node
routed-IsAtRest zero inp n s (inl e) = rw e (inr refl)
routed-IsAtRest (suc fuel) inp n s (inl e) = rw e (inr refl)
routed-IsAtRest fuel inp n s (inr e) = rw e (inr refl)

detected-IsAtRest :
    (fuel : ℕ) (given inp : Input) (s : GraphState)
    → IsAtRest (
        until_stop (suc (suc (suc (suc (suc fuel))))) inp (after NodeName.threat_detection given s))
unfolding after next_node
detected-IsAtRest fuel given inp s =
    let s' = act NodeName.threat_detection given s in
    routed-IsAtRest fuel inp (route_after_threat s') s' (route-cases s')

-- The ten nodes that `resume` allows are enough.
resume-IsAtRest :
    (d : DecisionType) (inp : Input) (n : NodeName) (s : GraphState)
    → (r : Run) × (resume d inp (record { at = some n; state = s }) ≡ some r) × IsAtRest r
unfolding resume until_stop after next_node
resume-IsAtRest d inp NodeName.human_gate s =
    (rest_of d inp (gate_state d inp s), resume-gate d inp s, rested d)
  where
    rested : (d : DecisionType) → IsAtRest (rest_of d inp (gate_state d inp s))
    rested DecisionType.approve = inl refl
    rested DecisionType.edit = inl refl
    rested DecisionType.reject = inl refl
    rested DecisionType.redirect = inr refl
resume-IsAtRest d inp NodeName.cve_research s = (_, refl, inr refl)
resume-IsAtRest d inp NodeName.report s = (_, refl, inr refl)
resume-IsAtRest d inp NodeName.remediation s = (_, refl, inr refl)
resume-IsAtRest d inp NodeName.triage s = (_, refl, inr refl)
resume-IsAtRest d inp NodeName.notify s = (_, refl, inl refl)
resume-IsAtRest d inp NodeName.close s = (_, refl, inl refl)
resume-IsAtRest d inp NodeName.threat_detection s =
    (_, refl, detected-IsAtRest 5 (with_decision d inp) inp s)
resume-IsAtRest d inp NodeName.log_analysis s =
    (_, refl, detected-IsAtRest 4 inp inp (act NodeName.log_analysis (with_decision d inp) s))
resume-IsAtRest d inp NodeName.ingest_seed s = (
  _,
  refl,
  detected-IsAtRest 3 inp inp
      (act NodeName.log_analysis inp (act NodeName.ingest_seed (with_decision d inp) s)),
)
