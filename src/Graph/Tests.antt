-- ===== src/Graph/Tests.antt =====
-- The properties of the graph at concrete inputs.
use ai_cybersecurity_soc_ana.Graph.Reducer.{
  Fields, append_values, end, field, item, list, merge_substate, nil, scalar,
}
use ai_cybersecurity_soc_ana.Common.{List, [], arith, inl, none, refl, ◌++◌, ◌∷◌, ◌≡◌, ◌≢◌, ◌⊎◌}
use ai_cybersecurity_soc_ana.Graph.Finish.{execute-Reaches, ten_steps_close}
use ai_cybersecurity_soc_ana.Graph.Gate.{
  DecidedBy, IsSettled, ended_by_decision, nothing_before_decision,
}
use ai_cybersecurity_soc_ana.Graph.Builder.{Run, execute, here, start}
use ai_cybersecurity_soc_ana.Graph.Nodes.{Input, ThreatAssessment}
use ai_cybersecurity_soc_ana.Enums.{DecisionType, TriagePriority, Verdict, closed}

abbrev suspicious_case : ThreatAssessment
suspicious_case = record { verdict = Verdict.suspicious; triage_priority = TriagePriority.urgent }

abbrev answering : DecisionType → Input
answering d = record { assessment = suspicious_case; decision = d }

abbrev twice : List Input → List Input
twice l = l ++ l

abbrev ten : DecisionType → List Input
ten d = let i = answering d in let five = i ∷ i ∷ i ∷ i ∷ i ∷ [] in five ++ five

abbrev finished : Run
finished = execute (ten DecisionType.approve) start

ended_by_decision_example : (finished.state.status ≡ closed) × IsSettled finished.state
unfolding execute start
ended_by_decision_example =
    ended_by_decision finished (execute-Reaches (ten DecisionType.approve) start.at start.state)
      refl

nothing_before_decision_example :
    (d : DecisionType) × DecidedBy d finished.state.human_decisions
    × ((d ≡ DecisionType.approve) ⊎ (finished.state.pending ≡ []))
unfolding execute start
nothing_before_decision_example =
    nothing_before_decision finished
      (execute-Reaches (ten DecisionType.approve) start.at start.state) (inl refl)

ten_steps_close_example :
    let q = execute (ten DecisionType.reject) start in
    (q.at ≡ none) × (q.state.status ≡ closed) × IsSettled q.state
ten_steps_close_example =
    ten_steps_close start (ten DecisionType.reject) (here start)
      (
        rejects,
        (
          rejects,
          (
            rejects,
            (rejects, (rejects, (rejects, (rejects, (rejects, (rejects, (rejects, tt))))))),
          ),
        ),
      )
      (omega arith)
  where
    rejects : DecisionType.reject ≢ DecisionType.redirect
    rejects e = cc

-- A redirect goes back to the triage, and the run ends once the gate is answered otherwise.
redirected : Run
redirected = execute (ten DecisionType.edit) (execute (ten DecisionType.redirect) start)

redirected_tells_nobody : redirected.state.pending ≡ []
unfolding redirected execute start
redirected_tells_nobody = refl

-- A list under the key 1 that grows, and a scalar under 2 that is overwritten.
abbrev recorded : Fields
recorded = field 1 (list (item (scalar 7) nil)) (field 2 (scalar 0) end)

abbrev arriving : Fields
arriving = field 2 (scalar 5) (field 1 (list (item (scalar 8) nil)) end)

merged_list :
    merge_substate recorded arriving
    ≡ field 1 (list (item (scalar 7) (item (scalar 8) nil))) (field 2 (scalar 5) end)
unfolding merge_substate append_values
merged_list = refl
