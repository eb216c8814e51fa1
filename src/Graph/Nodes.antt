-- ===== src/Graph/Nodes.antt =====
-- The nodes of graph/nodes.py on the part of the state that decides the course of an investigation.
-- What an agent concludes is the argument of its node; findings, texts and times are left out.
use ai_cybersecurity_soc_ana.Common.{List, Option, [], if◌then◌else◌, none, some, ◌++◌, ◌∷◌}
use ai_cybersecurity_soc_ana.Graph.History.{NodeName, NodeTransition, extend_history}
use ai_cybersecurity_soc_ana.Enums.{
  DecisionType, InvestigationStatus, TriagePriority, Verdict, awaiting_approval, closed,
  in_progress, is_benign, opened,
}

pub record ThreatAssessment : Type 0 where
  pub verdict : Verdict
  pub triage_priority : TriagePriority

-- `GraphState`: the empty current node is `none`, and of a pending alert its priority is kept.
pub record GraphState : Type 0 where
  pub status : InvestigationStatus
  pub current_node : Option NodeName
  pub node_history : List NodeTransition
  pub threat_assessment : Option ThreatAssessment
  pub human_decisions : List DecisionType
  pub pending : List TriagePriority

unfoldable pub new_state : GraphState
new_state = record {
  status = opened;
  current_node = none;
  node_history = [];
  threat_assessment = none;
  human_decisions = [];
  pending = [];
}

-- The update that every node makes: its name, and its transition.
unfoldable pub enter : NodeName → GraphState → GraphState
unfolding extend_history
enter n s = record s {
  current_node = some n;
  node_history = extend_history s.node_history (record { sequence = 0; node = n } ∷ []);
}

-- `assessment.get("triage_priority") or TriagePriority.HIGH.value`
unfoldable pub alert_priority : Option ThreatAssessment → TriagePriority
alert_priority none = TriagePriority.high
alert_priority (some a) = a.triage_priority

abbrev ingest_seed : GraphState → GraphState
ingest_seed s = record (enter NodeName.ingest_seed s) { status = in_progress }

-- The agent's conclusion is an argument.
abbrev threat_detection : ThreatAssessment → GraphState → GraphState
threat_detection a s = record (enter NodeName.threat_detection s) { threat_assessment = some a }

abbrev triage : GraphState → GraphState
triage s = record (enter NodeName.triage s) { status = awaiting_approval }

-- The decision that the interrupt returns is an argument; the conversation's reducer appends it.
abbrev human_gate : DecisionType → GraphState → GraphState
human_gate d s = record (enter NodeName.human_gate s) {
  human_decisions = s.human_decisions ++ d ∷ [];
}

-- The alert is appended to the pending ones by the reducer of the notifications.
abbrev notify : GraphState → GraphState
unfolding alert_priority
notify s = record (enter NodeName.notify s) {
  pending = s.pending ++ alert_priority s.threat_assessment ∷ [];
}

abbrev close : GraphState → GraphState
close s = record (enter NodeName.close s) { status = closed }

-- What an agent or a person brings to a node: the assessment of the threat detector, and the
-- decision that resumes the human gate.
pub record Input : Type 0 where
  pub assessment : ThreatAssessment
  pub decision : DecisionType

-- The registered action of a node. The other agents write findings only, which are left out.
unfoldable pub act : NodeName → Input → GraphState → GraphState
unfolding enter alert_priority
act NodeName.ingest_seed i s = ingest_seed s
act NodeName.log_analysis i s = enter NodeName.log_analysis s
act NodeName.threat_detection i s = threat_detection i.assessment s
act NodeName.cve_research i s = enter NodeName.cve_research s
act NodeName.report i s = enter NodeName.report s
act NodeName.remediation i s = enter NodeName.remediation s
act NodeName.triage i s = triage s
act NodeName.human_gate i s = human_gate i.decision s
act NodeName.notify i s = notify s
act NodeName.close i s = close s

-- `route_after_threat`
unfoldable pub route_after_threat : GraphState → NodeName
route_after_threat s = elim (s.threat_assessment) [
  | none ↦ NodeName.cve_research
  | some a ↦ if is_benign a.verdict then NodeName.report else NodeName.cve_research
]

unfoldable pub last_decision : List DecisionType → Option DecisionType
last_decision [] = none
last_decision (d ∷ []) = some d
last_decision (d ∷ e ∷ ds) = last_decision (e ∷ ds)

unfoldable pub gate_arm : Option DecisionType → NodeName
gate_arm (some DecisionType.redirect) = NodeName.triage
gate_arm (some DecisionType.approve) = NodeName.notify
gate_arm _ = NodeName.close

-- `route_after_gate`
unfoldable pub route_after_gate : GraphState → NodeName
unfolding last_decision gate_arm
route_after_gate s = gate_arm (last_decision s.human_decisions)
