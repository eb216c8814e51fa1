-- ===== src/Graph/Builder.antt =====
-- `build_investigation_graph` of graph/builder.py: the edges, and the runs along them. The graph
-- library runs the node at hand and goes on along its edge; an edge to END is `none`.
use ai_cybersecurity_soc_ana.Graph.Nodes.{
  GraphState, Input, act, new_state, route_after_gate, route_after_threat,
}
use ai_cybersecurity_soc_ana.Graph.History.{
  NodeName, close, cve_research, human_gate, ingest_seed, log_analysis, notify, remediation, report,
  threat_detection, triage,
}
use ai_cybersecurity_soc_ana.Common.{List, Option, [], none, some, ◌∷◌}

unfoldable pub next_node : NodeName → GraphState → Option NodeName
unfolding route_after_threat route_after_gate
next_node ingest_seed s = some log_analysis
next_node log_analysis s = some threat_detection
next_node threat_detection s = some (route_after_threat s)
next_node cve_research s = some report
next_node report s = some remediation
next_node remediation s = some triage
next_node triage s = some human_gate
next_node human_gate s = some (route_after_gate s)
next_node notify s = some close
next_node close s = none

-- A run's position: the node to run next, and the state as checkpointed.
pub record Run : Type 0 where
  pub at : Option NodeName
  pub state : GraphState

-- START leads to the first node.
unfoldable pub start : Run
unfolding new_state
start = record { at = some ingest_seed; state = new_state }

unfoldable pub after : NodeName → Input → GraphState → Run
unfolding next_node act
after n i s = record { at = next_node n (act n i s); state = act n i s }

-- One transition of the graph.
pub data Step : Run → Run → Type 0 where
  runs :
      (n : NodeName) (i : Input) (s : GraphState)
      → Step (record { at = some n; state = s }) (after n i s)

pub data Reaches : Run → Run → Type 0 where
  here : (r : Run) → Reaches r r
  further : (r q p : Run) → Reaches r q → Step q p → Reaches r p

-- The same, executed: one input for each node that runs, until the graph ends.
unfoldable pub execute : List Input → Run → Run
unfolding after
execute [] r = r
execute (i ∷ is) r = elim (r.at) [ none ↦ r | some n ↦ execute is (after n i r.state) ]
