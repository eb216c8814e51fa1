-- ===== src/Cases/Course.antt =====
-- The case beside the run of the graph: the worker up to the gate, the decision route from there on.
use ai_cybersecurity_soc_ana.Common.Text.{Text}
use ai_cybersecurity_soc_ana.Graph.Builder.{Reaches, Run, after, start}
use ai_cybersecurity_soc_ana.Cases.Statuses.{status_at}
use ai_cybersecurity_soc_ana.Cases.Lifecycle.{mark_status, record_gate_decision, record_stage}
use ai_cybersecurity_soc_ana.Cases.Worker.{Output, failed_stage, persist}
use ai_cybersecurity_soc_ana.Common.{
  Bool, Option, false, if◌then◌else◌, none, not, some, true, ℕ, ◌&&◌, ◌||◌, ◌≡◌, ◌≢◌,
}
use ai_cybersecurity_soc_ana.Cases.Decision.{decide, decided}
use ai_cybersecurity_soc_ana.Graph.Nodes.{GraphState, Input}
use ai_cybersecurity_soc_ana.Graph.History.{NodeName}
use ai_cybersecurity_soc_ana.Enums.{
  DecisionType, InvestigationStatus, awaiting_approval, closed, in_progress,
}
use ai_cybersecurity_soc_ana.Cases.Tables.{Tables, failed}

-- Where a run is, the status of its state and the status of the case.
abbrev pub AreAligned : Option NodeName → InvestigationStatus → InvestigationStatus → Type 0
AreAligned none state row = (state ≡ closed) × (row ≡ closed)
AreAligned (some NodeName.human_gate) state row =
    (state ≡ awaiting_approval) × (row ≡ awaiting_approval)
AreAligned (some NodeName.ingest_seed) state row = row ≡ in_progress
AreAligned (some NodeName.notify) state row = ⊥
AreAligned (some NodeName.close) state row = ⊥
AreAligned (some _) state row = (state ≡ in_progress) × (row ≡ in_progress)

abbrev pub is_triage : NodeName → Bool
is_triage NodeName.triage = true
is_triage _ = false

-- What is left of a node's output: `_write` may roll back, and the run goes on all the same.
abbrev pub written : Bool → ℕ → NodeName → Output → ℕ → Tables → Tables
written commits i n out now t = if commits then persist i n out now t else t

-- A run with the tables beside it: the worker marks the case and lets the graph run, each output is
-- written or lost, an error may stop the run and be recorded, and a person decides at the gate, any
-- number of times. A decision may also be recorded without an outcome: the graph raises at once or
-- on the way, or the outcome rolls back. The first index says that neither the triage's write nor an
-- outcome was lost so far.
pub data Course (i : ℕ) : Bool → Run → Tables → Type 0 where
  begins :
      (t : Tables) (before : InvestigationStatus) (now : ℕ)
      → status_at i t ≡ some before
      → Course i true start (mark_status i in_progress now t)
  advances :
      (kept commits : Bool) (n : NodeName) (inp : Input) (s : GraphState) (out : Output) (now : ℕ)
      (t : Tables)
      → Course i kept (record { at = some n; state = s }) t
      → n ≢ NodeName.human_gate
      → Course i
          (kept && (commits || not (is_triage n)))
          (after n inp s)
          (written commits i n out now t)
  dies :
      (kept : Bool) (r : Run) (t : Tables) (reason : Text)
      → Course i kept r t
      → Course i kept r (record_stage i (failed_stage i t) failed reason t)
  decides :
      (kept : Bool) (r r' : Run) (t t' : Tables) (d : DecisionType) (id now : ℕ) (inp : Input)
      → Course i kept r t
      → decide i d now inp r t ≡ decided t' id r'
      → Course i kept r' t'
  fails :
      (kept : Bool) (r r' : Run) (t : Tables) (d : DecisionType)
      → Course i kept r t
      → status_at i t ≡ some awaiting_approval
      → Reaches r r'
      → Course i false r' (record_gate_decision i d t).0

unfoldable pub Tracks : ℕ → Run → Tables → Type 0
Tracks i r t =
    (row : InvestigationStatus) × (status_at i t ≡ some row) × AreAligned r.at r.state.status row
