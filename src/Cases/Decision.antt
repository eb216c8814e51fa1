-- ===== src/Cases/Decision.antt =====
-- The decision route `decide` of backend/api/routes/investigations.py, with `resume` of
-- graph/runtime.py and `apply_gate_outcome` of backend/services/investigations.py. The audit log and
-- the background delivery of the alerts are left out.
use ai_cybersecurity_soc_ana.Common.{
  Bool, Option, false, if◌then◌else◌, none, some, suc, true, zero, ℕ, ◌&&◌,
}
use ai_cybersecurity_soc_ana.Common.Dict.{lookup}
use ai_cybersecurity_soc_ana.Enums.{DecisionType, InvestigationStatus, awaiting_approval, closed}
use ai_cybersecurity_soc_ana.Graph.History.{NodeName}
use ai_cybersecurity_soc_ana.Graph.Nodes.{Input}
use ai_cybersecurity_soc_ana.Graph.Builder.{Run, after}
use ai_cybersecurity_soc_ana.Notify.Contracts.{is_approve}
use ai_cybersecurity_soc_ana.Cases.Tables.{Investigation, Tables}
use ai_cybersecurity_soc_ana.Cases.Lifecycle.{mark_status, record_gate_decision}
use ai_cybersecurity_soc_ana.Cases.Reports.{current, finalize_report}

-- The graph runs on until it ends or pauses before the human gate.
unfoldable pub until_stop : ℕ → Input → Run → Run
unfolding after
until_stop zero inp r = r
until_stop (suc fuel) inp r = elim (r.at) [
  | none ↦ r
  | some n ↦ elim n [
    | NodeName.human_gate ↦ r
    | other ↦ until_stop fuel inp (after other inp r.state)
  ]
]

abbrev pub with_decision : DecisionType → Input → Input
with_decision d inp = record inp { decision = d }

-- `resume`: `none` is the error that nothing is left to run, so that no decision is awaited. Else the
-- node at hand runs, the gate's with the decision, and the graph goes on until it ends or pauses,
-- after ten nodes at most; a run that an error stopped before another node goes on from that one.
unfoldable pub resume : DecisionType → Input → Run → Option Run
unfolding until_stop after
resume d inp r = elim (r.at) [
  | none ↦ none
  | some n ↦ some (until_stop 10 inp (after n (with_decision d inp) r.state))
]

-- `awaiting_human` of the result: the run is paused before the gate.
abbrev pub awaiting_human : Run → Bool
awaiting_human r = elim (r.at) [
  | none ↦ false
  | some n ↦ elim n [ NodeName.human_gate ↦ true | _ ↦ false ]
]

unfoldable pub has_report : ℕ → Tables → Bool
unfolding current
has_report i t = elim (current i t.reports) [ none ↦ false | some r ↦ true ]

-- `apply_gate_outcome`: `none` is the error of `finalize_report`.
unfoldable pub apply_gate_outcome : ℕ → DecisionType → Bool → ℕ → Tables → Option Tables
unfolding mark_status has_report finalize_report
apply_gate_outcome i d awaiting now t =
    let t' = mark_status i (if awaiting then awaiting_approval else closed) now t in
    if is_approve d && has_report i t' then finalize_report i t' else some t'

-- What the route answers. A decision that is recorded stays, whether the run resumes or not.
pub data Answer : Type 0 where
  not_found conflict : Answer
  not_resumed : Tables → ℕ → Answer
  not_applied : Tables → Run → Answer
  decided : Tables → ℕ → Run → Answer

abbrev pub applied : ℕ → Run → Tables → Option Tables → Answer
applied id r t none = not_applied t r
applied id r t (some t') = decided t' id r

abbrev pub resumed : ℕ → DecisionType → ℕ → Tables × ℕ → Option Run → Answer
resumed i d now (t, id) none = not_resumed t id
resumed i d now (t, id) (some r) = applied id r t (apply_gate_outcome i d (awaiting_human r) now t)

abbrev pub is_awaiting : InvestigationStatus → Bool
is_awaiting awaiting_approval = true
is_awaiting _ = false

unfoldable pub decide_row :
    ℕ → DecisionType → ℕ → Input → Run → Tables → Option Investigation → Answer
unfolding record_gate_decision resume apply_gate_outcome
decide_row i d now inp r t none = not_found
decide_row i d now inp r t (some row) =
    if is_awaiting row.status
    then resumed i d now (record_gate_decision i d t) (resume d inp r)
    else conflict

unfoldable pub decide : ℕ → DecisionType → ℕ → Input → Run → Tables → Answer
unfolding decide_row
decide i d now inp r t = decide_row i d now inp r t (lookup i t.investigations)
