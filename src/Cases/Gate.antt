-- ===== src/Cases/Gate.antt =====
-- What the decision route does at the gate, and elsewhere.
use ai_cybersecurity_soc_ana.Common.{
  Bool, Option, ap, false, if◌then◌else◌, none, refl, some, true, ℕ, ◌&&◌, ◌∙◌, ◌≡◌,
}
use ai_cybersecurity_soc_ana.Cases.Decision.{
  applied, apply_gate_outcome, awaiting_human, conflict, decide, decide_row, decided, has_report,
  is_awaiting, resume, resumed, until_stop, with_decision,
}
use ai_cybersecurity_soc_ana.Cases.Tables.{Investigation, Report, Tables}
use ai_cybersecurity_soc_ana.Common.Dict.{lookup}
use ai_cybersecurity_soc_ana.Enums.{DecisionType, InvestigationStatus, awaiting_approval, closed}
use ai_cybersecurity_soc_ana.Graph.History.{NodeName}
use ai_cybersecurity_soc_ana.Graph.Nodes.{GraphState, Input, act, enter, gate_arm, route_after_gate}
use ai_cybersecurity_soc_ana.Graph.Gate.{last_of_append}
use ai_cybersecurity_soc_ana.Graph.Builder.{Run, after, next_node}
use ai_cybersecurity_soc_ana.Notify.Contracts.{is_approve}
use ai_cybersecurity_soc_ana.Cases.Lifecycle.{
  add_decision, conversation_for, first_of, found_or_opened, mark_status, record_gate_decision,
}
use ai_cybersecurity_soc_ana.Cases.Reports.{current, finalize_report, set_final}
use ai_cybersecurity_soc_ana.Cases.Statuses.{status-mark_status, status_at, status_of}

-- Where the run comes to rest, from the state that the gate's node leaves.
abbrev pub rest_of : DecisionType → Input → GraphState → Run
rest_of DecisionType.redirect inp s = record {
  at = some NodeName.human_gate;
  state = act NodeName.triage inp s;
}
rest_of DecisionType.approve inp s = record {
  at = none;
  state = act NodeName.close inp (act NodeName.notify inp s);
}
rest_of _ inp s = record { at = none; state = act NodeName.close inp s }

abbrev pub gate_state : DecisionType → Input → GraphState → GraphState
gate_state d inp s = act NodeName.human_gate (with_decision d inp) s

route-gate :
    (d : DecisionType) (inp : Input) (s : GraphState)
    → route_after_gate (gate_state d inp s) ≡ gate_arm (some d)
unfolding route_after_gate act enter
route-gate d inp s = ap gate_arm (last_of_append s.human_decisions d)

until_stop-gate :
    (d : DecisionType) (inp : Input) (s : GraphState)
    → until_stop 10 inp (record { at = some (gate_arm (some d)); state = s }) ≡ rest_of d inp s
unfolding until_stop gate_arm after next_node
until_stop-gate DecisionType.approve inp s = refl
until_stop-gate DecisionType.edit inp s = refl
until_stop-gate DecisionType.reject inp s = refl
until_stop-gate DecisionType.redirect inp s = refl

pub resume-gate :
    (d : DecisionType) (inp : Input) (s : GraphState)
    → resume d inp (record { at = some NodeName.human_gate; state = s })
      ≡ some (rest_of d inp (gate_state d inp s))
unfolding resume after next_node
resume-gate d inp s =
    ap (λ n. some (until_stop 10 inp (record { at = some n; state = gate_state d inp s })))
      (route-gate d inp s)
    ∙ ap (λ r. some r) (until_stop-gate d inp (gate_state d inp s))

finalize-total :
    (i : ℕ) (b : Bool) (o : Option Report) (t : Tables)
    → (t' : Tables) × ((if b && (elim o [ none ↦ false | some r ↦ true ])
          then elim o [
            | none ↦ none
            | some r ↦ some (record t { reports = set_final i r.version t.reports })
          ]
          else some t)
        ≡ some t')
      × (t'.investigations ≡ t.investigations)
finalize-total i false o t = (t, refl, refl)
finalize-total i true none t = (t, refl, refl)
finalize-total i true (some r) t =
    (record t { reports = set_final i r.version t.reports }, refl, refl)

abbrev pub resting : Bool → InvestigationStatus
resting awaiting = if awaiting then awaiting_approval else closed

pub apply_gate_outcome_total :
    (i : ℕ) (d : DecisionType) (awaiting : Bool) (now : ℕ) (before : InvestigationStatus)
    (t : Tables)
    → status_at i t ≡ some before
    → (t' : Tables) × (apply_gate_outcome i d awaiting now t ≡ some t')
      × (status_at i t' ≡ some (resting awaiting))
unfolding apply_gate_outcome has_report finalize_report
apply_gate_outcome_total i d awaiting now before t h =
    let marked = mark_status i (resting awaiting) now t in
    let (t', same, kept) = finalize-total i (is_approve d) (current i marked.reports) marked in
    (
      t',
      same,
      ap (λ rows. status_of (lookup i rows)) kept
          ∙ status-mark_status i (resting awaiting) before now t h,
    )

kept_by_conversation :
    (i : ℕ) (d : DecisionType) (t : Tables) (o : Option ℕ)
    → (add_decision d (found_or_opened i t o)).0.investigations ≡ t.investigations
unfolding add_decision found_or_opened
kept_by_conversation i d t none = refl
kept_by_conversation i d t (some c) = refl

pub record_gate_decision-status :
    (i j : ℕ) (d : DecisionType) (t : Tables)
    → status_at j (record_gate_decision i d t).0 ≡ status_at j t
unfolding record_gate_decision conversation_for
record_gate_decision-status i j d t =
    ap (λ rows. status_of (lookup j rows)) (kept_by_conversation i d t (first_of i t.conversations))

decide_row-awaiting :
    (i : ℕ) (d : DecisionType) (now : ℕ) (inp : Input) (r : Run) (t : Tables)
    (o : Option Investigation)
    → status_of o ≡ some awaiting_approval
    → decide_row i d now inp r t o ≡ resumed i d now (record_gate_decision i d t) (resume d inp r)
unfolding decide_row
decide_row-awaiting i d now inp r t none h = absurd (cc)
decide_row-awaiting i d now inp r t (some row) h =
    let same : row.status ≡ awaiting_approval = cc in rw same refl

pub decide_row-else :
    (i : ℕ) (d : DecisionType) (now : ℕ) (inp : Input) (r : Run) (t : Tables)
    (o : Option Investigation) (status : InvestigationStatus)
    → status_of o ≡ some status
    → is_awaiting status ≡ false
    → decide_row i d now inp r t o ≡ conflict
unfolding decide_row
decide_row-else i d now inp r t none status h e = absurd (cc)
decide_row-else i d now inp r t (some row) status h e =
    let same : row.status ≡ status = cc in rw same (rw e refl)

-- At the gate of a case that awaits approval, a decision is recorded and applied, and the case rests
-- where the run does.
pub decide-gate :
    (i : ℕ) (d : DecisionType) (now : ℕ) (inp : Input) (s : GraphState) (t : Tables)
    → status_at i t ≡ some awaiting_approval
    → let r' = rest_of d inp (gate_state d inp s) in
      let r : Run = record { at = some NodeName.human_gate; state = s } in
      (t' : Tables) × (decide i d now inp r t ≡ decided t' (record_gate_decision i d t).1 r')
      × (status_at i t' ≡ some (resting (awaiting_human r')))
unfolding decide
decide-gate i d now inp s t h =
    let r' = rest_of d inp (gate_state d inp s) in
    let r : Run = record { at = some NodeName.human_gate; state = s } in
    let (t1, id) = record_gate_decision i d t in
    let (t', same, rests) =
      apply_gate_outcome_total i d (awaiting_human r') now awaiting_approval t1
        (record_gate_decision-status i i d t ∙ h) in
    (
      t',
      decide_row-awaiting i d now inp r t (lookup i t.investigations) h
          ∙ ap (resumed i d now (t1, id)) (resume-gate d inp s)
          ∙ ap (applied id r' t1) same,
      rests,
    )
