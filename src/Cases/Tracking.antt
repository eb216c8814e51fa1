-- ===== src/Cases/Tracking.antt =====
-- What every course of an investigation keeps, and when a decision is taken up.
use ai_cybersecurity_soc_ana.Graph.Builder.{Run, after, next_node, start}
use ai_cybersecurity_soc_ana.Cases.Decision.{
  Answer, awaiting_human, conflict, decide, decided, is_awaiting,
}
use ai_cybersecurity_soc_ana.Cases.Course.{
  AreAligned, Course, Tracks, advances, begins, decides, dies, fails, is_triage, written,
}
use ai_cybersecurity_soc_ana.Cases.Advance.{advance-Tracks, dead-Tracks}
use ai_cybersecurity_soc_ana.Cases.Worker.{Output, failed_stage}
use ai_cybersecurity_soc_ana.Common.{
  Bool, Option, ap, arith, false, inl, inr, none, not, refl, some, sym, true, ℕ, ◌&&◌, ◌||◌, ◌↔◌,
  ◌∙◌, ◌≡◌, ◌≢◌, ◌⊎◌,
}
use ai_cybersecurity_soc_ana.Cases.Gate.{decide-gate, decide_row-else, gate_state, rest_of, resting}
use ai_cybersecurity_soc_ana.Cases.Lifecycle.{mark_status}
use ai_cybersecurity_soc_ana.Cases.Statuses.{status-mark_status, status_at}
use ai_cybersecurity_soc_ana.Graph.Nodes.{GraphState, Input, act, enter, new_state}
use ai_cybersecurity_soc_ana.Common.Dict.{lookup}
use ai_cybersecurity_soc_ana.Graph.History.{NodeName}
use ai_cybersecurity_soc_ana.Enums.{DecisionType, InvestigationStatus, in_progress}
use ai_cybersecurity_soc_ana.Cases.Tables.{Tables}

start-Tracks :
    (i : ℕ) (t : Tables) (before : InvestigationStatus) (now : ℕ)
    → status_at i t ≡ some before
    → Tracks i start (mark_status i in_progress now t)
unfolding Tracks start
start-Tracks i t before now h = (in_progress, status-mark_status i in_progress before now t h, refl)

rest-AreAligned :
    (d : DecisionType) (inp : Input) (s : GraphState)
    → let r = rest_of d inp s in AreAligned r.at r.state.status (resting (awaiting_human r))
unfolding act enter
rest-AreAligned DecisionType.approve inp s = (refl, refl)
rest-AreAligned DecisionType.edit inp s = (refl, refl)
rest-AreAligned DecisionType.reject inp s = (refl, refl)
rest-AreAligned DecisionType.redirect inp s = (refl, refl)

unpaused-status :
    (at : Option NodeName) (state row : InvestigationStatus)
    → AreAligned at state row
    → awaiting_human (record { at = at; state = new_state }) ≡ false
    → is_awaiting row ≡ false
unpaused-status none state row h e = ap is_awaiting h.1
unpaused-status (some NodeName.ingest_seed) state row h e = ap is_awaiting h
unpaused-status (some NodeName.log_analysis) state row h e = ap is_awaiting h.1
unpaused-status (some NodeName.threat_detection) state row h e = ap is_awaiting h.1
unpaused-status (some NodeName.cve_research) state row h e = ap is_awaiting h.1
unpaused-status (some NodeName.report) state row h e = ap is_awaiting h.1
unpaused-status (some NodeName.remediation) state row h e = ap is_awaiting h.1
unpaused-status (some NodeName.triage) state row h e = ap is_awaiting h.1
unpaused-status (some NodeName.human_gate) state row h e = absurd (cc)
unpaused-status (some NodeName.notify) state row h e = absurd h
unpaused-status (some NodeName.close) state row h e = absurd h

-- A case that does not await approval has no gate to decide.
unpaused-conflict :
    (i : ℕ) (d : DecisionType) (now : ℕ) (inp : Input) (r : Run) (t : Tables)
    → Tracks i r t
    → awaiting_human r ≡ false
    → decide i d now inp r t ≡ conflict
unfolding decide Tracks
unpaused-conflict i d now inp r t (row, found, aligned) e =
    decide_row-else i d now inp r t (lookup i t.investigations) row found
      (unpaused-status r.at r.state.status row aligned e)

decided-Tracks :
    (i : ℕ) (d : DecisionType) (now : ℕ) (inp : Input) (s : GraphState) (t t' : Tables) (id : ℕ)
    (r' : Run)
    → Tracks i (record { at = some NodeName.human_gate; state = s }) t
    → decide i d now inp (record { at = some NodeName.human_gate; state = s }) t ≡ decided t' id r'
    → Tracks i r' t'
unfolding Tracks
decided-Tracks i d now inp s t t' id r' (row, found, (e, f)) same =
    let (t2, same', rests) = decide-gate i d now inp s t (found ∙ ap (λ x. some x) f) in
    let rest = rest_of d inp (gate_state d inp s) in
    let tables : t2 ≡ t' = cc in
    let run : rest ≡ r' = cc in
    rw (sym run) (
      resting (awaiting_human rest),
      ap (status_at i) (sym tables) ∙ rests,
      rest-AreAligned d inp (gate_state d inp s),
    )

paused_or_not : (r : Run) → (awaiting_human r ≡ false) ⊎ (r.at ≡ some NodeName.human_gate)
paused_or_not r =
    elim (r.at)
      as (λ at.
        (awaiting_human (record { at = at; state = r.state }) ≡ false)
        ⊎ (at ≡ some NodeName.human_gate)) [
          | none ↦ inl refl
          | some n ↦
              elim n
                as (λ n.
                  (awaiting_human (record { at = some n; state = r.state }) ≡ false)
                  ⊎ (◌≡◌ {A = Option NodeName} (some n) (some NodeName.human_gate))) [
                    | NodeName.human_gate ↦ inr refl
                    | _ ↦ inl refl
                  ]
        ]

decides-Tracks :
    (i : ℕ) (d : DecisionType) (now : ℕ) (inp : Input) (at : Option NodeName) (s : GraphState)
    (t t' : Tables) (id : ℕ) (r' : Run)
    → let r : Run = record { at = at; state = s } in
      Tracks i r t → decide i d now inp r t ≡ decided t' id r' → Tracks i r' t'
decides-Tracks i d now inp at s t t' id r' h same =
    elim (paused_or_not (record { at = at; state = s })) [
      | inl e ↦
          let refused = unpaused-conflict i d now inp (record { at = at; state = s }) t h e in
          absurd (cc)
      | inr e ↦ decided-Tracks i d now inp s t t' id r' (rw e at h) (rw e at same)
    ]

both_hold : (a b : Bool) → (a && b) ≡ true → (a ≡ true) × (b ≡ true)
both_hold a b h = (ground arith, ground arith)

Course-Tracks :
    (i : ℕ) (kept : Bool) (r : Run) (t : Tables) → Course i kept r t → kept ≡ true → Tracks i r t
Course-Tracks i kept r t (begins u before now h) e = start-Tracks i u before now h
Course-Tracks i kept r t (advances before commits n inp s out now u c other) e =
    let (so_far, this) = both_hold before (commits || not (is_triage n)) e in
    advance-Tracks commits i n inp s out now u this
      (Course-Tracks i before (record { at = some n; state = s }) u c so_far) other
Course-Tracks i kept r t (dies before q u reason c) e =
    dead-Tracks i (failed_stage i u) q reason u (Course-Tracks i before q u c e)
Course-Tracks i kept r t (decides before q r' u t' d id now inp c same) e =
    decides-Tracks i d now inp q.at q.state u t' id r' (Course-Tracks i before q u c e) same
Course-Tracks i kept r t (fails before q r' u d c awaits reaches) e = absurd (cc)

-- Along every course of an investigation on which the write of the triage and the outcomes of the
-- decisions are never lost, the case says what the run does, whichever other writes are lost: it is
-- in progress until the run pauses before the gate, awaits approval exactly while it is paused there,
-- and is closed exactly when the run has ended; from the first node on, the status in the run's own
-- state is the same.
pub case_tracks_run :
    (i : ℕ) (r : Run) (t : Tables)
    → Course i true r t
    → (row : InvestigationStatus) × (status_at i t ≡ some row) × AreAligned r.at r.state.status row
unfolding Tracks
case_tracks_run i r t c = Course-Tracks i true r t c refl

abbrev pub IsDecided : Answer → Type 0
IsDecided (decided t id r) = Unit
IsDecided _ = ⊥

paused-not_running : (r : Run) → r.at ≡ some NodeName.human_gate → awaiting_human r ≢ false
paused-not_running r p e = let open' : true ≡ false = rw p at e in cc

taken_at_gate :
    (i : ℕ) (d : DecisionType) (now : ℕ) (inp : Input) (s : GraphState) (t : Tables)
    → let r : Run = record { at = some NodeName.human_gate; state = s } in
      Tracks i r t → IsDecided (decide i d now inp r t)
unfolding Tracks
taken_at_gate i d now inp s t (row, found, (e, f)) =
    let (t', same, rests) = decide-gate i d now inp s t (found ∙ ap (λ x. some x) f) in rw same tt

taken_up :
    (i : ℕ) (d : DecisionType) (now : ℕ) (inp : Input) (at : Option NodeName) (s : GraphState)
    (t : Tables)
    → at ≡ some NodeName.human_gate
    → Tracks i (record { at = at; state = s }) t
    → IsDecided (decide i d now inp (record { at = at; state = s }) t)
taken_up i d now inp at s t e h = rw e (taken_at_gate i d now inp s t (rw e at h))

-- At every point of a course on which the write of the triage and the outcomes of the decisions
-- were never lost, a decision is taken up, recorded and applied, exactly if the run is paused before
-- the human gate.
pub decide_lem :
    (i : ℕ) (r : Run) (t : Tables) (d : DecisionType) (now : ℕ) (inp : Input)
    → Course i true r t
    → IsDecided (decide i d now inp r t) ↔ (r.at ≡ some NodeName.human_gate)
unfolding Tracks
decide_lem i r t d now inp c = elim (paused_or_not r) [
  | inl e ↦
      let refused = unpaused-conflict i d now inp r t (case_tracks_run i r t c) e in
      (λ h. absurd (rw refused at h), λ p. absurd (paused-not_running r p e))
  | inr e ↦ (λ h. e, λ p. taken_up i d now inp r.at r.state t e (case_tracks_run i r t c))
]

decide-else :
    (i : ℕ) (d : DecisionType) (now : ℕ) (inp : Input) (r : Run) (t : Tables)
    (row : InvestigationStatus)
    → status_at i t ≡ some row
    → is_awaiting row ≡ false
    → decide i d now inp r t ≡ conflict
unfolding decide
decide-else i d now inp r t row found e =
    decide_row-else i d now inp r t (lookup i t.investigations) row found e

lost_triage :
    (i : ℕ) (s : GraphState) (t : Tables) (inp : Input) (out : Output) (now : ℕ)
    → Course i true (record { at = some NodeName.triage; state = s }) t
    → Course i false (after NodeName.triage inp s) t
lost_triage i s t inp out now c = advances true false NodeName.triage inp s out now t c (λ e. cc)

-- If the write of the triage is lost, on a course that lost nothing of that kind before, the course
-- goes on with the run paused before the gate, and the route then answers every decision, whichever
-- it is, with a conflict: no open approval gate.
pub failed_triage_write_blocks :
    (i : ℕ) (s : GraphState) (t : Tables) (inp : Input) (out : Output) (now : ℕ)
    → Course i true (record { at = some NodeName.triage; state = s }) t
    → let r = after NodeName.triage inp s in
      Course i false r (written false i NodeName.triage out now t)
      × (r.at ≡ some NodeName.human_gate)
      × ((d : DecisionType) (later : ℕ) (given : Input) → decide i d later given r t ≡ conflict)
unfolding after next_node Tracks
failed_triage_write_blocks i s t inp out now c =
    let (row, found, aligned) =
      case_tracks_run i (record { at = some NodeName.triage; state = s }) t c in
    (
      lost_triage i s t inp out now c,
      refl,
      λ d later given.
          decide-else i d later given (after NodeName.triage inp s) t row found
            (ap is_awaiting aligned.1),
    )
