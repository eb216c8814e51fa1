-- ===== src/Cases/Advance.antt =====
-- What a step of the run, its output written or lost, and a recorded failure keep of the case.
use ai_cybersecurity_soc_ana.Cases.Course.{AreAligned, Tracks, is_triage, written}
use ai_cybersecurity_soc_ana.Common.Text.{Text}
use ai_cybersecurity_soc_ana.Graph.Builder.{Run, after, next_node}
use ai_cybersecurity_soc_ana.Cases.Statuses.{
  status-mark_status, status-persist, status-record_stage, status_at,
}
use ai_cybersecurity_soc_ana.Cases.Lifecycle.{record_stage}
use ai_cybersecurity_soc_ana.Cases.Worker.{Output, persist}
use ai_cybersecurity_soc_ana.Common.{
  Bool, false, if◌then◌else◌, none, not, refl, some, true, ℕ, ◌||◌, ◌∙◌, ◌≡◌, ◌≢◌,
}
use ai_cybersecurity_soc_ana.Graph.Nodes.{GraphState, Input, act, enter, route_after_threat}
use ai_cybersecurity_soc_ana.Graph.History.{NodeName}
use ai_cybersecurity_soc_ana.Enums.{InvestigationStatus, awaiting_approval, in_progress, is_benign}
use ai_cybersecurity_soc_ana.Cases.Tables.{Tables, failed}

-- After an agent's node other than the first, the run goes on to one of the same kind or to triage.
abbrev IsEarly : NodeName → Type 0
IsEarly NodeName.log_analysis = Unit
IsEarly NodeName.threat_detection = Unit
IsEarly NodeName.cve_research = Unit
IsEarly NodeName.report = Unit
IsEarly NodeName.remediation = Unit
IsEarly NodeName.triage = Unit
IsEarly _ = ⊥

early-AreAligned :
    (n : NodeName) (state row : InvestigationStatus)
    → IsEarly n
    → state ≡ in_progress
    → row ≡ in_progress
    → AreAligned (some n) state row
early-AreAligned NodeName.log_analysis state row h e f = (e, f)
early-AreAligned NodeName.threat_detection state row h e f = (e, f)
early-AreAligned NodeName.cve_research state row h e f = (e, f)
early-AreAligned NodeName.report state row h e f = (e, f)
early-AreAligned NodeName.remediation state row h e f = (e, f)
early-AreAligned NodeName.triage state row h e f = (e, f)
early-AreAligned NodeName.ingest_seed state row h e f = f
early-AreAligned NodeName.human_gate state row h e f = absurd h
early-AreAligned NodeName.notify state row h e f = absurd h
early-AreAligned NodeName.close state row h e f = absurd h

route-IsEarly : (s : GraphState) → IsEarly (route_after_threat s)
unfolding route_after_threat
route-IsEarly s =
    elim (s.threat_assessment)
      as (λ o. IsEarly (elim o [
        | none ↦ NodeName.cve_research
        | some a ↦ if is_benign a.verdict then NodeName.report else NodeName.cve_research
      ])) [
        | none ↦ tt
        | some a ↦
            elim (is_benign a.verdict)
              as (λ b. IsEarly (if b then NodeName.report else NodeName.cve_research)) [
                | true ↦ tt
                | false ↦ tt
              ]
      ]

-- What a node's step does to the status of the case, unless the triage's write is lost.
abbrev IsWritten : ℕ → NodeName → Tables → Tables → Type 0
IsWritten i NodeName.triage t t' = status_at i t' ≡ some awaiting_approval
IsWritten i _ t t' = status_at i t' ≡ status_at i t

lost-IsWritten :
    (i : ℕ) (n : NodeName) (t : Tables) → (false || not (is_triage n)) ≡ true → IsWritten i n t t
lost-IsWritten i NodeName.ingest_seed t h = refl
lost-IsWritten i NodeName.log_analysis t h = refl
lost-IsWritten i NodeName.threat_detection t h = refl
lost-IsWritten i NodeName.cve_research t h = refl
lost-IsWritten i NodeName.report t h = refl
lost-IsWritten i NodeName.remediation t h = refl
lost-IsWritten i NodeName.triage t h = absurd (cc)
lost-IsWritten i NodeName.human_gate t h = refl
lost-IsWritten i NodeName.notify t h = refl
lost-IsWritten i NodeName.close t h = refl

-- The nodes that write no status, or one that no run before its end has.
abbrev IsEnd : NodeName → Type 0
IsEnd NodeName.close = Unit
IsEnd _ = ⊥

kept-IsWritten :
    (i : ℕ) (n : NodeName) (row : InvestigationStatus) (out : Output) (now : ℕ) (t : Tables)
    → status_at i t ≡ some row
    → (IsEnd n → ⊥)
    → IsWritten i n t (persist i n out now t)
unfolding persist
kept-IsWritten i NodeName.ingest_seed row out now t found h =
    status-persist i NodeName.ingest_seed out now t tt
kept-IsWritten i NodeName.log_analysis row out now t found h =
    status-persist i NodeName.log_analysis out now t tt
kept-IsWritten i NodeName.threat_detection row out now t found h =
    status-persist i NodeName.threat_detection out now t tt
kept-IsWritten i NodeName.cve_research row out now t found h =
    status-persist i NodeName.cve_research out now t tt
kept-IsWritten i NodeName.report row out now t found h =
    status-persist i NodeName.report out now t tt
kept-IsWritten i NodeName.remediation row out now t found h =
    status-persist i NodeName.remediation out now t tt
kept-IsWritten i NodeName.triage row out now t found h =
    status-mark_status i awaiting_approval row now t found
kept-IsWritten i NodeName.human_gate row out now t found h = refl
kept-IsWritten i NodeName.notify row out now t found h = refl
kept-IsWritten i NodeName.close row out now t found h = absurd (h tt)

aligned-not_end :
    (n : NodeName) (state row : InvestigationStatus) → AreAligned (some n) state row → IsEnd n → ⊥
aligned-not_end NodeName.close state row h e = h
aligned-not_end _ state row h e = e

written-IsWritten :
    (commits : Bool) (i : ℕ) (n : NodeName) (row : InvestigationStatus) (out : Output) (now : ℕ)
    (t : Tables)
    → status_at i t ≡ some row
    → (IsEnd n → ⊥)
    → (commits || not (is_triage n)) ≡ true
    → IsWritten i n t (written commits i n out now t)
written-IsWritten true i n row out now t found h e = kept-IsWritten i n row out now t found h
written-IsWritten false i n row out now t found h e = lost-IsWritten i n t e

step-Tracks :
    (i : ℕ) (n : NodeName) (inp : Input) (s : GraphState) (t t' : Tables)
    → Tracks i (record { at = some n; state = s }) t
    → IsWritten i n t t'
    → n ≢ NodeName.human_gate
    → Tracks i (after n inp s) t'
unfolding Tracks after next_node act enter
step-Tracks i NodeName.ingest_seed inp s t t' (row, found, aligned) same other =
    (row, same ∙ found, (refl, aligned))
step-Tracks i NodeName.threat_detection inp s t t' (row, found, (e, f)) same other =
    let s' = act NodeName.threat_detection inp s in
    (
      row,
      same ∙ found,
      early-AreAligned (route_after_threat s') s.status row (route-IsEarly s') e f,
    )
step-Tracks i NodeName.log_analysis inp s t t' (row, found, aligned) same other =
    (row, same ∙ found, aligned)
step-Tracks i NodeName.cve_research inp s t t' (row, found, aligned) same other =
    (row, same ∙ found, aligned)
step-Tracks i NodeName.report inp s t t' (row, found, aligned) same other =
    (row, same ∙ found, aligned)
step-Tracks i NodeName.remediation inp s t t' (row, found, aligned) same other =
    (row, same ∙ found, aligned)
step-Tracks i NodeName.triage inp s t t' (row, found, aligned) same other =
    (awaiting_approval, same, (refl, refl))
step-Tracks i NodeName.human_gate inp s t t' (row, found, aligned) same other = absurd (other refl)
step-Tracks i NodeName.notify inp s t t' (row, found, aligned) same other = absurd aligned
step-Tracks i NodeName.close inp s t t' (row, found, aligned) same other = absurd aligned

pub advance-Tracks :
    (commits : Bool) (i : ℕ) (n : NodeName) (inp : Input) (s : GraphState) (out : Output) (now : ℕ)
    (t : Tables)
    → (commits || not (is_triage n)) ≡ true
    → Tracks i (record { at = some n; state = s }) t
    → n ≢ NodeName.human_gate
    → Tracks i (after n inp s) (written commits i n out now t)
unfolding Tracks
advance-Tracks commits i n inp s out now t kept (row, found, aligned) other =
    step-Tracks i n inp s t (written commits i n out now t) (row, found, aligned)
      (written-IsWritten commits i n row out now t found (aligned-not_end n s.status row aligned)
        kept)
      other

pub dead-Tracks :
    (i : ℕ) (n : NodeName) (r : Run) (reason : Text) (t : Tables)
    → Tracks i r t
    → Tracks i r (record_stage i n failed reason t)
unfolding Tracks
dead-Tracks i n r reason t (row, found, aligned) =
    (row, status-record_stage i n failed reason t ∙ found, aligned)
