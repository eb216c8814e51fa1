-- ===== src/Cases/Statuses.antt =====
-- What the operations on a case do to its status.
use ai_cybersecurity_soc_ana.Cases.Reports.{record_report_content}
use ai_cybersecurity_soc_ana.Cases.Lifecycle.{mark_status, record_stage, set_headline, with_status}
use ai_cybersecurity_soc_ana.Cases.Worker.{Output, persist, skip_research}
use ai_cybersecurity_soc_ana.Cases.Tables.{
  Investigation, StageStatus, Tables, change, changed, complete, lookup-change, skipped,
}
use ai_cybersecurity_soc_ana.Common.{
  Bool-cases, List, Option, [], ap, arith, inl, inr, none, refl, some, ℕ, ◌∙◌, ◌≡◌,
}
use ai_cybersecurity_soc_ana.Common.Dict.{lookup}
use ai_cybersecurity_soc_ana.Common.Text.{Text}
use ai_cybersecurity_soc_ana.Enums.{InvestigationStatus, Severity, TriagePriority, is_benign}
use ai_cybersecurity_soc_ana.Graph.History.{NodeName}
use ai_cybersecurity_soc_ana.Cases.Plans.{record_remediation_plan}

abbrev pub status_of : Option Investigation → Option InvestigationStatus
status_of none = none
status_of (some row) = some row.status

abbrev pub status_at : ℕ → Tables → Option InvestigationStatus
status_at i t = status_of (lookup i t.investigations)

status-change :
    (i : ℕ) (f : Investigation → Investigation) (t : Tables)
    → status_at i (change i f t) ≡ status_of (changed f (lookup i t.investigations))
status-change i f t = ground (arith, lookup-change i i f t)

-- A change that leaves the status alone.
pub status-change_else :
    (i : ℕ) (f : Investigation → Investigation) (t : Tables)
    → ((row : Investigation) → (f row).status ≡ row.status)
    → status_at i (change i f t) ≡ status_at i t
status-change_else i f t same = status-change i f t ∙ kept (lookup i t.investigations)
  where
    kept : (o : Option Investigation) → status_of (changed f o) ≡ status_of o
    kept none = refl
    kept (some row) = ap (λ s. some s) (same row)

pub status-record_stage :
    (i : ℕ) (n : NodeName) (s : StageStatus) (d : Text) (t : Tables)
    → status_at i (record_stage i n s d t) ≡ status_at i t
unfolding record_stage
status-record_stage i n s d t = status-change_else i _ t (λ row. refl)

pub status-set_headline :
    (i : ℕ) (severity : Option Severity) (summary : Text) (t : Tables)
    → status_at i (set_headline i severity summary t) ≡ status_at i t
unfolding set_headline
status-set_headline i severity summary t = status-change_else i _ t (λ row. refl)

status-changed :
    (s : InvestigationStatus) (now : ℕ) (o : Option Investigation) (before : InvestigationStatus)
    → status_of o ≡ some before
    → status_of (changed (with_status s now) o) ≡ some s
status-changed s now none before h = absurd (cc)
status-changed s now (some row) before h = refl

pub status-mark_status :
    (i : ℕ) (s before : InvestigationStatus) (now : ℕ) (t : Tables)
    → status_at i t ≡ some before
    → status_at i (mark_status i s now t) ≡ some s
unfolding mark_status
status-mark_status i s before now t h =
    status-change i (with_status s now) t
    ∙ status-changed s now (lookup i t.investigations) before h

-- The outputs of the agents leave the status of the case alone.
status-skip_research :
    (i : ℕ) (out : Output) (t : Tables) → status_at i (skip_research i out t) ≡ status_at i t
unfolding skip_research
status-skip_research i out t = elim (Bool-cases (is_benign out.verdict)) [
  | inl benign ↦
      rw benign (status-record_stage i NodeName.cve_research skipped out.skipped_detail t)
  | inr other ↦ rw other refl
]

status-plan :
    (i : ℕ) (plan : List (Text × TriagePriority)) (t : Tables)
    → status_at i (record_remediation_plan i plan t) ≡ status_at i t
unfolding record_remediation_plan
status-plan i plan t = refl

status-report :
    (i : ℕ) (out : Output) (now : ℕ) (t : Tables)
    → status_at i (persist i NodeName.report out now t) ≡ status_at i t
unfolding persist record_report_content
status-report i out now t =
    let (t', row) = record_report_content i out.executive_summary out.technical_report t in
    status-record_stage i NodeName.report complete out.detail
      (set_headline i none row.executive_summary t')
    ∙ status-set_headline i none row.executive_summary t'

abbrev pub IsAgent : NodeName → Type 0
IsAgent NodeName.ingest_seed = Unit
IsAgent NodeName.log_analysis = Unit
IsAgent NodeName.threat_detection = Unit
IsAgent NodeName.cve_research = Unit
IsAgent NodeName.report = Unit
IsAgent NodeName.remediation = Unit
IsAgent _ = ⊥

pub status-persist :
    (i : ℕ) (n : NodeName) (out : Output) (now : ℕ) (t : Tables)
    → IsAgent n
    → status_at i (persist i n out now t) ≡ status_at i t
unfolding persist
status-persist i NodeName.ingest_seed out now t h = refl
status-persist i NodeName.log_analysis out now t h =
    status-record_stage i NodeName.log_analysis complete out.detail t
status-persist i NodeName.threat_detection out now t h =
    let headed = set_headline i (some out.severity) [] t in
    status-skip_research i out (record_stage i NodeName.threat_detection complete out.detail headed)
    ∙ status-record_stage i NodeName.threat_detection complete out.detail headed
    ∙ status-set_headline i (some out.severity) [] t
status-persist i NodeName.cve_research out now t h =
    status-record_stage i NodeName.cve_research complete out.detail t
status-persist i NodeName.report out now t h = status-report i out now t
status-persist i NodeName.remediation out now t h =
    status-record_stage i NodeName.remediation complete out.detail
      (record_remediation_plan i out.recommendations t)
    ∙ status-plan i out.recommendations t
status-persist i NodeName.triage out now t h = absurd h
status-persist i NodeName.human_gate out now t h = absurd h
status-persist i NodeName.notify out now t h = absurd h
status-persist i NodeName.close out now t h = absurd h
