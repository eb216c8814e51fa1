-- ===== src/Cases/Worker.antt =====
-- backend/workers/investigations.py: what each node's output does to the case, and a run that dies.
-- The rows of events, assessments and vulnerability findings are left out, and the details of a
-- stage, texts for people, come with the node's output.
use ai_cybersecurity_soc_ana.Cases.Tables.{
  Investigation, Report, StageRecord, Tables, changed, complete, failed, lookup-change, skipped,
}
use ai_cybersecurity_soc_ana.Common.Dict.{lookup}
use ai_cybersecurity_soc_ana.Common.{
  Bool, Bool-cases, List, Option, [], ap, arith, false, if◌then◌else◌, inl, inr, none, some, true,
  ℕ, ◌==◌, ◌∙◌, ◌∷◌, ◌≡◌, ◌⊎◌,
}
use ai_cybersecurity_soc_ana.Common.Text.{Text}
use ai_cybersecurity_soc_ana.Enums.{
  Severity, TriagePriority, Verdict, awaiting_approval, closed, failed, in_progress, is_benign,
}
use ai_cybersecurity_soc_ana.Graph.History.{NodeName}
use ai_cybersecurity_soc_ana.Cases.Lifecycle.{mark_status, record_stage, set_headline, with_stage}
use ai_cybersecurity_soc_ana.Cases.Reports.{record_report_content}
use ai_cybersecurity_soc_ana.Cases.Plans.{record_remediation_plan}

-- What `_persist` reads of an update.
pub record Output : Type 0 where
  pub verdict : Verdict
  pub severity : Severity
  pub executive_summary : Text
  pub technical_report : Text
  pub recommendations : List (Text × TriagePriority)
  pub detail : Text
  pub skipped_detail : Text

unfoldable pub skip_research : ℕ → Output → Tables → Tables
unfolding record_stage
skip_research i out t =
    if is_benign out.verdict
    then record_stage i NodeName.cve_research skipped out.skipped_detail t
    else t

abbrev pub headline_of_report : ℕ → Text → Tables × Report → Tables
headline_of_report i detail (t, row) =
    record_stage i NodeName.report complete detail (set_headline i none row.executive_summary t)

-- `_persist`
unfoldable pub persist : ℕ → NodeName → Output → ℕ → Tables → Tables
unfolding skip_research record_stage set_headline mark_status record_report_content
    record_remediation_plan
persist i NodeName.log_analysis out now t =
    record_stage i NodeName.log_analysis complete out.detail t
persist i NodeName.threat_detection out now t = skip_research i out (
    record_stage i NodeName.threat_detection complete out.detail
      (set_headline i (some out.severity) [] t))
persist i NodeName.cve_research out now t =
    record_stage i NodeName.cve_research complete out.detail t
persist i NodeName.report out now t =
    headline_of_report i out.detail
      (record_report_content i out.executive_summary out.technical_report t)
persist i NodeName.remediation out now t =
    record_stage i NodeName.remediation complete out.detail
      (record_remediation_plan i out.recommendations t)
persist i NodeName.triage out now t = mark_status i awaiting_approval now t
persist i NodeName.close out now t = mark_status i closed now t
persist i _ out now t = t

-- `_write` of one node's output, whose transaction may roll back; the run goes on.
pub record Reported : Type 0 where
  pub node : NodeName
  pub output : Output
  pub commits : Bool

unfoldable pub persist_all : ℕ → List Reported → ℕ → Tables → Tables
unfolding persist
persist_all i [] now t = t
persist_all i (r ∷ rs) now t =
    persist_all i rs now (if r.commits then persist i r.node r.output now t else t)

-- A stage that is complete or skipped has an outcome.
abbrev pub has_outcome : Option StageRecord → Bool
has_outcome none = false
has_outcome (some entry) = elim (entry.status) [ failed ↦ false | _ ↦ true ]

abbrev pub stage_order : List NodeName
stage_order =
    NodeName.log_analysis ∷ NodeName.threat_detection ∷ NodeName.cve_research ∷ NodeName.report
    ∷ NodeName.remediation ∷ []

unfoldable pub first_open : (NodeName → Option StageRecord) → List NodeName → NodeName
first_open pipeline [] = NodeName.remediation
first_open pipeline (stage ∷ stages) =
    if has_outcome (pipeline stage) then first_open pipeline stages else stage

abbrev pub pipeline_at : Option Investigation → NodeName → Option StageRecord
pipeline_at none = λ n. none
pipeline_at (some row) = row.pipeline

-- `_failed_stage`
unfoldable pub failed_stage : ℕ → Tables → NodeName
failed_stage i t = first_open (pipeline_at (lookup i t.investigations)) stage_order

-- `run_investigation`: the nodes that the graph reports, and whether it raises in the end, with the
-- reason.
unfoldable pub run_investigation : ℕ → List Reported → Option Text → ℕ → Tables → Tables
unfolding persist_all mark_status
run_investigation i reports raised now t =
    let t' = persist_all i reports now (mark_status i in_progress now t) in
    elim raised [ none ↦ t' | some reason ↦ record_stage i (failed_stage i t') failed reason t' ]

-- All stages from the list on have an outcome.
abbrev pub AreDone : (NodeName → Option StageRecord) → List NodeName → Type 0
AreDone pipeline [] = Unit
AreDone pipeline (stage ∷ stages) = (has_outcome (pipeline stage) ≡ true) × AreDone pipeline stages

-- The stage is the first one of the list that has no outcome.
abbrev pub IsFirstOpen : NodeName → (NodeName → Option StageRecord) → List NodeName → Type 0
IsFirstOpen n pipeline [] = ⊥
IsFirstOpen n pipeline (stage ∷ stages) =
    ((has_outcome (pipeline stage) ≡ false) × (n ≡ stage))
    ⊎ ((has_outcome (pipeline stage) ≡ true) × IsFirstOpen n pipeline stages)

first_open-cases :
    (pipeline : NodeName → Option StageRecord) (stages : List NodeName) (n : NodeName)
    → n ≡ first_open pipeline stages
    → IsFirstOpen n pipeline stages ⊎ (AreDone pipeline stages × (n ≡ NodeName.remediation))
unfolding first_open
first_open-cases pipeline [] n e = inr (tt, e)
first_open-cases pipeline (stage ∷ stages) n e = elim (Bool-cases (has_outcome (pipeline stage))) [
  | inr still ↦ inl (inl (still, rw still at e))
  | inl done ↦ elim (first_open-cases pipeline stages n (rw done at e)) [
    | inl here ↦ inl (inr (done, here))
    | inr (all_done, last) ↦ inr ((done, all_done), last)
  ]
]

failed_stage_lem :
    (i : ℕ) (t : Tables) (row : Investigation)
    → lookup i t.investigations ≡ some row
    → failed_stage i t ≡ first_open row.pipeline stage_order
unfolding failed_stage
failed_stage_lem i t row h = ap (λ o. first_open (pipeline_at o) stage_order) h

eq_refl : (i : ℕ) → (i == i) ≡ true
eq_refl i = ground arith

failed_at :
    (i : ℕ) (reason : Text) (t : Tables) (row : Investigation)
    → lookup i t.investigations ≡ some row
    → let n = failed_stage i t in
      (lookup i (record_stage i n failed reason t).investigations
        ≡ some (with_stage n (record { status = failed; detail = reason }) row))
      × (IsFirstOpen n row.pipeline stage_order
          ⊎ (AreDone row.pipeline stage_order × (n ≡ NodeName.remediation)))
unfolding record_stage
failed_at i reason t row h =
    let n = failed_stage i t in
    let entry : StageRecord = record { status = failed; detail = reason } in
    (
      lookup-change i i (with_stage n entry) t
          ∙ ap
              (λ b.
                if b
                then changed (with_stage n entry) (lookup i t.investigations)
                else lookup i t.investigations)
              (eq_refl i)
          ∙ ap (changed (with_stage n entry)) h,
      first_open-cases row.pipeline stage_order n (failed_stage_lem i t row h),
    )

-- A run that dies is recorded at the first stage, in the pipeline's order, that is neither complete
-- nor skipped; if no such stage is left, the last one, the remediation, is recorded as failed,
-- although it has an outcome.
pub died_run_recorded :
    (i : ℕ) (reports : List Reported) (reason : Text) (now : ℕ) (t : Tables) (row : Investigation)
    → let t' = persist_all i reports now (mark_status i in_progress now t) in
      let n = failed_stage i t' in
      lookup i t'.investigations ≡ some row
      → (lookup i (run_investigation i reports (some reason) now t).investigations
          ≡ some (with_stage n (record { status = failed; detail = reason }) row))
        × (IsFirstOpen n row.pipeline stage_order
            ⊎ (AreDone row.pipeline stage_order × (n ≡ NodeName.remediation)))
unfolding run_investigation
died_run_recorded i reports reason now t row h =
    failed_at i reason (persist_all i reports now (mark_status i in_progress now t)) row h
