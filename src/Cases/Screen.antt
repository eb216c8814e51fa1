-- ===== src/Cases/Screen.antt =====
-- The read projections of backend/services/investigations.py that report progress and open work.
use ai_cybersecurity_soc_ana.Common.{
  Bool, List, Option, [], false, none, refl, some, true, ℕ, ◌&&◌, ◌||◌, ◌∷◌, ◌≡◌,
}
use ai_cybersecurity_soc_ana.Common.Text.{Text, codes}
use ai_cybersecurity_soc_ana.Enums.{InvestigationStatus}
use ai_cybersecurity_soc_ana.Graph.History.{NodeName}
use ai_cybersecurity_soc_ana.Cases.Tables.{
  Investigation, Recommendation, Report, StageRecord, StageStatus, Tables, draft, final,
}
use ai_cybersecurity_soc_ana.Cases.Reports
use ai_cybersecurity_soc_ana.Cases.Plans
use ai_cybersecurity_soc_ana.Cases.Worker.{has_outcome, stage_order}

-- `PipelineStage` without its label; an absent detail is `none`.
pub record PipelineStage : Type 0 where
  pub name : NodeName
  pub complete : Bool
  pub skipped : Bool
  pub detail : Option Text

abbrev pub is_complete : StageStatus → Bool
is_complete StageStatus.complete = true
is_complete _ = false

abbrev pub is_skipped : StageStatus → Bool
is_skipped StageStatus.skipped = true
is_skipped _ = false

-- `text or None`
abbrev pub or_none : Text → Option Text
or_none [] = none
or_none (c ∷ s) = some (c ∷ s)

-- One stage of the projection. Without a record, `entry` is the empty mapping, and the detail is
-- `str(None)`.
unfoldable pub stage_of : NodeName → Option StageRecord → PipelineStage
stage_of n none = record {
  name = n;
  complete = false;
  skipped = false;
  detail = or_none (codes "None");
}
stage_of n (some entry) = record {
  name = n;
  complete = is_complete entry.status;
  skipped = is_skipped entry.status;
  detail = or_none entry.detail;
}

unfoldable pub stages_of : (NodeName → Option StageRecord) → List NodeName → List PipelineStage
unfolding stage_of
stages_of pipeline [] = []
stages_of pipeline (n ∷ ns) = stage_of n (pipeline n) ∷ stages_of pipeline ns

-- `pipeline_of`
unfoldable pub pipeline_of : Investigation → List PipelineStage
unfolding stages_of
pipeline_of row = stages_of row.pipeline stage_order

-- `cve_research_ran`
unfoldable pub cve_research_ran : Investigation → Bool
cve_research_ran row = elim (row.pipeline NodeName.cve_research) [
  | none ↦ false
  | some e ↦ is_complete e.status
]

-- What waits on a person. Ids and titles are left out.
pub data PendingApproval : Type 0 where
  report_draft : (version : ℕ) → PendingApproval
  recommendation : (id : ℕ) → PendingApproval

unfoldable pub items_of : List Recommendation → List PendingApproval
items_of [] = []
items_of (r ∷ rs) = recommendation r.id ∷ items_of rs

unfoldable pub with_draft : Option Report → List PendingApproval → List PendingApproval
with_draft none items = items
with_draft (some r) items = elim (r.status) [
  | draft ↦ report_draft r.version ∷ items
  | final ↦ items
]

pub record PendingApprovals : Type 0 where
  pub gate_open : Bool
  pub items : List PendingApproval

abbrev pub is_awaiting : InvestigationStatus → Bool
is_awaiting InvestigationStatus.awaiting_approval = true
is_awaiting _ = false

-- `pending_approvals_of`
unfoldable pub pending_approvals_of : ℕ → Investigation → Tables → PendingApprovals
unfolding items_of with_draft Reports.current Plans.pending_approval
pending_approvals_of i row t = record {
  gate_open = is_awaiting row.status;
  items =
      with_draft (Reports.current i t.reports)
        (items_of (Plans.pending_approval i t.recommendations));
}

-- The detail of every stage that has no record is the text "None", where it is absent for a stage
-- that was recorded with an empty detail.
pub unrecorded_says_none :
    (n : NodeName) (status : StageStatus)
    → ((stage_of n none).detail ≡ some (codes "None"))
      × ((stage_of n (some (record { status = status; detail = [] }))).detail ≡ none)
unfolding stage_of
unrecorded_says_none n status = (refl, refl)

-- The stages are shown in their order, each as complete or skipped exactly if it has an outcome.
abbrev pub ShowsEach : (NodeName → Option StageRecord) → List NodeName → List PipelineStage → Type 0
ShowsEach pipeline [] [] = Unit
ShowsEach pipeline (n ∷ ns) (s ∷ ss) =
    (s.name ≡ n)
    × ((s.complete || s.skipped) ≡ has_outcome (pipeline n))
    × ((s.complete && s.skipped) ≡ false)
    × ShowsEach pipeline ns ss
ShowsEach pipeline ns ss = ⊥

stages_of-ShowsEach :
    (pipeline : NodeName → Option StageRecord) (ns : List NodeName)
    → ShowsEach pipeline ns (stages_of pipeline ns)
unfolding stages_of stage_of
stages_of-ShowsEach pipeline [] = tt
stages_of-ShowsEach pipeline (n ∷ ns) =
    elim (pipeline n)
      as (λ o.
        ((stage_of n o).name ≡ n)
        × (((stage_of n o).complete || (stage_of n o).skipped) ≡ has_outcome o)
        × (((stage_of n o).complete && (stage_of n o).skipped) ≡ false)
        × ShowsEach pipeline ns (stages_of pipeline ns)) [
          | none ↦ (refl, refl, refl, stages_of-ShowsEach pipeline ns)
          | some e ↦
              elim (e.status)
                as (λ st.
                  let s = stage_of n (some (record { status = st; detail = e.detail })) in
                  (s.name ≡ n)
                  × ((s.complete || s.skipped)
                      ≡ has_outcome (some (record { status = st; detail = e.detail })))
                  × ((s.complete && s.skipped) ≡ false)
                  × ShowsEach pipeline ns (stages_of pipeline ns)) [
                    | StageStatus.complete ↦ (refl, refl, refl, stages_of-ShowsEach pipeline ns)
                    | StageStatus.skipped ↦ (refl, refl, refl, stages_of-ShowsEach pipeline ns)
                    | StageStatus.failed ↦ (refl, refl, refl, stages_of-ShowsEach pipeline ns)
                  ]
        ]

-- The pipeline on the screen is the five agent stages in their order, each complete or skipped exactly
-- if the case records an outcome for it, and never both.
pub pipeline_of-ShowsEach :
    (row : Investigation) → ShowsEach row.pipeline stage_order (pipeline_of row)
unfolding pipeline_of
pipeline_of-ShowsEach row = stages_of-ShowsEach row.pipeline stage_order
