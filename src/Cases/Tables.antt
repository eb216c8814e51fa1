-- ===== src/Cases/Tables.antt =====
-- The rows that a case consists of (backend/db/orm: investigation.py, conversation.py, reporting.py).
-- Titles, triggers, owners, snapshots of the configuration and citations are left out.
use ai_cybersecurity_soc_ana.Common.{
  List, Option, arith, if◌then◌else◌, none, refl, some, ℕ, ◌==◌, ◌≡◌,
}
use ai_cybersecurity_soc_ana.Common.Dict.{Dict, insert, lookup, lookup-insert}
use ai_cybersecurity_soc_ana.Common.Text.{Text}
use ai_cybersecurity_soc_ana.Enums.{InvestigationStatus, Severity, TriagePriority}
use ai_cybersecurity_soc_ana.Graph.History.{NodeName}
use ai_cybersecurity_soc_ana.Notify.Contracts.{HumanDecision}

pub data StageStatus : Type 0 where
  complete skipped failed : StageStatus

pub record StageRecord : Type 0 where
  pub status : StageStatus
  pub detail : Text

-- The `pipeline` column, a mapping from stage names, is a function.
pub record Investigation : Type 0 where
  pub status : InvestigationStatus
  pub severity : Option Severity
  pub summary : Text
  pub closed_at : Option ℕ
  pub pipeline : NodeName → Option StageRecord

pub data ReportStatus : Type 0 where
  draft final : ReportStatus

pub record Report : Type 0 where
  pub investigation_id : ℕ
  pub version : ℕ
  pub status : ReportStatus
  pub executive_summary : Text
  pub technical_body : Text

pub data ApprovalStatus : Type 0 where
  pending approved rejected edited : ApprovalStatus

pub record Recommendation : Type 0 where
  pub id : ℕ
  pub investigation_id : ℕ
  pub version : ℕ
  pub action : Text
  pub priority : TriagePriority
  pub approval_status : ApprovalStatus

-- Rows get their ids from one counter. A conversation is its id with the investigation's.
pub record Tables : Type 0 where
  pub investigations : Dict Investigation
  pub conversations : Dict ℕ
  pub decisions : Dict HumanDecision
  pub reports : List Report
  pub recommendations : List Recommendation
  pub next_id : ℕ

-- The stages' names are compared by their numbers.
abbrev pub number : NodeName → ℕ
number NodeName.ingest_seed = 0
number NodeName.log_analysis = 1
number NodeName.threat_detection = 2
number NodeName.cve_research = 3
number NodeName.report = 4
number NodeName.remediation = 5
number NodeName.triage = 6
number NodeName.human_gate = 7
number NodeName.notify = 8
number NodeName.close = 9

-- A change of the row `session.get` finds, if it finds one.
unfoldable pub change : ℕ → (Investigation → Investigation) → Tables → Tables
unfolding insert lookup
change i f t = elim (lookup i t.investigations) [
  | none ↦ t
  | some row ↦ record t { investigations = insert i (f row) t.investigations }
]

abbrev pub changed : (Investigation → Investigation) → Option Investigation → Option Investigation
changed f none = none
changed f (some row) = some (f row)

pub lookup-change :
    (i j : ℕ) (f : Investigation → Investigation) (t : Tables)
    → lookup j (change i f t).investigations
      ≡ (if i == j then changed f (lookup j t.investigations) else lookup j t.investigations)
unfolding change
lookup-change i j f t =
    elim (lookup i t.investigations)
        as (λ o.
          lookup i t.investigations ≡ o
          → lookup j
              (elim o as (λ _. Tables) [
                | none ↦ t
                | some row ↦ record t { investigations = insert i (f row) t.investigations }
              ]).investigations
            ≡ (if i == j
                then changed f (lookup j t.investigations)
                else lookup j t.investigations)) [
                  | none ↦ λ e. ground (arith, e)
                  | some row ↦ λ e. ground (arith, e, lookup-insert i j (f row) t.investigations)
                ]
      refl
