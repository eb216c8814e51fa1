-- ===== src/Cases/Reports.antt =====
-- backend/services/report.py over `ReportRepository` of backend/db/repositories/reporting.py.
use ai_cybersecurity_soc_ana.Common.{
  List, Option, [], if◌then◌else◌, max, none, some, ℕ, ◌&&◌, ◌++◌, ◌+◌, ◌==◌, ◌∷◌,
}
use ai_cybersecurity_soc_ana.Common.Text.{Text}
use ai_cybersecurity_soc_ana.Cases.Tables.{Report, Tables, draft, final}

-- `latest_version`: the highest, or 0.
unfoldable pub latest_version : ℕ → List Report → ℕ
latest_version i [] = 0
latest_version i (r ∷ rs) =
    let rest = latest_version i rs in if r.investigation_id == i then max r.version rest else rest

unfoldable pub for_version : ℕ → ℕ → List Report → Option Report
for_version i v [] = none
for_version i v (r ∷ rs) =
    let rest = for_version i v rs in
    if (r.investigation_id == i) && (r.version == v) then some r else rest

-- `current`: the row with the highest version.
unfoldable pub current : ℕ → List Report → Option Report
unfolding latest_version for_version
current i rs = for_version i (latest_version i rs) rs

abbrev pub next_draft : ℕ → Text → Text → List Report → Report
next_draft i summary body rs = record {
  investigation_id = i;
  version = latest_version i rs + 1;
  status = draft;
  executive_summary = summary;
  technical_body = body;
}

-- `record_report_content`
unfoldable pub record_report_content : ℕ → Text → Text → Tables → Tables × Report
unfolding latest_version
record_report_content i summary body t =
    let row = next_draft i summary body t.reports in
    (record t { reports = t.reports ++ row ∷ [] }, row)

-- The status of one generation is set to final.
unfoldable pub set_final : ℕ → ℕ → List Report → List Report
set_final i v [] = []
set_final i v (r ∷ rs) =
    (if (r.investigation_id == i) && (r.version == v) then record r { status = final } else r)
    ∷ set_final i v rs

-- `finalize_report` without a version: an error, `none`, if there is no report.
unfoldable pub finalize_report : ℕ → Tables → Option Tables
unfolding current set_final
finalize_report i t = elim (current i t.reports) [
  | none ↦ none
  | some r ↦ some (record t { reports = set_final i r.version t.reports })
]
