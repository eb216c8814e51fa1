-- ===== src/Cases/Tests.antt =====
-- The properties of the life of a case at concrete inputs.
use ai_cybersecurity_soc_ana.Common.{
  List, [], false, if◌then◌else◌, map, none, refl, some, true, ℕ, ◌&&◌, ◌==◌, ◌↔◌, ◌∷◌, ◌≡◌, ◌⊎◌,
}
use ai_cybersecurity_soc_ana.Cases.Plans
use ai_cybersecurity_soc_ana.Cases.Plans.{by_id, to_recommendations}
use ai_cybersecurity_soc_ana.Cases.Decision.{apply_gate_outcome, conflict, decide}
use ai_cybersecurity_soc_ana.Cases.Tracking.{
  IsDecided, case_tracks_run, decide_lem, failed_triage_write_blocks,
}
use ai_cybersecurity_soc_ana.Cases.Approvals.{decided_stays, decides, perform_all, plans}
use ai_cybersecurity_soc_ana.Cases.Course.{AreAligned, Course, advances, begins, decides, written}
use ai_cybersecurity_soc_ana.Notify.Contracts.{HumanDecision, is_approve}
use ai_cybersecurity_soc_ana.Graph.History.{NodeName}
use ai_cybersecurity_soc_ana.Cases.Reports.{
  current, for_version, latest_version, record_report_content,
}
use ai_cybersecurity_soc_ana.Enums.{
  DecisionType, InvestigationStatus, Severity, TriagePriority, Verdict, awaiting_approval, closed,
  in_progress, opened,
}
use ai_cybersecurity_soc_ana.Cases.Screen.{stage_of, unrecorded_says_none}
use ai_cybersecurity_soc_ana.Cases.Versions.{
  gate_finalizes_current, made_final, record_report_content_lem,
}
use ai_cybersecurity_soc_ana.Cases.Authority.{recorded_authorizes_iff}
use ai_cybersecurity_soc_ana.Cases.Statuses.{status_at}
use ai_cybersecurity_soc_ana.Cases.Worker.{
  AreDone, IsFirstOpen, Output, Reported, died_run_recorded, failed_stage, first_open, persist,
  persist_all, run_investigation, stage_order,
}
use ai_cybersecurity_soc_ana.Cases.Lifecycle.{
  conversation_for, create_investigation, mark_status, opened_row, record_gate_decision, with_stage,
}
use ai_cybersecurity_soc_ana.Cases.Tables.{
  Investigation, Recommendation, Report, Tables, approved, complete, draft, failed, final, rejected,
}
use ai_cybersecurity_soc_ana.Notify.Approval.{ok, verify_approval}
use ai_cybersecurity_soc_ana.Graph.Nodes.{Input, act, enter, new_state, route_after_threat}
use ai_cybersecurity_soc_ana.Graph.Builder.{Run, after, next_node, start}
use ai_cybersecurity_soc_ana.Common.Text.{Text, codes}
use ai_cybersecurity_soc_ana.Common.Dict.{lookup}
use ai_cybersecurity_soc_ana.Notify.Database.{Database}

-- A case that was created, in tables that are otherwise empty.
abbrev no_rows : Tables
no_rows = record {
  investigations = [];
  conversations = [];
  decisions = [];
  reports = [];
  recommendations = [];
  next_id = 1;
}

abbrev created : Tables
created = record no_rows { investigations = (1, opened_row) ∷ []; next_id = 2 }

creation : create_investigation no_rows ≡ (created, 1)
unfolding create_investigation
creation = refl

abbrev input : Input
input = record {
  assessment = record { verdict = Verdict.malicious; triage_priority = TriagePriority.high };
  decision = DecisionType.approve;
}

abbrev output : Output
output = record {
  verdict = Verdict.malicious;
  severity = Severity.high;
  executive_summary = codes "s";
  technical_report = codes "t";
  recommendations = (codes "patch", TriagePriority.high) ∷ [];
  detail = codes "d";
  skipped_detail = codes "skipped";
}

-- The run's first node.
abbrev underway : Tables
unfolding mark_status persist
underway = persist 1 NodeName.ingest_seed output 5 (mark_status 1 in_progress 5 created)

underway-Course : Course 1 true (after NodeName.ingest_seed input new_state) underway
unfolding start lookup mark_status persist
underway-Course =
    advances true true NodeName.ingest_seed input new_state output 5
      (mark_status 1 in_progress 5 created) (begins created opened 5 refl) (λ e. cc)

case_tracks_run_example :
    let r = after NodeName.ingest_seed input new_state in
    (row : InvestigationStatus) × (status_at 1 underway ≡ some row)
    × AreAligned r.at r.state.status row
case_tracks_run_example =
    case_tracks_run 1 (after NodeName.ingest_seed input new_state) underway underway-Course

decide_lem_example :
    let r = after NodeName.ingest_seed input new_state in
    IsDecided (decide 1 DecisionType.approve 9 input r underway) ↔ (r.at ≡ some NodeName.human_gate)
decide_lem_example =
    decide_lem 1 (after NodeName.ingest_seed input new_state) underway DecisionType.approve 9 input
      underway-Course

-- The run before the triage; the write of the log analysis was lost.
abbrev at_log_analysis : Run
unfolding after next_node act enter
at_log_analysis = after NodeName.ingest_seed input new_state

abbrev at_threat_detection : Run
unfolding after next_node act enter
at_threat_detection = after NodeName.log_analysis input at_log_analysis.state

abbrev at_cve_research : Run
unfolding after next_node act enter route_after_threat
at_cve_research = after NodeName.threat_detection input at_threat_detection.state

abbrev at_report : Run
unfolding after next_node act enter
at_report = after NodeName.cve_research input at_cve_research.state

abbrev at_remediation : Run
unfolding after next_node act enter
at_remediation = after NodeName.report input at_report.state

abbrev at_triage : Run
unfolding after next_node act enter
at_triage = after NodeName.remediation input at_remediation.state

researched-Course : Course 1 true at_report underway
unfolding after next_node act enter route_after_threat
researched-Course =
    advances true false NodeName.cve_research input at_cve_research.state output 6 underway
      (advances true false NodeName.threat_detection input at_threat_detection.state output 6
        underway
        (advances true false NodeName.log_analysis input at_log_analysis.state output 6 underway
          underway-Course (λ e. cc))
        (λ e. cc))
      (λ e. cc)

triage-Course : Course 1 true at_triage underway
unfolding after next_node act enter
triage-Course =
    advances true false NodeName.remediation input at_remediation.state output 6 underway
      (advances true false NodeName.report input at_report.state output 6 underway researched-Course
        (λ e. cc))
      (λ e. cc)

failed_triage_write_blocks_example :
    let r = after NodeName.triage input at_triage.state in
    Course 1 false r (written false 1 NodeName.triage output 7 underway)
    × (r.at ≡ some NodeName.human_gate)
    × ((d : DecisionType) (later : ℕ) (given : Input)
        → decide 1 d later given r underway ≡ conflict)
unfolding at_triage
failed_triage_write_blocks_example =
    failed_triage_write_blocks 1 at_triage.state underway input output 7 triage-Course

-- A paused case with a draft.
abbrev draft_one : Report
draft_one = record {
  investigation_id = 1;
  version = 1;
  status = draft;
  executive_summary = codes "s";
  technical_body = codes "t";
}

abbrev paused : Tables
paused = record created {
  investigations = (1, record opened_row { status = awaiting_approval }) ∷ [];
  reports = draft_one ∷ [];
  recommendations =
      record {
        id = 7;
        investigation_id = 1;
        version = 1;
        action = codes "patch";
        priority = TriagePriority.high;
        approval_status = approved;
      }
      ∷ [];
}

abbrev final_tables : Tables
final_tables = record paused {
  investigations = (1, record opened_row { status = closed; closed_at = some 9 }) ∷ [];
  reports = record draft_one { status = final } ∷ [];
}

final_outcome : apply_gate_outcome 1 DecisionType.approve false 9 paused ≡ some final_tables
unfolding apply_gate_outcome
final_outcome = refl

gate_finalizes_current_example : for_version 1 1 final_tables.reports ≡ (
    if is_approve DecisionType.approve && ((1 == 1) && (latest_version 1 paused.reports == 1))
    then made_final (for_version 1 1 paused.reports)
    else for_version 1 1 paused.reports)
gate_finalizes_current_example =
    gate_finalizes_current 1 1 1 DecisionType.approve false 9 paused final_tables final_outcome

record_report_content_lem_example :
    let (t', row) = record_report_content 1 (codes "u") (codes "v") paused in
    (current 1 t'.reports ≡ some row)
    × (row.status ≡ draft)
    × (for_version 1 row.version paused.reports ≡ none)
    × (for_version 1 1 t'.reports
        ≡ (if (1 == 1) && (row.version == 1) then some row else for_version 1 1 paused.reports))
record_report_content_lem_example = record_report_content_lem 1 1 1 (codes "u") (codes "v") paused

abbrev no_alerts : Database
no_alerts = record {
  decisions = [];
  conversations = [];
  notifications = [];
  next_id = 1;
  audit = [];
}

recorded_authorizes_iff_example :
    let (t', id) = record_gate_decision 1 DecisionType.approve paused in
    let row : HumanDecision = record {
      conversation_id = (conversation_for 1 paused).1;
      decision = DecisionType.approve;
    } in
    (verify_approval 1 id
        (record no_alerts { decisions = t'.decisions; conversations = t'.conversations })
      ≡ ok row)
    ↔ ((◌≡◌ {A = ℕ} 1 1) × (is_approve DecisionType.approve ≡ true))
recorded_authorizes_iff_example =
    recorded_authorizes_iff 1 1 DecisionType.approve paused no_alerts tt

abbrev patch_row : Recommendation
patch_row = record {
  id = 7;
  investigation_id = 1;
  version = 1;
  action = codes "patch";
  priority = TriagePriority.high;
  approval_status = approved;
}

decided_stays_example :
    by_id 7
      (perform_all
        (decides 7 rejected (codes "ann")
          ∷ plans 1 ((codes "isolate", TriagePriority.urgent) ∷ [])
          ∷ [])
        paused).recommendations
    ≡ some patch_row
unfolding by_id
decided_stays_example =
    decided_stays
      (decides 7 rejected (codes "ann")
        ∷ plans 1 ((codes "isolate", TriagePriority.urgent) ∷ [])
        ∷ [])
      paused 7 patch_row refl refl

-- The queue of a plan starts with the high priority, not with the urgent one.
urgent_comes_last :
    let plan : List (Text × TriagePriority) =
      (codes "isolate", TriagePriority.urgent) ∷ (codes "patch", TriagePriority.high) ∷ [] in
    map (λ r. r.id) (Plans.current 1 (to_recommendations 1 1 3 plan)) ≡ 4 ∷ 3 ∷ []
unfolding Plans.current to_recommendations
urgent_comes_last = refl

-- A run that dies after the log analysis.
abbrev analyzed : List Reported
analyzed = record { node = NodeName.log_analysis; output = output; commits = true } ∷ []

abbrev analyzed_row : Investigation
analyzed_row =
    with_stage NodeName.log_analysis (record { status = complete; detail = codes "d" })
      (record opened_row { status = in_progress })

died_run_recorded_example :
    let t' = persist_all 1 analyzed 5 (mark_status 1 in_progress 5 created) in
    let n = failed_stage 1 t' in
    (lookup 1 (run_investigation 1 analyzed (some (codes "e")) 5 created).investigations
      ≡ some (with_stage n (record { status = failed; detail = codes "e" }) analyzed_row))
    × (IsFirstOpen n analyzed_row.pipeline stage_order
        ⊎ (AreDone analyzed_row.pipeline stage_order × (n ≡ NodeName.remediation)))
unfolding lookup persist_all
died_run_recorded_example = died_run_recorded 1 analyzed (codes "e") 5 created analyzed_row refl

died_at :
    failed_stage 1 (persist_all 1 analyzed 5 (mark_status 1 in_progress 5 created))
    ≡ NodeName.threat_detection
unfolding failed_stage first_open persist_all mark_status lookup
died_at = refl

unrecorded_says_none_instance :
    ((stage_of NodeName.report none).detail ≡ some (codes "None"))
    × ((stage_of NodeName.report (some (record { status = complete; detail = [] }))).detail ≡ none)
unrecorded_says_none_instance = unrecorded_says_none NodeName.report complete
