-- ===== src/Enums.antt =====
-- The enumerations of models/enums.py that the modelled components share.
use ai_cybersecurity_soc_ana.Common.{Bool, false, true, ℕ}

pub data InvestigationStatus : Type 0 where
  opened in_progress awaiting_approval closed archived : InvestigationStatus

pub data Severity : Type 0 where
  info low medium high critical : Severity

pub data TriagePriority : Type 0 where
  low medium high urgent : TriagePriority

pub data Verdict : Type 0 where
  benign suspicious malicious : Verdict

pub data CveApplicability : Type 0 where
  confirmed candidate not_applicable : CveApplicability

pub data DecisionType : Type 0 where
  approve edit reject redirect : DecisionType

pub data NotificationChannel : Type 0 where
  slack email webhook : NotificationChannel

pub data NotificationStatus : Type 0 where
  pending sent failed dead_letter : NotificationStatus

-- `Severity` in ascending order.
abbrev pub severity_rank : Severity → ℕ
severity_rank Severity.info = 0
severity_rank Severity.low = 1
severity_rank Severity.medium = 2
severity_rank Severity.high = 3
severity_rank Severity.critical = 4

-- `_PRIORITY_RANK` and `priority_rank` of services/notifications.py.
abbrev pub priority_rank : TriagePriority → ℕ
priority_rank TriagePriority.low = 0
priority_rank TriagePriority.medium = 1
priority_rank TriagePriority.high = 2
priority_rank TriagePriority.urgent = 3

abbrev pub is_benign : Verdict → Bool
is_benign Verdict.benign = true
is_benign _ = false

abbrev pub is_suspicious : Verdict → Bool
is_suspicious Verdict.suspicious = true
is_suspicious _ = false

abbrev pub is_malicious : Verdict → Bool
is_malicious Verdict.malicious = true
is_malicious _ = false

abbrev pub is_critical : Severity → Bool
is_critical Severity.critical = true
is_critical _ = false

abbrev pub is_high : Severity → Bool
is_high Severity.high = true
is_high _ = false

abbrev pub is_medium : Severity → Bool
is_medium Severity.medium = true
is_medium _ = false
