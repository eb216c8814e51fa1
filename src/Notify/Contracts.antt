-- ===== src/Notify/Contracts.antt =====
-- models/notification.py and the tables that the dispatch reads and writes, reduced to what decides
-- its course: titles, summaries, reasons and timestamps are left out. Ids are numbers.
use ai_cybersecurity_soc_ana.Common.{Bool, List, any, false, not, true, ℕ, ◌&&◌}
use ai_cybersecurity_soc_ana.Common.Text.{Text}
use ai_cybersecurity_soc_ana.Enums.{
  DecisionType, NotificationChannel, NotificationStatus, TriagePriority, email, slack, webhook,
}

pub record AlertTarget : Type 0 where
  pub channel : NotificationChannel
  pub recipient : Text

pub record AlertRequest : Type 0 where
  pub investigation_id : ℕ
  pub approval_id : ℕ
  pub priority : TriagePriority

pub record DeliveryOutcome : Type 0 where
  pub channel : NotificationChannel
  pub recipient : Text
  pub delivered : Bool
  pub attempts : ℕ
  pub refused : Bool

pub record DispatchResult : Type 0 where
  pub outcomes : List DeliveryOutcome
  pub deduplicated : List AlertTarget
  pub dead_lettered : Bool
  pub no_channel_configured : Bool

-- What an adapter's `send` reports.
pub record SendResult : Type 0 where
  pub delivered : Bool
  pub refused : Bool

-- The row of a delivery.
pub record Notification : Type 0 where
  pub id : ℕ
  pub investigation_id : ℕ
  pub approval_id : ℕ
  pub channel : NotificationChannel
  pub recipient : Text
  pub dedupe_key : Text
  pub status : NotificationStatus
  pub delivery_attempts : ℕ

pub record HumanDecision : Type 0 where
  pub conversation_id : ℕ
  pub decision : DecisionType

-- The properties of `DispatchResult`.
abbrev pub delivered : DispatchResult → Bool
delivered r = any (λ o. o.delivered) r.outcomes

abbrev pub failed_over : DispatchResult → Bool
failed_over r = delivered r && any (λ o. not o.delivered) r.outcomes

abbrev pub same_channel : NotificationChannel → NotificationChannel → Bool
same_channel slack slack = true
same_channel email email = true
same_channel webhook webhook = true
same_channel _ _ = false

abbrev pub is_sent : NotificationStatus → Bool
is_sent NotificationStatus.sent = true
is_sent _ = false

abbrev pub is_failed : NotificationStatus → Bool
is_failed NotificationStatus.failed = true
is_failed _ = false

abbrev pub is_dead_letter : NotificationStatus → Bool
is_dead_letter NotificationStatus.dead_letter = true
is_dead_letter _ = false

abbrev pub is_approve : DecisionType → Bool
is_approve DecisionType.approve = true
is_approve _ = false
