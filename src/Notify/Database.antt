-- ===== src/Notify/Database.antt =====
-- The tables behind the dispatch, and backend/db/repositories/notification.py. Rows are kept in the
-- order of their creation; an update writes the row with the same id in place.
use ai_cybersecurity_soc_ana.Common.Text.{Text, eq_text}
use ai_cybersecurity_soc_ana.Common.Dict.{Dict}
use ai_cybersecurity_soc_ana.Common.{
  Bool, List, Option, [], if◌then◌else◌, none, some, ℕ, ◌&&◌, ◌++◌, ◌==◌, ◌∷◌,
}
use ai_cybersecurity_soc_ana.Enums.{NotificationStatus}
use ai_cybersecurity_soc_ana.Notify.Contracts.{HumanDecision, Notification, is_failed}

-- The actions that the audit log records here.
pub data AuditAction : Type 0 where
  dead_letter_recorded : (investigation_id : ℕ) → AuditAction
  retried : (notification_id : ℕ) (delivered : Bool) → AuditAction

pub record Database : Type 0 where
  pub decisions : Dict HumanDecision
  pub conversations : Dict ℕ  -- conversation id to investigation id
  pub notifications : List Notification
  pub next_id : ℕ
  pub audit : List AuditAction

-- `by_dedupe_key`
unfoldable pub by_dedupe_key : Text → List Notification → Option Notification
by_dedupe_key key [] = none
by_dedupe_key key (n ∷ rows) = if eq_text n.dedupe_key key then some n else by_dedupe_key key rows

-- `session.get(Notification, id)`
unfoldable pub by_id : ℕ → List Notification → Option Notification
by_id i [] = none
by_id i (n ∷ rows) = if n.id == i then some n else by_id i rows

-- A change of a row, written back by the flush.
unfoldable pub update_row : Notification → List Notification → List Notification
update_row row [] = []
update_row row (n ∷ rows) = if n.id == row.id then row ∷ rows else n ∷ update_row row rows

-- `session.add(row)`
abbrev pub add_row : Notification → List Notification → List Notification
add_row row rows = rows ++ row ∷ []

-- The loop of `_dead_letter` over `for_approval(approval_id)`.
unfoldable pub dead_letter_rows : ℕ → List Notification → List Notification
dead_letter_rows approval [] = []
dead_letter_rows approval (n ∷ rows) =
    (if n.approval_id == approval && is_failed n.status
      then record n { status = NotificationStatus.dead_letter }
      else n)
    ∷ dead_letter_rows approval rows
