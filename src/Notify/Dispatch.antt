-- ===== src/Notify/Dispatch.antt =====
-- `dispatch_alert`, `_deliver` and `_dead_letter` of backend/services/notifications.py.
use ai_cybersecurity_soc_ana.Common.Text.{Text}
use ai_cybersecurity_soc_ana.Common.{
  Bool, List, Option, [], false, if◌then◌else◌, is_empty, none, not, some, true, ℕ, ◌&&◌, ◌++◌, ◌+◌,
  ◌||◌, ◌∷◌,
}
use ai_cybersecurity_soc_ana.Notify.Attempts.{
  Adapter, State, attempted_row, outcome_of, settled, try_adapter, write_row,
}
use ai_cybersecurity_soc_ana.Notify.Approval.{Checked, ok, refuse, verify_approval}
use ai_cybersecurity_soc_ana.Notify.Database.{
  AuditAction, Database, add_row, by_dedupe_key, dead_letter_rows,
}
use ai_cybersecurity_soc_ana.Notify.Keys.{dedupe_key}
use ai_cybersecurity_soc_ana.Notify.Routing.{
  Settings, failover_plan, is_worth_alerting, resolve_targets,
}
use ai_cybersecurity_soc_ana.Notify.Contracts.{
  AlertRequest, AlertTarget, DeliveryOutcome, DispatchResult, HumanDecision, Notification, is_sent,
}
use ai_cybersecurity_soc_ana.Enums.{NotificationChannel, NotificationStatus}

-- The local variables of `dispatch_alert`.
pub record Progress (W : Type 0) : Type 0 where
  pub state : State W
  pub outcomes : List DeliveryOutcome
  pub deduplicated : List AlertTarget
  pub delivered_anywhere : Bool

module _ (uuid_text : ℕ → Text) (digest : Text → Text) where
  unfoldable pub key_of : AlertRequest → AlertTarget → Text
  unfolding dedupe_key
  key_of alert t =
      dedupe_key uuid_text digest alert.investigation_id alert.approval_id t.channel t.recipient

  new_row : AlertRequest → AlertTarget → ℕ → Notification
  unfolding key_of
  new_row alert t id = record {
    id = id;
    investigation_id = alert.investigation_id;
    approval_id = alert.approval_id;
    channel = t.channel;
    recipient = t.recipient;
    dedupe_key = key_of alert t;
    status = NotificationStatus.pending;
    delivery_attempts = 0;
  }

  -- `session.add(row)` with the next id.
  unfoldable pub create_row : AlertRequest → AlertTarget → Database → Database × Notification
  unfolding new_row
  create_row alert t db =
      let row = new_row alert t db.next_id in
      (record db { notifications = add_row row db.notifications; next_id = db.next_id + 1 }, row)

-- `_dead_letter`
unfoldable pub record_dead_letter : AlertRequest → Database → Database
record_dead_letter alert db = record db {
  notifications = dead_letter_rows alert.approval_id db.notifications;
  audit = db.audit ++ AuditAction.dead_letter_recorded alert.investigation_id ∷ [];
}

-- The `DispatchResult` of an alert that is not attempted.
abbrev pub nothing_done : DispatchResult
nothing_done = record {
  outcomes = [];
  deduplicated = [];
  dead_lettered = false;
  no_channel_configured = false;
}

module _ {W : Type 0} (uuid_text : ℕ → Text) (digest : Text → Text) (settings : Settings)
    (channels : NotificationChannel → Option (Adapter W)) where
  -- The attempts on a row, and what they leave behind.
  unfoldable pub attempt_row : AlertTarget → Database × Notification → W → State W × DeliveryOutcome
  unfolding try_adapter
  attempt_row t (db, row) world =
      let (world', result, attempts) =
        try_adapter (channels t.channel) settings.notification_max_attempts t.recipient world in
      (
        record { db = write_row (attempted_row row (settled result) attempts) db; world = world' },
        outcome_of t.channel t.recipient result attempts,
      )

  unfoldable pub deliver_known :
      AlertRequest → AlertTarget → State W → Option Notification → State W × Option DeliveryOutcome
  unfolding attempt_row create_row
  deliver_known alert t s none =
      let (s', outcome) = attempt_row t (create_row uuid_text digest alert t s.db) s.world in
      (s', some outcome)
  deliver_known alert t s (some row) =
      let (s', outcome) = attempt_row t (s.db, row) s.world in
      if is_sent row.status then (s, none) else (s', some outcome)

  -- `_deliver`: no outcome is a deduplicated delivery.
  unfoldable pub deliver : AlertRequest → AlertTarget → State W → State W × Option DeliveryOutcome
  unfolding deliver_known
  deliver alert t s =
      deliver_known alert t s (by_dedupe_key (key_of uuid_text digest alert t) s.db.notifications)

  unfoldable pub note : Progress W → AlertTarget → State W × Option DeliveryOutcome → Progress W
  note p t (s, none) = record p { state = s; deduplicated = p.deduplicated ++ t ∷ [] }
  note p t (s, some outcome) = record p {
    state = s;
    outcomes = p.outcomes ++ outcome ∷ [];
    delivered_anywhere = p.delivered_anywhere || outcome.delivered;
  }

  -- The inner loop, over the targets of a tier.
  unfoldable pub run_tier : AlertRequest → Progress W → List AlertTarget → Progress W
  unfolding deliver note
  run_tier alert p [] = p
  run_tier alert p (t ∷ ts) = run_tier alert (note p t (deliver alert t p.state)) ts

  -- The outer loop, over the tiers.
  unfoldable pub run_tiers : AlertRequest → Progress W → List (List AlertTarget) → Progress W
  unfolding run_tier
  run_tiers alert p [] = p
  run_tiers alert p (tier ∷ tiers) =
      let rest = run_tiers alert (run_tier alert p tier) tiers in
      if p.delivered_anywhere then p else rest

  unfoldable pub start : State W → Progress W
  start s = record { state = s; outcomes = []; deduplicated = []; delivered_anywhere = false }

  -- The end of `dispatch_alert`: nobody was reached if there are outcomes and none delivered.
  unfoldable pub conclude : AlertRequest → Progress W → State W × DispatchResult
  unfolding record_dead_letter
  conclude alert p =
      let dead = not (is_empty p.outcomes) && not p.delivered_anywhere in
      (
        if dead then record p.state { db = record_dead_letter alert p.state.db } else p.state,
        record {
          outcomes = p.outcomes;
          deduplicated = p.deduplicated;
          dead_lettered = dead;
          no_channel_configured = false;
        },
      )

  unfoldable pub to_targets : AlertRequest → State W → List AlertTarget → State W × DispatchResult
  unfolding run_tiers conclude start failover_plan
  to_targets alert s [] = (s, record nothing_done { no_channel_configured = true })
  to_targets alert s (t ∷ ts) = conclude alert (run_tiers alert (start s) (failover_plan (t ∷ ts)))

  unfoldable pub send_approved : AlertRequest → State W → State W × DispatchResult
  unfolding to_targets is_worth_alerting resolve_targets
  send_approved alert s =
      let sent = to_targets alert s (resolve_targets settings) in
      if is_worth_alerting alert.priority settings.notification_min_priority
      then sent
      else (s, nothing_done)

  unfoldable pub after_check :
      AlertRequest → State W → Checked HumanDecision → State W × Checked DispatchResult
  unfolding send_approved
  after_check alert s (refuse why) = (s, refuse why)
  after_check alert s (ok decision) = let (s', result) = send_approved alert s in (s', ok result)

  unfoldable pub dispatch_alert : AlertRequest → State W → State W × Checked DispatchResult
  unfolding after_check verify_approval
  dispatch_alert alert s =
      after_check alert s (verify_approval alert.investigation_id alert.approval_id s.db)
