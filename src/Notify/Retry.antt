-- ===== src/Notify/Retry.antt =====
-- `retry_delivery` of backend/services/notifications.py.
use ai_cybersecurity_soc_ana.Common.{
  Bool, Bool-cases, Option, [], ap, false, if◌then◌else◌, inl, inr, none, refl, some, sym, true, ℕ,
  ◌++◌, ◌∷◌, ◌≡◌, ◌≢◌, ◌≤◌,
}
use ai_cybersecurity_soc_ana.Enums.{NotificationChannel, NotificationStatus}
use ai_cybersecurity_soc_ana.Notify.Attempts.{
  attempts_bounded, Adapter, State, attempted_row, outcome_of, try_adapter, write_row,
}
use ai_cybersecurity_soc_ana.Notify.Approval.{
  Refusal, ok-injective, refuse-not_ok, Checked, already_delivered, no_notification, ok, refuse,
  verify_approval,
}
use ai_cybersecurity_soc_ana.Notify.Database.{update_row, AuditAction, by_id}
use ai_cybersecurity_soc_ana.Notify.Routing.{Settings}
use ai_cybersecurity_soc_ana.Notify.Contracts.{
  DeliveryOutcome, HumanDecision, Notification, is_dead_letter, is_sent,
}

-- A failed retry leaves a dead letter a dead letter.
unfoldable pub retried_status : NotificationStatus → Bool → NotificationStatus
retried_status before true = NotificationStatus.sent
retried_status before false =
    if is_dead_letter before then NotificationStatus.dead_letter else NotificationStatus.failed

module _ {W : Type 0} (settings : Settings)
    (channels : NotificationChannel → Option (Adapter W)) where
  -- The retry of a row whose approval holds.
  retry_row : State W → Notification → State W × DeliveryOutcome
  unfolding try_adapter
  retry_row s row =
      let (world', result, attempts) =
        try_adapter (channels row.channel) settings.notification_max_attempts row.recipient
          s.world in
      let status = retried_status row.status result.delivered in
      let db' = write_row (attempted_row row status attempts) s.db in
      (
        record {
          db = record db' { audit = db'.audit ++ AuditAction.retried row.id result.delivered ∷ [] };
          world = world';
        },
        outcome_of row.channel row.recipient result attempts,
      )

  retry_checked : State W → Notification → Checked HumanDecision → State W × Checked DeliveryOutcome
  unfolding retry_row
  retry_checked s row (refuse why) = (s, refuse why)
  retry_checked s row (ok decision) = let (s', outcome) = retry_row s row in (s', ok outcome)

  retry_found : State W → Option Notification → State W × Checked DeliveryOutcome
  unfolding retry_checked verify_approval
  retry_found s none = (s, refuse no_notification)
  retry_found s (some row) =
      let retried =
        retry_checked s row (verify_approval row.investigation_id row.approval_id s.db) in
      if is_sent row.status then (s, refuse already_delivered) else retried

  unfoldable pub retry_delivery : ℕ → State W → State W × Checked DeliveryOutcome
  unfolding retry_found by_id
  retry_delivery notification s = retry_found s (by_id notification s.db.notifications)

-- The status of a delivery before and after a retry, by whether the retry delivered.
pub data RetryStep : NotificationStatus → Bool → NotificationStatus → Type 0 where
  delivers : (before : NotificationStatus) → RetryStep before true NotificationStatus.sent
  stays_dead : RetryStep NotificationStatus.dead_letter false NotificationStatus.dead_letter
  fails :
      (before : NotificationStatus)
      → is_dead_letter before ≡ false
      → RetryStep before false NotificationStatus.failed

retried_status-RetryStep :
    (before : NotificationStatus) (delivered : Bool)
    → RetryStep before delivered (retried_status before delivered)
unfolding retried_status
retried_status-RetryStep before true = delivers before
retried_status-RetryStep NotificationStatus.pending false = fails NotificationStatus.pending refl
retried_status-RetryStep NotificationStatus.sent false = fails NotificationStatus.sent refl
retried_status-RetryStep NotificationStatus.failed false = fails NotificationStatus.failed refl
retried_status-RetryStep NotificationStatus.dead_letter false = stays_dead

module _ {W : Type 0} (settings : Settings)
    (channels : NotificationChannel → Option (Adapter W)) where
  -- The effect of an accepted retry of a row.
  abbrev pub IsRetry : State W → State W → Notification → DeliveryOutcome → Type 0
  IsRetry s s' row o =
      (is_sent row.status ≡ false)
      × ((d : HumanDecision) × (verify_approval row.investigation_id row.approval_id s.db ≡ ok d))
      × ((status : NotificationStatus) × RetryStep row.status o.delivered status
          × (s'.db.notifications
              ≡ update_row (attempted_row row status o.attempts) s.db.notifications))
      × (s'.db.audit ≡ s.db.audit ++ AuditAction.retried row.id o.delivered ∷ [])
      × (o.attempts ≤ settings.notification_max_attempts)

  retry_row-IsRetry :
      (s : State W) (row : Notification) (d : HumanDecision)
      → is_sent row.status ≡ false
      → verify_approval row.investigation_id row.approval_id s.db ≡ ok d
      → let (s', o) = retry_row settings channels s row in IsRetry s s' row o
  unfolding retry_row
  retry_row-IsRetry s row d unsent found = (
    unsent,
    (d, found),
    (_, retried_status-RetryStep row.status _, refl),
    refl,
    (attempts_bounded (channels row.channel) settings.notification_max_attempts row.recipient
        s.world).0,
  )

  IsRetry-transport :
      (s a s' : State W) (row : Notification) (x o : DeliveryOutcome)
      → IsRetry s a row x
      → ◌≡◌ {A = State W × Checked DeliveryOutcome} (a, ok x) (s', ok o)
      → IsRetry s s' row o
  IsRetry-transport s a s' row x o h e =
      let same_state = ap (λ r. r.0) e in
      let same_outcome = ok-injective x o (ap (λ r. r.1) e) in
      rw (sym same_state, sym same_outcome) h

  refused-not_ok :
      (a s' : State W) (why : Refusal) (o : DeliveryOutcome)
      → ◌≢◌ {A = State W × Checked DeliveryOutcome} (a, refuse why) (s', ok o)
  refused-not_ok a s' why o e = absurd (refuse-not_ok why o (ap (λ r. r.1) e))

  retry_checked-IsRetry :
      (s s' : State W) (row : Notification) (o : DeliveryOutcome) (c : Checked HumanDecision)
      → is_sent row.status ≡ false
      → verify_approval row.investigation_id row.approval_id s.db ≡ c
      → retry_checked settings channels s row c ≡ (s', ok o)
      → IsRetry s s' row o
  unfolding retry_checked
  retry_checked-IsRetry s s' row o (refuse why) unsent found e =
      absurd (refused-not_ok s s' why o e)
  retry_checked-IsRetry s s' row o (ok d) unsent found e =
      IsRetry-transport s (retry_row settings channels s row).0 s' row
        (retry_row settings channels s row).1 o (retry_row-IsRetry s row d unsent found) e

  retry_found-IsRetry :
      (s s' : State W) (o : DeliveryOutcome) (found : Option Notification)
      → retry_found settings channels s found ≡ (s', ok o)
      → (row : Notification) × (found ≡ some row) × IsRetry s s' row o
  unfolding retry_found
  retry_found-IsRetry s s' o none e = absurd (refused-not_ok s s' no_notification o e)
  retry_found-IsRetry s s' o (some row) e = elim (Bool-cases (is_sent row.status)) [
    | inl was_sent ↦ absurd (refused-not_ok s s' already_delivered o (rw was_sent at e))
    | inr unsent ↦ (row, refl, retry_checked-IsRetry s s' row o _ unsent refl (rw unsent at e))
  ]

  -- What a retry that is not refused went through: the delivery exists and is not marked as sent,
  -- its own approval still holds, its new status is sent if the retry delivered, dead letter if it
  -- was one and failed otherwise, with the attempts added to those before and at most the
  -- configured number of them, and the retry is the last entry of the audit log.
  pub retry_delivery-IsRetry :
      (notification : ℕ) (s s' : State W) (o : DeliveryOutcome)
      → retry_delivery settings channels notification s ≡ (s', ok o)
      → (row : Notification) × (by_id notification s.db.notifications ≡ some row)
        × IsRetry s s' row o
  unfolding retry_delivery
  retry_delivery-IsRetry notification s s' o e =
      retry_found-IsRetry s s' o (by_id notification s.db.notifications) e
