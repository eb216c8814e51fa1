-- ===== src/Notify/Attempts.antt =====
-- The attempts on one target, in `_deliver` and in `retry_delivery` of
-- backend/services/notifications.py. `W` is the world outside, which an adapter's `send` may read
-- and change: what a channel answers is not for this program to say.
use ai_cybersecurity_soc_ana.Common.{
  Option, arith, false, if◌then◌else◌, inl, inr, none, refl, some, suc, true, zero, ℕ, ◌+◌, ◌||◌,
  ◌≡◌, ◌≤◌, ◌⊎◌,
}
use ai_cybersecurity_soc_ana.Common.Text.{Text}
use ai_cybersecurity_soc_ana.Notify.Database.{Database, update_row}
use ai_cybersecurity_soc_ana.Notify.Contracts.{DeliveryOutcome, Notification, SendResult}
use ai_cybersecurity_soc_ana.Enums.{NotificationChannel, NotificationStatus}

-- An adapter sends the rendered alert to a recipient.
abbrev pub Adapter : Type 0 → Type 0
Adapter W = Text → W → W × SendResult

-- The attempts that are left, and the number of the next one. A delivery or a refusal ends the
-- loop; the pause between two attempts is left out.
unfoldable pub attempt_from :
    {W : Type 0} → (W → W × SendResult) → ℕ → ℕ → W → SendResult → ℕ → W × SendResult × ℕ
attempt_from send zero next w last attempts = (w, last, attempts)
attempt_from send (suc n) next w last attempts =
    let (w', result) = send w in
    let rest = attempt_from send n (next + 1) w' result next in
    if result.delivered || result.refused then (w', result, next) else rest

abbrev pub no_adapter : SendResult
no_adapter = record { delivered = false; refused = true }

-- The attempts on one target: without an adapter, a refusal and no attempt.
unfoldable pub try_adapter : {W : Type 0} → Option (Adapter W) → ℕ → Text → W → W × SendResult × ℕ
unfolding attempt_from
try_adapter none limit recipient w = (w, no_adapter, 0)
try_adapter (some send) limit recipient w = attempt_from (send recipient) limit 1 w no_adapter 0

abbrev pub outcome_of : NotificationChannel → Text → SendResult → ℕ → DeliveryOutcome
outcome_of channel recipient result attempts = record {
  channel = channel;
  recipient = recipient;
  delivered = result.delivered;
  attempts = attempts;
  refused = result.refused;
}

-- The database session and the world.
pub record State (W : Type 0) : Type 0 where
  pub db : Database
  pub world : W

abbrev pub settled : SendResult → NotificationStatus
settled result = if result.delivered then NotificationStatus.sent else NotificationStatus.failed

-- What an attempt leaves in the row.
abbrev pub attempted_row : Notification → NotificationStatus → ℕ → Notification
attempted_row row status attempts = record row {
  status = status;
  delivery_attempts = row.delivery_attempts + attempts;
}

abbrev pub write_row : Notification → Database → Database
write_row row db = record db { notifications = update_row row db.notifications }

-- The loop makes at most `n` more attempts, and if it made fewer, the last one was delivered or
-- refused.
attempt_from_lem :
    {W : Type 0} (send : W → W × SendResult) (n next : ℕ) (w : W) (last : SendResult)
    (done limit : ℕ)
    → done + 1 ≡ next
    → done + n ≡ limit
    → let (w', result, attempts) = attempt_from send n next w last done in
      (attempts ≤ limit) × ((attempts ≡ limit) ⊎ ((result.delivered || result.refused) ≡ true))
unfolding attempt_from
attempt_from_lem send zero next w last done limit e l = (omega arith, inl (omega arith))
attempt_from_lem send (suc n) next w last done limit e l =
    let r =
      attempt_from_lem send n (next + 1) (send w).0 (send w).1 next limit refl (omega arith) in
    ground (arith, e, r)

-- One delivery makes at most the configured number of attempts, and it stops early only after an
-- attempt that was delivered or refused, or without an adapter, which counts as refused.
pub attempts_bounded :
    {W : Type 0} (adapter : Option (Adapter W)) (limit : ℕ) (recipient : Text) (w : W)
    → let (w', result, attempts) = try_adapter adapter limit recipient w in
      (attempts ≤ limit) × ((attempts ≡ limit) ⊎ ((result.delivered || result.refused) ≡ true))
unfolding try_adapter
attempts_bounded none limit recipient w = (omega arith, inr refl)
attempts_bounded (some send) limit recipient w =
    attempt_from_lem (send recipient) limit 1 w no_adapter 0 limit refl (omega arith)
