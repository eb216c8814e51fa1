-- ===== src/Notify/Tests.antt =====
-- The properties of the alerts at concrete inputs.
use ai_cybersecurity_soc_ana.Common.{
  List, Option, [], ap, arith, false, is_empty, none, not, refl, some, true, ℕ, ◌&&◌, ◌+◌, ◌||◌,
  ◌↔◌, ◌∷◌, ◌≡◌, ◌≤◌, ◌⊎◌,
}
use ai_cybersecurity_soc_ana.Notify.Retry.{
  IsRetry, retried_status, retry_delivery-IsRetry, retry_delivery,
}
use ai_cybersecurity_soc_ana.Notify.Keys.{
  HasNoBar, channel_value, dedupe_key, dedupe_key_iff, normalized,
}
use ai_cybersecurity_soc_ana.Notify.Database.{
  AuditAction, Database, by_dedupe_key, by_id, update_row,
}
use ai_cybersecurity_soc_ana.Common.Dict.{lookup}
use ai_cybersecurity_soc_ana.Notify.Failover.{dead_letter_iff, only_approved_dispatch_acts}
use ai_cybersecurity_soc_ana.Notify.Dispatch.{Progress, dispatch_alert}
use ai_cybersecurity_soc_ana.Notify.Attempts.{Adapter, State, attempts_bounded, try_adapter}
use ai_cybersecurity_soc_ana.Notify.Approval.{ok, verify_approval, verify_iff}
use ai_cybersecurity_soc_ana.Notify.Routing.{Settings, is_worth_alerting}
use ai_cybersecurity_soc_ana.Notify.Contracts.{
  delivered, AlertRequest, AlertTarget, DeliveryOutcome, DispatchResult, HumanDecision,
  Notification, is_approve,
}
use ai_cybersecurity_soc_ana.Enums.{
  DecisionType, NotificationChannel, NotificationStatus, TriagePriority, email, slack, webhook,
}
use ai_cybersecurity_soc_ana.Common.Text.{Text, codes}

-- A world that counts the messages sent; the webhook is up, the rest is down.
abbrev up : Adapter ℕ
up recipient w = (w + 1, record { delivered = true; refused = false })

abbrev down : Adapter ℕ
down recipient w = (w + 1, record { delivered = false; refused = false })

abbrev mail_only : NotificationChannel → Option (Adapter ℕ)
mail_only slack = some down
mail_only email = some up
mail_only webhook = none

abbrev nothing_up : NotificationChannel → Option (Adapter ℕ)
nothing_up slack = some down
nothing_up _ = none

abbrev id_text : ℕ → Text
id_text i = (i + 1000) ∷ []

abbrev plain_digest : Text → Text
plain_digest s = s

abbrev settings : Settings
settings = record {
  notification_channel_order = slack ∷ email ∷ [];
  slack_channel = codes "#soc";
  email_recipients = codes "soc@example.org" ∷ [];
  notification_min_priority = TriagePriority.high;
  notification_max_attempts = 3;
}

abbrev alert : AlertRequest
alert = record { investigation_id = 7; approval_id = 3; priority = TriagePriority.urgent }

abbrev approval : HumanDecision
approval = record { conversation_id = 5; decision = DecisionType.approve }

abbrev database : List Notification → Database
database rows = record {
  decisions = (3, approval) ∷ [];
  conversations = (5, 7) ∷ [];
  notifications = rows;
  next_id = 9;
  audit = [];
}

abbrev fresh : State ℕ
fresh = record { db = database []; world = 0 }

abbrev to_slack : AlertTarget
to_slack = record { channel = slack; recipient = codes "#soc" }

abbrev to_mail : AlertTarget
to_mail = record { channel = email; recipient = codes "soc@example.org" }

abbrev sent_row : Notification
sent_row = record {
  id = 4;
  investigation_id = 7;
  approval_id = 3;
  channel = slack;
  recipient = codes "#soc";
  dedupe_key = codes "k";
  status = NotificationStatus.sent;
  delivery_attempts = 1;
}

abbrev failed_row : Notification
failed_row = record sent_row { status = NotificationStatus.dead_letter }

abbrev start_at : List Notification → Progress ℕ
start_at rows = record {
  state = record { db = database rows; world = 0 };
  outcomes = [];
  deduplicated = [];
  delivered_anywhere = false;
}

abbrev one_key : Text → Text
one_key s = codes "k"

head_code : Text → ℕ
head_code [] = 0
head_code (c ∷ s) = c

id_text-injective : (i j : ℕ) → id_text i ≡ id_text j → i ≡ j
unfolding head_code
id_text-injective i j e = omega (arith, ap head_code e)

id_text-HasNoBar : (i : ℕ) → HasNoBar (id_text i)
id_text-HasNoBar i = (λ e. absurd (omega (arith, e)), tt)

dedupe_key_iff_example :
    (dedupe_key id_text plain_digest 7 3 email (codes " SOC@x")
      ≡ dedupe_key id_text plain_digest 7 3 email (codes "soc@x"))
    ↔ (◌≡◌ {A = ℕ} 7 7
        × ◌≡◌ {A = ℕ} 3 3
        × (email ≡ email)
        × (normalized (codes " SOC@x") ≡ normalized (codes "soc@x")))
dedupe_key_iff_example =
    dedupe_key_iff id_text plain_digest (λ s t e. e) id_text-injective id_text-HasNoBar 7 7 3 3
      email email (codes " SOC@x") (codes "soc@x")

verify_iff_example : (verify_approval 7 3 (database []) ≡ ok approval) ↔ (
    (lookup 3 (database []).decisions ≡ some approval)
    × (lookup 5 (database []).conversations ≡ some 7)
    × (is_approve approval.decision ≡ true))
verify_iff_example = verify_iff 7 3 (database []) approval

attempts_bounded_example :
    let (w', result, attempts) = try_adapter (some down) 3 (codes "#soc") 0 in
    (attempts ≤ 3) × ((attempts ≡ 3) ⊎ ((result.delivered || result.refused) ≡ true))
attempts_bounded_example = attempts_bounded (some down) 3 (codes "#soc") 0

-- Slack was tried three times, and the mail has no adapter.
abbrev dead_result : DispatchResult
dead_result = record {
  outcomes =
      record {
        channel = slack;
        recipient = codes "#soc";
        delivered = false;
        attempts = 3;
        refused = false;
      }
      ∷ record {
        channel = email;
        recipient = codes "soc@example.org";
        delivered = false;
        attempts = 0;
        refused = true;
      }
      ∷ [];
  deduplicated = [];
  dead_lettered = true;
  no_channel_configured = false;
}

dead_letter_iff_example :
    let r = dead_result in r.dead_lettered ≡ (not (is_empty r.outcomes) && not (delivered r))
unfolding dispatch_alert lookup by_dedupe_key update_row channel_value
dead_letter_iff_example =
    dead_letter_iff id_text plain_digest settings nothing_up alert fresh dead_result refl

only_approved_dispatch_acts_example :
    ((d : HumanDecision) × (lookup 3 (database []).decisions ≡ some d)
      × (lookup d.conversation_id (database []).conversations ≡ some 7)
      × (is_approve d.decision ≡ true))
    × (is_worth_alerting TriagePriority.urgent TriagePriority.high ≡ true)
unfolding dispatch_alert lookup by_dedupe_key update_row channel_value
only_approved_dispatch_acts_example =
    only_approved_dispatch_acts id_text plain_digest settings mail_only alert fresh
      (λ e. absurd (omega (arith, ap (λ s. s.world) e)))

abbrev retried_outcome : DeliveryOutcome
retried_outcome = record {
  channel = slack;
  recipient = codes "#soc";
  delivered = false;
  attempts = 3;
  refused = false;
}

abbrev retried_state : State ℕ
retried_state = record {
  db = record (database (record failed_row { delivery_attempts = 4 } ∷ [])) {
    audit = AuditAction.retried 4 false ∷ [];
  };
  world = 3;
}

retry_delivery-IsRetry_example :
    (row : Notification) × (by_id 4 (failed_row ∷ []) ≡ some row)
    × IsRetry settings mail_only
        (record { db = database (failed_row ∷ []); world = 0 })
        retried_state
        row
        retried_outcome
unfolding retry_delivery lookup update_row retried_status
retry_delivery-IsRetry_example =
    retry_delivery-IsRetry settings mail_only 4
      (record { db = database (failed_row ∷ []); world = 0 }) retried_state retried_outcome refl
