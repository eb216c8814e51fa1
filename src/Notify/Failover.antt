-- ===== src/Notify/Failover.antt =====
-- What a dispatch leaves behind, over backend/services/notifications.py.
use ai_cybersecurity_soc_ana.Common.Text.{Text}
use ai_cybersecurity_soc_ana.Common.Dict.{lookup}
use ai_cybersecurity_soc_ana.Common.{
  Bool, Bool-cases, List, Option, [], any, arith, false, if◌then◌else◌, inl, inr, is_empty, none,
  not, refl, some, sym, true, ℕ, ◌&&◌, ◌++◌, ◌||◌, ◌∷◌, ◌≡◌, ◌≢◌,
}
use ai_cybersecurity_soc_ana.Notify.Dispatch.{
  Progress, after_check, conclude, deliver, deliver_known, dispatch_alert, key_of, note, run_tier,
  run_tiers, send_approved, start, to_targets,
}
use ai_cybersecurity_soc_ana.Notify.Attempts.{Adapter, State}
use ai_cybersecurity_soc_ana.Notify.Approval.{
  verify_iff, ok-injective, Checked, ok, refuse, verify_approval,
}
use ai_cybersecurity_soc_ana.Notify.Database.{by_dedupe_key}
use ai_cybersecurity_soc_ana.Notify.Routing.{
  failover_plan, Settings, is_worth_alerting, resolve_targets,
}
use ai_cybersecurity_soc_ana.Notify.Contracts.{
  is_approve, delivered, AlertRequest, AlertTarget, DeliveryOutcome, DispatchResult, HumanDecision,
  Notification, is_sent,
}
use ai_cybersecurity_soc_ana.Enums.{NotificationChannel}

abbrev HasHonestEnd : DispatchResult → Type 0
HasHonestEnd r = r.dead_lettered ≡ (not (is_empty r.outcomes) && not (delivered r))

module _ {W : Type 0} (uuid_text : ℕ → Text) (digest : Text → Text) (settings : Settings)
    (channels : NotificationChannel → Option (Adapter W)) where
  -- The flag says whether some outcome so far delivered.
  abbrev HasTrueFlag : Progress W → Type 0
  HasTrueFlag p = p.delivered_anywhere ≡ any (λ o. o.delivered) p.outcomes

  any_append :
      (os : List DeliveryOutcome) (o : DeliveryOutcome)
      → any (λ x. x.delivered) (os ++ o ∷ []) ≡ any (λ x. x.delivered) os || o.delivered
  any_append [] o = ground arith
  any_append (x ∷ os) o = rw (any_append os o) (ground arith)

  note-HasTrueFlag :
      (p : Progress W) (t : AlertTarget) (r : State W × Option DeliveryOutcome)
      → HasTrueFlag p
      → HasTrueFlag (note uuid_text digest settings channels p t r)
  unfolding note
  note-HasTrueFlag p t (s, none) h = h
  note-HasTrueFlag p t (s, some o) h = rw (h, any_append p.outcomes o) refl

  run_tier-HasTrueFlag :
      (alert : AlertRequest) (p : Progress W) (tier : List AlertTarget)
      → HasTrueFlag p
      → HasTrueFlag (run_tier uuid_text digest settings channels alert p tier)
  unfolding run_tier
  run_tier-HasTrueFlag alert p [] h = h
  run_tier-HasTrueFlag alert p (t ∷ ts) h =
      let r = deliver uuid_text digest settings channels alert t p.state in
      run_tier-HasTrueFlag alert (note uuid_text digest settings channels p t r) ts
        (note-HasTrueFlag p t r h)

  either-HasTrueFlag :
      (b : Bool) (p q : Progress W)
      → HasTrueFlag p
      → HasTrueFlag q
      → HasTrueFlag (if b then p else q)
  either-HasTrueFlag true p q h k = h
  either-HasTrueFlag false p q h k = k

  run_tiers-HasTrueFlag :
      (alert : AlertRequest) (p : Progress W) (tiers : List (List AlertTarget))
      → HasTrueFlag p
      → HasTrueFlag (run_tiers uuid_text digest settings channels alert p tiers)
  unfolding run_tiers
  run_tiers-HasTrueFlag alert p [] h = h
  run_tiers-HasTrueFlag alert p (tier ∷ tiers) h =
      let after_tier = run_tier uuid_text digest settings channels alert p tier in
      either-HasTrueFlag p.delivered_anywhere p _ h
        (run_tiers-HasTrueFlag alert after_tier tiers (run_tier-HasTrueFlag alert p tier h))

  conclude-dead :
      (alert : AlertRequest) (p : Progress W)
      → HasTrueFlag p
      → HasHonestEnd (conclude uuid_text digest settings channels alert p).1
  unfolding conclude
  conclude-dead alert p h = rw h refl

  to_targets-dead :
      (alert : AlertRequest) (s : State W) (ts : List AlertTarget)
      → HasHonestEnd (to_targets uuid_text digest settings channels alert s ts).1
  unfolding to_targets start
  to_targets-dead alert s [] = refl
  to_targets-dead alert s (t ∷ ts) =
      let p = start uuid_text digest settings channels s in
      let tiers = failover_plan (t ∷ ts) in
      conclude-dead alert (run_tiers uuid_text digest settings channels alert p tiers)
        (run_tiers-HasTrueFlag alert p tiers refl)

  send_approved-dead :
      (alert : AlertRequest) (s : State W)
      → HasHonestEnd (send_approved uuid_text digest settings channels alert s).1
  unfolding send_approved
  send_approved-dead alert s =
      elim (Bool-cases (is_worth_alerting alert.priority settings.notification_min_priority)) [
        | inl worth ↦ rw worth (to_targets-dead alert s (resolve_targets settings))
        | inr below ↦ rw below refl
      ]

  after_check-dead :
      (alert : AlertRequest) (s : State W) (c : Checked HumanDecision) (r : DispatchResult)
      → (after_check uuid_text digest settings channels alert s c).1 ≡ ok r
      → HasHonestEnd r
  unfolding after_check
  after_check-dead alert s (refuse why) r e = absurd (cc)
  after_check-dead alert s (ok d) r e = rw (sym (ok-injective _ r e)) (send_approved-dead alert s)

  -- An approved dispatch reports a dead letter exactly when it attempted some target and none of its
  -- own attempts delivered; a target that it skipped as a duplicate is no attempt of its own.
  pub dead_letter_iff :
      (alert : AlertRequest) (s : State W) (r : DispatchResult)
      → (dispatch_alert uuid_text digest settings channels alert s).1 ≡ ok r
      → r.dead_lettered ≡ (not (is_empty r.outcomes) && not (delivered r))
  unfolding dispatch_alert
  dead_letter_iff alert s r e =
      after_check-dead alert s (verify_approval alert.investigation_id alert.approval_id s.db) r e

  -- A tier that reached someone ends the failover: the later tiers are not attempted.
  reached_tier_is_last :
      (alert : AlertRequest) (p : Progress W) (tier : List AlertTarget)
      (tiers : List (List AlertTarget))
      → p.delivered_anywhere ≡ false
      → (run_tier uuid_text digest settings channels alert p tier).delivered_anywhere ≡ true
      → run_tiers uuid_text digest settings channels alert p (tier ∷ tiers)
        ≡ run_tier uuid_text digest settings channels alert p tier
  unfolding run_tiers
  reached_tier_is_last alert p tier [] h k = rw h refl
  reached_tier_is_last alert p tier (next ∷ tiers) h k = simp (h, k) refl

  -- A target whose delivery of this alert is already marked as sent is skipped, and the skip does not
  -- count as a delivery: a tier of such a target alone leaves the database and the world as they
  -- are, and the failover goes on to the next tier.
  sent_target_falls_through :
      (alert : AlertRequest) (p : Progress W) (t : AlertTarget) (row : Notification)
      (tiers : List (List AlertTarget))
      → p.delivered_anywhere ≡ false
      → by_dedupe_key (key_of uuid_text digest alert t) p.state.db.notifications ≡ some row
      → is_sent row.status ≡ true
      → run_tiers uuid_text digest settings channels alert p ((t ∷ []) ∷ tiers)
        ≡ run_tiers uuid_text digest settings channels alert
            (record p { deduplicated = p.deduplicated ++ t ∷ [] })
            tiers
  unfolding run_tiers run_tier note deliver deliver_known
  sent_target_falls_through alert p t row tiers h found was_sent = simp (h, found, was_sent)

  after_check-acts :
      (alert : AlertRequest) (s : State W) (c : Checked HumanDecision)
      → (after_check uuid_text digest settings channels alert s c).0 ≢ s
      → ((d : HumanDecision) × (c ≡ ok d))
        × (is_worth_alerting alert.priority settings.notification_min_priority ≡ true)
  unfolding after_check send_approved
  after_check-acts alert s (refuse why) changed = absurd (changed refl)
  after_check-acts alert s (ok d) changed =
      elim (Bool-cases (is_worth_alerting alert.priority settings.notification_min_priority)) [
        | inl worth ↦ ((d, refl), worth)
        | inr below ↦ absurd (changed (rw below refl))
      ]

  -- A dispatch that sends anything or writes anything has a human decision behind it that exists,
  -- belongs to the alert's investigation and is an approval, and the alert's priority is at or
  -- above the alerting floor.
  pub only_approved_dispatch_acts :
      (alert : AlertRequest) (s : State W)
      → (dispatch_alert uuid_text digest settings channels alert s).0 ≢ s
      → ((d : HumanDecision) × (lookup alert.approval_id s.db.decisions ≡ some d)
          × (lookup d.conversation_id s.db.conversations ≡ some alert.investigation_id)
          × (is_approve d.decision ≡ true))
        × (is_worth_alerting alert.priority settings.notification_min_priority ≡ true)
  unfolding dispatch_alert
  only_approved_dispatch_acts alert s changed =
      let check = verify_approval alert.investigation_id alert.approval_id s.db in
      let ((d, approved), worth) = after_check-acts alert s check changed in
      let (found, belongs, approves) =
        (verify_iff alert.investigation_id alert.approval_id s.db d).0 approved in
      ((d, found, belongs, approves), worth)
