-- ===== src/Notify/Routing.antt =====
-- services/notifications.py: the alerting floor, the targets, and the failover tiers.
use mathlib.Core.List.{foldl, flatten, append_assoc, append-nil}
use ai_cybersecurity_soc_ana.Common.{
  All, Bool, Bool-cases, List, [], false, if◌then◌else◌, inl, inr, leb, refl, true, ℕ, ◌++◌, ◌∷◌,
  ◌≡◌, ap, sym, ◌∙◌,
}
use ai_cybersecurity_soc_ana.Common.Text.{Text, codes}
use ai_cybersecurity_soc_ana.Enums.{
  NotificationChannel, TriagePriority, email, priority_rank, slack, webhook,
}
use ai_cybersecurity_soc_ana.Notify.Contracts.{AlertTarget, same_channel}

-- The settings that the dispatch reads.
pub record Settings : Type 0 where
  pub notification_channel_order : List NotificationChannel
  pub slack_channel : Text
  pub email_recipients : List Text
  pub notification_min_priority : TriagePriority
  pub notification_max_attempts : ℕ

unfoldable pub is_worth_alerting : TriagePriority → TriagePriority → Bool
is_worth_alerting priority minimum = leb (priority_rank minimum) (priority_rank priority)

email_targets : List Text → List AlertTarget
email_targets [] = []
email_targets (a ∷ addresses) = record { channel = email; recipient = a } ∷ email_targets addresses

slack_recipient : Text → Text
slack_recipient [] = codes "slack-webhook"
slack_recipient (c ∷ s) = c ∷ s

targets_of : Settings → NotificationChannel → List AlertTarget
unfolding email_targets slack_recipient
targets_of s slack = record { channel = slack; recipient = slack_recipient s.slack_channel } ∷ []
targets_of s email = email_targets s.email_recipients
targets_of s webhook = []

targets_in_order : Settings → List NotificationChannel → List AlertTarget
targets_in_order s [] = []
targets_in_order s (c ∷ cs) = targets_of s c ++ targets_in_order s cs

unfoldable pub resolve_targets : Settings → List AlertTarget
unfolding targets_in_order targets_of
resolve_targets s = targets_in_order s s.notification_channel_order

-- `tiers[-1][0].channel is target.channel`
tier_takes : List AlertTarget → AlertTarget → Bool
tier_takes [] t = false
tier_takes (first ∷ tier) t = same_channel first.channel t.channel

-- The loop's body: the target joins the last tier or opens a new one.
unfoldable pub place : List (List AlertTarget) → AlertTarget → List (List AlertTarget)
unfolding tier_takes
place [] t = (t ∷ []) ∷ []
place (tier ∷ []) t = if tier_takes tier t then (tier ++ t ∷ []) ∷ [] else tier ∷ (t ∷ []) ∷ []
place (tier ∷ next ∷ tiers) t = tier ∷ place (next ∷ tiers) t

unfoldable pub failover_plan : List AlertTarget → List (List AlertTarget)
unfolding place
failover_plan targets = foldl place [] targets

-- All targets of a tier are on one channel, and none is empty.
abbrev pub IsTier : List AlertTarget → Type 0
IsTier [] = ⊥
IsTier (t ∷ ts) = All (λ u. same_channel t.channel u.channel ≡ true) ts

All-append_one :
    {A : Type 0} (P : A → Type 0) (xs : List A) (x : A) → All P xs → P x → All P (xs ++ x ∷ [])
All-append_one P [] x h p = (p, tt)
All-append_one P (y ∷ ys) x h p = (h.0, All-append_one P ys x h.1 p)

place-flatten :
    (tiers : List (List AlertTarget)) (t : AlertTarget)
    → flatten (place tiers t) ≡ flatten tiers ++ t ∷ []
unfolding place flatten
place-flatten [] t = refl
place-flatten (tier ∷ []) t = elim (Bool-cases (tier_takes tier t)) [
  | inl joins ↦ rw joins (simp append-nil)
  | inr opens ↦ rw opens (simp append-nil)
]
place-flatten (tier ∷ next ∷ tiers) t =
    ap (λ l. tier ++ l) (place-flatten (next ∷ tiers) t)
    ∙ sym (append_assoc tier (flatten (next ∷ tiers)) (t ∷ []))

place-IsTier :
    (tiers : List (List AlertTarget)) (t : AlertTarget)
    → All IsTier tiers
    → All IsTier (place tiers t)
unfolding place
place-IsTier [] t h = (tt, tt)
place-IsTier ([] ∷ []) t h = absurd (h.0)
place-IsTier ((u ∷ us) ∷ []) t h = elim (Bool-cases (same_channel u.channel t.channel)) [
  | inl same ↦
      rw same (All-append_one (λ v. same_channel u.channel v.channel ≡ true) us t h.0 same, tt)
  | inr other ↦ rw other (h.0, (tt, tt))
]
place-IsTier (tier ∷ next ∷ tiers) t h = (h.0, place-IsTier (next ∷ tiers) t h.1)

plan_from :
    (tiers : List (List AlertTarget)) (targets : List AlertTarget)
    → All IsTier tiers
    → (flatten (foldl place tiers targets) ≡ flatten tiers ++ targets)
      × All IsTier (foldl place tiers targets)
plan_from tiers [] h = (sym (append-nil (flatten tiers)), h)
plan_from tiers (t ∷ targets) h =
    let (flat, good) = plan_from (place tiers t) targets (place-IsTier tiers t h) in
    (
      flat
          ∙ ap (λ l. l ++ targets) (place-flatten tiers t)
          ∙ append_assoc (flatten tiers) (t ∷ []) targets,
      good,
    )

-- The failover plan loses, adds and reorders nothing: its tiers, one after the other, are the
-- targets in the operator's order, and each tier has a target and holds one channel only.
plan_keeps_order :
    (targets : List AlertTarget)
    → (flatten (failover_plan targets) ≡ targets) × All IsTier (failover_plan targets)
unfolding failover_plan
plan_keeps_order targets = unfold flatten in plan_from [] targets tt
