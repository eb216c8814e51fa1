-- ===== src/Notify/Approval.antt =====
-- `verify_approval` of backend/services/notifications.py.
use ai_cybersecurity_soc_ana.Common.{
  Option, arith, if◌then◌else◌, none, refl, some, sym, true, ℕ, ◌==◌, ◌↔◌, ◌≡◌, ◌≢◌,
}
use ai_cybersecurity_soc_ana.Notify.Database.{Database}
use ai_cybersecurity_soc_ana.Notify.Contracts.{HumanDecision, is_approve}
use ai_cybersecurity_soc_ana.Common.Dict.{Dict, lookup}

-- Why a call raises `UnapprovedDispatchError`.
pub data Refusal : Type 0 where
  no_decision wrong_investigation not_an_approval no_notification already_delivered : Refusal

pub data Checked (A : Type 0) : Type 0 where
  ok : A → Checked A
  refuse : Refusal → Checked A

pub ok-injective : {A : Type 0} (a b : A) → ok a ≡ ok b → a ≡ b
ok-injective a b e = cc

pub refuse-not_ok : {A : Type 0} (why : Refusal) (a : A) → refuse why ≢ ok a
refuse-not_ok why a e = cc

check_conversation : ℕ → HumanDecision → Option ℕ → Checked HumanDecision
check_conversation investigation d none = refuse wrong_investigation
check_conversation investigation d (some i) =
    if i == investigation
    then (if is_approve d.decision then ok d else refuse not_an_approval)
    else refuse wrong_investigation

check_decision : ℕ → Dict ℕ → Option HumanDecision → Checked HumanDecision
unfolding check_conversation
check_decision investigation conversations none = refuse no_decision
check_decision investigation conversations (some d) =
    check_conversation investigation d (lookup d.conversation_id conversations)

unfoldable pub verify_approval : ℕ → ℕ → Database → Checked HumanDecision
unfolding check_decision
verify_approval investigation approval db =
    check_decision investigation db.conversations (lookup approval db.decisions)

conversation-ok :
    (investigation : ℕ) (d d' : HumanDecision) (c : Option ℕ)
    → check_conversation investigation d c ≡ ok d'
    → (d ≡ d') × (c ≡ some investigation) × (is_approve d.decision ≡ true)
unfolding check_conversation
conversation-ok investigation d d' none e = absurd (cc)
conversation-ok investigation d d' (some i) e = ground arith

decision-ok :
    (investigation : ℕ) (conversations : Dict ℕ) (o : Option HumanDecision) (d : HumanDecision)
    → check_decision investigation conversations o ≡ ok d
    → (o ≡ some d)
      × (lookup d.conversation_id conversations ≡ some investigation)
      × (is_approve d.decision ≡ true)
unfolding check_decision
decision-ok investigation conversations none d e = absurd (cc)
decision-ok investigation conversations (some d') d e =
    let (same, belongs, approves) =
      conversation-ok investigation d' d (lookup d'.conversation_id conversations) e in
    rw (sym same) (refl, belongs, approves)

-- A dispatch is authorized exactly when the decision exists, its conversation exists and belongs to
-- the investigation, and the decision is an approval; the decision is then what the check returns.
pub verify_iff :
    (investigation approval : ℕ) (db : Database) (d : HumanDecision)
    → (verify_approval investigation approval db ≡ ok d) ↔ (
        (lookup approval db.decisions ≡ some d)
        × (lookup d.conversation_id db.conversations ≡ some investigation)
        × (is_approve d.decision ≡ true))
unfolding verify_approval check_decision check_conversation
verify_iff investigation approval db d = (
  λ e. decision-ok investigation db.conversations (lookup approval db.decisions) d e,
  λ (found, belongs, approves). rw (found, belongs, approves) (ground arith),
)
