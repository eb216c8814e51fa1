-- ===== src/Cases/Authority.antt =====
-- What a decision that was recorded at the gate authorizes: `record_gate_decision` of
-- backend/services/investigations.py against `verify_approval` of backend/services/notifications.py.
use ai_cybersecurity_soc_ana.Notify.Approval.{ok, verify_approval, verify_iff}
use ai_cybersecurity_soc_ana.Common.{
  Option, [], ap, arith, none, refl, some, sym, true, ℕ, ◌↔◌, ◌∙◌, ◌∷◌, ◌≡◌,
}
use ai_cybersecurity_soc_ana.Common.Dict.{Dict, HasDistinctKeys, lookup, lookup-insert}
use ai_cybersecurity_soc_ana.Enums.{DecisionType}
use ai_cybersecurity_soc_ana.Notify.Contracts.{HumanDecision, is_approve}
use ai_cybersecurity_soc_ana.Notify.Database.{Database}
use ai_cybersecurity_soc_ana.Cases.Tables.{Tables}
use ai_cybersecurity_soc_ana.Cases.Lifecycle.{
  add_decision, conversation_for, first_of, found_or_opened, record_gate_decision,
}

first_of-lookup :
    (i c : ℕ) (d : Dict ℕ) → HasDistinctKeys d → first_of i d ≡ some c → lookup c d ≡ some i
unfolding first_of lookup
first_of-lookup i c [] h e = absurd (cc)
first_of-lookup i c ((k, j) ∷ d) h e = ground (arith, e, h.0, first_of-lookup i c d h.1)

opened-lookup :
    (i : ℕ) (t : Tables) (o : Option ℕ)
    → HasDistinctKeys t.conversations
    → o ≡ first_of i t.conversations
    → let (t', c) = found_or_opened i t o in lookup c t'.conversations ≡ some i
unfolding found_or_opened
opened-lookup i t none h e = ground (arith, lookup-insert t.next_id t.next_id i t.conversations)
opened-lookup i t (some c) h e = first_of-lookup i c t.conversations h (sym e)

recorded-lookup :
    (d : DecisionType) (t : Tables) (c : ℕ)
    → let (t', id) = add_decision d (t, c) in
      lookup id t'.decisions ≡ some (record { conversation_id = c; decision = d })
unfolding add_decision
recorded-lookup d t c = ground (
  arith,
  lookup-insert t.next_id t.next_id (record { conversation_id = c; decision = d }) t.decisions,
)

added-conversations :
    (d : DecisionType) (t : Tables) (c : ℕ)
    → (add_decision d (t, c)).0.conversations ≡ t.conversations
unfolding add_decision
added-conversations d t c = refl

same_target : {i j : ℕ} → some j ≡ some i → j ≡ i
same_target e = cc

-- A decision recorded at the gate of an investigation authorizes an alert exactly if it approves and
-- the alert is of that same investigation. Conversations have distinct ids.
pub recorded_authorizes_iff :
    (i j : ℕ) (d : DecisionType) (t : Tables) (db : Database)
    → HasDistinctKeys t.conversations
    → let (t', id) = record_gate_decision i d t in
      let row : HumanDecision = record {
        conversation_id = (conversation_for i t).1;
        decision = d;
      } in
      (verify_approval j id
          (record db { decisions = t'.decisions; conversations = t'.conversations })
        ≡ ok row)
      ↔ ((j ≡ i) × (is_approve d ≡ true))
unfolding record_gate_decision conversation_for
recorded_authorizes_iff i j d t db h =
    let (t1, c) = found_or_opened i t (first_of i t.conversations) in
    let (t', id) = add_decision d (t1, c) in
    let row : HumanDecision = record { conversation_id = c; decision = d } in
    let found = recorded-lookup d t1 c in
    let belongs = added-conversations d t1 c in
    let held = opened-lookup i t (first_of i t.conversations) h refl in
    let checked =
      verify_iff j id (record db { decisions = t'.decisions; conversations = t'.conversations })
        row in
    let there : lookup c t'.conversations ≡ some i = ap (lookup c) belongs ∙ held in
    (
      λ e. (same_target (sym ((checked.0 e).1) ∙ there), (checked.0 e).2),
      λ (p, a). checked.1 (found, there ∙ ap (λ k. some k) (sym p), a),
    )
