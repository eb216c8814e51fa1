-- ===== src/Cases/Plans.antt =====
-- backend/services/remediation.py over `RecommendationRepository` of
-- backend/db/repositories/reporting.py. Texts are ordered by the codes of their characters.
use ai_cybersecurity_soc_ana.Enums.{TriagePriority}
use ai_cybersecurity_soc_ana.Common.Text.{Text, codes, eq_text, leb_text, strip}
use ai_cybersecurity_soc_ana.Common.{
  Bool, List, Option, [], false, if◌then◌else◌, length, max, none, some, true, ℕ, ◌&&◌, ◌++◌, ◌+◌,
  ◌==◌, ◌∷◌,
}
use ai_cybersecurity_soc_ana.Cases.Tables.{ApprovalStatus, Recommendation, Tables, pending}
use ai_cybersecurity_soc_ana.Common.Sorting.{sort_by}

unfoldable pub latest_version : ℕ → List Recommendation → ℕ
latest_version i [] = 0
latest_version i (r ∷ rs) =
    let rest = latest_version i rs in if r.investigation_id == i then max r.version rest else rest

unfoldable pub of_version : ℕ → ℕ → List Recommendation → List Recommendation
of_version i v [] = []
of_version i v (r ∷ rs) =
    let rest = of_version i v rs in
    if (r.investigation_id == i) && (r.version == v) then r ∷ rest else rest

-- The text that the column `priority` stores, and that the database sorts by.
abbrev pub priority_value : TriagePriority → Text
priority_value TriagePriority.low = codes "low"
priority_value TriagePriority.medium = codes "medium"
priority_value TriagePriority.high = codes "high"
priority_value TriagePriority.urgent = codes "urgent"

abbrev pub is_sooner : Recommendation → Recommendation → Bool
is_sooner a b =
    let p = priority_value a.priority in
    let q = priority_value b.priority in
    if eq_text p q then leb_text a.action b.action else leb_text p q

-- `for_version`: one generation, by the texts of the priority: high, low, medium, urgent.
unfoldable pub for_version : ℕ → ℕ → List Recommendation → List Recommendation
unfolding of_version sort_by leb_text
for_version i v rs = sort_by is_sooner (of_version i v rs)

unfoldable pub current : ℕ → List Recommendation → List Recommendation
unfolding latest_version for_version
current i rs =
    let version = latest_version i rs in if version == 0 then [] else for_version i version rs

abbrev pub is_pending : ApprovalStatus → Bool
is_pending pending = true
is_pending _ = false

unfoldable pub only_pending : List Recommendation → List Recommendation
only_pending [] = []
only_pending (r ∷ rs) =
    if is_pending r.approval_status then r ∷ only_pending rs else only_pending rs

unfoldable pub pending_approval : ℕ → List Recommendation → List Recommendation
unfolding current only_pending
pending_approval i rs = only_pending (current i rs)

-- `to_recommendation` for each item of the plan, an action with its priority; ids are given in order.
unfoldable pub to_recommendations : ℕ → ℕ → ℕ → List (Text × TriagePriority) → List Recommendation
to_recommendations i version id [] = []
to_recommendations i version id ((action, priority) ∷ items) =
    record {
      id = id;
      investigation_id = i;
      version = version;
      action = action;
      priority = priority;
      approval_status = pending;
    }
    ∷ to_recommendations i version (id + 1) items

-- `record_remediation_plan`
unfoldable pub record_remediation_plan : ℕ → List (Text × TriagePriority) → Tables → Tables
unfolding to_recommendations latest_version
record_remediation_plan i plan t = record t {
  recommendations =
      t.recommendations
      ++ to_recommendations i (latest_version i t.recommendations + 1) t.next_id plan;
  next_id = t.next_id + length plan;
}

unfoldable pub by_id : ℕ → List Recommendation → Option Recommendation
by_id k [] = none
by_id k (r ∷ rs) = if r.id == k then some r else by_id k rs

-- The row found by its id gets the decision.
unfoldable pub set_approval : ℕ → ApprovalStatus → List Recommendation → List Recommendation
set_approval k decision [] = []
set_approval k decision (r ∷ rs) =
    if r.id == k
    then record r { approval_status = decision } ∷ rs
    else r ∷ set_approval k decision rs

-- What `decide_recommendation` comes to: the tables as written, or one of its errors.
pub data Decided : Type 0 where
  recorded : Tables → Decided
  not_a_decision no_actor no_recommendation already_decided : Decided

abbrev pub is_blank : Text → Bool
is_blank [] = true
is_blank (c ∷ s) = false

unfoldable pub decide_found : ℕ → ApprovalStatus → Tables → Option Recommendation → Decided
unfolding set_approval
decide_found k decision t none = no_recommendation
decide_found k decision t (some r) =
    if is_pending r.approval_status
    then recorded (record t { recommendations = set_approval k decision t.recommendations })
    else already_decided

-- `decide_recommendation`
unfoldable pub decide_recommendation : ℕ → ApprovalStatus → Text → Tables → Decided
unfolding by_id decide_found strip
decide_recommendation k decision actor t =
    if is_pending decision
    then not_a_decision
    else if is_blank (strip actor)
    then no_actor
    else decide_found k decision t (by_id k t.recommendations)
