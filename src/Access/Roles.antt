-- ===== src/Access/Roles.antt =====
-- backend/auth/rbac.py.
use ai_cybersecurity_soc_ana.Common.{Bool, List, [], any, false, not, refl, true, ◌||◌, ◌∷◌, ◌≡◌}

pub data UserRole : Type 0 where
  analyst senior_analyst manager admin auditor : UserRole

pub data Capability : Type 0 where
  view_investigations run_investigations approve_actions : Capability
  view_audit manage_users configure : Capability

abbrev pub same_capability : Capability → Capability → Bool
same_capability view_investigations view_investigations = true
same_capability run_investigations run_investigations = true
same_capability approve_actions approve_actions = true
same_capability view_audit view_audit = true
same_capability manage_users manage_users = true
same_capability configure configure = true
same_capability _ _ = false

-- `ROLE_CAPABILITIES`
unfoldable pub capabilities_for : UserRole → List Capability
capabilities_for analyst = view_investigations ∷ run_investigations ∷ []
capabilities_for senior_analyst = view_investigations ∷ run_investigations ∷ approve_actions ∷ []
capabilities_for manager =
    view_investigations ∷ run_investigations ∷ approve_actions ∷ view_audit ∷ []
capabilities_for admin =
    view_investigations ∷ run_investigations ∷ approve_actions ∷ view_audit ∷ manage_users
    ∷ configure ∷ []
capabilities_for auditor = view_investigations ∷ view_audit ∷ []

unfoldable pub has_capability : UserRole → Capability → Bool
unfolding capabilities_for
has_capability role capability = any (same_capability capability) (capabilities_for role)

abbrev leq : Bool → Bool → Bool
leq a b = not a || b

-- Each step of the line analyst, senior analyst, manager, admin keeps what the one before may do.
pub seniority_keeps :
    (c : Capability)
    → (leq (has_capability analyst c) (has_capability senior_analyst c) ≡ true)
      × (leq (has_capability senior_analyst c) (has_capability manager c) ≡ true)
      × (leq (has_capability manager c) (has_capability admin c) ≡ true)
      × (leq (has_capability auditor c) (has_capability manager c) ≡ true)
unfolding has_capability
seniority_keeps view_investigations = (refl, refl, refl, refl)
seniority_keeps run_investigations = (refl, refl, refl, refl)
seniority_keeps approve_actions = (refl, refl, refl, refl)
seniority_keeps view_audit = (refl, refl, refl, refl)
seniority_keeps manage_users = (refl, refl, refl, refl)
seniority_keeps configure = (refl, refl, refl, refl)
