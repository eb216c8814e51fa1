-- ===== src/Sessions/Outcomes.antt =====
-- How a call of the session service ends.
pub data AuthError : Type 0 where
  invalid_token refresh_reuse : AuthError

pub data Outcome (A : Type 0) : Type 0 where
  done : A → Outcome A
  raised : AuthError → Outcome A
