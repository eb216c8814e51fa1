-- ===== src/Sessions/Records.antt =====
-- The records that the session store keeps. Ids, hashes and opaque tokens are only compared, so
-- they are numbers; a time is a number of ticks.
use ai_cybersecurity_soc_ana.Common.{Bool, ℕ, ◌==◌}

pub record SessionRecord : Type 0 where
  pub session_id : ℕ
  pub user_id : ℕ
  pub created_at : ℕ
  pub expires_at : ℕ

pub record RefreshRecord : Type 0 where
  pub token_hash : ℕ
  pub session_id : ℕ
  pub user_id : ℕ
  pub expires_at : ℕ
  pub used : Bool

pub record LoginTransaction : Type 0 where
  pub login_state : ℕ  -- `state`
  pub nonce : ℕ
  pub code_verifier : ℕ
  pub expires_at : ℕ

-- `record.session_id == session_id`
abbrev pub belongs_to : ℕ → RefreshRecord → Bool
belongs_to sid r = r.session_id == sid
