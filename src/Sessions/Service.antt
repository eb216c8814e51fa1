-- ===== src/Sessions/Service.antt =====
-- `SessionService`, over any store that keeps the protocol. `hash` is the SHA-256 of the standard
-- library; session ids and tokens come from `secrets` and are arguments here, as is the time.
use ai_cybersecurity_soc_ana.Common.{Option, false, if◌then◌else◌, leb, none, some, true, ℕ, ◌+◌}
use ai_cybersecurity_soc_ana.Sessions.Records.{RefreshRecord, SessionRecord}
use ai_cybersecurity_soc_ana.Sessions.Store.{SessionStore}
use ai_cybersecurity_soc_ana.Sessions.Outcomes.{Outcome, done, invalid_token, raised, refresh_reuse}

module _ (M : SessionStore) (hash : ℕ → ℕ) (refresh_ttl : ℕ) where
  open M use {
    Store, save_session, load_session, delete_session, save_refresh, load_refresh,
    delete_refreshes_for_session,
  }

  abbrev pub issued : ℕ → SessionRecord → RefreshRecord
  issued token x = record {
    token_hash = hash token;
    session_id = x.session_id;
    user_id = x.user_id;
    expires_at = x.expires_at;
    used = false;
  }

  issue_refresh : ℕ → SessionRecord → Store → Store
  issue_refresh token x s = save_refresh (issued token x) s

  abbrev pub new_session : ℕ → ℕ → ℕ → SessionRecord
  new_session now sid user = record {
    session_id = sid;
    user_id = user;
    created_at = now;
    expires_at = now + refresh_ttl;
  }

  -- `start_session`: the new session, and its first token `token`.
  unfoldable pub start_session : ℕ → ℕ → ℕ → ℕ → Store → Store × SessionRecord × ℕ
  unfolding issue_refresh
  start_session now sid token user s =
      let x = new_session now sid user in (issue_refresh token x (save_session x s), x, token)

  revoke_all : ℕ → Store → Store
  revoke_all sid s = delete_refreshes_for_session sid (delete_session sid s)

  rotate_session :
      ℕ → ℕ → RefreshRecord → Store → Option SessionRecord → Store × Outcome (SessionRecord × ℕ)
  rotate_session now fresh r s none = (s, raised invalid_token)
  rotate_session now fresh r s (some x) =
      if leb x.expires_at now
      then (s, raised invalid_token)
      else (issue_refresh fresh x (save_refresh (record r { used = true }) s), done (x, fresh))

  rotate_record : ℕ → ℕ → Store → Option RefreshRecord → Store × Outcome (SessionRecord × ℕ)
  rotate_record now fresh s none = (s, raised invalid_token)
  rotate_record now fresh s (some r) =
      if leb r.expires_at now
      then (s, raised invalid_token)
      else if r.used
      then (revoke_all r.session_id s, raised refresh_reuse)
      else rotate_session now fresh r s (load_session r.session_id s)

  -- `rotate`: `fresh` is the token that is issued if the old one is accepted.
  unfoldable pub rotate : ℕ → ℕ → ℕ → Store → Store × Outcome (SessionRecord × ℕ)
  unfolding rotate_record rotate_session revoke_all issue_refresh
  rotate now fresh token s = rotate_record now fresh s (load_refresh (hash token) s)

  unfoldable pub revoke : ℕ → Store → Store
  unfolding revoke_all
  revoke sid s = revoke_all sid s
