-- ===== src/Sessions/Store.antt =====
-- The protocol `SessionStore`, with what the session service relies on. The service uses no login
-- transaction, so those stand only in the implementation.
use ai_cybersecurity_soc_ana.Common.{Option, if◌then◌else◌, none, some, ℕ, ◌==◌, ◌≡◌}
use ai_cybersecurity_soc_ana.Common.Dict.{unless}
use ai_cybersecurity_soc_ana.Sessions.Records.{RefreshRecord, SessionRecord, belongs_to}

pub record SessionStore : Type 1 where
  pub Store : Type 0
  pub IsSound : Store → Type 0
  pub save_session : SessionRecord → Store → Store
  pub load_session : ℕ → Store → Option SessionRecord
  pub delete_session : ℕ → Store → Store
  pub save_refresh : RefreshRecord → Store → Store
  pub load_refresh : ℕ → Store → Option RefreshRecord
  pub delete_refreshes_for_session : ℕ → Store → Store
  pub load_session-save_session :
      (x : SessionRecord) (i : ℕ) (s : Store)
      → load_session i (save_session x s) ≡ (if x.session_id == i then some x else load_session i s)
  pub load_session-delete_session :
      (i j : ℕ) (s : Store)
      → load_session j (delete_session i s) ≡ (if i == j then none else load_session j s)
  pub load_session-save_refresh :
      (r : RefreshRecord) (i : ℕ) (s : Store) → load_session i (save_refresh r s) ≡ load_session i s
  pub load_session-delete_refreshes :
      (i j : ℕ) (s : Store) → load_session j (delete_refreshes_for_session i s) ≡ load_session j s
  pub load_refresh-save_session :
      (x : SessionRecord) (h : ℕ) (s : Store) → load_refresh h (save_session x s) ≡ load_refresh h s
  pub load_refresh-delete_session :
      (i h : ℕ) (s : Store) → load_refresh h (delete_session i s) ≡ load_refresh h s
  pub load_refresh-save_refresh :
      (r : RefreshRecord) (h : ℕ) (s : Store)
      → load_refresh h (save_refresh r s) ≡ (if r.token_hash == h then some r else load_refresh h s)
  pub load_refresh-delete_refreshes :
      (i h : ℕ) (s : Store)
      → IsSound s
      → load_refresh h (delete_refreshes_for_session i s) ≡ unless (belongs_to i) (load_refresh h s)
  pub save_session-IsSound :
      (x : SessionRecord) (s : Store) → IsSound s → IsSound (save_session x s)
  pub delete_session-IsSound : (i : ℕ) (s : Store) → IsSound s → IsSound (delete_session i s)
  pub save_refresh-IsSound :
      (r : RefreshRecord) (s : Store) → IsSound s → IsSound (save_refresh r s)
  pub delete_refreshes-IsSound :
      (i : ℕ) (s : Store) → IsSound s → IsSound (delete_refreshes_for_session i s)
