-- ===== src/Sessions/InMemory.antt =====
-- `InMemorySessionStore`: three dictionaries.
use ai_cybersecurity_soc_ana.Common.{Option, [], arith, none, refl, some, ℕ, ◌≡◌, ◌≢◌}
use ai_cybersecurity_soc_ana.Common.Dict.{
  Dict, HasDistinctKeys, erase, erase_if, erase_if-HasDistinctKeys, insert, insert-HasDistinctKeys,
  lookup, lookup-erase, lookup-erase_if, lookup-insert,
}
use ai_cybersecurity_soc_ana.Sessions.Records.{
  LoginTransaction, RefreshRecord, SessionRecord, belongs_to,
}
use ai_cybersecurity_soc_ana.Sessions.Store.{SessionStore}

pub record InMemorySessionStore : Type 0 where
  pub sessions : Dict SessionRecord
  pub refresh : Dict RefreshRecord
  pub logins : Dict LoginTransaction

abbrev pub empty : InMemorySessionStore
empty = record { sessions = []; refresh = []; logins = [] }

abbrev pub save_session : SessionRecord → InMemorySessionStore → InMemorySessionStore
save_session x s = record s { sessions = insert x.session_id x s.sessions }

abbrev pub load_session : ℕ → InMemorySessionStore → Option SessionRecord
load_session i s = lookup i s.sessions

abbrev pub delete_session : ℕ → InMemorySessionStore → InMemorySessionStore
delete_session i s = record s { sessions = erase i s.sessions }

abbrev pub save_refresh : RefreshRecord → InMemorySessionStore → InMemorySessionStore
save_refresh r s = record s { refresh = insert r.token_hash r s.refresh }

abbrev pub load_refresh : ℕ → InMemorySessionStore → Option RefreshRecord
load_refresh h s = lookup h s.refresh

abbrev pub delete_refreshes_for_session : ℕ → InMemorySessionStore → InMemorySessionStore
delete_refreshes_for_session i s = record s { refresh = erase_if (belongs_to i) s.refresh }

pub save_login : LoginTransaction → InMemorySessionStore → InMemorySessionStore
save_login t s = record s { logins = insert t.login_state t s.logins }

pub pop_login : ℕ → InMemorySessionStore → InMemorySessionStore × Option LoginTransaction
pop_login state s = (record s { logins = erase state s.logins }, lookup state s.logins)

-- A login transaction is handed out once: the second pop of its state finds nothing, and other
-- states still have theirs.
pub pop_login_once :
    (t : LoginTransaction) (other : ℕ) (s : InMemorySessionStore)
    → let (s', found) = pop_login t.login_state (save_login t s) in
      (found ≡ some t)
      × ((pop_login t.login_state s').1 ≡ none)
      × (other ≢ t.login_state → (pop_login other s').1 ≡ (pop_login other s).1)
unfolding save_login pop_login
pop_login_once t other s =
    let d = insert t.login_state t s.logins in
    (
      ground (arith, lookup-insert t.login_state t.login_state t s.logins),
      ground (arith, lookup-erase t.login_state t.login_state d),
      λ ne.
          ground (
            arith,
            lookup-erase t.login_state other d,
            lookup-insert t.login_state other t s.logins,
          ),
    )

-- The in-memory store keeps what the protocol promises.
abbrev pub in_memory : SessionStore
in_memory = record {
  Store = InMemorySessionStore;
  IsSound = λ s. HasDistinctKeys s.refresh;
  save_session = save_session;
  load_session = load_session;
  delete_session = delete_session;
  save_refresh = save_refresh;
  load_refresh = load_refresh;
  delete_refreshes_for_session = delete_refreshes_for_session;
  load_session-save_session = λ x i s. lookup-insert x.session_id i x s.sessions;
  load_session-delete_session = λ i j s. lookup-erase i j s.sessions;
  load_session-save_refresh = λ r i s. refl;
  load_session-delete_refreshes = λ i j s. refl;
  load_refresh-save_session = λ x h s. refl;
  load_refresh-delete_session = λ i h s. refl;
  load_refresh-save_refresh = λ r h s. lookup-insert r.token_hash h r s.refresh;
  load_refresh-delete_refreshes = λ i h s d. lookup-erase_if (belongs_to i) h s.refresh d;
  save_session-IsSound = λ x s d. d;
  delete_session-IsSound = λ i s d. d;
  save_refresh-IsSound = λ r s d. insert-HasDistinctKeys r.token_hash r s.refresh d;
  delete_refreshes-IsSound = λ i s d. erase_if-HasDistinctKeys (belongs_to i) s.refresh d;
}
