-- ===== src/Sessions/Rotation.antt =====
-- What one call of `rotate` does, on every branch.
use ai_cybersecurity_soc_ana.Common.{
  Bool-cases, Option-cases, arith, false, inl, inr, leb, none, refl, some, true, ℕ, ◌<◌, ◌∙◌, ◌≡◌,
  ◌≢◌, ◌⊎◌,
}
use ai_cybersecurity_soc_ana.Common.Dict.{unless}
use ai_cybersecurity_soc_ana.Sessions.Records.{RefreshRecord, SessionRecord, belongs_to}
use ai_cybersecurity_soc_ana.Sessions.Store.{SessionStore}
use ai_cybersecurity_soc_ana.Sessions.Outcomes.{done, invalid_token, raised, refresh_reuse}
use ai_cybersecurity_soc_ana.Sessions.Service.{issued, rotate}

module _ (M : SessionStore) (hash : ℕ → ℕ) (refresh_ttl : ℕ) where
  open M use {
    Store, IsSound, load_session, load_refresh, save_refresh, delete_refreshes_for_session,
    delete_session, load_session-save_refresh, load_refresh-save_refresh,
    load_session-delete_refreshes, load_session-delete_session, load_refresh-delete_refreshes,
    load_refresh-delete_session, delete_session-IsSound,
  }

  -- A token can be rotated now: it is known, unexpired, unused, and its session is alive.
  pub record IsRotatable (now token : ℕ) (r : RefreshRecord) (x : SessionRecord) (s : Store)
      : Type 0 where
    pub known : load_refresh (hash token) s ≡ some r
    pub unexpired : now < r.expires_at
    pub unused : r.used ≡ false
    pub alive : load_session r.session_id s ≡ some x
    pub session_unexpired : now < x.expires_at

  pub rotate_accepts :
      (now fresh token : ℕ) (r : RefreshRecord) (x : SessionRecord) (s : Store)
      → IsRotatable now token r x s
      → rotate M hash refresh_ttl now fresh token s ≡ (
        save_refresh
            (issued M hash refresh_ttl fresh x)
            (save_refresh (record r { used = true }) s),
        done (x, fresh),
      )
  unfolding rotate
  rotate_accepts now fresh token r x s h = ground (arith, h.known, h.alive)

  pub rotate_replay :
      (now fresh token : ℕ) (r : RefreshRecord) (s : Store)
      → load_refresh (hash token) s ≡ some r
      → now < r.expires_at
      → r.used ≡ true
      → rotate M hash refresh_ttl now fresh token s ≡ (
        delete_refreshes_for_session r.session_id (delete_session r.session_id s),
        raised refresh_reuse,
      )
  unfolding rotate
  rotate_replay now fresh token r s known live used = ground arith

  -- A rotation never succeeds silently or fails with a half-written store: it is accepted for a
  -- rotatable token, or the token is a replayed one and its session is revoked, or the store is
  -- left as it was and the token is invalid.
  pub rotate_cases :
      (now fresh token : ℕ) (s : Store)
      → ((r : RefreshRecord) × (x : SessionRecord) × IsRotatable now token r x s)
        ⊎ ((r : RefreshRecord) × (load_refresh (hash token) s ≡ some r)
            × (now < r.expires_at)
            × (r.used ≡ true))
        ⊎ (rotate M hash refresh_ttl now fresh token s ≡ (s, raised invalid_token))
  rotate_cases now fresh token s = elim (Option-cases (load_refresh (hash token) s)) [
    | inl unknown ↦ inr (inr (unfold rotate in ground arith))
    | inr (r, known) ↦ elim (Bool-cases (leb r.expires_at now)) [
      | inl expired ↦ inr (inr (unfold rotate in ground arith))
      | inr live ↦ elim (Bool-cases r.used) [
        | inl used ↦ inr (inl (r, known, ground arith, used))
        | inr unused ↦ elim (Option-cases (load_session r.session_id s)) [
          | inl gone ↦ inr (inr (unfold rotate in ground arith))
          | inr (x, alive) ↦ elim (Bool-cases (leb x.expires_at now)) [
            | inl over ↦ inr (inr (unfold rotate in ground arith))
            | inr lasting ↦ inl (
              r,
              x,
              record {
                known = known;
                unexpired = ground arith;
                unused = unused;
                alive = alive;
                session_unexpired = ground arith;
              },
            )
          ]
        ]
      ]
    ]
  ]

  -- Accepting a token hands back its session with the fresh token, marks the old one as used,
  -- stores the fresh one unused for the same session until the session expires, and touches no
  -- other token and no session.
  pub rotate_accepted :
      (now fresh token : ℕ) (r : RefreshRecord) (x : SessionRecord) (s : Store)
      → IsRotatable now token r x s
      → r.token_hash ≡ hash token
      → hash fresh ≢ hash token
      → let (s', outcome) = rotate M hash refresh_ttl now fresh token s in
        (outcome ≡ done (x, fresh))
        × (load_refresh (hash token) s' ≡ some (record r { used = true }))
        × (load_refresh (hash fresh) s' ≡ some (issued M hash refresh_ttl fresh x))
        × ((h : ℕ) → h ≢ hash token → h ≢ hash fresh → load_refresh h s' ≡ load_refresh h s)
        × ((i : ℕ) → load_session i s' ≡ load_session i s)
  rotate_accepted now fresh token r x s h keyed ne =
      let r' = record r { used = true } in
      let x' = issued M hash refresh_ttl fresh x in
      rw (rotate_accepts now fresh token r x s h) (
        refl,
        ground (
          arith,
          load_refresh-save_refresh x' (hash token) (save_refresh r' s),
          load_refresh-save_refresh r' (hash token) s,
        ),
        ground (arith, load_refresh-save_refresh x' (hash fresh) (save_refresh r' s)),
        λ k old new. ground (
          arith,
          load_refresh-save_refresh x' k (save_refresh r' s),
          load_refresh-save_refresh r' k s,
        ),
        λ i. load_session-save_refresh x' i (save_refresh r' s) ∙ load_session-save_refresh r' i s,
      )

  -- Presenting a used token before it expires is treated as theft: the session is gone, and no
  -- token of it is left, while the sessions and the tokens of other sessions stay as they were.
  pub replay_revokes :
      (now fresh token : ℕ) (r : RefreshRecord) (s : Store)
      → IsSound s
      → load_refresh (hash token) s ≡ some r
      → now < r.expires_at
      → r.used ≡ true
      → let (s', outcome) = rotate M hash refresh_ttl now fresh token s in
        (outcome ≡ raised refresh_reuse)
        × (load_session r.session_id s' ≡ none)
        × ((h : ℕ) → load_refresh h s' ≡ unless (belongs_to r.session_id) (load_refresh h s))
        × ((i : ℕ) → i ≢ r.session_id → load_session i s' ≡ load_session i s)
  replay_revokes now fresh token r s sound known live used =
      let i = r.session_id in
      let s' = delete_session i s in
      rw (rotate_replay now fresh token r s known live used) (
        refl,
        ground (arith, load_session-delete_refreshes i i s', load_session-delete_session i i s),
        λ h. ground (
          arith,
          load_refresh-delete_refreshes i h s' (delete_session-IsSound i s sound),
          load_refresh-delete_session i h s,
        ),
        λ j ne.
            ground (arith, load_session-delete_refreshes i j s', load_session-delete_session i j s),
      )
