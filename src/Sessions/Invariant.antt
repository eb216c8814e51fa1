-- ===== src/Sessions/Invariant.antt =====
-- What holds of the store between two calls: a session has one live token at most, and a token
-- names its session's user and expiry.
use ai_cybersecurity_soc_ana.Sessions.Rotation.{rotate_accepts, rotate_cases, rotate_replay}
use ai_cybersecurity_soc_ana.Sessions.Service.{issued, new_session, revoke, rotate, start_session}
use ai_cybersecurity_soc_ana.Common.{
  Bool-cases, Option-cases, ap, arith, false, if◌then◌else◌, inl, inr, none, some, sym, true, ℕ,
  ◌==◌, ◌∙◌, ◌≡◌, ◌≢◌, ◌⊎◌,
}
use ai_cybersecurity_soc_ana.Common.Dict.{unless}
use ai_cybersecurity_soc_ana.Sessions.Records.{RefreshRecord, SessionRecord, belongs_to}
use ai_cybersecurity_soc_ana.Sessions.Store.{SessionStore}

module _ (M : SessionStore) (hash : ℕ → ℕ) (refresh_ttl : ℕ) where
  open M use {
    Store, IsSound, load_session, load_refresh, save_refresh, save_session,
    delete_refreshes_for_session, delete_session, load_session-save_refresh,
    load_refresh-save_refresh, load_session-delete_refreshes, load_session-delete_session,
    load_refresh-delete_refreshes, load_refresh-delete_session, delete_session-IsSound,
    load_session-save_session, load_refresh-save_session, save_refresh-IsSound,
    save_session-IsSound, delete_refreshes-IsSound,
  }

  -- Two live tokens of one session are the same token.
  abbrev pub HasSingleToken : Store → Type 0
  HasSingleToken s =
      (h k : ℕ) (r q : RefreshRecord)
      → load_refresh h s ≡ some r
      → load_refresh k s ≡ some q
      → r.used ≡ false
      → q.used ≡ false
      → r.session_id ≡ q.session_id
      → h ≡ k

  -- A token stands under its own hash, and a living session has its tokens' user and expiry.
  abbrev pub IsFiled : Store → Type 0
  IsFiled s = (h : ℕ) (r : RefreshRecord) → load_refresh h s ≡ some r → r.token_hash ≡ h

  abbrev pub IsOwned : Store → Type 0
  IsOwned s =
      (h : ℕ) (r : RefreshRecord) (x : SessionRecord)
      → load_refresh h s ≡ some r
      → load_session r.session_id s ≡ some x
      → (x.user_id ≡ r.user_id) × (x.expires_at ≡ r.expires_at) × (x.session_id ≡ r.session_id)

  pub record IsValid (s : Store) : Type 0 where
    pub sound : IsSound s
    pub filed : IsFiled s
    pub single : HasSingleToken s
    pub owned : IsOwned s

  -- No token names the session.
  abbrev pub IsFreshSession : ℕ → Store → Type 0
  IsFreshSession sid s =
      (h : ℕ) (r : RefreshRecord) → load_refresh h s ≡ some r → r.session_id ≢ sid

  abbrev revoked : ℕ → Store → Store
  revoked sid s = delete_refreshes_for_session sid (delete_session sid s)

  load_refresh-revoked :
      (sid h : ℕ) (s : Store)
      → IsSound s
      → load_refresh h (revoked sid s) ≡ unless (belongs_to sid) (load_refresh h s)
  load_refresh-revoked sid h s sound =
      load_refresh-delete_refreshes sid h (delete_session sid s)
        (delete_session-IsSound sid s sound)
      ∙ ap (unless (belongs_to sid)) (load_refresh-delete_session sid h s)

  load_session-revoked :
      (sid j : ℕ) (s : Store)
      → load_session j (revoked sid s) ≡ (if sid == j then none else load_session j s)
  load_session-revoked sid j s =
      load_session-delete_refreshes sid j (delete_session sid s)
      ∙ load_session-delete_session sid j s

  -- A token that is left after a revocation was there before, and is of another session.
  left_after :
      (sid h : ℕ) {r : RefreshRecord} (s : Store)
      → IsSound s
      → load_refresh h (revoked sid s) ≡ some r
      → (load_refresh h s ≡ some r) × (r.session_id ≢ sid)
  left_after sid h s sound e = elim (Option-cases (load_refresh h s)) [
    | inl gone ↦ absurd (ground (arith, load_refresh-revoked sid h s sound))
    | inr (q, found) ↦ (
      ground (arith, load_refresh-revoked sid h s sound),
      ground (arith, load_refresh-revoked sid h s sound),
    )
  ]

  -- Revoking a session keeps the store valid.
  pub revoke-IsValid : (sid : ℕ) (s : Store) → IsValid s → IsValid (revoke M hash refresh_ttl sid s)
  unfolding revoke
  revoke-IsValid sid s v = record {
    sound = delete_refreshes-IsSound sid _ (delete_session-IsSound sid s v.sound);
    filed = λ h r e. v.filed h r (left_after sid h s v.sound e).0;
    single = λ h k r q e f.
        v.single h k r q (left_after sid h s v.sound e).0 (left_after sid k s v.sound f).0;
    owned = λ h r x e f.
        v.owned h r x (left_after sid h s v.sound e).0
          (ground (arith, load_session-revoked sid r.session_id s));
  }

  -- No token of the session can be rotated any more.
  abbrev HasNoToken : ℕ → Store → Type 0
  HasNoToken sid s =
      (h : ℕ) (r : RefreshRecord) → load_refresh h s ≡ some r → r.used ≡ false → r.session_id ≢ sid

  -- What a key holds after a token was saved: that token, or what it held before.
  saved_cases :
      (q : RefreshRecord) (h : ℕ) {r : RefreshRecord} (s : Store)
      → load_refresh h (save_refresh q s) ≡ some r
      → ((q.token_hash ≡ h) × (r ≡ q)) ⊎ ((q.token_hash ≢ h) × (load_refresh h s ≡ some r))
  saved_cases q h s e = elim (Bool-cases (q.token_hash == h)) [
    | inl same ↦ inl (ground arith, ground (arith, load_refresh-save_refresh q h s))
    | inr other ↦ inr (ground arith, ground (arith, load_refresh-save_refresh q h s))
  ]

  issue-IsValid :
      (token : ℕ) (x : SessionRecord) (s : Store)
      → IsValid s
      → HasNoToken x.session_id s
      → load_session x.session_id s ≡ some x
      → IsValid (save_refresh (issued M hash refresh_ttl token x) s)
  issue-IsValid token x s v spent alive =
      let q = issued M hash refresh_ttl token x in
      record {
        sound = save_refresh-IsSound q s v.sound;
        filed = λ h r e. elim (saved_cases q h s e) [
          | inl (same, new) ↦ ground arith
          | inr (_, old) ↦ v.filed h r old
        ];
        single = λ h k r p e f live live' shared. elim (saved_cases q h s e) [
          | inl (same, new) ↦ elim (saved_cases q k s f) [
            | inl (same', new') ↦ ground arith
            | inr (_, old') ↦ absurd (spent k p old' live' (ground arith))
          ]
          | inr (_, old) ↦ elim (saved_cases q k s f) [
            | inl (same', new') ↦ absurd (spent h r old live (ground arith))
            | inr (_, old') ↦ v.single h k r p old old' live live' shared
          ]
        ];
        owned = λ h r y e f.
            let f' = sym (load_session-save_refresh q r.session_id s) ∙ f in
            elim (saved_cases q h s e) [
              | inl (same, new) ↦ ground arith
              | inr (_, old) ↦ v.owned h r y old f'
            ];
      }

  mark_used-IsValid :
      (h : ℕ) (r : RefreshRecord) (s : Store)
      → IsValid s
      → load_refresh h s ≡ some r
      → IsValid (save_refresh (record r { used = true }) s)
        × (r.used ≡ false → HasNoToken r.session_id (save_refresh (record r { used = true }) s))
  mark_used-IsValid h r s v known =
      let q = record r { used = true } in
      (
        record {
          sound = save_refresh-IsSound q s v.sound;
          filed = λ k p e. elim (saved_cases q k s e) [
            | inl (same, new) ↦ ground arith
            | inr (_, old) ↦ v.filed k p old
          ];
          single = λ k l p o e f live live' shared. elim (saved_cases q k s e) [
            | inl (same, new) ↦ absurd (ground arith)
            | inr (_, old) ↦ elim (saved_cases q l s f) [
              | inl (same', new') ↦ absurd (ground arith)
              | inr (_, old') ↦ v.single k l p o old old' live live' shared
            ]
          ];
          owned = λ k p y e f.
              let f' = sym (load_session-save_refresh q p.session_id s) ∙ f in
              elim (saved_cases q k s e) [
                | inl (same, new) ↦ ground (arith, v.owned h r y known)
                | inr (_, old) ↦ v.owned k p y old f'
              ];
        },
        λ unused k p e live shared. elim (saved_cases q k s e) [
          | inl (same, new) ↦ ground arith
          | inr (other, old) ↦
              other (v.filed h r known ∙ v.single h k r p known old unused live (sym shared))
        ],
      )

  save_session-IsValid :
      (x : SessionRecord) (s : Store)
      → IsValid s
      → IsFreshSession x.session_id s
      → IsValid (save_session x s)
  save_session-IsValid x s v new =
      let back = λ (h : ℕ). sym (load_refresh-save_session x h s) in
      record {
        sound = save_session-IsSound x s v.sound;
        filed = λ h r e. v.filed h r (back h ∙ e);
        single = λ h k r p e f. v.single h k r p (back h ∙ e) (back k ∙ f);
        owned = λ h r y e f.
            v.owned h r y (back h ∙ e)
              (ground (arith, load_session-save_session x r.session_id s, new h r (back h ∙ e)));
      }

  -- Starting a session under an id that no token names keeps the store valid.
  pub start_session-IsValid :
      (now sid token user : ℕ) (s : Store)
      → IsValid s
      → IsFreshSession sid s
      → IsValid (start_session M hash refresh_ttl now sid token user s).0
  unfolding start_session
  start_session-IsValid now sid token user s v new =
      let x = new_session M hash refresh_ttl now sid user in
      issue-IsValid token x (save_session x s) (save_session-IsValid x s v new)
        (λ h r e _. new h r (sym (load_refresh-save_session x h s) ∙ e))
        (ground (arith, load_session-save_session x sid s))

  -- Rotating keeps the store valid, whatever the outcome: a session never gets a second live token.
  pub rotate-IsValid :
      (now fresh token : ℕ) (s : Store)
      → IsValid s
      → IsValid (rotate M hash refresh_ttl now fresh token s).0
  rotate-IsValid now fresh token s v = elim (rotate_cases M hash refresh_ttl now fresh token s) [
    | inl (r, x, can) ↦
        let (valid, spent) = mark_used-IsValid (hash token) r s v can.known in
        let q = record r { used = true } in
        let mine = v.owned (hash token) r x can.known can.alive in
        rw (rotate_accepts M hash refresh_ttl now fresh token r x s can) (
          issue-IsValid fresh x (save_refresh q s) valid (rw (mine.2) (spent can.unused)) (
            ap (λ i. load_session i (save_refresh q s)) mine.2
            ∙ load_session-save_refresh q r.session_id s
            ∙ can.alive))
    | inr (inl (r, known, live, used)) ↦
        rw (rotate_replay M hash refresh_ttl now fresh token r s known live used)
          (unfold revoke in revoke-IsValid r.session_id s v)
    | inr (inr same) ↦ rw same v
  ]
