-- ===== src/Sessions/Family.antt =====
-- Histories of calls: what any sequence keeps, and how a stolen token ends the whole session.
use ai_cybersecurity_soc_ana.Sessions.Rotation.{
  IsRotatable, replay_revokes, rotate_accepted, rotate_accepts,
}
use ai_cybersecurity_soc_ana.Sessions.Service.{issued, new_session, revoke, rotate, start_session}
use ai_cybersecurity_soc_ana.Common.{
  List, [], ap, arith, none, refl, true, ℕ, ◌+◌, ◌<◌, ◌∙◌, ◌∷◌, ◌≡◌, ◌≢◌,
}
use ai_cybersecurity_soc_ana.Common.Dict.{unless}
use ai_cybersecurity_soc_ana.Sessions.Records.{RefreshRecord, SessionRecord, belongs_to}
use ai_cybersecurity_soc_ana.Sessions.Store.{SessionStore}
use ai_cybersecurity_soc_ana.Sessions.Outcomes.{done, invalid_token, raised, refresh_reuse}
use ai_cybersecurity_soc_ana.Sessions.Invariant.{
  IsFreshSession, IsValid, revoke-IsValid, rotate-IsValid, start_session-IsValid,
}

pub data Call : Type 0 where
  start : (now sid token user : ℕ) → Call
  rotation : (now fresh token : ℕ) → Call
  logout : (sid : ℕ) → Call

module _ (M : SessionStore) (hash : ℕ → ℕ) (refresh_ttl : ℕ) where
  open M use {
    Store, load_session, load_refresh, save_session, save_refresh, load_refresh-save_refresh,
    load_session-save_refresh, load_session-save_session,
  }

  unfoldable pub perform : Call → Store → Store
  perform (start now sid token user) s = (start_session M hash refresh_ttl now sid token user s).0
  perform (rotation now fresh token) s = (rotate M hash refresh_ttl now fresh token s).0
  perform (logout sid) s = revoke M hash refresh_ttl sid s

  unfoldable pub perform_all : List Call → Store → Store
  perform_all [] s = s
  perform_all (c ∷ cs) s = perform_all cs (perform c s)

  -- A session is started under an id that no stored token names.
  abbrev pub IsFreshCall : Call → Store → Type 0
  IsFreshCall (start now sid token user) s = IsFreshSession M hash refresh_ttl sid s
  IsFreshCall _ s = Unit {0}

  abbrev pub IsFreshRun : List Call → Store → Type 0
  IsFreshRun [] s = Unit {0}
  IsFreshRun (c ∷ cs) s = IsFreshCall c s × IsFreshRun cs (perform c s)

  perform-IsValid :
      (c : Call) (s : Store)
      → IsValid M hash refresh_ttl s
      → IsFreshCall c s
      → IsValid M hash refresh_ttl (perform c s)
  unfolding perform
  perform-IsValid (start now sid token user) s v f =
      start_session-IsValid M hash refresh_ttl now sid token user s v f
  perform-IsValid (rotation now fresh token) s v f =
      rotate-IsValid M hash refresh_ttl now fresh token s v
  perform-IsValid (logout sid) s v f = revoke-IsValid M hash refresh_ttl sid s v

  -- After any calls on a valid store, in which new sessions get ids that no stored token names, the
  -- store is valid: in particular no session has two tokens that can still be rotated.
  pub perform_all-IsValid :
      (calls : List Call) (s : Store)
      → IsValid M hash refresh_ttl s
      → IsFreshRun calls s
      → IsValid M hash refresh_ttl (perform_all calls s)
  unfolding perform_all
  perform_all-IsValid [] s v f = v
  perform_all-IsValid (c ∷ cs) s v f =
      perform_all-IsValid cs (perform c s) (perform-IsValid c s v f.0) f.1

  -- A token that no record stands for is refused, and nothing is changed.
  rotate_unknown :
      (now fresh token : ℕ) (s : Store)
      → load_refresh (hash token) s ≡ none
      → rotate M hash refresh_ttl now fresh token s ≡ (s, raised invalid_token)
  unfolding rotate
  rotate_unknown now fresh token s e = ground arith

  -- The token that a session starts with can be rotated until the session expires.
  pub start_then_rotate :
      (now sid token user later fresh : ℕ) (s : Store)
      → later < now + refresh_ttl
      → let (s', x, t) = start_session M hash refresh_ttl now sid token user s in
        (rotate M hash refresh_ttl later fresh t s').1 ≡ done (x, fresh)
  unfolding start_session
  start_then_rotate now sid token user later fresh s h =
      let x = new_session M hash refresh_ttl now sid user in
      let q = issued M hash refresh_ttl token x in
      let s' = save_session x s in
      ap (λ o. o.1)
        (rotate_accepts M hash refresh_ttl later fresh token q x (save_refresh q s') (record {
          known = ground (arith, load_refresh-save_refresh q (hash token) s');
          unexpired = h;
          unused = refl;
          alive =
              ground (arith, load_session-save_refresh q sid s', load_session-save_session x sid s);
          session_unexpired = h;
        }))

  -- If a token was rotated and is presented again before it expires, the second call is refused as
  -- a replay, and from then on the token that the first call issued is refused too, at any time:
  -- whoever holds either of them is logged out.
  pub theft_ends_session :
      (now later fresh fresh' token : ℕ) (r : RefreshRecord) (x : SessionRecord) (s : Store)
      → IsValid M hash refresh_ttl s
      → IsRotatable M hash refresh_ttl now token r x s
      → hash fresh ≢ hash token
      → later < r.expires_at
      → let s₁ = (rotate M hash refresh_ttl now fresh token s).0 in
        let (s₂, outcome) = rotate M hash refresh_ttl later fresh' token s₁ in
        (outcome ≡ raised refresh_reuse)
        × (load_session r.session_id s₂ ≡ none)
        × ((t f : ℕ) → rotate M hash refresh_ttl t f fresh s₂ ≡ (s₂, raised invalid_token))
  theft_ends_session now later fresh fresh' token r x s v can ne live =
      let s₁ = (rotate M hash refresh_ttl now fresh token s).0 in
      let (_, old, new, _, _) =
        rotate_accepted M hash refresh_ttl now fresh token r x s can
          (v.filed (hash token) r can.known) ne in
      let valid = rotate-IsValid M hash refresh_ttl now fresh token s v in
      let (refused, gone, left, _) =
        replay_revokes M hash refresh_ttl later fresh' token (record r { used = true }) s₁
          valid.sound old live refl in
      let mine = v.owned (hash token) r x can.known can.alive in
      (
        refused,
        gone,
        λ t f.
            rotate_unknown t f fresh _ (
              left (hash fresh) ∙ ap (unless (belongs_to r.session_id)) new ∙ ground (arith, mine)),
      )
