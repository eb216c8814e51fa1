-- ===== src/Correlation/Carried.antt =====
-- What it is to carry the key of a bucket, and that the buckets are filled so.
use ai_cybersecurity_soc_ana.Common.{
  All, Bool-cases, List, [], ap, arith, if◌then◌else◌, inl, inr, refl, true, ◌++◌, ◌==◌, ◌∷◌, ◌≡◌,
  ◌≢◌, ◌⊎◌,
}
use ai_cybersecurity_soc_ana.Common.Text.{Text, eq_text→eq, lower}
use ai_cybersecurity_soc_ana.Correlation.Events.{
  CorrelationKind, Entity, EntityType, NormalizedEvent, shared_actor, shared_address, shared_host,
  shared_process,
}
use ai_cybersecurity_soc_ana.Correlation.Buckets.{
  BucketKey, Buckets, add_entities, add_named, add_to, entity_rank, same_key,
}

abbrev pub HasEntity : EntityType → Text → List Entity → Type 0
HasEntity type s [] = ⊥
HasEntity type s (n ∷ entities) =
    ((entity_rank n.type ≡ entity_rank type) × (lower n.value ≡ s)) ⊎ HasEntity type s entities

-- The event has the identifier, compared without case.
abbrev pub Carries : BucketKey → NormalizedEvent → Type 0
Carries (shared_host, s) e = (e.host ≢ []) × (lower e.host ≡ s)
Carries (shared_actor, s) e = (e.actor ≢ []) × (lower e.actor ≡ s)
Carries (shared_address, s) e = HasEntity EntityType.ip_address s e.entities
Carries (shared_process, s) e = HasEntity EntityType.process s e.entities

pub same_key-eq : (k l : BucketKey) → same_key k l ≡ true → k ≡ l
same_key-eq (shared_host, s) (shared_host, t) h = ap (λ u. (shared_host, u)) (eq_text→eq s t h)
same_key-eq (shared_actor, s) (shared_actor, t) h = ap (λ u. (shared_actor, u)) (eq_text→eq s t h)
same_key-eq (shared_address, s) (shared_address, t) h =
    ap (λ u. (shared_address, u)) (eq_text→eq s t h)
same_key-eq (shared_process, s) (shared_process, t) h =
    ap (λ u. (shared_process, u)) (eq_text→eq s t h)
same_key-eq (shared_host, s) (shared_actor, t) h = absurd (cc)
same_key-eq (shared_host, s) (shared_address, t) h = absurd (cc)
same_key-eq (shared_host, s) (shared_process, t) h = absurd (cc)
same_key-eq (shared_actor, s) (shared_host, t) h = absurd (cc)
same_key-eq (shared_actor, s) (shared_address, t) h = absurd (cc)
same_key-eq (shared_actor, s) (shared_process, t) h = absurd (cc)
same_key-eq (shared_address, s) (shared_host, t) h = absurd (cc)
same_key-eq (shared_address, s) (shared_actor, t) h = absurd (cc)
same_key-eq (shared_address, s) (shared_process, t) h = absurd (cc)
same_key-eq (shared_process, s) (shared_host, t) h = absurd (cc)
same_key-eq (shared_process, s) (shared_actor, t) h = absurd (cc)
same_key-eq (shared_process, s) (shared_address, t) h = absurd (cc)

-- What holds of every event of every bucket.
module _ (P : BucketKey → NormalizedEvent → Type 0) where
  abbrev pub AreSound : Buckets → Type 0
  AreSound [] = Unit
  AreSound ((k, es) ∷ buckets) = All (P k) es × AreSound buckets

  snoc-All :
      (k : BucketKey) (es : List NormalizedEvent) (e : NormalizedEvent)
      → All (P k) es
      → P k e
      → All (P k) (es ++ e ∷ [])
  snoc-All k [] e h p = (p, tt)
  snoc-All k (f ∷ es) e h p = (h.0, snoc-All k es e h.1 p)

  pub add_to-AreSound :
      (k : BucketKey) (e : NormalizedEvent) (buckets : Buckets)
      → P k e
      → AreSound buckets
      → AreSound (add_to k e buckets)
  unfolding add_to
  add_to-AreSound k e [] p h = ((p, tt), tt)
  add_to-AreSound k e ((l, es) ∷ buckets) p h = elim (Bool-cases (same_key l k)) [
    | inl same ↦ rw same (snoc-All l es e h.0 (rw (same_key-eq l k same) p), h.1)
    | inr other ↦ rw other (h.0, add_to-AreSound k e buckets p h.1)
  ]

  pub add_named-AreSound :
      (kind : CorrelationKind) (name : Text) (e : NormalizedEvent) (buckets : Buckets)
      → (name ≢ [] → P (kind, lower name) e)
      → AreSound buckets
      → AreSound (add_named kind name e buckets)
  unfolding add_named
  add_named-AreSound kind [] e buckets p h = h
  add_named-AreSound kind (c ∷ s) e buckets p h =
      add_to-AreSound (kind, lower (c ∷ s)) e buckets (p (λ n. cc)) h

  pub add_entities-AreSound :
      (kind : CorrelationKind) (type : EntityType) (entities : List Entity) (e : NormalizedEvent)
      (buckets : Buckets)
      → ((s : Text) → HasEntity type s entities → P (kind, s) e)
      → AreSound buckets
      → AreSound (add_entities kind type entities e buckets)
  unfolding add_entities
  add_entities-AreSound kind type [] e buckets p h = h
  add_entities-AreSound kind type (n ∷ entities) e buckets p h =
      add_entities-AreSound kind type entities e
        (if entity_rank n.type == entity_rank type
          then add_to (kind, lower n.value) e buckets
          else buckets)
        (λ s has. p s (inr has))
        (elim (Bool-cases (entity_rank n.type == entity_rank type)) [
          | inl same ↦ rw same (
              add_to-AreSound (kind, lower n.value) e buckets
                (p (lower n.value) (inl (ground (arith, same), refl))) h)
          | inr other ↦ rw other h
        ])
