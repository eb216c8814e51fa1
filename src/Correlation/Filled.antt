-- ===== src/Correlation/Filled.antt =====
-- That the buckets of `correlate_events` hold every event under every identifier that it carries.
use ai_cybersecurity_soc_ana.Correlation.Carried.{Carries, HasEntity}
use ai_cybersecurity_soc_ana.Correlation.Buckets.{
  BucketKey, Buckets, add_entities, add_event, add_named, add_to, entity_rank, fill, same_key,
}
use ai_cybersecurity_soc_ana.Common.{
  Bool-cases, In, In-append_left, In-append_right, List, [], arith, if◌then◌else◌, inl, inr, refl,
  sym, true, ◌==◌, ◌∷◌, ◌≡◌, ◌≢◌,
}
use ai_cybersecurity_soc_ana.Common.Text.{Text, eq_text_refl, lower}
use ai_cybersecurity_soc_ana.Correlation.Events.{
  CorrelationKind, Entity, EntityType, NormalizedEvent, shared_actor, shared_address, shared_host,
  shared_process,
}

unfoldable pub bucket_of : BucketKey → Buckets → List NormalizedEvent
bucket_of k [] = []
bucket_of k ((l, es) ∷ buckets) = if same_key l k then es else bucket_of k buckets

same_key_refl : (k : BucketKey) → same_key k k ≡ true
same_key_refl (shared_host, s) = eq_text_refl s
same_key_refl (shared_actor, s) = eq_text_refl s
same_key_refl (shared_address, s) = eq_text_refl s
same_key_refl (shared_process, s) = eq_text_refl s

add_to-adds :
    (k : BucketKey) (e : NormalizedEvent) (buckets : Buckets)
    → In e (bucket_of k (add_to k e buckets))
unfolding bucket_of add_to
add_to-adds k e [] = rw (same_key_refl k) (inl refl)
add_to-adds k e ((l, es) ∷ buckets) = elim (Bool-cases (same_key l k)) [
  | inl same ↦ rw same (rw same (In-append_right e es (e ∷ []) (inl refl)))
  | inr other ↦ rw other (rw other (add_to-adds k e buckets))
]

add_to-keeps :
    (k l : BucketKey) (e f : NormalizedEvent) (buckets : Buckets)
    → In e (bucket_of k buckets)
    → In e (bucket_of k (add_to l f buckets))
unfolding bucket_of add_to
add_to-keeps k l e f [] h = absurd h
add_to-keeps k l e f ((m, es) ∷ buckets) h = elim (Bool-cases (same_key m l)) [
  | inl here ↦ rw here (elim (Bool-cases (same_key m k)) [
    | inl same ↦ rw same (In-append_left e es (f ∷ []) (rw same at h))
    | inr other ↦ rw other (rw other at h)
  ])
  | inr there ↦ rw there (elim (Bool-cases (same_key m k)) [
    | inl same ↦ rw same (rw same at h)
    | inr other ↦ rw other (add_to-keeps k l e f buckets (rw other at h))
  ])
]

add_named-keeps :
    (k : BucketKey) (kind : CorrelationKind) (name : Text) (e f : NormalizedEvent)
    (buckets : Buckets)
    → In e (bucket_of k buckets)
    → In e (bucket_of k (add_named kind name f buckets))
unfolding add_named
add_named-keeps k kind [] e f buckets h = h
add_named-keeps k kind (c ∷ s) e f buckets h = add_to-keeps k (kind, lower (c ∷ s)) e f buckets h

add_named-adds :
    (kind : CorrelationKind) (name : Text) (e : NormalizedEvent) (buckets : Buckets)
    → name ≢ []
    → In e (bucket_of (kind, lower name) (add_named kind name e buckets))
unfolding add_named
add_named-adds kind [] e buckets h = absurd (h refl)
add_named-adds kind (c ∷ s) e buckets h = add_to-adds (kind, lower (c ∷ s)) e buckets

add_entities-keeps :
    (k : BucketKey) (kind : CorrelationKind) (type : EntityType) (entities : List Entity)
    (e f : NormalizedEvent) (buckets : Buckets)
    → In e (bucket_of k buckets)
    → In e (bucket_of k (add_entities kind type entities f buckets))
unfolding add_entities
add_entities-keeps k kind type [] e f buckets h = h
add_entities-keeps k kind type (n ∷ entities) e f buckets h =
    add_entities-keeps k kind type entities e f
      (if entity_rank n.type == entity_rank type
        then add_to (kind, lower n.value) f buckets
        else buckets)
      (elim (Bool-cases (entity_rank n.type == entity_rank type)) [
        | inl same ↦ rw same (add_to-keeps k (kind, lower n.value) e f buckets h)
        | inr other ↦ rw other h
      ])

add_entities-adds :
    (s : Text) (kind : CorrelationKind) (type : EntityType) (entities : List Entity)
    (e : NormalizedEvent) (buckets : Buckets)
    → HasEntity type s entities
    → In e (bucket_of (kind, s) (add_entities kind type entities e buckets))
unfolding add_entities
add_entities-adds s kind type [] e buckets h = absurd h
add_entities-adds s kind type (n ∷ entities) e buckets (inl (same, value)) =
    let test : (entity_rank n.type == entity_rank type) ≡ true = ground (arith, same) in
    rw test (
      add_entities-keeps (kind, s) kind type entities e e (add_to (kind, lower n.value) e buckets)
        (rw (sym value) (add_to-adds (kind, lower n.value) e buckets)))
add_entities-adds s kind type (n ∷ entities) e buckets (inr h) =
    add_entities-adds s kind type entities e
      (if entity_rank n.type == entity_rank type
        then add_to (kind, lower n.value) e buckets
        else buckets)
      h

add_event-keeps :
    (k : BucketKey) (e f : NormalizedEvent) (buckets : Buckets)
    → In e (bucket_of k buckets)
    → In e (bucket_of k (add_event f buckets))
unfolding add_event
add_event-keeps k e f buckets h =
    add_entities-keeps k shared_process EntityType.process f.entities e f _ (
      add_entities-keeps k shared_address EntityType.ip_address f.entities e f _ (
        add_named-keeps k shared_actor f.actor e f _
          (add_named-keeps k shared_host f.host e f buckets h)))

add_event-adds :
    (k : BucketKey) (e : NormalizedEvent) (buckets : Buckets)
    → Carries k e
    → In e (bucket_of k (add_event e buckets))
unfolding add_event
add_event-adds (shared_host, s) e buckets (named, same) =
    add_entities-keeps (shared_host, s) shared_process EntityType.process e.entities e e _
      (add_entities-keeps (shared_host, s) shared_address EntityType.ip_address e.entities e e _
        (add_named-keeps (shared_host, s) shared_actor e.actor e e _
          (rw (sym same) (add_named-adds shared_host e.host e buckets named))))
add_event-adds (shared_actor, s) e buckets (named, same) =
    add_entities-keeps (shared_actor, s) shared_process EntityType.process e.entities e e _
      (add_entities-keeps (shared_actor, s) shared_address EntityType.ip_address e.entities e e _
        (rw (sym same) (add_named-adds shared_actor e.actor e _ named)))
add_event-adds (shared_address, s) e buckets has =
    add_entities-keeps (shared_address, s) shared_process EntityType.process e.entities e e _
      (add_entities-adds s shared_address EntityType.ip_address e.entities e _ has)
add_event-adds (shared_process, s) e buckets has =
    add_entities-adds s shared_process EntityType.process e.entities e _ has

fill-keeps :
    (k : BucketKey) (e : NormalizedEvent) (events : List NormalizedEvent) (buckets : Buckets)
    → In e (bucket_of k buckets)
    → In e (bucket_of k (fill events buckets))
unfolding fill
fill-keeps k e [] buckets h = h
fill-keeps k e (f ∷ events) buckets h =
    fill-keeps k e events (add_event f buckets) (add_event-keeps k e f buckets h)

-- Every event stands in the bucket of every identifier that it carries.
pub fill-adds :
    (k : BucketKey) (e : NormalizedEvent) (events : List NormalizedEvent) (buckets : Buckets)
    → Carries k e
    → In e events
    → In e (bucket_of k (fill events buckets))
unfolding fill
fill-adds k e [] buckets h i = absurd i
fill-adds k e (f ∷ events) buckets h (inl same) =
    fill-keeps k e events (add_event f buckets) (rw same (add_event-adds k e buckets h))
fill-adds k e (f ∷ events) buckets h (inr i) = fill-adds k e events (add_event f buckets) h i
