-- ===== src/Resilience/Cache/Entries.antt =====
-- The ordered entries of the cache under each of its steps.
use mathlib.Core.Path.{subst}
use ai_cybersecurity_soc_ana.Common.{
  Bool-cases, Option-cases, [], arith, inl, inr, length, ltb, none, refl, ℕ, ◌++◌, ◌∷◌, ◌≡◌, ◌≤◌,
  length-append, some, sym, ◌+◌, false, true, ◌∙◌,
}
use ai_cybersecurity_soc_ana.Common.Dict.{
  Dict, HasDistinctKeys, erase, erase-HasDistinctKeys, insert, lookup, lookup-append, lookup-erase,
  lookup-insert, erase_absent,
}
use ai_cybersecurity_soc_ana.Resilience.Cache.{CacheEntry, evict, move_to_end}

module _ {ℓ} {V : Type ℓ} where
  pub erase-append : (k : ℕ) (d e : Dict V) → erase k (d ++ e) ≡ erase k d ++ erase k e
  unfolding erase
  erase-append k [] e = refl
  erase-append k ((j, w) ∷ d) e = ground (arith, erase-append k d e)

  erase-insert : (k : ℕ) (v : V) (d : Dict V) → erase k (insert k v d) ≡ erase k d
  unfolding erase insert
  erase-insert k v [] = ground arith
  erase-insert k v ((j, w) ∷ d) = ground (arith, erase-insert k v d)

  append_last-HasDistinctKeys :
      (k : ℕ) (v : V) (d : Dict V)
      → HasDistinctKeys d
      → lookup k d ≡ none
      → HasDistinctKeys (d ++ (k, v) ∷ [])
  append_last-HasDistinctKeys k v [] h e = (unfold lookup in refl, tt)
  append_last-HasDistinctKeys k v ((j, w) ∷ d) h e = (
    unfold lookup in ground (arith, lookup-append j d ((k, v) ∷ [])),
    append_last-HasDistinctKeys k v d h.1 (unfold lookup in ground arith),
  )

module _ {ℓ} {V : Type ℓ} where
  -- `d[k] = e` and `d.move_to_end(k)` together.
  pub move_to_end-insert :
      (k : ℕ) (e : CacheEntry V) (d : Dict (CacheEntry V))
      → move_to_end k (insert k e d) ≡ erase k d ++ (k, e) ∷ []
  unfolding move_to_end
  move_to_end-insert k e d = ground (arith, lookup-insert k k e d, erase-insert k e d)

  pub move_to_end_hit :
      (k : ℕ) (e : CacheEntry V) (d : Dict (CacheEntry V))
      → lookup k d ≡ some e
      → move_to_end k d ≡ erase k d ++ (k, e) ∷ []
  unfolding move_to_end
  move_to_end_hit k e d h = rw (h, move_to_end) refl

  move_to_end_miss : (k : ℕ) (d : Dict (CacheEntry V)) → lookup k d ≡ none → move_to_end k d ≡ d
  unfolding move_to_end
  move_to_end_miss k d h = rw (h, move_to_end) refl

  pub move_to_end-HasDistinctKeys :
      (k : ℕ) (d : Dict (CacheEntry V)) → HasDistinctKeys d → HasDistinctKeys (move_to_end k d)
  move_to_end-HasDistinctKeys k d h = elim (Option-cases (lookup k d)) [
    | inl e ↦ subst HasDistinctKeys (sym (move_to_end_miss k d e)) h
    | inr (x, e) ↦ subst HasDistinctKeys (sym (move_to_end_hit k x d e)) (
        append_last-HasDistinctKeys k x (erase k d) (erase-HasDistinctKeys k d h)
          (ground (arith, lookup-erase k k d)))
  ]

  pub lookup-move_to_end :
      (k j : ℕ) (d : Dict (CacheEntry V)) → lookup j (move_to_end k d) ≡ lookup j d
  lookup-move_to_end k j d = elim (Option-cases (lookup k d)) [
    | inl e ↦ rw (move_to_end_miss k d e) refl
    | inr (x, e) ↦
        rw (move_to_end_hit k x d e, lookup-append j (erase k d) ((k, x) ∷ []), lookup-erase k j d)
          (unfold lookup in ground arith)
  ]

  length-erase_hit :
      (k : ℕ) (e : CacheEntry V) (d : Dict (CacheEntry V))
      → HasDistinctKeys d
      → lookup k d ≡ some e
      → length (erase k d) + 1 ≡ length d
  unfolding erase lookup
  length-erase_hit k e [] h f = cc
  length-erase_hit k e ((j, w) ∷ d) h f =
      ground (arith, length-erase_hit k e d h.1, erase_absent k d)

  pub length-move_to_end :
      (k : ℕ) (d : Dict (CacheEntry V)) → HasDistinctKeys d → length (move_to_end k d) ≡ length d
  length-move_to_end k d h = elim (Option-cases (lookup k d)) [
    | inl e ↦ rw (move_to_end_miss k d e) refl
    | inr (x, e) ↦
        rw (move_to_end_hit k x d e)
          (omega (arith, length-append (erase k d) ((k, x) ∷ []), length-erase_hit k x d h e))
  ]

  pub length-evict-le : (limit : ℕ) (d : Dict (CacheEntry V)) → length (evict limit d) ≤ limit
  unfolding evict
  length-evict-le limit [] = omega arith
  length-evict-le limit (e ∷ d) = ground (arith, length-evict-le limit d)

  pub evict-HasDistinctKeys :
      (limit : ℕ) (d : Dict (CacheEntry V)) → HasDistinctKeys d → HasDistinctKeys (evict limit d)
  unfolding evict
  evict-HasDistinctKeys limit [] h = tt
  evict-HasDistinctKeys limit (e ∷ d) h = ground (arith, evict-HasDistinctKeys limit d h.1)

  pub evict_fitting : (limit : ℕ) (d : Dict (CacheEntry V)) → length d ≤ limit → evict limit d ≡ d
  unfolding evict
  evict_fitting limit [] h = refl
  evict_fitting limit (e ∷ d) h = ground arith

  evict_over :
      (limit : ℕ) (x : ℕ × CacheEntry V) (d : Dict (CacheEntry V))
      → ltb limit (length (x ∷ d)) ≡ true
      → evict limit (x ∷ d) ≡ evict limit d
  unfolding evict
  evict_over limit x d h = rw h refl

  evict_under :
      (limit : ℕ) (x : ℕ × CacheEntry V) (d : Dict (CacheEntry V))
      → ltb limit (length (x ∷ d)) ≡ false
      → evict limit (x ∷ d) ≡ x ∷ d
  unfolding evict
  evict_under limit x d h = rw h refl

  lookup_tail :
      (k : ℕ) (x : ℕ × CacheEntry V) (d : Dict (CacheEntry V))
      → lookup k (x ∷ d) ≡ none
      → lookup k d ≡ none
  unfolding lookup
  lookup_tail k x d h = ground arith

  -- What fits behind a point of the order survives the eviction, with the order kept.
  pub evict-append :
      (limit : ℕ) (front back : Dict (CacheEntry V))
      → length back ≤ limit
      → (front' : Dict (CacheEntry V)) × (evict limit (front ++ back) ≡ front' ++ back)
        × ((k : ℕ) → lookup k front ≡ none → lookup k front' ≡ none)
  evict-append limit [] back h = ([], evict_fitting limit back h, λ k e. e)
  evict-append limit (x ∷ front) back h =
      let (front', e, absent) = evict-append limit front back h in
      elim (Bool-cases (ltb limit (length (x ∷ (front ++ back))))) [
        | inl over ↦ (
          front',
          evict_over limit x (front ++ back) over ∙ e,
          λ k g. absent k (lookup_tail k x front g),
        )
        | inr under ↦ (x ∷ front, evict_under limit x (front ++ back) under, λ k g. g)
      ]
