-- ===== src/Resilience/Cache/Laws.antt =====
-- The invariant of the cache, and what a read finds after a write.
use mathlib.Core.Path.{subst}
use ai_cybersecurity_soc_ana.Common.{
  Bool-cases, Option-cases, [], ap, arith, if◌then◌else◌, inl, inr, leb, length, none, some, sym, ℕ,
  ◌++◌, ◌+◌, ◌<◌, ◌∙◌, ◌∷◌, ◌≡◌, ◌≤◌, ◌⊎◌,
}
use ai_cybersecurity_soc_ana.Common.Dict.{
  Dict, HasDistinctKeys, erase, insert-HasDistinctKeys, lookup, lookup-append, lookup-erase,
}
use ai_cybersecurity_soc_ana.Resilience.Cache.{
  CacheEntry, TtlCache, evict, get, get_stale, move_to_end, set,
}
use ai_cybersecurity_soc_ana.Resilience.Cache.Entries.{
  evict-HasDistinctKeys, evict-append, length-evict-le, length-move_to_end, lookup-move_to_end,
  move_to_end-HasDistinctKeys, move_to_end-insert,
}

pub record IsValid {ℓ} {V : Type ℓ} (c : TtlCache V) : Type ℓ where
  pub distinct : HasDistinctKeys c.entries
  pub bounded : length c.entries ≤ c.max_entries

module _ {ℓ} {V : Type ℓ} where
  abbrev pub entry_at : ℕ → V → TtlCache V → CacheEntry V
  entry_at now v c = record { value = v; expires_at = now + c.ttl }

  pub entries-set :
      (now k : ℕ) (v : V) (c : TtlCache V)
      → 0 < c.ttl
      → (set now k v c).entries
        ≡ evict c.max_entries (erase k c.entries ++ (k, entry_at now v c) ∷ [])
  unfolding set
  entries-set now k v c h = ground (arith, move_to_end-insert k (entry_at now v c) c.entries)

  pub set_disabled : (now k : ℕ) (v : V) (c : TtlCache V) → c.ttl ≡ 0 → set now k v c ≡ c
  unfolding set
  set_disabled now k v c h = ground arith

  pub set-max_entries :
      (now k : ℕ) (v : V) (c : TtlCache V)
      → ((set now k v c).max_entries ≡ c.max_entries) × ((set now k v c).ttl ≡ c.ttl)
  unfolding set
  set-max_entries now k v c = ground arith

  pub get_hit :
      (now k : ℕ) {v : V} (c : TtlCache V)
      → (get now k c).1 ≡ some v
      → (e : CacheEntry V) × (lookup k c.entries ≡ some e)
        × (e.value ≡ v)
        × ((get now k c).0 ≡ record c { entries = move_to_end k c.entries })
  unfolding get
  get_hit now k c h = elim (Option-cases (lookup k c.entries)) [
    | inl e ↦ absurd (ground arith)
    | inr (x, e) ↦ (x, e, ground arith, ground arith)
  ]

  get_cases :
      (now k : ℕ) (c : TtlCache V)
      → ((get now k c).0 ≡ c) ⊎ ((get now k c).0 ≡ record c { entries = move_to_end k c.entries })
  unfolding get
  get_cases now k c = elim (Option-cases (lookup k c.entries)) [
    | inl e ↦ inl (ground arith)
    | inr (x, e) ↦ elim (Bool-cases (leb x.expires_at now)) [
      | inl late ↦ inl (ground arith)
      | inr live ↦ inr (ground arith)
    ]
  ]

  -- Writing a key keeps every key unique and the number of entries within the bound.
  set-IsValid : (now k : ℕ) (v : V) (c : TtlCache V) → IsValid c → IsValid (set now k v c)
  set-IsValid now k v c h = elim (Bool-cases (leb c.ttl 0)) [
    | inl off ↦ subst IsValid (sym (set_disabled now k v c (ground arith))) h
    | inr on ↦
        let shape = entries-set now k v c (ground arith) in
        let same = (set-max_entries now k v c).0 in
        record {
          distinct =
              subst HasDistinctKeys
                (sym (shape ∙ ap (evict c.max_entries) (sym (move_to_end-insert k _ c.entries))))
                (evict-HasDistinctKeys c.max_entries _ (
                  move_to_end-HasDistinctKeys k _
                    (insert-HasDistinctKeys k _ c.entries h.distinct)));
          bounded = rw (shape, same) (length-evict-le c.max_entries _);
        }
  ]

  -- Reading a key keeps every key unique and the number of entries within the bound.
  pub get-IsValid : (now k : ℕ) (c : TtlCache V) → IsValid c → IsValid (get now k c).0
  get-IsValid now k c h = elim (get_cases now k c) [
    | inl same ↦ subst IsValid (sym same) h
    | inr moved ↦ subst IsValid (sym moved) (record {
      distinct = move_to_end-HasDistinctKeys k c.entries h.distinct;
      bounded = omega (arith, length-move_to_end k c.entries h.distinct, h.bounded);
    })
  ]

  lookup_last :
      (k : ℕ) (e : CacheEntry V) (d : Dict (CacheEntry V))
      → lookup k d ≡ none
      → lookup k (d ++ (k, e) ∷ []) ≡ some e
  lookup_last k e d h = rw (lookup-append k d ((k, e) ∷ []), h) (unfold lookup in ground arith)

  pub lookup-set_self :
      (now k : ℕ) (v : V) (c : TtlCache V)
      → 0 < c.ttl
      → 0 < c.max_entries
      → lookup k (set now k v c).entries ≡ some (entry_at now v c)
  lookup-set_self now k v c h p =
      let e = entry_at now v c in
      let (front, kept, absent) = evict-append c.max_entries (erase k c.entries) ((k, e) ∷ []) p in
      rw (entries-set now k v c h, kept)
        (lookup_last k e front (absent k (ground (arith, lookup-erase k k c.entries))))

  -- A value that was written is read back until its time to live has passed and not from then on,
  -- while the stale read still finds it.
  pub get-set_self :
      (now later k : ℕ) (v : V) (c : TtlCache V)
      → 0 < c.ttl
      → 0 < c.max_entries
      → ((get later k (set now k v c)).1 ≡ (if leb (now + c.ttl) later then none else some v))
        × (get_stale k (set now k v c) ≡ some v)
  unfolding get get_stale
  get-set_self now later k v c h p =
      let found = lookup-set_self now k v c h p in (ground arith, ground arith)

  -- A read changes no entry, so whatever is found afterwards was found before.
  pub get_stale-get : (now k j : ℕ) (c : TtlCache V) → get_stale j (get now k c).0 ≡ get_stale j c
  unfolding get_stale
  get_stale-get now k j c = elim (get_cases now k c) [
    | inl same ↦ ground arith
    | inr moved ↦ ground (arith, lookup-move_to_end k j c.entries)
  ]
