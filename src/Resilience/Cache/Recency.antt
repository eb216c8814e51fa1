-- ===== src/Resilience/Cache/Recency.antt =====
-- The eviction order: what was used lately outlives the writes of fewer other keys than fit.
use ai_cybersecurity_soc_ana.Resilience.Cache.Laws.{
  entries-set, entry_at, get_hit, set-max_entries, set_disabled,
}
use ai_cybersecurity_soc_ana.Resilience.Cache.Entries.{erase-append, evict-append, move_to_end_hit}
use mathlib.Core.List.{append_assoc}
use ai_cybersecurity_soc_ana.Common.{
  List, [], arith, length, none, some, suc, ℕ, ◌++◌, ◌<◌, ◌∷◌, ◌≡◌, ◌≢◌, ◌≤◌, All, Bool-cases, ap,
  inl, inr, leb, length-append, ◌+◌, ◌∙◌,
}
use ai_cybersecurity_soc_ana.Common.Dict.{
  Dict, erase, lookup, lookup-append, length-erase-le, lookup-erase,
}
use ai_cybersecurity_soc_ana.Resilience.Cache.{
  CacheEntry, TtlCache, evict, get, get_stale, move_to_end, set,
}

module _ {ℓ} {V : Type ℓ} where
  -- The entry `e` of the key `k` has at most `n` entries behind it in the order of use.
  record IsRecent (k : ℕ) (e : CacheEntry V) (n : ℕ) (d : Dict (CacheEntry V)) : Type ℓ where
    front : Dict (CacheEntry V)
    back : Dict (CacheEntry V)
    shape : d ≡ front ++ (k, e) ∷ back
    fresh : lookup k front ≡ none
    near : length back ≤ n

  lookup_recent :
      (k : ℕ) (e : CacheEntry V) (n : ℕ) (d : Dict (CacheEntry V))
      → IsRecent k e n d
      → lookup k d ≡ some e
  lookup_recent k e n d r =
      rw (r.shape, lookup-append k r.front ((k, e) ∷ r.back), r.fresh)
        (unfold lookup in ground arith)

  erase_ne :
      (j k : ℕ) (e : CacheEntry V) (d : Dict (CacheEntry V))
      → j ≢ k
      → erase j ((k, e) ∷ d) ≡ (k, e) ∷ erase j d
  unfolding erase
  erase_ne j k e d h = ground arith

  erase_split :
      (j k : ℕ) (e : CacheEntry V) (front back : Dict (CacheEntry V)) (last : ℕ × CacheEntry V)
      → j ≢ k
      → erase j (front ++ (k, e) ∷ back) ++ last ∷ []
        ≡ erase j front ++ (k, e) ∷ (erase j back ++ last ∷ [])
  erase_split j k e front back last ne =
      rw (erase-append j front ((k, e) ∷ back), erase_ne j k e back ne)
        (append_assoc (erase j front) ((k, e) ∷ erase j back) (last ∷ []))

  -- A write of another key puts one entry more behind.
  set-IsRecent :
      (now j : ℕ) (v : V) (k : ℕ) (e : CacheEntry V) (n : ℕ) (c : TtlCache V)
      → j ≢ k
      → suc n < c.max_entries
      → IsRecent k e n c.entries
      → IsRecent k e (suc n) (set now j v c).entries
  set-IsRecent now j v k e n c ne room r = elim (Bool-cases (leb c.ttl 0)) [
    | inl off ↦ rw (set_disabled now j v c (ground arith)) (record {
      front = r.front;
      back = r.back;
      shape = r.shape;
      fresh = r.fresh;
      near = omega arith;
    })
    | inr on ↦
        let last : ℕ × CacheEntry V = (j, entry_at now v c) in
        let back' = erase j r.back ++ last ∷ [] in
        let small : length back' ≤ suc n =
          omega
            (arith, length-append (erase j r.back) (last ∷ []), length-erase-le j r.back, r.near) in
        let (front', kept, absent) =
          evict-append c.max_entries (erase j r.front) ((k, e) ∷ back') (omega arith) in
        record {
          front = front';
          back = back';
          shape =
              entries-set now j v c (ground arith)
              ∙ ap (λ d. evict c.max_entries (erase j d ++ last ∷ [])) r.shape
              ∙ ap (evict c.max_entries) (erase_split j k e r.front r.back last ne)
              ∙ kept;
          fresh = absent k (ground (arith, lookup-erase j k r.front, r.fresh));
          near = small;
        }
  ]

  -- Writes, each with its time, key and value.
  unfoldable pub set_all : List (ℕ × ℕ × V) → TtlCache V → TtlCache V
  set_all [] c = c
  set_all ((now, j, v) ∷ rest) c = set_all rest (set now j v c)

  set_all_keeps :
      (writes : List (ℕ × ℕ × V)) (k : ℕ) (e : CacheEntry V) (n : ℕ) (c : TtlCache V)
      → All (λ w. w.1 ≢ k) writes
      → n + length writes < c.max_entries
      → IsRecent k e n c.entries
      → lookup k (set_all writes c).entries ≡ some e
  unfolding set_all
  set_all_keeps [] k e n c ne room r = lookup_recent k e n c.entries r
  set_all_keeps ((now, j, v) ∷ rest) k e n c ne room r =
      set_all_keeps rest k e (suc n) (set now j v c) ne.1
        (rw ((set-max_entries now j v c).0) (omega arith))
        (set-IsRecent now j v k e n c ne.0 (omega arith) r)

  -- A value that was just read is still there, for the stale read, after any writes of other keys,
  -- as long as there are fewer of them than entries fit.
  pub read_outlives_writes :
      (now k : ℕ) {v : V} (c : TtlCache V) (writes : List (ℕ × ℕ × V))
      → (get now k c).1 ≡ some v
      → All (λ w. w.1 ≢ k) writes
      → length writes < c.max_entries
      → get_stale k (set_all writes (get now k c).0) ≡ some v
  unfolding get_stale
  read_outlives_writes now k c writes hit ne room =
      let (e, found, same, moved) = get_hit now k c hit in
      let recent : IsRecent k e 0 (move_to_end k c.entries) = record {
        front = erase k c.entries;
        back = [];
        shape = move_to_end_hit k e c.entries found;
        fresh = ground (arith, lookup-erase k k c.entries);
        near = omega arith;
      } in
      let still : lookup k (set_all writes (get now k c).0).entries ≡ some e = rw moved (
        set_all_keeps writes k e 0 (record c { entries = move_to_end k c.entries }) ne (omega arith)
          recent) in
      ground arith
