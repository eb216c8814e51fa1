-- ===== src/Memory/Eviction.antt =====
-- What `_enforce_budget` of memory/working.py leaves.
use ai_cybersecurity_soc_ana.Common.{
  Bool, Bool-cases, List, [], ap, arith, false, inl, inr, length, length-append, ltb, refl, true, ℕ,
  ◌&&◌, ◌++◌, ◌+◌, ◌<◌, ◌∙◌, ◌∷◌, ◌≡◌, ◌≤◌, ◌⊎◌,
}
use ai_cybersecurity_soc_ana.Memory.Working.{
  MemoryEntry, WorkingMemory, enforce_budget, entry_tokens, evict_while, note_evicted, over_budget,
  over_cap, summary_tokens, write,
}
use ai_cybersecurity_soc_ana.Common.Text.{Text}
use ai_cybersecurity_soc_ana.Common.Dict.{Dict, insert}
use mathlib.Core.List.{append_assoc}

evict_while-splits :
    (test : Dict MemoryEntry → Bool) (es : Dict MemoryEntry)
    → let (evicted, left) = evict_while test es in
      (evicted ++ left ≡ es) × ((left ≡ []) ⊎ (test left ≡ false))
unfolding evict_while
evict_while-splits test [] = (refl, inl refl)
evict_while-splits test (e ∷ es) =
    let (splits, stops) = evict_while-splits test es in
    elim (Bool-cases (test (e ∷ es))) [
      | inl goes_on ↦ rw goes_on (ap (λ l. e ∷ l) splits, stops)
      | inr ends ↦ rw ends (refl, inr ends)
    ]

evict_while-shorter :
    (test : Dict MemoryEntry → Bool) (es : Dict MemoryEntry)
    → length (evict_while test es).1 ≤ length es
evict_while-shorter test es =
    let (evicted, left) = evict_while test es in
    let total = ap length (evict_while-splits test es).0 in
    omega (arith, total, length-append evicted left)

evict_while-cap : (n : ℕ) (es : Dict MemoryEntry) → length (evict_while (over_cap n) es).1 ≤ n
evict_while-cap n es = elim ((evict_while-splits (over_cap n) es).1) [
  | inl none_left ↦ rw none_left (omega arith)
  | inr fits ↦ ground (arith, fits)
]

-- The entries are too many, or their tokens are too many and they are not the only one left.
abbrev pub IsOver : WorkingMemory → Dict MemoryEntry → Type 0
IsOver m es =
    (m.max_entries < length es)
    ⊎ ((m.token_budget < entry_tokens es + summary_tokens m.summaries) × (1 < length es))

-- Each evicted entry, with all that came after it, was over a limit.
abbrev pub HadToGo : WorkingMemory → Dict MemoryEntry → Dict MemoryEntry → Type 0
HadToGo m [] left = Unit
HadToGo m (e ∷ evicted) left = IsOver m ((e ∷ evicted) ++ left) × HadToGo m evicted left

evict_while-HadToGo :
    (m : WorkingMemory) (test : Dict MemoryEntry → Bool)
    → ((es : Dict MemoryEntry) → test es ≡ true → IsOver m es)
    → (es : Dict MemoryEntry) → let (evicted, left) = evict_while test es in HadToGo m evicted left
unfolding evict_while
evict_while-HadToGo m test sound [] = tt
evict_while-HadToGo m test sound (e ∷ es) =
    let rest = evict_while-HadToGo m test sound es in
    let same = (evict_while-splits test es).0 in
    elim (Bool-cases (test (e ∷ es))) [
      | inl goes_on ↦ rw goes_on (rw same (sound (e ∷ es) goes_on), rest)
      | inr ends ↦ rw ends tt
    ]

HadToGo-append :
    (m : WorkingMemory) (a b left : Dict MemoryEntry)
    → HadToGo m a (b ++ left)
    → HadToGo m b left
    → HadToGo m (a ++ b) left
HadToGo-append m [] b left h k = k
HadToGo-append m (e ∷ a) b left h k =
    (rw (append_assoc a b left) h.0, HadToGo-append m a b left h.1 k)

over_cap-IsOver :
    (m : WorkingMemory) (es : Dict MemoryEntry) → over_cap m.max_entries es ≡ true → IsOver m es
over_cap-IsOver m es e = inl (ground (arith, e))

both-hold : (n tokens size : ℕ) → (ltb n tokens && ltb 1 size) ≡ true → (n < tokens) × (1 < size)
both-hold n tokens size e = ground (arith, e)

over_budget-IsOver :
    (m : WorkingMemory) (es : Dict MemoryEntry)
    → over_budget m.token_budget m.summaries es ≡ true
    → IsOver m es
over_budget-IsOver m es e =
    inr (both-hold m.token_budget (entry_tokens es + summary_tokens m.summaries) (length es) e)

stops-within :
    (n tokens size : ℕ) → (ltb n tokens && ltb 1 size) ≡ false → (tokens ≤ n) ⊎ (size ≤ 1)
stops-within n tokens size e = ground (arith, e)

evict_while-budget :
    (n : ℕ) (summaries : List Text) (es : Dict MemoryEntry)
    → let left = (evict_while (over_budget n summaries) es).1 in
      (entry_tokens left + summary_tokens summaries ≤ n) ⊎ (length left ≤ 1)
evict_while-budget n summaries es = elim ((evict_while-splits (over_budget n summaries) es).1) [
  | inl none_left ↦ inr (rw none_left (omega arith))
  | inr fits ↦
      let left = (evict_while (over_budget n summaries) es).1 in
      stops-within n (entry_tokens left + summary_tokens summaries) (length left) fits
]

-- A memory after the limits were enforced, against the entries before and the evicted ones.
abbrev pub IsWithin : WorkingMemory → Dict MemoryEntry → Dict MemoryEntry → WorkingMemory → Type 0
IsWithin m before evicted m' =
    (evicted ++ m'.entries ≡ before)
    × (length m'.entries ≤ m.max_entries)
    × ((entry_tokens m'.entries + summary_tokens m.summaries ≤ m.token_budget)
        ⊎ (length m'.entries ≤ 1))
    × HadToGo m evicted m'.entries
    × (m'.stats.evictions ≡ m.stats.evictions + length evicted)

module _ (summarize : List MemoryEntry → Text) where
  note_evicted-entries :
      (es : Dict MemoryEntry) (m : WorkingMemory)
      → (note_evicted summarize es m).entries ≡ m.entries
  unfolding note_evicted
  note_evicted-entries [] m = refl
  note_evicted-entries (e ∷ es) m = refl

  note_evicted-evictions :
      (es : Dict MemoryEntry) (m : WorkingMemory)
      → (note_evicted summarize es m).stats.evictions ≡ m.stats.evictions + length es
  unfolding note_evicted
  note_evicted-evictions [] m = omega arith
  note_evicted-evictions (e ∷ es) m = refl

  enforce_budget-IsWithin :
      (m : WorkingMemory)
      → (evicted : Dict MemoryEntry) × IsWithin m m.entries evicted (enforce_budget summarize m)
  unfolding enforce_budget
  enforce_budget-IsWithin m =
      let (over, capped) = evict_while (over_cap m.max_entries) m.entries in
      let (oldest, left) = evict_while (over_budget m.token_budget m.summaries) capped in
      let first = (evict_while-splits (over_cap m.max_entries) m.entries).0 in
      let second = (evict_while-splits (over_budget m.token_budget m.summaries) capped).0 in
      let trimmed = record m { entries = left } in
      let shorter = evict_while-shorter (over_budget m.token_budget m.summaries) capped in
      rw (note_evicted-entries (over ++ oldest) trimmed) (
        over ++ oldest,
        (
          append_assoc over oldest left ∙ ap (λ l. over ++ l) second ∙ first,
          omega (arith, shorter, evict_while-cap m.max_entries m.entries),
          evict_while-budget m.token_budget m.summaries capped,
          HadToGo-append m over oldest left
              (rw second
                (evict_while-HadToGo m (over_cap m.max_entries) (over_cap-IsOver m) m.entries))
              (evict_while-HadToGo m (over_budget m.token_budget m.summaries) (over_budget-IsOver m)
                capped),
          note_evicted-evictions (over ++ oldest) trimmed,
        ),
      )

  -- A write evicts no more than the limits ask for, from the front of the entries with the written
  -- one, which keeps its place if its key was there: at most the cap of entries is left, and these
  -- fit the token budget together with the summaries that were there before, unless a single entry
  -- is left; each evicted entry, with all that stood after it, was over one of the two limits; and
  -- the evicted entries are counted.
  pub write-IsWithin :
      (e : MemoryEntry) (m : WorkingMemory)
      → (evicted : Dict MemoryEntry) × IsWithin m
          (insert e.key e m.entries)
          evicted
          (write summarize e m)
  unfolding write
  write-IsWithin e m = enforce_budget-IsWithin (record m { entries = insert e.key e m.entries })
