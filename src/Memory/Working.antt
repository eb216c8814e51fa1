-- ===== src/Memory/Working.antt =====
-- `WorkingMemory` of memory/working.py and the token estimates of memory/summarization.py.
use ai_cybersecurity_soc_ana.Common.Text.{Text}
use ai_cybersecurity_soc_ana.Common.Dict.{Dict, insert, lookup}
use ai_cybersecurity_soc_ana.Common.{
  Bool, List, Option, [], if◌then◌else◌, length, ltb, max, none, some, ℕ, ◌&&◌, ◌++◌, ◌+◌, ◌-◌, ◌/◌,
  ◌∷◌,
}

-- `shown` is the text `f"{key}:{value}"`; the time is left out.
pub record MemoryEntry : Type 0 where
  pub key : ℕ
  pub shown : Text
  pub source : ℕ
  pub revision : ℕ

pub record MemoryStats : Type 0 where
  pub hits : ℕ
  pub misses : ℕ
  pub evictions : ℕ
  pub recoveries : ℕ

pub record WorkingMemory : Type 0 where
  pub token_budget : ℕ
  pub max_entries : ℕ
  pub entries : Dict MemoryEntry
  pub summaries : List Text
  pub stats : MemoryStats

unfoldable pub init : ℕ → ℕ → WorkingMemory
init token_budget max_entries = record {
  token_budget = token_budget;
  max_entries = max_entries;
  entries = [];
  summaries = [];
  stats = record { hits = 0; misses = 0; evictions = 0; recoveries = 0 };
}

unfoldable pub estimate_tokens : Text → ℕ
estimate_tokens [] = 0
estimate_tokens (c ∷ s) = max 1 ((length (c ∷ s) + 4 - 1) / 4)

abbrev pub estimate_entry_tokens : MemoryEntry → ℕ
estimate_entry_tokens e = estimate_tokens e.shown

unfoldable pub entry_tokens : Dict MemoryEntry → ℕ
unfolding estimate_tokens
entry_tokens [] = 0
entry_tokens ((k, e) ∷ es) = estimate_entry_tokens e + entry_tokens es

unfoldable pub summary_tokens : List Text → ℕ
unfolding estimate_tokens
summary_tokens [] = 0
summary_tokens (s ∷ ss) = estimate_tokens s + summary_tokens ss

abbrev pub estimated_tokens : WorkingMemory → ℕ
estimated_tokens m = entry_tokens m.entries + summary_tokens m.summaries

-- `while test: evicted.append(self._pop_oldest())`: the evicted entries, and the ones left.
unfoldable pub evict_while :
    (Dict MemoryEntry → Bool) → Dict MemoryEntry → Dict MemoryEntry × Dict MemoryEntry
evict_while test [] = ([], [])
evict_while test (e ∷ es) =
    let (evicted, left) = evict_while test es in
    if test (e ∷ es) then (e ∷ evicted, left) else ([], e ∷ es)

abbrev pub over_cap : ℕ → Dict MemoryEntry → Bool
over_cap max_entries es = ltb max_entries (length es)

abbrev pub over_budget : ℕ → List Text → Dict MemoryEntry → Bool
over_budget token_budget summaries es =
    ltb token_budget (entry_tokens es + summary_tokens summaries) && ltb 1 (length es)

-- `if summary: self._summaries.append(summary)`
with_summary : Text → List Text → List Text
with_summary [] summaries = summaries
with_summary (c ∷ s) summaries = summaries ++ (c ∷ s) ∷ []

module _ (summarize : List MemoryEntry → Text) where
  values : Dict MemoryEntry → List MemoryEntry
  values [] = []
  values ((k, e) ∷ es) = e ∷ values es

  unfoldable pub note_evicted : Dict MemoryEntry → WorkingMemory → WorkingMemory
  unfolding with_summary values
  note_evicted [] m = m
  note_evicted (e ∷ es) m = record m {
    stats = record m.stats { evictions = m.stats.evictions + length (e ∷ es) };
    summaries = with_summary (summarize (values (e ∷ es))) m.summaries;
  }

  -- `_enforce_budget`
  unfoldable pub enforce_budget : WorkingMemory → WorkingMemory
  unfolding evict_while note_evicted
  enforce_budget m =
      let (over, capped) = evict_while (over_cap m.max_entries) m.entries in
      let (oldest, left) = evict_while (over_budget m.token_budget m.summaries) capped in
      note_evicted (over ++ oldest) (record m { entries = left })

  unfoldable pub write : MemoryEntry → WorkingMemory → WorkingMemory
  unfolding enforce_budget insert
  write e m = enforce_budget (record m { entries = insert e.key e m.entries })

  insert_all : Dict MemoryEntry → List MemoryEntry → Dict MemoryEntry
  unfolding insert
  insert_all d [] = d
  insert_all d (e ∷ es) = insert_all (insert e.key e d) es

  unfoldable pub load : List MemoryEntry → WorkingMemory → WorkingMemory
  unfolding enforce_budget insert_all
  load es m = enforce_budget (record m {
    entries = insert_all m.entries es;
    stats = record m.stats { recoveries = m.stats.recoveries + 1 };
  })

counted : Option MemoryEntry → MemoryStats → MemoryStats
counted none s = record s { misses = s.misses + 1 }
counted (some e) s = record s { hits = s.hits + 1 }

unfoldable pub read : ℕ → WorkingMemory → WorkingMemory × Option MemoryEntry
unfolding counted lookup
read k m = let found = lookup k m.entries in (record m { stats = counted found m.stats }, found)

unfoldable pub clear : WorkingMemory → WorkingMemory
clear m = record m { entries = []; summaries = [] }
