-- ===== src/Memory/Tests.antt =====
-- The properties of the memory at concrete inputs.
use ai_cybersecurity_soc_ana.Common.{List, [], none, refl, some, ℕ, ◌∷◌, ◌≡◌}
use ai_cybersecurity_soc_ana.Memory.Working.{
  MemoryEntry, WorkingMemory, clear, entry_tokens, estimated_tokens, init, load, read,
  summary_tokens, write,
}
use ai_cybersecurity_soc_ana.Common.Dict.{Dict, insert, lookup}
use ai_cybersecurity_soc_ana.Memory.Eviction.{IsWithin, write-IsWithin}
use ai_cybersecurity_soc_ana.Common.Text.{Text, codes}

abbrev entry : ℕ → MemoryEntry
entry k = record { key = k; shown = codes "k:{'x': 12345}"; source = 1; revision = 1 }

abbrev brief : List MemoryEntry → Text
brief es = codes "summary"

abbrev full : WorkingMemory
full = record (init 9 3) { entries = (1, entry 1) ∷ (2, entry 2) ∷ [] }

write-IsWithin_example :
    (evicted : Dict MemoryEntry) × IsWithin full
      (insert 3 (entry 3) full.entries)
      evicted
      (write brief (entry 3) full)
write-IsWithin_example = write-IsWithin brief (entry 3) full

-- The summary of the evicted entry comes on top of the budget.
over_after_write : estimated_tokens (write brief (entry 3) full) ≡ 10
unfolding write init entry_tokens summary_tokens
over_after_write = refl

-- An entry that is written again keeps its place, and is the first to go.
rewritten_is_evicted :
    lookup 1 (write brief (entry 1) (record full { token_budget = 4 })).entries ≡ none
unfolding write init lookup entry_tokens summary_tokens
rewritten_is_evicted = refl

reads_what_is_left : (read 3 (write brief (entry 3) full)).1 ≡ some (entry 3)
unfolding read write init entry_tokens summary_tokens
reads_what_is_left = refl

recovers : (clear (load brief (entry 5 ∷ entry 6 ∷ []) full)).entries ≡ []
unfolding clear
recovers = refl
