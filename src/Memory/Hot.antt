-- ===== src/Memory/Hot.antt =====
-- The hot tier of memory/hot.py: `HotMemoryStore` as `InMemoryHotStore` implements it.
use ai_cybersecurity_soc_ana.Memory.Nested.{find, inner, put}
use ai_cybersecurity_soc_ana.Memory.Working.{MemoryEntry}
use ai_cybersecurity_soc_ana.Common.Dict.{Dict, erase, lookup}
use ai_cybersecurity_soc_ana.Common.{List, Option, [], ℕ, ◌∷◌}

abbrev pub HotStore : Type 0
HotStore = Dict (Dict MemoryEntry)

abbrev pub get : ℕ → ℕ → HotStore → Option MemoryEntry
get investigation key hot = find investigation key hot

abbrev pub set : ℕ → MemoryEntry → HotStore → HotStore
set investigation e hot = put investigation e.key e hot

unfoldable pub values : Dict MemoryEntry → List MemoryEntry
values [] = []
values ((k, e) ∷ fields) = e ∷ values fields

unfoldable pub get_all : ℕ → HotStore → List MemoryEntry
unfolding values lookup
get_all investigation hot = values (inner investigation hot)

abbrev pub clear : ℕ → HotStore → HotStore
clear investigation hot = erase investigation hot
