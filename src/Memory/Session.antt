-- ===== src/Memory/Session.antt =====
-- `SessionMemory` of memory/session.py, over the in-process stores. Whether the hot tier takes a
-- write is for the deployment to say: it is an argument of the operation.
use ai_cybersecurity_soc_ana.Memory.Durable.{DurableStore, append, latest, latest_all}
use ai_cybersecurity_soc_ana.Memory.Hot.{HotStore, clear, get, get_all, set}
use ai_cybersecurity_soc_ana.Memory.Nested.{find, put}
use ai_cybersecurity_soc_ana.Memory.Working.{MemoryEntry, MemoryStats}
use ai_cybersecurity_soc_ana.Common.Text.{Text}
use ai_cybersecurity_soc_ana.Common.Dict.{erase}
use ai_cybersecurity_soc_ana.Common.{
  Bool, List, Option, [], if◌then◌else◌, leb, none, some, ℕ, ◌+◌, ◌∷◌,
}

pub record SessionMemory : Type 0 where
  pub hot : HotStore
  pub durable : DurableStore
  pub stats : MemoryStats

-- `write`: durable first; a failure of the hot write is swallowed.
unfoldable pub write : Bool → ℕ → ℕ → Text → ℕ → SessionMemory → SessionMemory × MemoryEntry
unfolding append put
write hot_up investigation key shown source m =
    let (durable, entry) = append investigation key shown source m.durable in
    (
      record m { hot = if hot_up then set investigation entry m.hot else m.hot; durable = durable },
      entry,
    )

abbrev pub hit : MemoryStats → MemoryStats
hit s = record s { hits = s.hits + 1 }

abbrev pub miss : MemoryStats → MemoryStats
miss s = record s { misses = s.misses + 1 }

-- A found entry goes to the hot tier.
unfoldable pub repopulate : ℕ → Option MemoryEntry → HotStore → HotStore
unfolding put
repopulate investigation none hot = hot
repopulate investigation (some e) hot = set investigation e hot

unfoldable pub read_through :
    ℕ → ℕ → SessionMemory → Option MemoryEntry → SessionMemory × Option MemoryEntry
unfolding repopulate latest
read_through investigation key m (some cached) = (record m { stats = hit m.stats }, some cached)
read_through investigation key m none =
    let entry = latest investigation key m.durable in
    (record m { hot = repopulate investigation entry m.hot; stats = miss m.stats }, entry)

-- `read`: hot first, then durable.
unfoldable pub read : ℕ → ℕ → SessionMemory → SessionMemory × Option MemoryEntry
unfolding read_through find
read investigation key m = read_through investigation key m (get investigation key m.hot)

-- `sorted(entries, key=lambda entry: entry.key)`, stable.
unfoldable pub insert_entry : MemoryEntry → List MemoryEntry → List MemoryEntry
insert_entry e [] = e ∷ []
insert_entry e (f ∷ es) = if leb e.key f.key then e ∷ f ∷ es else f ∷ insert_entry e es

unfoldable pub sort_entries : List MemoryEntry → List MemoryEntry
unfolding insert_entry
sort_entries [] = []
sort_entries (e ∷ es) = insert_entry e (sort_entries es)

unfoldable pub set_each : ℕ → List MemoryEntry → HotStore → HotStore
unfolding put
set_each investigation [] hot = hot
set_each investigation (e ∷ es) hot = set_each investigation es (set investigation e hot)

unfoldable pub rebuild : ℕ → SessionMemory → SessionMemory × List MemoryEntry
unfolding latest_all set_each sort_entries
rebuild investigation m =
    let entries = latest_all investigation m.durable in
    (
      record m {
        hot = set_each investigation entries m.hot;
        stats = record m.stats { recoveries = m.stats.recoveries + 1 };
      },
      sort_entries entries,
    )

unfoldable pub read_all_through :
    ℕ → SessionMemory → List MemoryEntry → SessionMemory × List MemoryEntry
unfolding rebuild sort_entries
read_all_through investigation m [] = rebuild investigation (record m { stats = miss m.stats })
read_all_through investigation m (e ∷ es) =
    (record m { stats = hit m.stats }, sort_entries (e ∷ es))

-- `read_all`: what the hot tier has, if it has anything.
unfoldable pub read_all : ℕ → SessionMemory → SessionMemory × List MemoryEntry
unfolding read_all_through get_all
read_all investigation m = read_all_through investigation m (get_all investigation m.hot)

unfoldable pub evict_hot : ℕ → SessionMemory → SessionMemory
unfolding erase
evict_hot investigation m = record m {
  hot = clear investigation m.hot;
  stats = record m.stats { evictions = m.stats.evictions + 1 };
}

-- The hot tier may vanish at any time: a TTL, or a flushed Redis.
unfoldable pub expire : ℕ → SessionMemory → SessionMemory
unfolding erase
expire investigation m = record m { hot = clear investigation m.hot }
