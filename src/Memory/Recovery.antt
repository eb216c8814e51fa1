-- ===== src/Memory/Recovery.antt =====
-- Where the hot tier shows through in memory/session.py.
use ai_cybersecurity_soc_ana.Common.Dict.{erase, insert, lookup-erase}
use ai_cybersecurity_soc_ana.Memory.Coherence.{latest-append}
use ai_cybersecurity_soc_ana.Memory.Session.{
  SessionMemory, expire, miss, read, read_all, read_all_through, read_through, repopulate,
  sort_entries, write,
}
use ai_cybersecurity_soc_ana.Memory.Durable.{latest}
use ai_cybersecurity_soc_ana.Memory.Hot.{HotStore, clear, get, get_all, set, values}
use ai_cybersecurity_soc_ana.Memory.Nested.{put, find-erase, inner, inner-put}
use ai_cybersecurity_soc_ana.Common.Text.{Text}
use ai_cybersecurity_soc_ana.Common.{[], ap, arith, false, none, refl, some, ℕ, ◌∙◌, ◌∷◌, ◌≡◌}
use ai_cybersecurity_soc_ana.Memory.Working.{MemoryEntry}

-- If the hot write of a new revision fails, the hot tier keeps the one that it had, and the next
-- read of the key answers with that, although the durable tier holds the new revision.
pub failed_refresh_serves_stale :
    (i k : ℕ) (shown : Text) (source : ℕ) (m : SessionMemory) (old : MemoryEntry)
    → get i k m.hot ≡ some old
    → let (m', new) = write false i k shown source m in
      ((read i k m').1 ≡ some old) × (latest i k m'.durable ≡ some new)
unfolding write read read_through
failed_refresh_serves_stale i k shown source m old h =
    (rw h refl, ground (arith, latest-append i k shown source m.durable i k))

-- The hot tier after a loss and one write.
get_all-set_cold :
    (i : ℕ) (e : MemoryEntry) (hot : HotStore) → get_all i (set i e (clear i hot)) ≡ e ∷ []
unfolding get_all values insert
get_all-set_cold i e hot =
    let empty : inner i (erase i hot) ≡ [] = ground (arith, lookup-erase i i hot) in
    let there : inner i (put i e.key e (erase i hot)) ≡ insert e.key e (inner i (erase i hot)) =
      ground (arith, inner-put i e.key e (erase i hot) i) in
    ap values (there ∙ ap (insert e.key e) empty)

cold_read :
    (i k : ℕ) (m : SessionMemory) (e : MemoryEntry)
    → latest i k m.durable ≡ some e
    → (read i k (expire i m)).0 ≡ record m { hot = set i e (clear i m.hot); stats = miss m.stats }
unfolding read read_through repopulate expire
cold_read i k m e h =
    let cold : get i k (clear i m.hot) ≡ none = ground (arith, find-erase i m.hot i k) in
    rw cold (rw h refl)

-- After the hot copy of an investigation is lost, reading one key makes that key's entry the whole
-- working set: `read_all` then answers with it alone, whatever else the durable tier holds.
pub cold_read_hides_the_rest :
    (i k : ℕ) (m : SessionMemory) (e : MemoryEntry)
    → latest i k m.durable ≡ some e
    → let m' = (read i k (expire i m)).0 in (read_all i m').1 ≡ e ∷ []
unfolding read_all read_all_through sort_entries
cold_read_hides_the_rest i k m e h =
    let warm : SessionMemory = record m { hot = set i e (clear i m.hot); stats = miss m.stats } in
    ap (λ n. (read_all i n).1) (cold_read i k m e h)
    ∙ ap (λ l. (read_all_through i warm l).1) (get_all-set_cold i e m.hot)
