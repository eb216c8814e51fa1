-- ===== src/Memory/Coherence.antt =====
-- The invariant of `SessionMemory`: what the hot tier holds is the newest durable revision.
use ai_cybersecurity_soc_ana.Memory.Nested.{
  All-if, All-lookup, find, find-erase, find-put, inner, inner-put-HasDistinctKeys,
}
use ai_cybersecurity_soc_ana.Common.{
  All, List, Option, [], ap, arith, if◌then◌else◌, leb, none, refl, some, true, ℕ, ◌++◌, ◌==◌, ◌∙◌,
  ◌∷◌, ◌≡◌,
}
use ai_cybersecurity_soc_ana.Memory.Session.{
  SessionMemory, evict_hot, expire, read, read_through, rebuild, repopulate, set_each, write,
}
use ai_cybersecurity_soc_ana.Memory.Durable.{
  DurableStore, append, history, history-append, insert_by_key, last, last-append, last_of_each,
  latest, latest_all, next_revision, sorted_items,
}
use ai_cybersecurity_soc_ana.Memory.Hot.{HotStore, get, set}
use ai_cybersecurity_soc_ana.Common.Text.{Text}
use ai_cybersecurity_soc_ana.Common.Dict.{Dict, HasDistinctKeys, lookup}
use ai_cybersecurity_soc_ana.Memory.Working.{MemoryEntry}

pub record IsValid (m : SessionMemory) : Type 0 where
  pub coherent :
      (i k : ℕ) (e : MemoryEntry) → get i k m.hot ≡ some e → latest i k m.durable ≡ some e
  pub keyed : (i k : ℕ) (e : MemoryEntry) → latest i k m.durable ≡ some e → e.key ≡ k
  pub distinct : (i : ℕ) → HasDistinctKeys (inner i m.durable)

pub latest-append :
    (i k : ℕ) (shown : Text) (source : ℕ) (durable : DurableStore) (j q : ℕ)
    → latest j q (append i k shown source durable).0 ≡ (
        if i == j
        then (if k == q then some (next_revision i k shown source durable) else latest j q durable)
        else latest j q durable)
unfolding latest
latest-append i k shown source durable j q = ground (
  arith,
  history-append i k shown source durable j q,
  last-append (history j q durable) (next_revision i k shown source durable),
)

-- A hot tier that takes a newest revision stays coherent.
set-coherent :
    (i : ℕ) (e : MemoryEntry) (hot : HotStore) (durable : DurableStore)
    → ((j q : ℕ) (x : MemoryEntry) → get j q hot ≡ some x → latest j q durable ≡ some x)
    → latest i e.key durable ≡ some e
    → (j q : ℕ) (x : MemoryEntry) → get j q (set i e hot) ≡ some x
    → latest j q durable ≡ some x
set-coherent i e hot durable h newest j q x found =
    ground (arith, h j q x, newest, found, find-put i e.key e hot j q)

-- A write that the hot tier takes.
pub write-IsValid :
    (i k : ℕ) (shown : Text) (source : ℕ) (m : SessionMemory)
    → IsValid m
    → IsValid (write true i k shown source m).0
unfolding write
write-IsValid i k shown source m h =
    let new = next_revision i k shown source m.durable in
    record {
      coherent = λ j q x found. ground (
        arith,
        found,
        h.coherent j q x,
        latest-append i k shown source m.durable j q,
        find-put i k new m.hot j q,
      );
      keyed = λ j q x found.
          ground (arith, found, h.keyed j q x, latest-append i k shown source m.durable j q);
      distinct =
          inner-put-HasDistinctKeys i k (history i k m.durable ++ new ∷ []) m.durable h.distinct;
    }

repopulate-coherent :
    (i k : ℕ) (m : SessionMemory) (newest : Option MemoryEntry)
    → IsValid m
    → latest i k m.durable ≡ newest
    → (j q : ℕ) (x : MemoryEntry) → get j q (repopulate i newest m.hot) ≡ some x
    → latest j q m.durable ≡ some x
unfolding repopulate
repopulate-coherent i k m none h e j q x found = h.coherent j q x found
repopulate-coherent i k m (some y) h e j q x found =
    let same_key : y.key ≡ k = h.keyed i k y e in
    let newest : latest i y.key m.durable ≡ some y = ap (λ n. latest i n m.durable) same_key ∙ e in
    set-coherent i y m.hot m.durable h.coherent newest j q x found

read_through-IsValid :
    (i k : ℕ) (m : SessionMemory) (cached : Option MemoryEntry)
    → IsValid m
    → IsValid (read_through i k m cached).0
unfolding read_through
read_through-IsValid i k m (some x) h = record {
  coherent = h.coherent;
  keyed = h.keyed;
  distinct = h.distinct;
}
read_through-IsValid i k m none h = record {
  coherent = repopulate-coherent i k m (latest i k m.durable) h refl;
  keyed = h.keyed;
  distinct = h.distinct;
}

pub read-IsValid : (i k : ℕ) (m : SessionMemory) → IsValid m → IsValid (read i k m).0
unfolding read
read-IsValid i k m h = read_through-IsValid i k m (get i k m.hot) h

pub expire-IsValid : (i : ℕ) (m : SessionMemory) → IsValid m → IsValid (expire i m)
unfolding expire
expire-IsValid i m h = record {
  coherent = λ j q x found. ground (arith, found, h.coherent j q x, find-erase i m.hot j q);
  keyed = h.keyed;
  distinct = h.distinct;
}

pub evict_hot-IsValid : (i : ℕ) (m : SessionMemory) → IsValid m → IsValid (evict_hot i m)
unfolding evict_hot expire
evict_hot-IsValid i m h =
    let kept = expire-IsValid i m h in
    record { coherent = kept.coherent; keyed = kept.keyed; distinct = kept.distinct }

-- Each of these entries is the newest of its key.
abbrev AreNewest : ℕ → DurableStore → List MemoryEntry → Type 0
AreNewest i durable = All (λ e. latest i e.key durable ≡ some e)

set_each-coherent :
    (i : ℕ) (durable : DurableStore) (es : List MemoryEntry) (hot : HotStore)
    → ((j q : ℕ) (x : MemoryEntry) → get j q hot ≡ some x → latest j q durable ≡ some x)
    → AreNewest i durable es
    → (j q : ℕ) (x : MemoryEntry) → get j q (set_each i es hot) ≡ some x
    → latest j q durable ≡ some x
unfolding set_each
set_each-coherent i durable [] hot h newest = h
set_each-coherent i durable (e ∷ es) hot h newest =
    set_each-coherent i durable es (set i e hot) (set-coherent i e hot durable h newest.0) newest.1

-- The items of an investigation, in any order.
abbrev AreItems : ℕ → DurableStore → Dict (List MemoryEntry) → Type 0
AreItems i durable = All (λ (x : ℕ × List MemoryEntry). lookup (x.0) (inner i durable) ≡ some (x.1))

insert_by_key-All :
    (P : ℕ × List MemoryEntry → Type 0) (x : ℕ × List MemoryEntry) (items : Dict (List MemoryEntry))
    → P x
    → All P items
    → All P (insert_by_key x items)
unfolding insert_by_key
insert_by_key-All P x [] p h = (p, tt)
insert_by_key-All P x (y ∷ ys) p h =
    All-if P (leb (x.0) (y.0)) (x ∷ y ∷ ys) (y ∷ insert_by_key x ys) (p, h)
      (h.0, insert_by_key-All P x ys p h.1)

sorted_items-All :
    (P : ℕ × List MemoryEntry → Type 0) (items : Dict (List MemoryEntry))
    → All P items
    → All P (sorted_items items)
unfolding sorted_items
sorted_items-All P [] h = tt
sorted_items-All P (x ∷ items) h =
    insert_by_key-All P x (sorted_items items) h.0 (sorted_items-All P items h.1)

add_newest :
    (i k : ℕ) (m : SessionMemory) (revisions : List MemoryEntry) (newest : Option MemoryEntry)
    (rest : List MemoryEntry)
    → IsValid m
    → lookup k (inner i m.durable) ≡ some revisions
    → last revisions ≡ newest
    → AreNewest i m.durable rest
    → AreNewest i m.durable (elim newest [ none ↦ rest | some e ↦ e ∷ rest ])
unfolding latest history find
add_newest i k m revisions none rest v h e r = r
add_newest i k m revisions (some x) rest v h e r =
    let newest : latest i k m.durable ≡ some x =
      ap (λ (o : Option (List MemoryEntry)). last (elim o [ none ↦ [] | some r ↦ r ])) h ∙ e in
    let same_key : x.key ≡ k = v.keyed i k x newest in
    (ap (λ n. latest i n m.durable) same_key ∙ newest, r)

last_of_each-AreNewest :
    (i : ℕ) (m : SessionMemory) (items : Dict (List MemoryEntry))
    → IsValid m
    → AreItems i m.durable items
    → AreNewest i m.durable (last_of_each items)
unfolding last_of_each
last_of_each-AreNewest i m [] v h = tt
last_of_each-AreNewest i m ((k, revisions) ∷ items) v h =
    add_newest i k m revisions (last revisions) (last_of_each items) v h.0 refl
      (last_of_each-AreNewest i m items v h.1)

latest_all-AreNewest :
    (i : ℕ) (m : SessionMemory) → IsValid m → AreNewest i m.durable (latest_all i m.durable)
unfolding latest_all
latest_all-AreNewest i m h =
    last_of_each-AreNewest i m (sorted_items (inner i m.durable)) h
      (sorted_items-All _ (inner i m.durable) (All-lookup (inner i m.durable) (h.distinct i)))

pub rebuild-IsValid : (i : ℕ) (m : SessionMemory) → IsValid m → IsValid (rebuild i m).0
unfolding rebuild
rebuild-IsValid i m h = record {
  coherent =
      set_each-coherent i m.durable (latest_all i m.durable) m.hot h.coherent
        (latest_all-AreNewest i m h);
  keyed = h.keyed;
  distinct = h.distinct;
}
