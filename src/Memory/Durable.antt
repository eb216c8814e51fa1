-- ===== src/Memory/Durable.antt =====
-- The durable tier of memory/durable.py: `DurableMemoryStore` as `InMemoryDurableStore` implements
-- it. Every key of an investigation holds its revisions, oldest first.
use ai_cybersecurity_soc_ana.Memory.Nested.{find, find-put, inner, put}
use ai_cybersecurity_soc_ana.Memory.Working.{MemoryEntry}
use ai_cybersecurity_soc_ana.Common.Text.{Text}
use ai_cybersecurity_soc_ana.Common.Dict.{Dict, lookup}
use ai_cybersecurity_soc_ana.Common.{
  List, Option, [], if◌then◌else◌, leb, length, none, refl, some, ℕ, ◌++◌, ◌+◌, ◌==◌, ◌∷◌, ◌≡◌,
  arith,
}

abbrev pub DurableStore : Type 0
DurableStore = Dict (Dict (List MemoryEntry))

-- `revisions[-1] if revisions else None`
unfoldable pub last : List MemoryEntry → Option MemoryEntry
last [] = none
last (e ∷ []) = some e
last (e ∷ f ∷ es) = last (f ∷ es)

-- `history`
unfoldable pub history : ℕ → ℕ → DurableStore → List MemoryEntry
unfolding find
history investigation key durable = elim (find investigation key durable) [
  | none ↦ []
  | some revisions ↦ revisions
]

-- The entry that `append` adds.
unfoldable pub next_revision : ℕ → ℕ → Text → ℕ → DurableStore → MemoryEntry
unfolding history
next_revision investigation key shown source durable = record {
  key = key;
  shown = shown;
  source = source;
  revision = length (history investigation key durable) + 1;
}

unfoldable pub append : ℕ → ℕ → Text → ℕ → DurableStore → DurableStore × MemoryEntry
unfolding history next_revision put
append investigation key shown source durable =
    let entry = next_revision investigation key shown source durable in
    (put investigation key (history investigation key durable ++ entry ∷ []) durable, entry)

unfoldable pub latest : ℕ → ℕ → DurableStore → Option MemoryEntry
unfolding history last
latest investigation key durable = last (history investigation key durable)

-- `sorted(items())`: no key stands twice, so the keys decide.
unfoldable pub insert_by_key :
    ℕ × List MemoryEntry → Dict (List MemoryEntry) → Dict (List MemoryEntry)
insert_by_key x [] = x ∷ []
insert_by_key x (y ∷ ys) = if leb (x.0) (y.0) then x ∷ y ∷ ys else y ∷ insert_by_key x ys

unfoldable pub sorted_items : Dict (List MemoryEntry) → Dict (List MemoryEntry)
unfolding insert_by_key
sorted_items [] = []
sorted_items (x ∷ items) = insert_by_key x (sorted_items items)

-- The list comprehension of `latest_all`.
unfoldable pub last_of_each : Dict (List MemoryEntry) → List MemoryEntry
unfolding last
last_of_each [] = []
last_of_each ((k, revisions) ∷ items) =
    let rest = last_of_each items in elim (last revisions) [ none ↦ rest | some e ↦ e ∷ rest ]

unfoldable pub latest_all : ℕ → DurableStore → List MemoryEntry
unfolding sorted_items last_of_each lookup
latest_all investigation durable = last_of_each (sorted_items (inner investigation durable))

pub last-append : (es : List MemoryEntry) (e : MemoryEntry) → last (es ++ e ∷ []) ≡ some e
unfolding last
last-append [] e = refl
last-append (f ∷ []) e = refl
last-append (f ∷ g ∷ es) e = last-append (g ∷ es) e

-- An append adds the new entry to the history of its key and to no other.
pub history-append :
    (i k : ℕ) (shown : Text) (source : ℕ) (durable : DurableStore) (j q : ℕ)
    → history j q (append i k shown source durable).0 ≡ (
        if i == j
        then (if k == q
            then history j q durable ++ next_revision i k shown source durable ∷ []
            else history j q durable)
        else history j q durable)
unfolding history append
history-append i k shown source durable j q = ground (
  arith,
  find-put i k (history i k durable ++ next_revision i k shown source durable ∷ []) durable j q,
)
