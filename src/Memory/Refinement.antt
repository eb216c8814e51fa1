-- ===== src/Memory/Refinement.antt =====
-- `SessionMemory` against what it promises: a log of revisions per key, whatever becomes of the
use ai_cybersecurity_soc_ana.Memory.Working.{MemoryEntry}
-- hot tier in between.
use ai_cybersecurity_soc_ana.Memory.Coherence.{
  IsValid, evict_hot-IsValid, expire-IsValid, read-IsValid, rebuild-IsValid, write-IsValid,
}
use ai_cybersecurity_soc_ana.Memory.Session.{
  SessionMemory, evict_hot, expire, read, read_through, rebuild, write,
}
use ai_cybersecurity_soc_ana.Memory.Durable.{history, history-append, last, latest, next_revision}
use ai_cybersecurity_soc_ana.Memory.Hot.{get}
use ai_cybersecurity_soc_ana.Common.Text.{Text}
use ai_cybersecurity_soc_ana.Common.{
  List, Option, [], ap, arith, if◌then◌else◌, length, none, refl, some, sym, true, ℕ, ◌++◌, ◌+◌,
  ◌==◌, ◌∙◌, ◌∷◌, ◌≡◌,
}

-- The abstract memory: the revisions of a key of an investigation, oldest first.
abbrev pub Log : Type 0
Log = ℕ → ℕ → List MemoryEntry

-- What callers do, and what happens to the hot tier.
pub data Operation : Type 0 where
  remembers : (investigation key : ℕ) (shown : Text) (source : ℕ) → Operation
  recalls : (investigation key : ℕ) → Operation
  rebuilds retires loses : (investigation : ℕ) → Operation

-- A step of the session memory, with the entry that it returns.
unfoldable pub perform : Operation → SessionMemory → SessionMemory × Option MemoryEntry
unfolding write read rebuild evict_hot expire
perform (remembers i k shown source) m = let (m', e) = write true i k shown source m in (m', some e)
perform (recalls i k) m = read i k m
perform (rebuilds i) m = ((rebuild i m).0, none)
perform (retires i) m = (evict_hot i m, none)
perform (loses i) m = (expire i m, none)

-- The same step of the log: only `remembers` changes it.
unfoldable pub specified : Operation → Log → Log × Option MemoryEntry
unfolding last
specified (remembers i k shown source) l =
    let e : MemoryEntry = record {
      key = k;
      shown = shown;
      source = source;
      revision = length (l i k) + 1;
    } in
    ((λ j q. if i == j then (if k == q then l j q ++ e ∷ [] else l j q) else l j q), some e)
specified (recalls i k) l = (l, last (l i k))
specified _ l = (l, none)

-- The answers of a sequence of steps.
unfoldable pub answers : List Operation → SessionMemory → List (Option MemoryEntry)
unfolding perform
answers [] m = []
answers (op ∷ ops) m = let (m', a) = perform op m in a ∷ answers ops m'

unfoldable pub specified_answers : List Operation → Log → List (Option MemoryEntry)
unfolding specified
specified_answers [] l = []
specified_answers (op ∷ ops) l = let (l', a) = specified op l in a ∷ specified_answers ops l'

pub record Implements (m : SessionMemory) (l : Log) : Type 0 where
  pub valid : IsValid m
  pub stored : (i k : ℕ) → history i k m.durable ≡ l i k

read_through-latest :
    (i k : ℕ) (m : SessionMemory) (cached : Option MemoryEntry)
    → IsValid m
    → get i k m.hot ≡ cached
    → (read_through i k m cached).1 ≡ latest i k m.durable
unfolding read_through
read_through-latest i k m (some x) h e = sym (h.coherent i k x e)
read_through-latest i k m none h e = refl

-- While the hot tier is coherent, a read answers with the newest durable revision.
pub read-latest : (i k : ℕ) (m : SessionMemory) → IsValid m → (read i k m).1 ≡ latest i k m.durable
unfolding read
read-latest i k m h = read_through-latest i k m (get i k m.hot) h refl

read_through-durable :
    (i k : ℕ) (m : SessionMemory) (cached : Option MemoryEntry)
    → (read_through i k m cached).0.durable ≡ m.durable
unfolding read_through
read_through-durable i k m (some x) = refl
read_through-durable i k m none = refl

read-durable : (i k : ℕ) (m : SessionMemory) → (read i k m).0.durable ≡ m.durable
unfolding read
read-durable i k m = read_through-durable i k m (get i k m.hot)

perform-Implements :
    (op : Operation) (m : SessionMemory) (l : Log)
    → Implements m l
    → ((perform op m).1 ≡ (specified op l).1) × Implements (perform op m).0 (specified op l).0
unfolding perform specified
perform-Implements (remembers i k shown source) m l h =
    let same_entry : next_revision i k shown source m.durable
        ≡ record { key = k; shown = shown; source = source; revision = length (l i k) + 1 } =
      unfold next_revision in rw (h.stored i k) refl in
    (
      ap (λ e. some e) same_entry,
      record {
        valid = write-IsValid i k shown source m h.valid;
        stored = λ j q.
            ground (arith, history-append i k shown source m.durable j q, same_entry, h.stored j q);
      },
    )
perform-Implements (recalls i k) m l h = (
  read-latest i k m h.valid ∙ (unfold latest in ap last (h.stored i k)),
  record {
    valid = read-IsValid i k m h.valid;
    stored = λ j q. ap (history j q) (read-durable i k m) ∙ h.stored j q;
  },
)
perform-Implements (rebuilds i) m l h = (
  refl,
  record { valid = rebuild-IsValid i m h.valid; stored = λ j q. unfold rebuild in h.stored j q },
)
perform-Implements (retires i) m l h = (
  refl,
  record {
    valid = evict_hot-IsValid i m h.valid;
    stored = λ j q. unfold evict_hot in h.stored j q;
  },
)
perform-Implements (loses i) m l h = (
  refl,
  record { valid = expire-IsValid i m h.valid; stored = λ j q. unfold expire in h.stored j q },
)

-- While every hot write succeeds, the session memory answers any sequence of writes, reads,
-- rebuilds, evictions and losses of the hot tier as the log of revisions does: a read gives the
-- newest revision of its key, and a write the revision that follows the ones before.
pub answers_refine :
    (ops : List Operation) (m : SessionMemory) (l : Log)
    → Implements m l
    → answers ops m ≡ specified_answers ops l
unfolding answers specified_answers
answers_refine [] m l h = refl
answers_refine (op ∷ ops) m l h =
    let (same, next) = perform-Implements op m l h in
    let rest = answers_refine ops (perform op m).0 (specified op l).0 next in cc
