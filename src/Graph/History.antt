-- ===== src/Graph/History.antt =====
-- `NodeTransition`, `extend_history` and the names of the nodes.
use ai_cybersecurity_soc_ana.Common.{
  List, [], ap, arith, length, refl, take, ℕ, ◌++◌, ◌+◌, ◌∷◌, ◌≡◌,
}

pub data NodeName : Type 0 where
  ingest_seed log_analysis threat_detection cve_research report : NodeName
  remediation triage human_gate notify close : NodeName

-- The owner, the status and the detail of a transition are left out.
pub record NodeTransition : Type 0 where
  pub sequence : ℕ
  pub node : NodeName

-- The loop of `extend_history`, at the given offset.
stamp : ℕ → List NodeTransition → List NodeTransition
stamp offset [] = []
stamp offset (t ∷ ts) = record t { sequence = offset } ∷ stamp (offset + 1) ts

unfoldable pub extend_history : List NodeTransition → List NodeTransition → List NodeTransition
unfolding stamp
extend_history current incoming = current ++ stamp (length current) incoming

-- The sequence numbers count up from `n`.
abbrev pub HasSequence : ℕ → List NodeTransition → Type 0
HasSequence n [] = Unit
HasSequence n (t ∷ ts) = (t.sequence ≡ n) × HasSequence (n + 1) ts

stamp-HasSequence : (n : ℕ) (ts : List NodeTransition) → HasSequence n (stamp n ts)
unfolding stamp
stamp-HasSequence n [] = tt
stamp-HasSequence n (t ∷ ts) = (refl, stamp-HasSequence (n + 1) ts)

append-HasSequence :
    (n m : ℕ) (xs ys : List NodeTransition)
    → n + length xs ≡ m
    → HasSequence n xs
    → HasSequence m ys
    → HasSequence n (xs ++ ys)
append-HasSequence n m [] ys e h k = let same : m ≡ n = omega arith in rw same at k
append-HasSequence n m (x ∷ xs) ys e h k =
    (h.0, append-HasSequence (n + 1) m xs ys (omega arith) h.1 k)

take-append : (xs ys : List NodeTransition) → take (length xs) (xs ++ ys) ≡ xs
take-append [] ys = refl
take-append (x ∷ xs) ys = ap (λ l. x ∷ l) (take-append xs ys)

-- A log whose sequence numbers count up from 0 still does when transitions are appended, whatever
-- numbers these carry, and it keeps what it had.
extend_history-HasSequence :
    (current incoming : List NodeTransition)
    → HasSequence 0 current
    → HasSequence 0 (extend_history current incoming)
      × (take (length current) (extend_history current incoming) ≡ current)
unfolding extend_history
extend_history-HasSequence current incoming h = (
  append-HasSequence 0 (length current) current (stamp (length current) incoming) (omega arith) h
      (stamp-HasSequence (length current) incoming),
  take-append current (stamp (length current) incoming),
)
