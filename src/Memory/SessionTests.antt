-- ===== src/Memory/SessionTests.antt =====
-- The properties of the session memory at concrete inputs.
use ai_cybersecurity_soc_ana.Common.{List, [], arith, false, refl, some, ℕ, ◌∷◌, ◌≡◌}
use ai_cybersecurity_soc_ana.Memory.Context.{ContextBundle, fit_to_budget}
use ai_cybersecurity_soc_ana.Common.Text.{Text, codes}
use ai_cybersecurity_soc_ana.Memory.Working.{MemoryEntry}
use ai_cybersecurity_soc_ana.Memory.Recovery.{cold_read_hides_the_rest, failed_refresh_serves_stale}
use ai_cybersecurity_soc_ana.Memory.Refinement.{
  Implements, Log, Operation, answers, answers_refine, loses, recalls, remembers, specified_answers,
}
use ai_cybersecurity_soc_ana.Memory.Session.{SessionMemory, expire, read, read_all, rebuild, write}
use ai_cybersecurity_soc_ana.Memory.Durable.{history, latest}
use ai_cybersecurity_soc_ana.Memory.Nested.{find}
use ai_cybersecurity_soc_ana.Common.Dict.{lookup}

abbrev blank : SessionMemory
blank = record {
  hot = [];
  durable = [];
  stats = record { hits = 0; misses = 0; evictions = 0; recoveries = 0 };
}

abbrev nothing : Log
nothing i k = []

blank-Implements : Implements blank nothing
unfolding find latest lookup history
blank-Implements = record {
  valid = record {
    coherent = λ i k e found. absurd (ground (arith, found));
    keyed = λ i k e found. absurd (ground (arith, found));
    distinct = λ i. tt;
  };
  stored = λ i k. refl;
}

-- A fact, its revision, a loss of the hot tier, and a read.
abbrev session_steps : List Operation
session_steps =
    remembers 1 5 (codes "a") 2 ∷ remembers 1 5 (codes "b") 2 ∷ loses 1 ∷ recalls 1 5 ∷ []

answers_refine_example : answers session_steps blank ≡ specified_answers session_steps nothing
answers_refine_example = answers_refine session_steps blank nothing blank-Implements

abbrev fact : ℕ → ℕ → MemoryEntry
fact k revision = record { key = k; shown = codes "a"; source = 2; revision = revision }

abbrev holding : SessionMemory
holding = record blank {
  hot = (1, (5, fact 5 1) ∷ []) ∷ [];
  durable = (1, (5, fact 5 1 ∷ []) ∷ (6, fact 6 1 ∷ []) ∷ []) ∷ [];
}

failed_refresh_serves_stale_example :
    let (m', new) = write false 1 5 (codes "a") 2 holding in
    ((read 1 5 m').1 ≡ some (fact 5 1)) × (latest 1 5 m'.durable ≡ some new)
unfolding find lookup
failed_refresh_serves_stale_example =
    failed_refresh_serves_stale 1 5 (codes "a") 2 holding (fact 5 1) refl

the_new_revision : (write false 1 5 (codes "a") 2 holding).1 ≡ fact 5 2
unfolding write
the_new_revision = refl

cold_read_hides_the_rest_example :
    let m' = (read 1 5 (expire 1 holding)).0 in (read_all 1 m').1 ≡ fact 5 1 ∷ []
unfolding latest lookup find history
cold_read_hides_the_rest_example = cold_read_hides_the_rest 1 5 holding (fact 5 1) refl

rebuilt : (rebuild 1 holding).1 ≡ fact 5 1 ∷ fact 6 1 ∷ []
unfolding rebuild
rebuilt = refl

-- A turn with three facts, and a budget for two of them.
abbrev crowded : ContextBundle
crowded = record {
  working_entries = [];
  session_entries = fact 1 1 ∷ fact 2 1 ∷ fact 3 1 ∷ [];
  turns = codes "hello" ∷ [];
  chunks = [];
  related_investigations = [];
  summaries = [];
  estimated = 0;
  degraded_tiers = [];
}

abbrev told : List MemoryEntry → Text
told es = codes "1 more"

two_retained : (fit_to_budget told crowded 4).session_entries ≡ fact 2 1 ∷ fact 3 1 ∷ []
unfolding fit_to_budget
two_retained = refl

-- The summary that stands for the trimmed entries takes the context past its budget.
past_budget : (fit_to_budget told crowded 4).estimated ≡ 6
unfolding fit_to_budget
past_budget = refl
