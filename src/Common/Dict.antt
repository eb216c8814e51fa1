-- ===== src/Common/Dict.antt =====
-- A Python dict in insertion order. Keys are identifiers that the code only compares (UUIDs,
-- hashes, cache keys), so they are numbers.
use Prim.Native.Nat.{ℕ, ◌≤◌}
use mathlib.Core.Path.{◌≡◌, refl}
use mathlib.Core.Bool.{Bool}
use mathlib.Core.List.{List, [], ◌∷◌, ◌++◌}
use mathlib.Core.Option.{Option, none, some}
use native.Mathlib.Omega.{arith}
use ai_cybersecurity_soc_ana.Common.Tests.{◌==◌, if◌then◌else◌}
use ai_cybersecurity_soc_ana.Common.Lists.{length}

abbrev pub Dict {ℓ} : Type ℓ → Type ℓ
Dict V = List (ℕ × V)

module _ {ℓ} {V : Type ℓ} where
  -- `d.get(k)`
  unfoldable pub lookup : ℕ → Dict V → Option V
  lookup k [] = none
  lookup k ((j, v) ∷ d) = if j == k then some v else lookup k d

  -- `d[k] = v`: a known key keeps its place, a new one goes last.
  unfoldable pub insert : ℕ → V → Dict V → Dict V
  insert k v [] = (k, v) ∷ []
  insert k v ((j, w) ∷ d) = if j == k then (k, v) ∷ d else (j, w) ∷ insert k v d

  -- `d.pop(k, None)`
  unfoldable pub erase : ℕ → Dict V → Dict V
  erase k [] = []
  erase k ((j, w) ∷ d) = if j == k then erase k d else (j, w) ∷ erase k d

  -- `for k in [k for k, v in d.items() if p(v)]: d.pop(k, None)`
  unfoldable pub erase_if : (V → Bool) → Dict V → Dict V
  erase_if p [] = []
  erase_if p ((j, w) ∷ d) = if p w then erase_if p d else (j, w) ∷ erase_if p d

  -- No key stands twice.
  abbrev pub HasDistinctKeys : Dict V → Type ℓ
  HasDistinctKeys [] = Unit
  HasDistinctKeys ((j, w) ∷ d) = (lookup j d ≡ none) × HasDistinctKeys d

  pub lookup-insert :
      (k j : ℕ) (v : V) (d : Dict V)
      → lookup j (insert k v d) ≡ (if k == j then some v else lookup j d)
  unfolding lookup insert
  lookup-insert k j v [] = refl
  lookup-insert k j v ((i, w) ∷ d) = ground (arith, lookup-insert k j v d)

  pub lookup-erase :
      (k j : ℕ) (d : Dict V) → lookup j (erase k d) ≡ (if k == j then none else lookup j d)
  unfolding lookup erase
  lookup-erase k j [] = ground arith
  lookup-erase k j ((i, w) ∷ d) = ground (arith, lookup-erase k j d)

  abbrev pub unless : (V → Bool) → Option V → Option V
  unless p none = none
  unless p (some v) = if p v then none else some v

  lookup-erase_if_absent :
      (p : V → Bool) (j : ℕ) (d : Dict V) → lookup j d ≡ none → lookup j (erase_if p d) ≡ none
  unfolding lookup erase_if
  lookup-erase_if_absent p j [] h = refl
  lookup-erase_if_absent p j ((i, w) ∷ d) h = ground (arith, lookup-erase_if_absent p j d)

  pub lookup-erase_if :
      (p : V → Bool) (j : ℕ) (d : Dict V)
      → HasDistinctKeys d
      → lookup j (erase_if p d) ≡ unless p (lookup j d)
  unfolding lookup erase_if
  lookup-erase_if p j [] h = refl
  lookup-erase_if p j ((i, w) ∷ d) h =
      ground (arith, lookup-erase_if p j d h.1, lookup-erase_if_absent p j d)

  pub insert-HasDistinctKeys :
      (k : ℕ) (v : V) (d : Dict V) → HasDistinctKeys d → HasDistinctKeys (insert k v d)
  unfolding insert
  insert-HasDistinctKeys k v [] h = (unfold lookup in refl, tt)
  insert-HasDistinctKeys k v ((j, w) ∷ d) h =
      ground (arith, insert-HasDistinctKeys k v d h.1, lookup-insert k j v d)

  pub erase-HasDistinctKeys : (k : ℕ) (d : Dict V) → HasDistinctKeys d → HasDistinctKeys (erase k d)
  unfolding erase
  erase-HasDistinctKeys k [] h = tt
  erase-HasDistinctKeys k ((j, w) ∷ d) h =
      ground (arith, erase-HasDistinctKeys k d h.1, lookup-erase k j d)

  pub erase_if-HasDistinctKeys :
      (p : V → Bool) (d : Dict V) → HasDistinctKeys d → HasDistinctKeys (erase_if p d)
  unfolding erase_if
  erase_if-HasDistinctKeys p [] h = tt
  erase_if-HasDistinctKeys p ((j, w) ∷ d) h =
      ground (arith, erase_if-HasDistinctKeys p d h.1, lookup-erase_if_absent p j d h.0)

  pub erase_absent : (k : ℕ) (d : Dict V) → lookup k d ≡ none → erase k d ≡ d
  unfolding lookup erase
  erase_absent k [] h = refl
  erase_absent k ((j, w) ∷ d) h = ground (arith, erase_absent k d)

  pub length-erase-le : (k : ℕ) (d : Dict V) → length (erase k d) ≤ length d
  unfolding erase
  length-erase-le k [] = omega arith
  length-erase-le k ((j, w) ∷ d) = ground (arith, length-erase-le k d)

  pub lookup-append :
      (k : ℕ) (d e : Dict V)
      → lookup k (d ++ e) ≡ elim (lookup k d) [ none ↦ lookup k e | some v ↦ some v ]
  unfolding lookup
  lookup-append k [] e = refl
  lookup-append k ((j, w) ∷ d) e = ground (arith, lookup-append k d e)
