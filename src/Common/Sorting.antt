-- ===== src/Common/Sorting.antt =====
-- Python's `sorted` as insertion sort.
use mathlib.Core.Logic.{inl, inr}
use mathlib.Core.Bool.{Bool, true, false}
use mathlib.Core.List.{List, [], ◌∷◌}
use ai_cybersecurity_soc_ana.Common.Lists.{All}
use ai_cybersecurity_soc_ana.Common.Members.{In}
use ai_cybersecurity_soc_ana.Common.Tests.{if◌then◌else◌}

-- What the key does not tell apart keeps its order.
module _ {ℓ} {A : Type ℓ} (le : A → A → Bool) where
  unfoldable pub insert_by : A → List A → List A
  insert_by a [] = a ∷ []
  insert_by a (b ∷ bs) = if le a b then a ∷ b ∷ bs else b ∷ insert_by a bs

  unfoldable pub sort_by : List A → List A
  unfolding insert_by
  sort_by [] = []
  sort_by (a ∷ as') = insert_by a (sort_by as')

module _ {ℓ κ} {A : Type ℓ} (le : A → A → Bool) (P : A → Type κ) where
  pub insert_by-All : (a : A) (bs : List A) → P a → All P bs → All P (insert_by le a bs)
  unfolding insert_by
  insert_by-All a [] p h = (p, tt)
  insert_by-All a (b ∷ bs) p h =
      elim (le a b) as (λ t. All P (if t then a ∷ b ∷ bs else b ∷ insert_by le a bs)) [
        | true ↦ (p, h)
        | false ↦ (h.0, insert_by-All a bs p h.1)
      ]

  pub sort_by-All : (as' : List A) → All P as' → All P (sort_by le as')
  unfolding sort_by
  sort_by-All [] h = tt
  sort_by-All (a ∷ as') h = insert_by-All a (sort_by le as') h.0 (sort_by-All as' h.1)

module _ {A : Type 0} (le : A → A → Bool) where
  insert_by-In : (a b : A) (bs : List A) → In a (b ∷ bs) → In a (insert_by le b bs)
  unfolding insert_by
  insert_by-In a b [] h = h
  insert_by-In a b (c ∷ bs) h =
      elim (le b c) as (λ t. In a (if t then b ∷ c ∷ bs else c ∷ insert_by le b bs)) [
        | true ↦ h
        | false ↦ elim h [
          | inl e ↦ inr (insert_by-In a b bs (inl e))
          | inr k ↦ elim k [ inl e ↦ inl e | inr i ↦ inr (insert_by-In a b bs (inr i)) ]
        ]
      ]

  pub sort_by-In : (a : A) (as' : List A) → In a as' → In a (sort_by le as')
  unfolding sort_by
  sort_by-In a [] h = absurd h
  sort_by-In a (b ∷ as') (inl e) = insert_by-In a b (sort_by le as') (inl e)
  sort_by-In a (b ∷ as') (inr i) = insert_by-In a b (sort_by le as') (inr (sort_by-In a as' i))
