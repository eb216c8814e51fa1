-- ===== src/Common/Sets.antt =====
-- Python sets of identifiers, as lists without repetition.
use Prim.Native.Nat.{ℕ, ◌≤◌}
use mathlib.Core.Path.{◌≡◌, ◌∙◌, ap, refl, sym}
use mathlib.Core.Logic.{◌↔◌, ◌≢◌, inl, inr}
use mathlib.Core.Bool.{Bool, false, true, ◌||◌}
use mathlib.Core.List.{List, [], ◌∷◌}
use native.Mathlib.Omega.{arith}
use ai_cybersecurity_soc_ana.Common.Tests.{Bool-cases, ◌==◌, if◌then◌else◌}
use ai_cybersecurity_soc_ana.Common.Lists.{length}

abbrev pub contains : ℕ → List ℕ → Bool
contains a [] = false
contains a (x ∷ xs) = a == x || contains a xs

-- `{a for a in l}`
unfoldable pub to_set : List ℕ → List ℕ
to_set [] = []
to_set (x ∷ xs) = if contains x xs then to_set xs else x ∷ to_set xs

-- `s - t`
unfoldable pub difference : List ℕ → List ℕ → List ℕ
difference [] t = []
difference (x ∷ xs) t = if contains x t then difference xs t else x ∷ difference xs t

pub contains-to_set : (a : ℕ) (l : List ℕ) → contains a (to_set l) ≡ contains a l
unfolding to_set
contains-to_set a [] = refl
contains-to_set a (x ∷ xs) = ground (arith, contains-to_set a xs)

pub length-to_set-cons : (x : ℕ) (l : List ℕ) → length (to_set l) ≤ length (to_set (x ∷ l))
unfolding to_set
length-to_set-cons x l = ground arith

pub length-to_set-le : (l : List ℕ) → length (to_set l) ≤ length l
unfolding to_set
length-to_set-le [] = omega arith
length-to_set-le (x ∷ l) = ground (arith, length-to_set-le l)

both_in : (a b : ℕ) (l : List ℕ) → contains a l ≡ true → contains b l ≡ true → a ≢ b → 2 ≤ length l
both_in a b [] h k n = absurd (cc)
both_in a b (x ∷ []) h k n = ground arith
both_in a b (x ∷ y ∷ l) h k n = omega arith

head_in : (x : ℕ) (l s : List ℕ) → x ∷ l ≡ to_set s → contains x s ≡ true
head_in x l s e = sym (contains-to_set x s) ∙ ap (contains x) (sym e) ∙ ground arith

-- Two different numbers are in the list.
abbrev pub HasTwo : List ℕ → Type 0
HasTwo l = (a : ℕ) × (b : ℕ) × (contains a l ≡ true) × (contains b l ≡ true) × (a ≢ b)

second_member :
    (x : ℕ) (xs s : List ℕ)
    → s ≡ to_set xs
    → contains x xs ≡ false
    → 2 ≤ length (x ∷ s)
    → HasTwo (x ∷ xs)
second_member x xs [] e h k = absurd (omega arith)
second_member x xs (y ∷ s) e h k =
    let in_rest = head_in y s xs e in
    (
      x,
      y,
      ground arith,
      ground (arith, in_rest),
      λ same. let here : contains x xs ≡ true = rw same in_rest in cc,
    )

members_of_set : (l : List ℕ) → 2 ≤ length (to_set l) → HasTwo l
unfolding to_set
members_of_set [] h = absurd (omega arith)
members_of_set (x ∷ xs) h = elim (Bool-cases (contains x xs)) [
  | inl again ↦
      let (a, b, i, j, n) = members_of_set xs (ground arith) in
      (a, b, ground (arith, i), ground (arith, j), n)
  | inr new ↦ second_member x xs (to_set xs) refl new (ground (arith, new))
]

-- Two different members are what a set of two or more has.
pub two_members_iff : (l : List ℕ) → (2 ≤ length (to_set l)) ↔ HasTwo l
two_members_iff l = (
  members_of_set l,
  λ (a, b, h, k, n). both_in a b (to_set l) (contains-to_set a l ∙ h) (contains-to_set b l ∙ k) n,
)
