-- ===== src/Memory/Nested.antt =====
-- Python dictionaries of dictionaries, as the in-process stores keep them.
use ai_cybersecurity_soc_ana.Common.{
  All, Bool, List, Option, [], arith, false, if◌then◌else◌, none, refl, some, sym, true, ℕ, ◌==◌,
  ◌∷◌, ◌≡◌,
}
use ai_cybersecurity_soc_ana.Common.Dict.{
  Dict, HasDistinctKeys, erase, insert, insert-HasDistinctKeys, lookup, lookup-erase, lookup-insert,
}
use mathlib.Core.Path.{subst}

module _ {V : Type 0} where
  -- `d.get(i, {})`
  abbrev pub inner : ℕ → Dict (Dict V) → Dict V
  inner i d = elim (lookup i d) [ none ↦ [] | some fields ↦ fields ]

  -- `d.get(i, {}).get(k)`
  unfoldable pub find : ℕ → ℕ → Dict (Dict V) → Option V
  unfolding lookup
  find i k d = lookup k (inner i d)

  -- `d.setdefault(i, {})[k] = v`
  unfoldable pub put : ℕ → ℕ → V → Dict (Dict V) → Dict (Dict V)
  unfolding insert lookup
  put i k v d = insert i (insert k v (inner i d)) d

  lookup-nothing : (q : ℕ) → lookup {V = V} q [] ≡ none
  unfolding lookup
  lookup-nothing q = refl

  pub find-put :
      (i k : ℕ) (v : V) (d : Dict (Dict V)) (j q : ℕ)
      → find j q (put i k v d)
        ≡ (if i == j then (if k == q then some v else find j q d) else find j q d)
  unfolding find put
  find-put i k v d j q = ground (
    arith,
    lookup-insert i j (insert k v (inner i d)) d,
    lookup-insert k q v (inner i d),
    lookup-nothing q,
  )

  pub find-erase :
      (i : ℕ) (d : Dict (Dict V)) (j q : ℕ)
      → find j q (erase i d) ≡ (if i == j then none else find j q d)
  unfolding find
  find-erase i d j q = ground (arith, lookup-erase i j d, lookup-nothing q)

  pub inner-put :
      (i k : ℕ) (v : V) (d : Dict (Dict V)) (j : ℕ)
      → inner j (put i k v d) ≡ (if i == j then insert k v (inner i d) else inner j d)
  unfolding put
  inner-put i k v d j = ground (arith, lookup-insert i j (insert k v (inner i d)) d)

  pub inner-put-HasDistinctKeys :
      (i k : ℕ) (v : V) (d : Dict (Dict V))
      → ((j : ℕ) → HasDistinctKeys (inner j d))
      → (j : ℕ) → HasDistinctKeys (inner j (put i k v d))
  inner-put-HasDistinctKeys i k v d h j =
      subst (λ x. HasDistinctKeys x) (sym (inner-put i k v d j))
        (either _ _ (i == j) (insert-HasDistinctKeys k v (inner i d) (h i)) (h j))
    where
      either :
          (a b : Dict V) (test : Bool)
          → HasDistinctKeys a
          → HasDistinctKeys b
          → HasDistinctKeys (if test then a else b)
      either a b true x y = x
      either a b false x y = y

-- Every item of a dictionary is what a lookup of its key gives.
All-lookup_shadowed :
    {V : Type 0} (k : ℕ) (v : V) (d l : Dict V)
    → lookup k l ≡ none
    → All (λ (x : ℕ × V). lookup (x.0) d ≡ some (x.1)) l
    → All (λ (x : ℕ × V). lookup (x.0) ((k, v) ∷ d) ≡ some (x.1)) l
unfolding lookup
All-lookup_shadowed k v d [] h a = tt
All-lookup_shadowed k v d ((j, w) ∷ l) h a =
    (ground (arith, h, a.0), All-lookup_shadowed k v d l (ground (arith, h)) a.1)

pub All-lookup :
    {V : Type 0} (d : Dict V)
    → HasDistinctKeys d
    → All (λ (x : ℕ × V). lookup (x.0) d ≡ some (x.1)) d
unfolding lookup
All-lookup [] h = tt
All-lookup ((k, v) ∷ d) h = (ground arith, All-lookup_shadowed k v d d h.0 (All-lookup d h.1))

pub All-if :
    {A : Type 0} (P : A → Type 0) (test : Bool) (xs ys : List A)
    → All P xs
    → All P ys
    → All P (if test then xs else ys)
All-if P true xs ys h k = h
All-if P false xs ys h k = k
