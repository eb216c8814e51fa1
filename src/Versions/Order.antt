-- ===== src/Versions/Order.antt =====
-- The order of versions: tuples of numbers compared from the left, a shorter one first.
use ai_cybersecurity_soc_ana.Common.{
  Bool, List, [], arith, false, inl, inr, ltb, refl, true, ℕ, ◌&&◌, ◌==◌, ◌||◌, ◌↔◌, ◌∷◌, ◌≡◌, ◌⊎◌,
  Bool-cases, ◌++◌,
}
use ai_cybersecurity_soc_ana.Versions.Version.{Version}

-- `a < b` on Python tuples of numbers.
pub lt_tuple : List ℕ → List ℕ → Bool
lt_tuple [] [] = false
lt_tuple [] (b ∷ t) = true
lt_tuple (a ∷ s) [] = false
lt_tuple (a ∷ s) (b ∷ t) = ltb a b || (a == b && lt_tuple s t)

pub eq_tuple : List ℕ → List ℕ → Bool
eq_tuple [] [] = true
eq_tuple (a ∷ s) (b ∷ t) = a == b && eq_tuple s t
eq_tuple s t = false

-- `<` of the dataclass: on `(release, final, prerelease)`.
unfoldable pub lt : Version → Version → Bool
unfolding lt_tuple eq_tuple
lt v w =
    lt_tuple v.release w.release
    || (eq_tuple v.release w.release
        && (ltb v.final w.final || (v.final == w.final && lt_tuple v.prerelease w.prerelease)))

unfoldable pub eq_key : Version → Version → Bool
unfolding eq_tuple
eq_key v w =
    eq_tuple v.release w.release && (v.final == w.final && eq_tuple v.prerelease w.prerelease)

unfoldable pub le : Version → Version → Bool
unfolding lt eq_key
le v w = lt v w || eq_key v w

pub eq_tuple_iff : (s t : List ℕ) → (eq_tuple s t ≡ true) ↔ (s ≡ t)
unfolding eq_tuple
eq_tuple_iff [] [] = (λ h. refl, λ h. refl)
eq_tuple_iff [] (b ∷ t) = (λ h. cc, λ h. cc)
eq_tuple_iff (a ∷ s) [] = (λ h. cc, λ h. cc)
eq_tuple_iff (a ∷ s) (b ∷ t) =
    let ih = eq_tuple_iff s t in (λ h. ground (arith, ih), λ h. ground (arith, ih))

lt_tuple_irrefl : (s : List ℕ) → lt_tuple s s ≡ false
unfolding lt_tuple
lt_tuple_irrefl [] = refl
lt_tuple_irrefl (a ∷ s) = ground (arith, lt_tuple_irrefl s)

lt_tuple_trans : (s t u : List ℕ) → lt_tuple s t ≡ true → lt_tuple t u ≡ true → lt_tuple s u ≡ true
unfolding lt_tuple
lt_tuple_trans [] [] u h k = cc
lt_tuple_trans [] (b ∷ t) [] h k = cc
lt_tuple_trans [] (b ∷ t) (c ∷ u) h k = refl
lt_tuple_trans (a ∷ s) [] u h k = cc
lt_tuple_trans (a ∷ s) (b ∷ t) [] h k = cc
lt_tuple_trans (a ∷ s) (b ∷ t) (c ∷ u) h k = ground (arith, lt_tuple_trans s t u)

lt_tuple_total : (s t : List ℕ) → (lt_tuple s t ≡ true) ⊎ ((s ≡ t) ⊎ (lt_tuple t s ≡ true))
unfolding lt_tuple
lt_tuple_total [] [] = inr (inl refl)
lt_tuple_total [] (b ∷ t) = inl refl
lt_tuple_total (a ∷ s) [] = inr (inr refl)
lt_tuple_total (a ∷ s) (b ∷ t) = ground (arith, lt_tuple_total s t)

-- The comparison is a strict total order on the sort keys: no version is below itself, it is
-- transitive, and two versions are ordered one way or the other unless their keys are equal.
lt_total_order :
    (v w u : Version)
    → (lt v v ≡ false)
      × (lt v w ≡ true → lt w u ≡ true → lt v u ≡ true)
      × ((lt v w ≡ true) ⊎ ((eq_key v w ≡ true) ⊎ (lt w v ≡ true)))
unfolding lt eq_key
lt_total_order v w u = (
  ground (
    arith,
    lt_tuple_irrefl v.release,
    lt_tuple_irrefl v.prerelease,
    eq_tuple_iff v.release v.release,
  ),
  λ h k. ground (
    arith,
    eq_tuple_iff v.release w.release,
    eq_tuple_iff w.release u.release,
    eq_tuple_iff v.release u.release,
    lt_tuple_trans v.release w.release u.release,
    lt_tuple_trans v.prerelease w.prerelease u.prerelease,
  ),
  ground (
    arith,
    lt_tuple_total v.release w.release,
    lt_tuple_total v.prerelease w.prerelease,
    eq_tuple_iff v.release w.release,
    eq_tuple_iff w.release v.release,
    eq_tuple_iff v.prerelease w.prerelease,
  ),
)

-- A pre-release sorts below the final release with the same numbers.
pub prerelease_below :
    (v w : Version)
    → v.release ≡ w.release
    → v.final ≡ 0
    → w.final ≡ 1
    → (lt v w ≡ true) × (le w v ≡ false)
unfolding le
prerelease_below v w same pre final = (
  ground (arith, eq_tuple_iff v.release w.release),
  ground (arith, eq_tuple_iff w.release v.release, lt_tuple_irrefl v.release),
)

lt_tuple_extend : (r : List ℕ) (n : ℕ) (s : List ℕ) → lt_tuple r (r ++ n ∷ s) ≡ true
unfolding lt_tuple
lt_tuple_extend [] n s = refl
lt_tuple_extend (a ∷ r) n s = ground (arith, lt_tuple_extend r n s)

lt_tuple_asym : (s t : List ℕ) → lt_tuple s t ≡ true → lt_tuple t s ≡ false
lt_tuple_asym s t h = elim (Bool-cases (lt_tuple t s)) [
  | inl back ↦ absurd (ground (arith, lt_tuple_trans s t s, lt_tuple_irrefl s))
  | inr done ↦ done
]

ne_of_lt_tuple : (s t : List ℕ) → lt_tuple s t ≡ true → eq_tuple t s ≡ false
ne_of_lt_tuple s t h = elim (Bool-cases (eq_tuple t s)) [
  | inl same ↦ absurd (ground (arith, eq_tuple_iff t s, lt_tuple_irrefl s))
  | inr done ↦ done
]

-- A version that only adds components, be they zeros, is strictly above: 2.0 is not within "up to
-- and including 2".
pub longer_is_above :
    (v w : Version) (n : ℕ) (s : List ℕ)
    → w.release ≡ v.release ++ n ∷ s
    → (lt v w ≡ true) × (le w v ≡ false)
unfolding le
longer_is_above v w n s e =
    let up : lt_tuple v.release w.release ≡ true = rw e (lt_tuple_extend v.release n s) in
    (
      ground arith,
      ground (arith, lt_tuple_asym v.release w.release up, ne_of_lt_tuple v.release w.release up),
    )
