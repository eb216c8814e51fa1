-- ===== src/Versions/Ranges.antt =====
-- What the three answers of `in_vulnerable_range` rest on.
use ai_cybersecurity_soc_ana.Versions.Order.{longer_is_above}
use ai_cybersecurity_soc_ana.Versions.Applicability.{
  AffectedRange, Comparison, bounds_of, check_bounds, in_vulnerable_range, is_blank, is_unbounded,
  satisfies,
}
use mathlib.Core.Path.{subst}
use mathlib.Core.List.{Memᴰ}
use ai_cybersecurity_soc_ana.Common.{
  Bool, List, Option, [], false, none, some, true, ◌∷◌, ◌≡◌, Bool-cases, Option-cases, inl, inr,
  refl, sym, ℕ, ◌++◌, ◌⊎◌, arith, ◌∙◌,
}
use ai_cybersecurity_soc_ana.Common.Text.{Text}
use ai_cybersecurity_soc_ana.Versions.Version.{Version, parse_version}

-- Every bound that is given can be read, and the version satisfies it.
abbrev pub HoldsAll : Version → List (Option Text × Comparison) → Type 0
HoldsAll v [] = Unit {0}
HoldsAll v ((none, c) ∷ bounds) = HoldsAll v bounds
HoldsAll v ((some raw, c) ∷ bounds) =
    ((bound : Version) × (parse_version raw ≡ some bound) × (satisfies c v bound ≡ true))
    × HoldsAll v bounds

-- Some bound is given, can be read, and the version fails it.
abbrev pub FailsSome : Version → List (Option Text × Comparison) → Type 0
FailsSome v bounds =
    (raw : Text) × (c : Comparison) × (bound : Version) × Memᴰ (some raw, c) bounds
    × (parse_version raw ≡ some bound)
    × (satisfies c v bound ≡ false)

-- Some bound is given and cannot be read.
abbrev pub HasUnreadable : List (Option Text × Comparison) → Type 0
HasUnreadable bounds =
    (raw : Text) × (c : Comparison) × Memᴰ (some raw, c) bounds × (parse_version raw ≡ none)

-- What each answer about the bounds means.
abbrev pub Explains : Version → List (Option Text × Comparison) → Option Bool → Type 0
Explains v bounds none = HasUnreadable bounds
Explains v bounds (some true) = HoldsAll v bounds
Explains v bounds (some false) = FailsSome v bounds

explain_later :
    (v : Version) (raw : Option Text) (c : Comparison) (bounds : List (Option Text × Comparison))
    (answer : Option Bool)
    → (HoldsAll v bounds → HoldsAll v ((raw, c) ∷ bounds))
    → Explains v bounds answer
    → Explains v ((raw, c) ∷ bounds) answer
explain_later v raw c bounds none keep (raw', c', m, e) = (raw', c', Memᴰ.tail m, e)
explain_later v raw c bounds (some true) keep h = keep h
explain_later v raw c bounds (some false) keep (raw', c', b, m, e, f) =
    (raw', c', b, Memᴰ.tail m, e, f)

unbounded_answer :
    (v : Version) (r : AffectedRange) → is_unbounded r ≡ true → in_vulnerable_range v r ≡ some true
unfolding in_vulnerable_range
unbounded_answer v r e = rw e refl

bounded_answer :
    (v : Version) (r : AffectedRange)
    → is_unbounded r ≡ false
    → in_vulnerable_range v r ≡ check_bounds v (bounds_of r)
unfolding in_vulnerable_range
bounded_answer v r e = rw e refl

module _ (v : Version) (raw : Text) (c : Comparison)
    (bounds : List (Option Text × Comparison)) where
  check_unread : parse_version raw ≡ none → check_bounds v ((some raw, c) ∷ bounds) ≡ none
  unfolding check_bounds
  check_unread e = ground arith

  check_good :
      (bound : Version)
      → parse_version raw ≡ some bound
      → satisfies c v bound ≡ true
      → check_bounds v ((some raw, c) ∷ bounds) ≡ check_bounds v bounds
  unfolding check_bounds
  check_good bound e f = ground arith

  check_bad :
      (bound : Version)
      → parse_version raw ≡ some bound
      → satisfies c v bound ≡ false
      → check_bounds v ((some raw, c) ∷ bounds) ≡ some false
  unfolding check_bounds
  check_bad bound e f = ground arith

check_bounds-Explains :
    (v : Version) (bounds : List (Option Text × Comparison))
    → Explains v bounds (check_bounds v bounds)
unfolding check_bounds
check_bounds-Explains v [] = tt
check_bounds-Explains v ((none, c) ∷ bounds) =
    explain_later v none c bounds (check_bounds v bounds) (λ h. h) (check_bounds-Explains v bounds)
check_bounds-Explains v ((some raw, c) ∷ bounds) =
    let later = check_bounds-Explains v bounds in
    let all_bounds = (some raw, c) ∷ bounds in
    elim (Option-cases (parse_version raw)) [
      | inl unread ↦
          subst (Explains v all_bounds) (sym (check_unread v raw c bounds unread))
            (raw, c, Memᴰ.head refl, unread)
      | inr (bound, read) ↦ elim (Bool-cases (satisfies c v bound)) [
        | inl good ↦
            subst (Explains v all_bounds) (sym (check_good v raw c bounds bound read good)) (
              explain_later v (some raw) c bounds (check_bounds v bounds)
                (λ h. ((bound, read, good), h)) later)
        | inr bad ↦
            subst (Explains v all_bounds) (sym (check_bad v raw c bounds bound read bad))
              (raw, c, bound, Memᴰ.head refl, read, bad)
      ]
    ]

-- Each answer has its ground: "inside" means that the range has no bounds or that every bound given
-- was read and is satisfied; "outside" that some bound given was read and fails; "undecidable" that
-- some bound given could not be read. So no host is cleared by a bound that nobody could read.
range_answer_explained :
    (v : Version) (r : AffectedRange)
    → ((is_unbounded r ≡ true) × (in_vulnerable_range v r ≡ some true))
      ⊎ ((is_unbounded r ≡ false) × Explains v (bounds_of r) (in_vulnerable_range v r))
range_answer_explained v r = elim (Bool-cases (is_unbounded r)) [
  | inl free ↦ inl (free, unbounded_answer v r free)
  | inr bound ↦ inr (
    bound,
    subst (Explains v (bounds_of r)) (sym (bounded_answer v r bound))
        (check_bounds-Explains v (bounds_of r)),
  )
]

readable_is_not_blank :
    (raw : Text) {v : Version} → parse_version raw ≡ some v → is_blank (some raw) ≡ false
unfolding parse_version
readable_is_not_blank [] e = cc
readable_is_not_blank (c ∷ s) e = refl

-- A host whose version only adds components to the last vulnerable one is cleared: a range up to
-- and including 2 does not hold 2.0.
pub longer_version_is_cleared :
    (v last : Version) (raw : Text) (r : AffectedRange) (n : ℕ) (s : List ℕ)
    → r.version_start_including ≡ none
    → r.version_start_excluding ≡ none
    → r.version_end_including ≡ some raw
    → parse_version raw ≡ some last
    → v.release ≡ last.release ++ n ∷ s
    → in_vulnerable_range v r ≡ some false
unfolding bounds_of check_bounds satisfies is_unbounded
longer_version_is_cleared v last raw r n s a b c read longer =
    let (_, above_last) = longer_is_above last v n s longer in
    let given = readable_is_not_blank raw read in bounded_answer v r (ground arith) ∙ ground arith
