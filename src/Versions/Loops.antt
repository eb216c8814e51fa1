-- ===== src/Versions/Loops.antt =====
-- The three loops of `assess_applicability`, for any test of the evidence.
use ai_cybersecurity_soc_ana.Versions.Product.{products_match}
use ai_cybersecurity_soc_ana.Versions.Evidence.{any_append_left, any_append_right, any_of_append}
use ai_cybersecurity_soc_ana.Common.{
  Bool, Bool-cases, List, [], any, arith, inl, inr, refl, true, ◌∷◌, ◌≡◌,
}
use ai_cybersecurity_soc_ana.Versions.Applicability.{
  AffectedRange, ApplicabilityEvidence, AssetContext, AssetSoftware, assess_assets, assess_one,
  assess_ranges, assess_software,
}
use mathlib.Core.List.{Memᴰ}
use mathlib.Core.Path.{subst}

-- Some machine, some product installed on it and some range are so related.
abbrev pub HasSome :
    (AssetContext → AssetSoftware → AffectedRange → Type 0)
    → List AssetContext
    → List AffectedRange
    → Type 0
HasSome P assets affected =
    (asset : AssetContext) × (installed : AssetSoftware) × (r : AffectedRange) × Memᴰ asset assets
    × Memᴰ installed asset.software
    × Memᴰ r affected
    × P asset installed r

-- A test of the evidence that means `P`, on products that match.
module _ (test : ApplicabilityEvidence → Bool)
    (P : AssetContext → AssetSoftware → AffectedRange → Type 0)
    (sound : (a : AssetContext) (i : AssetSoftware) (r : AffectedRange)
      → products_match i.product r.product ≡ true
      → test (assess_one a i r) ≡ true
      → P a i r)
    (matched : (a : AssetContext) (i : AssetSoftware) (r : AffectedRange)
      → P a i r
      → products_match i.product r.product ≡ true)
    (holds : (a : AssetContext) (i : AssetSoftware) (r : AffectedRange)
      → P a i r
      → test (assess_one a i r) ≡ true) where
  inside_ranges :
      (asset : AssetContext) (i : AssetSoftware) (rs : List AffectedRange)
      → any test (assess_ranges asset i rs) ≡ true
      → (r : AffectedRange) × Memᴰ r rs × P asset i r
  unfolding assess_ranges
  inside_ranges asset i [] h = cc
  inside_ranges asset i (r ∷ rs) h =
      let later = inside_ranges asset i rs in
      elim (Bool-cases (products_match i.product r.product)) [
        | inl match ↦ elim (Bool-cases (test (assess_one asset i r))) [
          | inl here ↦ (r, Memᴰ.head refl, sound asset i r match here)
          | inr not_here ↦ let (q, m, x) = later (ground arith) in (q, Memᴰ.tail m, x)
        ]
        | inr other ↦ let (q, m, x) = later (ground arith) in (q, Memᴰ.tail m, x)
      ]

  ranges_inside :
      (asset : AssetContext) (i : AssetSoftware) {r : AffectedRange} (rs : List AffectedRange)
      → Memᴰ r rs
      → P asset i r
      → any test (assess_ranges asset i rs) ≡ true
  unfolding assess_ranges
  ranges_inside asset i [] m x = elim m [ ]
  ranges_inside asset i {r} (q ∷ rs) (Memᴰ.head e) x =
      let found = holds asset i r x in
      let match = matched asset i r x in
      subst (λ p. any test (assess_ranges asset i (p ∷ rs)) ≡ true) e (ground arith)
  ranges_inside asset i (q ∷ rs) (Memᴰ.tail m) x = ground (arith, ranges_inside asset i rs m x)

  inside_software :
      (asset : AssetContext) (is : List AssetSoftware) (rs : List AffectedRange)
      → any test (assess_software asset is rs) ≡ true
      → (i : AssetSoftware) × (r : AffectedRange) × Memᴰ i is × Memᴰ r rs × P asset i r
  unfolding assess_software
  inside_software asset [] rs h = cc
  inside_software asset (i ∷ is) rs h =
      let later = inside_software asset is rs in
      elim (any_of_append test (assess_ranges asset i rs) (assess_software asset is rs) h) [
        | inl here ↦ let (r, m, x) = inside_ranges asset i rs here in (i, r, Memᴰ.head refl, m, x)
        | inr there ↦ let (j, r, n, m, x) = later there in (j, r, Memᴰ.tail n, m, x)
      ]

  software_inside :
      (asset : AssetContext) {i : AssetSoftware} {r : AffectedRange} (is : List AssetSoftware)
      (rs : List AffectedRange)
      → Memᴰ i is
      → Memᴰ r rs
      → P asset i r
      → any test (assess_software asset is rs) ≡ true
  unfolding assess_software
  software_inside asset [] rs n m x = elim n [ ]
  software_inside asset {i} (j ∷ is) rs (Memᴰ.head e) m x =
      any_append_left test (assess_ranges asset j rs) (assess_software asset is rs)
        (subst (λ p. any test (assess_ranges asset p rs) ≡ true) e (ranges_inside asset i rs m x))
  software_inside asset (j ∷ is) rs (Memᴰ.tail n) m x =
      any_append_right test (assess_ranges asset j rs) (assess_software asset is rs)
        (software_inside asset is rs n m x)

  pub inside_assets :
      (assets : List AssetContext) (rs : List AffectedRange)
      → any test (assess_assets assets rs) ≡ true
      → HasSome P assets rs
  unfolding assess_assets
  inside_assets [] rs h = cc
  inside_assets (a ∷ assets) rs h =
      let later = inside_assets assets rs in
      elim (any_of_append test (assess_software a a.software rs) (assess_assets assets rs) h) [
        | inl here ↦
            let (i, r, n, m, x) = inside_software a a.software rs here in
            (a, i, r, Memᴰ.head refl, n, m, x)
        | inr there ↦ let (b, i, r, k, n, m, x) = later there in (b, i, r, Memᴰ.tail k, n, m, x)
      ]

  pub assets_inside :
      (a : AssetContext) {i : AssetSoftware} {r : AffectedRange} (assets : List AssetContext)
      (rs : List AffectedRange)
      → Memᴰ a assets
      → Memᴰ i a.software
      → Memᴰ r rs
      → P a i r
      → any test (assess_assets assets rs) ≡ true
  unfolding assess_assets
  assets_inside a [] rs k n m x = elim k [ ]
  assets_inside a (b ∷ assets) rs (Memᴰ.head e) n m x =
      any_append_left test (assess_software b b.software rs) (assess_assets assets rs) (
        subst (λ p. any test (assess_software p p.software rs) ≡ true) e
          (software_inside a a.software rs n m x))
  assets_inside a (b ∷ assets) rs (Memᴰ.tail k) n m x =
      any_append_right test (assess_software b b.software rs) (assess_assets assets rs)
        (assets_inside a assets rs k n m x)
