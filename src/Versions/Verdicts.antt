-- ===== src/Versions/Verdicts.antt =====
-- What it takes for a CVE to apply to the estate.
use ai_cybersecurity_soc_ana.Versions.Loops.{HasSome, assets_inside, inside_assets}
use ai_cybersecurity_soc_ana.Versions.Applicability.{
  AffectedRange, ApplicabilityEvidence, AssetContext, AssetSoftware, assess_applicability,
  assess_assets, assess_ranges, assess_software, classify, is_inside, is_outside,
}
use ai_cybersecurity_soc_ana.Versions.Evidence.{
  HasExposed, IsCleared, IsExposed, all-append, inside_one, one_inside, one_outside, outside_one,
}
use ai_cybersecurity_soc_ana.Common.{
  All, Bool, Bool-cases, List, [], all, any, arith, false, inl, inr, refl, true, ◌↔◌, ◌∷◌, ◌≡◌, ◌⊎◌,
}
use ai_cybersecurity_soc_ana.Versions.Product.{products_match}
use ai_cybersecurity_soc_ana.Enums.{confirmed, not_applicable}

classify_confirmed :
    (evidence : List ApplicabilityEvidence)
    → ((classify evidence).0 ≡ confirmed) ↔ (any is_inside evidence ≡ true)
unfolding classify
classify_confirmed [] = (λ h. absurd (ground arith), λ h. cc)
classify_confirmed (e ∷ es) = (λ h. ground arith, λ h. ground arith)

-- A CVE with a published range is confirmed exactly when some machine of the inventory runs a
-- product that it affects, in a version that can be read and lies inside a published range of that
-- product.
pub confirmed_iff :
    (r : AffectedRange) (rs : List AffectedRange) (assets : List AssetContext)
    → ((assess_applicability (r ∷ rs) assets).0 ≡ confirmed) ↔ HasExposed assets (r ∷ rs)
unfolding assess_applicability
confirmed_iff r rs assets =
    let evidence = assess_assets assets (r ∷ rs) in
    (
      λ h.
          inside_assets is_inside IsExposed one_inside (λ a i q x. x.matches) inside_one assets
            (r ∷ rs) ((classify_confirmed evidence).0 h),
      λ (a, i, q, k, n, m, x). (classify_confirmed evidence).1 (
          assets_inside is_inside IsExposed one_inside (λ a i q x. x.matches) inside_one a assets
            (r ∷ rs) k n m x),
    )

-- Every product of an inventory that a range is about is cleared of it.
abbrev pub AllCleared : List AssetContext → List AffectedRange → Type 0
AllCleared assets affected =
    All
      (λ a.
        All (λ i. All (λ r. (products_match i.product r.product ≡ false) ⊎ IsCleared i r) affected)
          a.software)
      assets

ranges-IsCleared :
    (asset : AssetContext) (i : AssetSoftware) (rs : List AffectedRange)
    → (all is_outside (assess_ranges asset i rs) ≡ true)
      ↔ All (λ r. (products_match i.product r.product ≡ false) ⊎ IsCleared i r) rs
unfolding assess_ranges
ranges-IsCleared asset i [] = (λ h. tt, λ h. refl)
ranges-IsCleared asset i (r ∷ rs) =
    let later = ranges-IsCleared asset i rs in
    elim (Bool-cases (products_match i.product r.product)) [
      | inl match ↦ rw match (
        λ h. (inr (one_outside asset i r (ground arith)), later.0 (ground arith)),
        λ (here, rest). elim here [
          | inl other ↦ absurd (cc)
          | inr cleared ↦ ground (arith, outside_one asset i r cleared, later.1 rest)
        ],
      )
      | inr other ↦ rw other (λ h. (inl refl, later.0 h), λ h. later.1 h.1)
    ]

software-IsCleared :
    (asset : AssetContext) (is : List AssetSoftware) (rs : List AffectedRange)
    → (all is_outside (assess_software asset is rs) ≡ true)
      ↔ All (λ i. All (λ r. (products_match i.product r.product ≡ false) ⊎ IsCleared i r) rs) is
unfolding assess_software
software-IsCleared asset [] rs = (λ h. tt, λ h. refl)
software-IsCleared asset (i ∷ is) rs =
    let here = ranges-IsCleared asset i rs in
    let later = software-IsCleared asset is rs in
    let both = all-append is_outside (assess_ranges asset i rs) (assess_software asset is rs) in
    (λ h. (here.0 (both.0 h).0, later.0 (both.0 h).1), λ (h, k). both.1 (here.1 h, later.1 k))

assets-AllCleared :
    (assets : List AssetContext) (rs : List AffectedRange)
    → (all is_outside (assess_assets assets rs) ≡ true) ↔ AllCleared assets rs
unfolding assess_assets
assets-AllCleared [] rs = (λ h. tt, λ h. refl)
assets-AllCleared (a ∷ assets) rs =
    let here = software-IsCleared a a.software rs in
    let later = assets-AllCleared assets rs in
    let both = all-append is_outside (assess_software a a.software rs) (assess_assets assets rs) in
    (λ h. (here.0 (both.0 h).0, later.0 (both.0 h).1), λ (h, k). both.1 (here.1 h, later.1 k))

outside-not_inside :
    (es : List ApplicabilityEvidence) → all is_outside es ≡ true → any is_inside es ≡ false
outside-not_inside [] h = refl
outside-not_inside (e ∷ es) h = ground (arith, outside-not_inside es)

is_some : ApplicabilityEvidence → Bool
is_some e = true

classify_not_applicable :
    (evidence : List ApplicabilityEvidence)
    → ((classify evidence).0 ≡ not_applicable)
      ↔ ((any is_some evidence ≡ true) × (all is_outside evidence ≡ true))
unfolding classify is_some
classify_not_applicable [] = (λ h. absurd (ground arith), λ h. absurd (cc))
classify_not_applicable (e ∷ es) =
    (λ h. ground arith, λ h. ground (arith, outside-not_inside (e ∷ es) h.1))

-- The product installed is one that the range is about.
abbrev pub IsMatch : AssetContext → AssetSoftware → AffectedRange → Type 0
IsMatch asset installed r = products_match installed.product r.product ≡ true

-- A CVE with a published range is ruled out for the estate exactly when some machine runs a product
-- that a range is about, and every such product, on every machine and for every such range, has a
-- version that can be read and that is decidedly not in the range: an unknown version or an
-- undecidable bound never clears a host.
pub ruled_out_iff :
    (r : AffectedRange) (rs : List AffectedRange) (assets : List AssetContext)
    → ((assess_applicability (r ∷ rs) assets).0 ≡ not_applicable)
      ↔ (HasSome IsMatch assets (r ∷ rs) × AllCleared assets (r ∷ rs))
unfolding assess_applicability is_some
ruled_out_iff r rs assets =
    let evidence = assess_assets assets (r ∷ rs) in
    let verdict = classify_not_applicable evidence in
    let cleared = assets-AllCleared assets (r ∷ rs) in
    (
      λ h.
          let (found, outside) = verdict.0 h in
          (
            inside_assets is_some IsMatch (λ a i q m s. m) (λ a i q m. m) (λ a i q m. refl) assets
                (r ∷ rs) found,
            cleared.0 outside,
          ),
      λ ((a, i, q, k, n, m, x), out). verdict.1 (
        assets_inside is_some IsMatch (λ a i q m s. m) (λ a i q m. m) (λ a i q m. refl) a assets
            (r ∷ rs) k n m x,
        cleared.1 out,
      ),
    )
