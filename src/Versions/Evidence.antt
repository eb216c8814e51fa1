-- ===== src/Versions/Evidence.antt =====
-- The evidence that `_assess_one` gives on one product and one range.
use ai_cybersecurity_soc_ana.Versions.Applicability.{
  AffectedRange, AssetContext, AssetSoftware, assess_one, in_vulnerable_range, is_inside,
  is_outside, parsed_reason, reason_of, version_in_vulnerable_range,
  version_not_in_vulnerable_range,
}
use ai_cybersecurity_soc_ana.Common.{
  Bool, List, Option, [], all, any, ap, arith, false, inr, none, refl, some, true, ◌++◌, ◌↔◌, ◌∙◌,
  ◌∷◌, ◌≡◌, ◌⊎◌,
}
use ai_cybersecurity_soc_ana.Versions.Product.{products_match}
use ai_cybersecurity_soc_ana.Versions.Version.{Version, parse_version}
use ai_cybersecurity_soc_ana.Common.Text.{Text}
use mathlib.Core.List.{Memᴰ}

-- The full chain for one machine: a named product that the advisory affects, an installed version
-- that can be read, and a published range that holds it.
pub record IsExposed (asset : AssetContext) (installed : AssetSoftware) (r : AffectedRange)
    : Type 0 where
  pub matches : products_match installed.product r.product ≡ true
  pub text : Text
  pub version : Version
  pub recorded : installed.version ≡ some text
  pub read : parse_version text ≡ some version
  pub inside : in_vulnerable_range version r ≡ some true

-- The installed version can be read, and the range decidedly does not hold it.
pub record IsCleared (installed : AssetSoftware) (r : AffectedRange) : Type 0 where
  pub text : Text
  pub version : Version
  pub recorded : installed.version ≡ some text
  pub read : parse_version text ≡ some version
  pub outside : in_vulnerable_range version r ≡ some false

-- Some machine of the estate is exposed.
abbrev pub HasExposed : List AssetContext → List AffectedRange → Type 0
HasExposed assets affected =
    (asset : AssetContext) × (installed : AssetSoftware) × (r : AffectedRange) × Memᴰ asset assets
    × Memᴰ installed asset.software
    × Memᴰ r affected
    × IsExposed asset installed r

module _ {A : Type 0} where
  pub any_append_left : (p : A → Bool) (xs ys : List A) → any p xs ≡ true → any p (xs ++ ys) ≡ true
  any_append_left p [] ys h = cc
  any_append_left p (x ∷ xs) ys h = ground (arith, any_append_left p xs ys)

  pub any_append_right : (p : A → Bool) (xs ys : List A) → any p ys ≡ true → any p (xs ++ ys) ≡ true
  any_append_right p [] ys h = h
  any_append_right p (x ∷ xs) ys h = ground (arith, any_append_right p xs ys h)

  pub any_of_append :
      (p : A → Bool) (xs ys : List A)
      → any p (xs ++ ys) ≡ true
      → (any p xs ≡ true) ⊎ (any p ys ≡ true)
  any_of_append p [] ys h = inr h
  any_of_append p (x ∷ xs) ys h = ground (arith, any_of_append p xs ys)

module _ {A : Type 0} where
  pub all-append :
      (p : A → Bool) (xs ys : List A)
      → (all p (xs ++ ys) ≡ true) ↔ ((all p xs ≡ true) × (all p ys ≡ true))
  all-append p [] ys = (λ h. (refl, h), λ h. h.1)
  all-append p (x ∷ xs) ys =
      let rest = all-append p xs ys in (λ h. ground (arith, rest.0), λ h. ground (arith, rest.1))

inside_parsed :
    (o : Option Version) (r : AffectedRange)
    → parsed_reason o r ≡ version_in_vulnerable_range
    → (v : Version) × (o ≡ some v) × (in_vulnerable_range v r ≡ some true)
unfolding parsed_reason
inside_parsed none r h = absurd (ground arith)
inside_parsed (some v) r h = (v, refl, ground arith)

reason_inside :
    (version : Option Text) (r : AffectedRange)
    → reason_of version r ≡ version_in_vulnerable_range
    → (text : Text) × (v : Version) × (version ≡ some text)
      × (parse_version text ≡ some v)
      × (in_vulnerable_range v r ≡ some true)
unfolding reason_of
reason_inside none r h = absurd (ground arith)
reason_inside (some []) r h = absurd (ground arith)
reason_inside (some (c ∷ s)) r h =
    let (v, read, inside) = inside_parsed (parse_version (c ∷ s)) r h in
    (c ∷ s, v, refl, read, inside)

parse_empty : parse_version [] ≡ none
unfolding parse_version
parse_empty = refl

inside_reason :
    (text : Text) (v : Version) (r : AffectedRange)
    → parse_version text ≡ some v
    → in_vulnerable_range v r ≡ some true
    → reason_of (some text) r ≡ version_in_vulnerable_range
unfolding reason_of
inside_reason [] v r e f = absurd (ground (arith, parse_empty))
inside_reason (c ∷ s) v r e f = rw e (rw f refl)

pub one_inside :
    (asset : AssetContext) (i : AssetSoftware) (r : AffectedRange)
    → products_match i.product r.product ≡ true
    → is_inside (assess_one asset i r) ≡ true
    → IsExposed asset i r
unfolding assess_one
one_inside asset i r m h =
    let (text, v, recorded, read, inside) = reason_inside i.version r (ground arith) in
    record {
      matches = m;
      text = text;
      version = v;
      recorded = recorded;
      read = read;
      inside = inside;
    }

pub inside_one :
    (asset : AssetContext) (i : AssetSoftware) (r : AffectedRange)
    → IsExposed asset i r
    → is_inside (assess_one asset i r) ≡ true
unfolding assess_one
inside_one asset i r x =
    let reason : reason_of i.version r ≡ version_in_vulnerable_range =
      ap (λ t. reason_of t r) x.recorded ∙ inside_reason x.text x.version r x.read x.inside in
    ground arith

outside_parsed :
    (o : Option Version) (r : AffectedRange)
    → parsed_reason o r ≡ version_not_in_vulnerable_range
    → (v : Version) × (o ≡ some v) × (in_vulnerable_range v r ≡ some false)
unfolding parsed_reason
outside_parsed none r h = absurd (ground arith)
outside_parsed (some v) r h = (v, refl, ground arith)

reason_outside :
    (version : Option Text) (r : AffectedRange)
    → reason_of version r ≡ version_not_in_vulnerable_range
    → (text : Text) × (v : Version) × (version ≡ some text)
      × (parse_version text ≡ some v)
      × (in_vulnerable_range v r ≡ some false)
unfolding reason_of
reason_outside none r h = absurd (ground arith)
reason_outside (some []) r h = absurd (ground arith)
reason_outside (some (c ∷ s)) r h =
    let (v, read, outside) = outside_parsed (parse_version (c ∷ s)) r h in
    (c ∷ s, v, refl, read, outside)

outside_reason :
    (text : Text) (v : Version) (r : AffectedRange)
    → parse_version text ≡ some v
    → in_vulnerable_range v r ≡ some false
    → reason_of (some text) r ≡ version_not_in_vulnerable_range
unfolding reason_of
outside_reason [] v r e f = absurd (ground (arith, parse_empty))
outside_reason (c ∷ s) v r e f = rw e (rw f refl)

pub one_outside :
    (asset : AssetContext) (i : AssetSoftware) (r : AffectedRange)
    → is_outside (assess_one asset i r) ≡ true
    → IsCleared i r
unfolding assess_one
one_outside asset i r h =
    let (text, v, recorded, read, outside) = reason_outside i.version r (ground arith) in
    record { text = text; version = v; recorded = recorded; read = read; outside = outside }

pub outside_one :
    (asset : AssetContext) (i : AssetSoftware) (r : AffectedRange)
    → IsCleared i r
    → is_outside (assess_one asset i r) ≡ true
unfolding assess_one
outside_one asset i r x =
    let reason : reason_of i.version r ≡ version_not_in_vulnerable_range =
      ap (λ t. reason_of t r) x.recorded ∙ outside_reason x.text x.version r x.read x.outside in
    ground arith
