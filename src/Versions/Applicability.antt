-- ===== src/Versions/Applicability.antt =====
-- `in_vulnerable_range`, `assess_applicability` and `_assess_one`.
use ai_cybersecurity_soc_ana.Common.{
  Bool, List, Option, [], all, any, false, if◌then◌else◌, none, some, true, ◌&&◌, ◌++◌, ◌∷◌,
}
use ai_cybersecurity_soc_ana.Common.Text.{Text}
use ai_cybersecurity_soc_ana.Enums.{CveApplicability, confirmed, candidate, not_applicable}
use ai_cybersecurity_soc_ana.Versions.Version.{Version, parse_version}
use ai_cybersecurity_soc_ana.Versions.Order.{le, lt}
use ai_cybersecurity_soc_ana.Versions.Product.{products_match}

pub record AffectedRange : Type 0 where
  pub product : Text
  pub version_start_including : Option Text
  pub version_start_excluding : Option Text
  pub version_end_including : Option Text
  pub version_end_excluding : Option Text

pub record AssetSoftware : Type 0 where
  pub product : Text
  pub version : Option Text

pub record AssetContext : Type 0 where
  pub hostname : Text
  pub software : List AssetSoftware

pub data ApplicabilityReason : Type 0 where
  version_in_vulnerable_range version_not_in_vulnerable_range : ApplicabilityReason
  version_unknown version_unparseable : ApplicabilityReason
  no_affected_range_published product_not_in_inventory : ApplicabilityReason

-- The text of `detail` is left out; the last two reasons name no host.
pub record ApplicabilityEvidence : Type 0 where
  pub reason : ApplicabilityReason
  pub hostname : Text
  pub product : Text
  pub installed_version : Option Text
  pub matched_range : Option AffectedRange

-- `if not text`, for an optional text.
abbrev pub is_blank : Option Text → Bool
is_blank none = true
is_blank (some []) = true
is_blank (some (c ∷ s)) = false

unfoldable pub is_unbounded : AffectedRange → Bool
is_unbounded r =
    is_blank r.version_start_including
    && (is_blank r.version_start_excluding
        && (is_blank r.version_end_including && is_blank r.version_end_excluding))

-- The comparison that each bound demands of the version.
pub data Comparison : Type 0 where
  at_least above at_most below : Comparison

unfoldable pub satisfies : Comparison → Version → Version → Bool
unfolding le lt
satisfies at_least v bound = le bound v
satisfies above v bound = lt bound v
satisfies at_most v bound = le v bound
satisfies below v bound = lt v bound

unfoldable pub bounds_of : AffectedRange → List (Option Text × Comparison)
bounds_of r =
    (r.version_start_including, at_least)
    ∷ (r.version_start_excluding, above)
    ∷ (r.version_end_including, at_most)
    ∷ (r.version_end_excluding, below)
    ∷ []

-- `none` is the third answer, undecidable.
unfoldable pub check_bounds : Version → List (Option Text × Comparison) → Option Bool
check_bounds v [] = some true
check_bounds v ((none, c) ∷ bounds) = check_bounds v bounds
check_bounds v ((some raw, c) ∷ bounds) =
    let rest = check_bounds v bounds in
    elim (parse_version raw) [
      | none ↦ none
      | some bound ↦ if satisfies c v bound then rest else some false
    ]

unfoldable pub in_vulnerable_range : Version → AffectedRange → Option Bool
unfolding is_unbounded check_bounds bounds_of satisfies
in_vulnerable_range v r = if is_unbounded r then some true else check_bounds v (bounds_of r)

unfoldable pub range_reason : Option Bool → ApplicabilityReason
range_reason none = version_unparseable
range_reason (some true) = version_in_vulnerable_range
range_reason (some false) = version_not_in_vulnerable_range

unfoldable pub parsed_reason : Option Version → AffectedRange → ApplicabilityReason
unfolding range_reason
parsed_reason none r = version_unparseable
parsed_reason (some v) r = range_reason (in_vulnerable_range v r)

unfoldable pub reason_of : Option Text → AffectedRange → ApplicabilityReason
unfolding parsed_reason
reason_of none r = version_unknown
reason_of (some []) r = version_unknown
reason_of (some (c ∷ s)) r = parsed_reason (parse_version (c ∷ s)) r

-- `_assess_one`: without a version, the evidence names none.
unfoldable pub assess_one : AssetContext → AssetSoftware → AffectedRange → ApplicabilityEvidence
unfolding reason_of
assess_one asset installed r = record {
  reason = reason_of installed.version r;
  hostname = asset.hostname;
  product = installed.product;
  installed_version = if is_blank installed.version then none else installed.version;
  matched_range = some r;
}

-- The three nested loops of `assess_applicability`.
unfoldable pub assess_ranges :
    AssetContext → AssetSoftware → List AffectedRange → List ApplicabilityEvidence
assess_ranges asset installed [] = []
assess_ranges asset installed (r ∷ rs) =
    let rest = assess_ranges asset installed rs in
    if products_match installed.product r.product then assess_one asset installed r ∷ rest else rest

unfoldable pub assess_software :
    AssetContext → List AssetSoftware → List AffectedRange → List ApplicabilityEvidence
assess_software asset [] affected = []
assess_software asset (i ∷ is) affected =
    assess_ranges asset i affected ++ assess_software asset is affected

unfoldable pub assess_assets : List AssetContext → List AffectedRange → List ApplicabilityEvidence
unfolding assess_software assess_ranges
assess_assets [] affected = []
assess_assets (a ∷ assets) affected =
    assess_software a a.software affected ++ assess_assets assets affected

abbrev pub is_inside : ApplicabilityEvidence → Bool
is_inside e = elim (e.reason) [ version_in_vulnerable_range ↦ true | _ ↦ false ]

abbrev pub is_outside : ApplicabilityEvidence → Bool
is_outside e = elim (e.reason) [ version_not_in_vulnerable_range ↦ true | _ ↦ false ]

unfoldable pub nowhere : ApplicabilityReason → ApplicabilityEvidence
nowhere reason = record {
  reason = reason;
  hostname = [];
  product = [];
  installed_version = none;
  matched_range = none;
}

unfoldable pub classify : List ApplicabilityEvidence → CveApplicability × List ApplicabilityEvidence
unfolding nowhere
classify [] = (candidate, nowhere product_not_in_inventory ∷ [])
classify (e ∷ es) =
    if any is_inside (e ∷ es)
    then (confirmed, e ∷ es)
    else if all is_outside (e ∷ es)
    then (not_applicable, e ∷ es)
    else (candidate, e ∷ es)

unfoldable pub assess_applicability :
    List AffectedRange → List AssetContext → CveApplicability × List ApplicabilityEvidence
unfolding nowhere classify assess_assets
assess_applicability [] assets = (candidate, nowhere no_affected_range_published ∷ [])
assess_applicability (r ∷ rs) assets = classify (assess_assets assets (r ∷ rs))
