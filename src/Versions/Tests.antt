-- ===== src/Versions/Tests.antt =====
-- Versions as inventories spell them.
use ai_cybersecurity_soc_ana.Versions.Applicability.{
  AffectedRange, AssetContext, assess_applicability, assess_one, in_vulnerable_range, reason_of,
}
use ai_cybersecurity_soc_ana.Versions.Verdicts.{AllCleared, IsMatch, confirmed_iff, ruled_out_iff}
use ai_cybersecurity_soc_ana.Versions.Loops.{HasSome}
use ai_cybersecurity_soc_ana.Common.{List, [], false, none, refl, some, true, ℕ, ◌↔◌, ◌∷◌, ◌≡◌}
use ai_cybersecurity_soc_ana.Versions.Evidence.{HasExposed}
use ai_cybersecurity_soc_ana.Enums.{CveApplicability}
use ai_cybersecurity_soc_ana.Versions.Ranges.{longer_version_is_cleared}
use ai_cybersecurity_soc_ana.Versions.Product.{products_match}
use ai_cybersecurity_soc_ana.Versions.Order.{le, lt, prerelease_below}
use ai_cybersecurity_soc_ana.Common.Text.{Text, codes}
use ai_cybersecurity_soc_ana.Versions.Version.{Version, parse_version}

abbrev version : List ℕ → ℕ → List ℕ → Text → Version
version release final prerelease text = record {
  release = release;
  final = final;
  prerelease = prerelease;
  text = text;
}

parses_v :
    parse_version (codes " v2.14.1 ") ≡ some (version (2 ∷ 14 ∷ 1 ∷ []) 1 [] (codes " v2.14.1 "))
unfolding parse_version
parses_v = refl

parses_rc :
    parse_version (codes "2.0-rc1") ≡ some (version (2 ∷ 0 ∷ []) 0 (4 ∷ 1 ∷ []) (codes "2.0-rc1"))
unfolding parse_version
parses_rc = refl

parses_release :
    parse_version (codes "1.2.3.RELEASE")
    ≡ some (version (1 ∷ 2 ∷ 3 ∷ []) 1 [] (codes "1.2.3.RELEASE"))
unfolding parse_version
parses_release = refl

refuses_words : parse_version (codes "unknown") ≡ none
unfolding parse_version
refuses_words = refl

abbrev at_least_2 : Version
at_least_2 = version (2 ∷ []) 1 [] (codes "2")

abbrev two_zero : Version
two_zero = version (2 ∷ 0 ∷ []) 1 [] (codes "2.0")

abbrev rc : Version
rc = version (2 ∷ 0 ∷ []) 0 (4 ∷ 1 ∷ []) (codes "2.0-rc1")

prerelease_below_instance : (lt rc two_zero ≡ true) × (le two_zero rc ≡ false)
prerelease_below_instance = prerelease_below rc two_zero refl refl refl

abbrev up_to_2 : AffectedRange
up_to_2 = record {
  product = codes "log4j-core";
  version_start_including = none;
  version_start_excluding = none;
  version_end_including = some (codes "2");
  version_end_excluding = none;
}

two_is_inside : in_vulnerable_range at_least_2 up_to_2 ≡ some true
unfolding in_vulnerable_range parse_version
two_is_inside = refl

longer_version_is_cleared_example : in_vulnerable_range two_zero up_to_2 ≡ some false
unfolding parse_version
longer_version_is_cleared_example =
    longer_version_is_cleared two_zero at_least_2 (codes "2") up_to_2 0 [] refl refl refl refl refl

abbrev web_host : AssetContext
web_host = record {
  hostname = codes "web-1";
  software = record { product = codes "Log4j Core"; version = some (codes "2") } ∷ [];
}

confirmed_iff_example :
    ((assess_applicability (up_to_2 ∷ []) (web_host ∷ [])).0 ≡ CveApplicability.confirmed)
    ↔ HasExposed (web_host ∷ []) (up_to_2 ∷ [])
confirmed_iff_example = confirmed_iff up_to_2 [] (web_host ∷ [])

confirms : (assess_applicability (up_to_2 ∷ []) (web_host ∷ [])).0 ≡ CveApplicability.confirmed
unfolding assess_applicability assess_one reason_of in_vulnerable_range parse_version products_match
confirms = refl

abbrev patched_host : AssetContext
patched_host = record {
  hostname = codes "web-2";
  software = record { product = codes "log4j core"; version = some (codes "3.1") } ∷ [];
}

rules_out :
    (assess_applicability (up_to_2 ∷ []) (patched_host ∷ [])).0 ≡ CveApplicability.not_applicable
unfolding assess_applicability assess_one reason_of in_vulnerable_range parse_version products_match
rules_out = refl

ruled_out_iff_example :
    ((assess_applicability (up_to_2 ∷ []) (patched_host ∷ [])).0 ≡ CveApplicability.not_applicable)
    ↔ (HasSome IsMatch (patched_host ∷ []) (up_to_2 ∷ [])
        × AllCleared (patched_host ∷ []) (up_to_2 ∷ []))
ruled_out_iff_example = ruled_out_iff up_to_2 [] (patched_host ∷ [])
