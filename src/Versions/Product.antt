-- ===== src/Versions/Product.antt =====
-- Whether an inventory entry names the product that an advisory affects, and how well.
use ai_cybersecurity_soc_ana.Common.{
  Bool, List, [], arith, false, if◌then◌else◌, leb, length, ltb, min, not, refl, true, ℕ, ◌&&◌, ◌<◌,
  ◌||◌, ◌∷◌, ◌≡◌,
}
use ai_cybersecurity_soc_ana.Common.Text.{
  Text, codes, contains_text, eq_text, eq_text_refl, is_digit, is_lower, is_substring, keep_texts,
  lower, split, to_text_set,
}

-- `[a-z0-9]`
is_name_char : ℕ → Bool
is_name_char c = is_lower c || is_digit c

not_name_char : ℕ → Bool
unfolding is_name_char
not_name_char c = not (is_name_char c)

keep_name_chars : Text → Text
keep_name_chars [] = []
keep_name_chars (c ∷ s) = if is_name_char c then c ∷ keep_name_chars s else keep_name_chars s

unfoldable pub normalize_product : Text → Text
unfolding keep_name_chars is_name_char lower
normalize_product name = keep_name_chars (lower name)

generic_tokens : List Text
generic_tokens =
    codes "apache"
    ∷ codes "client"
    ∷ codes "community"
    ∷ codes "corp"
    ∷ codes "corporation"
    ∷ codes "edition"
    ∷ codes "enterprise"
    ∷ codes "foundation"
    ∷ codes "framework"
    ∷ codes "free"
    ∷ codes "gnu"
    ∷ codes "google"
    ∷ codes "hat"
    ∷ codes "inc"
    ∷ codes "library"
    ∷ codes "microsoft"
    ∷ codes "open"
    ∷ codes "oracle"
    ∷ codes "project"
    ∷ codes "red"
    ∷ codes "redhat"
    ∷ codes "server"
    ∷ codes "software"
    ∷ codes "source"
    ∷ codes "standard"
    ∷ codes "the"
    ∷ []

is_distinctive : Text → Bool
unfolding generic_tokens
is_distinctive token = ltb 0 (length token) && not (contains_text token generic_tokens)

-- Splitting on runs of other characters, the empty parts dropped, is splitting on single ones.
distinctive_tokens : Text → List Text
unfolding is_distinctive not_name_char lower split keep_texts to_text_set
distinctive_tokens name = to_text_set (keep_texts is_distinctive (split not_name_char (lower name)))

shared_tokens : Text → Text → List Text
unfolding distinctive_tokens keep_texts
shared_tokens installed affected =
    keep_texts (λ t. leb 3 (length t) && contains_text t (distinctive_tokens affected))
      (distinctive_tokens installed)

-- The last step: containment, for names with no separators at all.
contained_score : Text → Text → ℕ
contained_score left right =
    if ltb (min (length left) (length right)) 4
    then 0
    else if is_substring left right || is_substring right left
    then 1
    else 0

score_names : Text → Text → List Text → ℕ
score_names left right shared =
    if not (ltb 0 (length left)) || not (ltb 0 (length right))
    then 0
    else if eq_text left right
    then 100
    else if ltb 0 (length shared)
    then length shared
    else contained_score left right

unfoldable pub product_match_score : Text → Text → ℕ
unfolding normalize_product shared_tokens contained_score score_names is_substring
product_match_score installed affected =
    score_names (normalize_product installed) (normalize_product affected)
      (shared_tokens installed affected)

unfoldable pub products_match : Text → Text → Bool
unfolding product_match_score
products_match installed affected = ltb 0 (product_match_score installed affected)

-- A name that has a letter or a digit matches itself, with the score of an exact match, whatever
-- its case or punctuation.
same_name_matches :
    (a b : Text)
    → normalize_product a ≡ normalize_product b
    → 0 < length (normalize_product a)
    → (product_match_score a b ≡ 100) × (products_match a b ≡ true)
unfolding products_match
same_name_matches a b e h =
    let n = normalize_product b in
    let same : eq_text (normalize_product a) n ≡ true = rw e (eq_text_refl n) in
    let h' : 0 < length n = rw e at h in
    (unfold score_names in ground arith, unfold score_names in ground arith)

vendors_differ : products_match (codes "Apache HTTP Server") (codes "Apache Tomcat") ≡ false
unfolding products_match
vendors_differ = refl

families_match : products_match (codes "log4j-core") (codes "Apache Log4j Core") ≡ true
unfolding products_match
families_match = refl
