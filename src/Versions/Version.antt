-- ===== src/Versions/Version.antt =====
-- `Version` and `parse_version`.
use ai_cybersecurity_soc_ana.Common.{
  Bool, List, Option, [], all, false, if◌then◌else◌, length, ltb, none, not, some, true, ℕ, ◌&&◌,
  ◌++◌, ◌==◌, ◌||◌, ◌∷◌,
}
use ai_cybersecurity_soc_ana.Common.Text.{
  Text, codes, contains_text, eq_text, is_digit, lower, span_lower, split, strip, to_int,
}

-- The sort key: the numeric backbone, 1 for a final release and 0 for a pre-release, and the
-- pre-release parts. `text` is kept and not compared.
pub record Version : Type 0 where
  pub release : List ℕ
  pub final : ℕ
  pub prerelease : List ℕ
  pub text : Text

-- `[.\-_+~]`
abbrev pub is_separator : ℕ → Bool
is_separator c = c == b'.' || (c == b'-' || (c == b'_' || (c == b'+' || c == b'~')))

-- `_LEADING_V.sub("", …)`: one `v` in front of a digit.
drop_leading_v : Text → Text
drop_leading_v (c ∷ d ∷ s) = if (c == b'v' || c == b'V') && is_digit d then d ∷ s else c ∷ d ∷ s
drop_leading_v s = s

release_words : List Text
release_words = codes "release" ∷ codes "final" ∷ codes "ga" ∷ codes "stable" ∷ []

prerelease_ranks : List (Text × ℕ)
prerelease_ranks =
    (codes "dev", 0)
    ∷ (codes "alpha", 1)
    ∷ (codes "a", 1)
    ∷ (codes "beta", 2)
    ∷ (codes "b", 2)
    ∷ (codes "milestone", 3)
    ∷ (codes "m", 3)
    ∷ (codes "rc", 4)
    ∷ (codes "cr", 4)
    ∷ (codes "preview", 4)
    ∷ (codes "pre", 4)
    ∷ []

rank_of : Text → List (Text × ℕ) → Option ℕ
rank_of word [] = none
rank_of word ((w, n) ∷ ranks) = if eq_text w word then some n else rank_of word ranks

is_nil : Text → Bool
is_nil [] = true
is_nil (c ∷ s) = false

-- What the loop has read so far.
pub record Reading : Type 0 where
  pub release : List ℕ
  pub prerelease : List ℕ
  pub seen_prerelease : Bool

read_number : ℕ → Reading → Reading
read_number n r =
    if r.seen_prerelease
    then record r { prerelease = r.prerelease ++ n ∷ [] }
    else record r { release = r.release ++ n ∷ [] }

read_rank : Text → Option ℕ → Reading → Option Reading
read_rank digits none r = none
read_rank digits (some rank) r = some (record r {
  seen_prerelease = true;
  prerelease = r.prerelease ++ rank ∷ (if is_nil digits then [] else to_int digits ∷ []);
})

-- `_ALPHANUM.match(token)`, and the lookup of its word.
read_word : Text → Reading → Option Reading
read_word token r =
    let (word, digits) = span_lower token in
    if not (is_nil word) && all is_digit digits
    then read_rank digits (rank_of word prerelease_ranks) r
    else none

read_token : Text → Reading → Option Reading
read_token token r =
    if is_nil token
    then some r
    else if all is_digit token
    then some (read_number (to_int token) r)
    else if contains_text token release_words
    then some r
    else read_word token r

read_tokens : List Text → Reading → Option Reading
read_tokens [] r = some r
read_tokens (t ∷ ts) r = elim (read_token t r) [ none ↦ none | some r' ↦ read_tokens ts r' ]

finish : Text → Reading → Option Version
finish text r =
    if ltb 0 (length r.release)
    then some (record {
      release = r.release;
      final = if r.seen_prerelease then 0 else 1;
      prerelease = r.prerelease;
      text = text;
    })
    else none

parse_cleaned : Text → Text → Option Version
parse_cleaned text cleaned =
    if is_nil cleaned
    then none
    else elim (read_tokens (split is_separator (lower cleaned))
        (record { release = []; prerelease = []; seen_prerelease = false })) [
          | none ↦ none
          | some r ↦ finish text r
        ]

-- An empty text is refused by `if not text`.
unfoldable pub parse_version : Text → Option Version
unfolding parse_cleaned drop_leading_v read_tokens read_token read_word read_rank read_number
    rank_of release_words prerelease_ranks is_nil finish strip lower split to_int span_lower
parse_version text = if is_nil text then none else parse_cleaned text (drop_leading_v (strip text))
