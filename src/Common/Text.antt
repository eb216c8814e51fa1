-- ===== src/Common/Text.antt =====
-- Text as a list of code points, with the parts of Python's `str` and `re` that the modelled code
-- uses, for ASCII text without line breaks.
use Prim.Native.Char.{code}
use Prim.Native.String.{String}
use Prim.Native.Nat.{ℕ, ◌+◌, ◌*◌, ◌-◌, ◌≤◌}
use mathlib.Core.Path.{◌≡◌, refl}
use mathlib.Core.Bool.{Bool, true, false, ◌&&◌, ◌||◌}
use mathlib.Core.List.{List, [], ◌∷◌, map, reverse}
use native.Mathlib.Omega.{arith}
use ai_cybersecurity_soc_ana.Common.Lists.{length, length-reverse}
use ai_cybersecurity_soc_ana.Common.Tests.{◌==◌, leb, ltb, if◌then◌else◌}

abbrev pub Text : Type 0
Text = List ℕ

-- The code points of a literal.
abbrev pub codes : String → Text
codes String.[] = []
codes (String.◌∷◌ c s) = code c ∷ codes s

abbrev pub eq_text : Text → Text → Bool
eq_text [] [] = true
eq_text (a ∷ s) (b ∷ t) = a == b && eq_text s t
eq_text s t = false

pub eq_text_refl : (s : Text) → eq_text s s ≡ true
eq_text_refl [] = refl
eq_text_refl (a ∷ s) = ground (arith, eq_text_refl s)

pub eq_text→eq : (s t : Text) → eq_text s t ≡ true → s ≡ t
eq_text→eq [] [] h = refl
eq_text→eq [] (b ∷ t) h = absurd (cc)
eq_text→eq (a ∷ s) [] h = absurd (cc)
eq_text→eq (a ∷ s) (b ∷ t) h = ground (arith, h, eq_text→eq s t)

-- The order of texts by their codes.
unfoldable pub leb_text : Text → Text → Bool
leb_text [] t = true
leb_text (a ∷ s) [] = false
leb_text (a ∷ s) (b ∷ t) = ltb a b || (a == b && leb_text s t)

abbrev pub is_digit : ℕ → Bool
is_digit c = leb 48 c && leb c 57

abbrev pub is_lower : ℕ → Bool
is_lower c = leb 97 c && leb c 122

-- `str.isspace` on ASCII.
abbrev pub is_space : ℕ → Bool
is_space c = (leb 9 c && leb c 13) || (leb 28 c && leb c 32)

abbrev pub lower_code : ℕ → ℕ
lower_code c = if leb 65 c && leb c 90 then c + 32 else c

-- `s.lower()`
unfoldable pub lower : Text → Text
lower s = map lower_code s

drop_spaces : Text → Text
drop_spaces [] = []
drop_spaces (c ∷ s) = if is_space c then drop_spaces s else c ∷ s

-- `s.strip()`
unfoldable pub strip : Text → Text
unfolding drop_spaces
strip s = reverse (drop_spaces (reverse (drop_spaces s)))

length-drop_spaces-le : (s : Text) → length (drop_spaces s) ≤ length s
unfolding drop_spaces
length-drop_spaces-le [] = omega arith
length-drop_spaces-le (c ∷ s) = ground (arith, length-drop_spaces-le s)

pub length-strip-le : (s : Text) → length (strip s) ≤ length s
unfolding strip
length-strip-le s =
    let front = drop_spaces s in
    omega (
      arith,
      length-reverse (drop_spaces (reverse front)),
      length-drop_spaces-le (reverse front),
      length-reverse front,
      length-drop_spaces-le s,
    )

cut : ℕ → Bool → List Text → List Text
cut c true parts = [] ∷ parts
cut c false [] = (c ∷ []) ∷ []
cut c false (p ∷ parts) = (c ∷ p) ∷ parts

-- `re.split` on one separator character: the parts between separators, the empty ones included.
unfoldable pub split : (ℕ → Bool) → Text → List Text
unfolding cut
split is_separator [] = [] ∷ []
split is_separator (c ∷ s) = cut c (is_separator c) (split is_separator s)

digits_from : ℕ → Text → ℕ
digits_from acc [] = acc
digits_from acc (c ∷ s) = digits_from (acc * 10 + (c - 48)) s

-- `int(s)` of a text of digits.
unfoldable pub to_int : Text → ℕ
unfolding digits_from
to_int s = digits_from 0 s

-- The letters at the start of `s`, and what follows them.
unfoldable pub span_lower : Text → Text × Text
span_lower [] = ([], [])
span_lower (c ∷ s) =
    let (word, rest) = span_lower s in if is_lower c then (c ∷ word, rest) else ([], c ∷ s)

unfoldable pub starts_with : Text → Text → Bool
starts_with [] s = true
starts_with (p ∷ ps) [] = false
starts_with (p ∷ ps) (c ∷ s) = p == c && starts_with ps s

-- `p in s`
unfoldable pub is_substring : Text → Text → Bool
unfolding starts_with
is_substring p [] = starts_with p []
is_substring p (c ∷ s) = starts_with p (c ∷ s) || is_substring p s

abbrev pub contains_text : Text → List Text → Bool
contains_text s [] = false
contains_text s (t ∷ ts) = eq_text s t || contains_text s ts

unfoldable pub to_text_set : List Text → List Text
to_text_set [] = []
to_text_set (t ∷ ts) = if contains_text t ts then to_text_set ts else t ∷ to_text_set ts

unfoldable pub keep_texts : (Text → Bool) → List Text → List Text
keep_texts p [] = []
keep_texts p (t ∷ ts) = if p t then t ∷ keep_texts p ts else keep_texts p ts
