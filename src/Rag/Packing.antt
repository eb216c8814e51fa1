-- ===== src/Rag/Packing.antt =====
-- `_pack` of rag/chunking.py: small sections are merged, nothing is lost.
use mathlib.Core.List.{append_assoc}
use ai_cybersecurity_soc_ana.Common.Text.{Text}
use ai_cybersecurity_soc_ana.Common.{
  All, Bool-cases, List, [], ap, arith, if◌then◌else◌, inl, inr, leb, leb→le, length, length-append,
  refl, sym, ℕ, ◌++◌, ◌+◌, ◌∙◌, ◌∷◌, ◌≡◌, ◌≢◌, ◌≤◌, ◌⊎◌,
}

abbrev pub blank_line : Text
blank_line = 10 ∷ 10 ∷ []

unfoldable pub pack_from : ℕ → Text → List Text → List Text
pack_from max_size [] [] = []
pack_from max_size (c ∷ buffer) [] = (c ∷ buffer) ∷ []
pack_from max_size [] (s ∷ sections) = pack_from max_size s sections
pack_from max_size (c ∷ buffer) (s ∷ sections) =
    let merged = pack_from max_size (c ∷ buffer ++ (blank_line ++ s)) sections in
    let apart = pack_from max_size s sections in
    if leb (length (c ∷ buffer) + length s + 2) max_size then merged else (c ∷ buffer) ∷ apart

unfoldable pub pack : ℕ → List Text → List Text
unfolding pack_from
pack max_size sections = pack_from max_size [] sections

-- `"\n\n".join(sections)`
unfoldable pub join : List Text → Text
join [] = []
join (s ∷ []) = s
join (s ∷ t ∷ sections) = s ++ (blank_line ++ join (t ∷ sections))

abbrev pub HasText : Text → Type 0
HasText [] = ⊥
HasText (c ∷ s) = Unit

join-cons :
    (s : Text) (sections : List Text)
    → sections ≢ []
    → join (s ∷ sections) ≡ s ++ (blank_line ++ join sections)
unfolding join
join-cons s [] h = absurd (h refl)
join-cons s (t ∷ sections) h = refl

join-merge :
    (b s : Text) (sections : List Text)
    → join ((b ++ (blank_line ++ s)) ∷ sections) ≡ join (b ∷ s ∷ sections)
unfolding join
join-merge b s [] = refl
join-merge b s (t ∷ sections) = append_assoc b (blank_line ++ s) (blank_line ++ join (t ∷ sections))

pack_from-not_empty :
    (max_size : ℕ) (c : ℕ) (b : Text) (sections : List Text)
    → pack_from max_size (c ∷ b) sections ≢ []
unfolding pack_from
pack_from-not_empty max_size c b [] e = cc
pack_from-not_empty max_size c b (s ∷ sections) e =
    ground (arith, e, pack_from-not_empty max_size c (b ++ (blank_line ++ s)) sections)

pack_from-join :
    (max_size : ℕ) (c : ℕ) (b : Text) (sections : List Text)
    → All HasText sections
    → join (pack_from max_size (c ∷ b) sections) ≡ join ((c ∷ b) ∷ sections)
unfolding pack_from
pack_from-join max_size c b [] h = refl
pack_from-join max_size c b ([] ∷ sections) h = absurd (h.0)
pack_from-join max_size c b ((d ∷ s) ∷ sections) h =
    elim (Bool-cases (leb (length (c ∷ b) + length (d ∷ s) + 2) max_size)) [
      | inl fits ↦ rw fits (
          pack_from-join max_size c (b ++ (blank_line ++ d ∷ s)) sections h.1
          ∙ join-merge (c ∷ b) (d ∷ s) sections)
      | inr full ↦ rw full (
          join-cons (c ∷ b) (pack_from max_size (d ∷ s) sections)
            (pack_from-not_empty max_size d s sections)
          ∙ ap (λ l. (c ∷ b) ++ (blank_line ++ l)) (pack_from-join max_size d s sections h.1)
          ∙ sym (join-cons (c ∷ b) ((d ∷ s) ∷ sections) (λ e. cc)))
    ]

-- Packing loses, adds and reorders nothing: joined by blank lines, the packed sections are the
-- sections joined by blank lines, if no section is empty.
pub pack-join :
    (max_size : ℕ) (sections : List Text)
    → All HasText sections
    → join (pack max_size sections) ≡ join sections
unfolding pack pack_from
pack-join max_size [] h = refl
pack-join max_size ([] ∷ sections) h = absurd (h.0)
pack-join max_size ((c ∷ s) ∷ sections) h = pack_from-join max_size c s sections h.1

-- Every packed section is within the maximum size or is one of the sections as it was: what holds
-- of each section holds of every packed section that is over the maximum.
pub pack_from-sizes :
    (P : Text → Type 0) (max_size : ℕ) (buffer : Text) (sections : List Text)
    → (length buffer ≤ max_size) ⊎ P buffer
    → All P sections
    → All (λ p. (length p ≤ max_size) ⊎ P p) (pack_from max_size buffer sections)
unfolding pack_from
pack_from-sizes P max_size [] [] b h = tt
pack_from-sizes P max_size (c ∷ buffer) [] b h = (b, tt)
pack_from-sizes P max_size [] (s ∷ sections) b h =
    pack_from-sizes P max_size s sections (inr (h.0)) h.1
pack_from-sizes P max_size (c ∷ buffer) (s ∷ sections) b h =
    elim (Bool-cases (leb (length (c ∷ buffer) + length s + 2) max_size)) [
      | inl fits ↦
          let small : length (c ∷ buffer ++ (blank_line ++ s)) ≤ max_size = omega (
            arith,
            leb→le (length (c ∷ buffer) + length s + 2) max_size fits,
            length-append buffer (blank_line ++ s),
          ) in
          rw fits
            (pack_from-sizes P max_size (c ∷ buffer ++ (blank_line ++ s)) sections (inl small) h.1)
      | inr full ↦ rw full (b, pack_from-sizes P max_size s sections (inr (h.0)) h.1)
    ]
