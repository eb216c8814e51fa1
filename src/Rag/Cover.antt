-- ===== src/Rag/Cover.antt =====
-- The parts of an oversized section: the loop ends, and they cover the section.
use ai_cybersecurity_soc_ana.Rag.Windows.{cut_at, find_from, part_end, rfind_space, windows}
use ai_cybersecurity_soc_ana.Common.Text.{Text}
use ai_cybersecurity_soc_ana.Common.{
  Bool-cases, List, Option, [], arith, inl, inr, leb, length, ltb, max, min, none, refl, some, suc,
  zero, ℕ, ◌+◌, ◌-◌, ◌<◌, ◌∷◌, ◌≡◌, ◌≤◌,
}

-- The intervals start at `start` and end at `n`, each within `max_size`, each starting after the
-- one before and no later than its end.
abbrev pub IsCover : ℕ → ℕ → ℕ → List (ℕ × ℕ) → Type 0
IsCover max_size n start [] = ⊥
IsCover max_size n start ((a, b) ∷ []) = (a ≡ start) × (a < b) × (b ≤ a + max_size) × (b ≡ n)
IsCover max_size n start ((a, b) ∷ (c, d) ∷ ws) =
    (a ≡ start)
    × (a < b)
    × (b ≤ a + max_size)
    × (a < c)
    × (c ≤ b)
    × (b < n)
    × IsCover max_size n c ((c, d) ∷ ws)

find_from-bounds :
    (section : Text) (lo count i : ℕ)
    → find_from section lo count ≡ some i
    → (lo ≤ i) × (i < lo + count)
unfolding find_from
find_from-bounds section lo zero i e = absurd (ground (arith, e))
find_from-bounds section lo (suc count) i e =
    ground (arith, e, find_from-bounds section (lo + 1) count i)

cut_at-bounds :
    (start end : ℕ) (boundary : Option ℕ)
    → start < end
    → ((i : ℕ) → boundary ≡ some i → i < end)
    → (start < cut_at start end boundary) × (cut_at start end boundary ≤ end)
unfolding cut_at
cut_at-bounds start end none h k = (h, omega arith)
cut_at-bounds start end (some i) h k = let inside : i < end = k i refl in ground arith

rfind_space-bounds : (section : Text) (lo hi i : ℕ) → rfind_space section lo hi ≡ some i → i < hi
unfolding rfind_space
rfind_space-bounds section lo hi i e = omega (arith, find_from-bounds section lo (hi - lo) i e)

-- A part has at least one character and at most `max_size`, and ends within the section.
part_end-bounds :
    (max_size overlap : ℕ) (section : Text) (start : ℕ)
    → overlap < max_size
    → start < length section
    → let end = part_end max_size overlap section start in
      (start < end) × (end ≤ start + max_size) × (end ≤ length section)
unfolding part_end
part_end-bounds max_size overlap section start h k =
    let end = min (start + max_size) (length section) in
    let found = rfind_space section (start + (max_size - overlap)) end in
    let inside =
      cut_at-bounds start end found (omega arith)
        (rfind_space-bounds section (start + (max_size - overlap)) end) in
    elim (Bool-cases (ltb end (length section))) [
      | inl cut_short ↦ rw cut_short (omega (arith, inside))
      | inr whole ↦ rw whole (omega arith)
    ]

cons-IsCover :
    (max_size n a b c : ℕ) (ws : List (ℕ × ℕ))
    → a < b
    → b ≤ a + max_size
    → a < c
    → c ≤ b
    → b < n
    → IsCover max_size n c ws
    → IsCover max_size n a ((a, b) ∷ ws)
cons-IsCover max_size n a b c [] p q r s t h = absurd h
cons-IsCover max_size n a b c ((x, y) ∷ []) p q r s t (e, f, g, h) =
    (refl, p, q, omega (arith, e), omega (arith, e), t, (refl, f, g, h))
cons-IsCover max_size n a b c ((x, y) ∷ (u, v) ∷ ws) p q r s t (e, f, g, h, i, j, k) =
    (refl, p, q, omega (arith, e), omega (arith, e), t, (refl, f, g, h, i, j, k))

-- If the overlap is smaller than the maximum size, the loop over a section ends within as many
-- rounds as the section has characters, and its parts cover the section: the first starts at 0, each
-- has at least one character and at most the maximum, each next one starts after the start and no
-- later than the end of the one before, and the last ends with the section.
pub windows-IsCover :
    (fuel max_size overlap : ℕ) (section : Text) (start : ℕ)
    → overlap < max_size
    → start < length section
    → length section ≤ start + fuel
    → (ws : List (ℕ × ℕ)) × (windows fuel max_size overlap section start ≡ some ws)
      × IsCover max_size (length section) start ws
unfolding windows
windows-IsCover zero max_size overlap section start h k f = absurd (omega arith)
windows-IsCover (suc fuel) max_size overlap section start h k f =
    let end = part_end max_size overlap section start in
    let (after, within, inside) = part_end-bounds max_size overlap section start h k in
    elim (Bool-cases (leb (length section) end)) [
      | inl ends ↦
          ((start, end) ∷ [], rw ends refl, (refl, after, within, ground (arith, ends, inside)))
      | inr goes_on ↦
          let more : end < length section = ground (arith, goes_on) in
          let (ws, same, cover) =
            windows-IsCover fuel max_size overlap section (max (end - overlap) (start + 1)) h
              (omega (arith, after, more)) (omega (arith, f)) in
          (
            (start, end) ∷ ws,
            rw goes_on (rw same refl),
            cons-IsCover max_size (length section) start end (max (end - overlap) (start + 1)) ws
                after within (omega arith) (omega (arith, after)) more cover,
          )
    ]
