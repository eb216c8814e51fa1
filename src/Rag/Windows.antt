-- ===== src/Rag/Windows.antt =====
-- The loop of `_split_oversized` of rag/chunking.py, on the positions of its parts.
use ai_cybersecurity_soc_ana.Common.Text.{Text}
use ai_cybersecurity_soc_ana.Common.{
  Bool, List, Option, [], false, if◌then◌else◌, leb, length, ltb, max, min, none, some, suc, zero,
  ℕ, ◌+◌, ◌-◌, ◌==◌, ◌∷◌,
}

abbrev pub space : ℕ
space = b' '

-- `section[i] == " "`
is_space_at : Text → ℕ → Bool
is_space_at [] i = false
is_space_at (c ∷ s) zero = c == space
is_space_at (c ∷ s) (suc i) = is_space_at s i

-- `section.rfind(" ", lo, hi)`, searched from `lo` on; -1 is `none`.
unfoldable pub find_from : Text → ℕ → ℕ → Option ℕ
unfolding is_space_at
find_from section lo zero = none
find_from section lo (suc count) =
    let later = find_from section (lo + 1) count in
    elim later [ some i ↦ some i | none ↦ if is_space_at section lo then some lo else none ]

unfoldable pub rfind_space : Text → ℕ → ℕ → Option ℕ
unfolding find_from is_space_at
rfind_space section lo hi = find_from section lo (hi - lo)

-- Where the part that starts at `start` ends: a whitespace boundary is preferred.
unfoldable pub cut_at : ℕ → ℕ → Option ℕ → ℕ
cut_at start end none = end
cut_at start end (some boundary) = if ltb start boundary then boundary else end

unfoldable pub part_end : ℕ → ℕ → Text → ℕ → ℕ
unfolding cut_at rfind_space
part_end max_size overlap section start =
    let end = min (start + max_size) (length section) in
    if ltb end (length section)
    then cut_at start end (rfind_space section (start + (max_size - overlap)) end)
    else end

unfoldable pub with_part : ℕ × ℕ → Option (List (ℕ × ℕ)) → Option (List (ℕ × ℕ))
with_part w none = none
with_part w (some ws) = some (w ∷ ws)

-- The parts as half-open intervals of positions. The loop has no bound of its own: `none` is a run
-- out of fuel.
unfoldable pub windows : ℕ → ℕ → ℕ → Text → ℕ → Option (List (ℕ × ℕ))
unfolding part_end with_part
windows zero max_size overlap section start = none
windows (suc fuel) max_size overlap section start =
    let end = part_end max_size overlap section start in
    let rest = windows fuel max_size overlap section (max (end - overlap) (start + 1)) in
    if leb (length section) end then some ((start, end) ∷ []) else with_part (start, end) rest
