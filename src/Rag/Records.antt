-- ===== src/Rag/Records.antt =====
-- The records of a document, over `Chunker.chunk`.
use ai_cybersecurity_soc_ana.Rag.Chunking.{
  KnowledgeChunkRecord, chunk, chunk_from, join_records, keep_full, part_records, parts_if,
  parts_of, records_of_parts, section_records, slice, split_oversized,
}
use ai_cybersecurity_soc_ana.Rag.Packing.{pack}
use ai_cybersecurity_soc_ana.Rag.Cover.{IsCover, windows-IsCover}
use ai_cybersecurity_soc_ana.Common.Text.{Text, length-strip-le, strip}
use ai_cybersecurity_soc_ana.Common.{
  All, Bool-cases, List, Option, [], ap, arith, drop, inl, inr, leb, leb→le, length, length-take-le,
  none, refl, some, ℕ, ◌++◌, ◌+◌, ◌-◌, ◌<◌, ◌∙◌, ◌∷◌, ◌≡◌, ◌≤◌,
}

-- The ordinals count up from `n`.
abbrev pub AreNumbered : ℕ → List KnowledgeChunkRecord → Type 0
AreNumbered n [] = Unit
AreNumbered n (r ∷ rs) = (r.ordinal ≡ n) × AreNumbered (n + 1) rs

abbrev pub FitsSize : ℕ → KnowledgeChunkRecord → Type 0
FitsSize max_size r = length r.content ≤ max_size

cover-widths :
    (max_size n start : ℕ) (ws : List (ℕ × ℕ))
    → IsCover max_size n start ws
    → All (λ (w : ℕ × ℕ). w.1 ≤ w.0 + max_size) ws
cover-widths max_size n start [] h = absurd h
cover-widths max_size n start ((a, b) ∷ []) (e, f, g, h) = (g, tt)
cover-widths max_size n start ((a, b) ∷ (c, d) ∷ ws) (e, f, g, h, i, j, k) =
    (g, cover-widths max_size n c ((c, d) ∷ ws) k)

length-slice-le : (a b : ℕ) (s : Text) → length (strip (slice a b s)) ≤ b - a
length-slice-le a b s =
    omega (arith, length-strip-le (slice a b s), length-take-le (b - a) (drop a s))

keep_full-sizes :
    (max_size : ℕ) (p : Text) (parts : List Text)
    → length p ≤ max_size
    → All (λ q. length q ≤ max_size) parts
    → All (λ q. length q ≤ max_size) (keep_full p parts)
unfolding keep_full
keep_full-sizes max_size [] parts h k = k
keep_full-sizes max_size (c ∷ s) parts h k = (h, k)

parts_of-sizes :
    (max_size : ℕ) (section : Text) (ws : List (ℕ × ℕ))
    → All (λ (w : ℕ × ℕ). w.1 ≤ w.0 + max_size) ws
    → All (λ q. length q ≤ max_size) (parts_of section ws)
unfolding parts_of
parts_of-sizes max_size section [] h = tt
parts_of-sizes max_size section ((a, b) ∷ ws) h =
    keep_full-sizes max_size (strip (slice a b section)) (parts_of section ws)
      (omega (arith, length-slice-le a b section, h.0)) (parts_of-sizes max_size section ws h.1)

split_oversized-sizes :
    (max_size overlap : ℕ) (section : Text)
    → overlap < max_size
    → max_size < length section
    → (parts : List Text) × (split_oversized max_size overlap section ≡ some parts)
      × All (λ q. length q ≤ max_size) parts
unfolding split_oversized parts_if
split_oversized-sizes max_size overlap section h k =
    let (ws, same, cover) =
      windows-IsCover (length section) max_size overlap section 0 h (omega arith) (omega arith) in
    (
      parts_of section ws,
      ap (parts_if section) same,
      parts_of-sizes max_size section ws (cover-widths max_size (length section) 0 ws cover),
    )

part_records-lem :
    (max_size parent count : ℕ) (parts : List Text)
    → All (λ q. length q ≤ max_size) parts
    → AreNumbered count (part_records parent count parts)
      × All (FitsSize max_size) (part_records parent count parts)
unfolding part_records
part_records-lem max_size parent count [] h = (tt, tt)
part_records-lem max_size parent count (p ∷ parts) h =
    let (numbered, fit) = part_records-lem max_size parent (count + 1) parts h.1 in
    ((refl, numbered), (h.0, fit))

section_records-lem :
    (max_size overlap count : ℕ) (section : Text)
    → overlap < max_size
    → (rs : List KnowledgeChunkRecord) × (section_records max_size overlap count section ≡ some rs)
      × AreNumbered count rs
      × All (FitsSize max_size) rs
unfolding section_records records_of_parts
section_records-lem max_size overlap count section h =
    elim (Bool-cases (leb (length section) max_size)) [
      | inl fits ↦ (
        record { content = section; ordinal = count; parent = none } ∷ [],
        rw fits refl,
        (refl, tt),
        (leb→le (length section) max_size fits, tt),
      )
      | inr over ↦
          let (parts, same, sizes) =
            split_oversized-sizes max_size overlap section h (ground (arith, over)) in
          let (numbered, fit) = part_records-lem max_size count count parts sizes in
          (
            part_records count count parts,
            rw over (ap (records_of_parts count) same),
            numbered,
            fit,
          )
    ]

append-AreNumbered :
    (n m : ℕ) (rs qs : List KnowledgeChunkRecord)
    → n + length rs ≡ m
    → AreNumbered n rs
    → AreNumbered m qs
    → AreNumbered n (rs ++ qs)
append-AreNumbered n m [] qs e h k = let same : m ≡ n = omega arith in rw same at k
append-AreNumbered n m (r ∷ rs) qs e h k =
    (h.0, append-AreNumbered (n + 1) m rs qs (omega arith) h.1 k)

All-append :
    (P : KnowledgeChunkRecord → Type 0) (rs qs : List KnowledgeChunkRecord)
    → All P rs
    → All P qs
    → All P (rs ++ qs)
All-append P [] qs h k = k
All-append P (r ∷ rs) qs h k = (h.0, All-append P rs qs h.1 k)

chunk_from-lem :
    (max_size overlap count : ℕ) (sections : List Text)
    → overlap < max_size
    → (rs : List KnowledgeChunkRecord) × (chunk_from max_size overlap count sections ≡ some rs)
      × AreNumbered count rs
      × All (FitsSize max_size) rs
unfolding chunk_from join_records
chunk_from-lem max_size overlap count [] h = ([], refl, tt, tt)
chunk_from-lem max_size overlap count (s ∷ sections) h =
    let (rs, same, numbered, fit) = section_records-lem max_size overlap count s h in
    let (qs, same', numbered', fit') =
      chunk_from-lem max_size overlap (count + length rs) sections h in
    (
      rs ++ qs,
      ap
            (λ (o : Option (List KnowledgeChunkRecord)). elim o [
              | none ↦ none
              | some records ↦
                  join_records records
                    (chunk_from max_size overlap (count + length records) sections)
            ])
            same
          ∙ ap (join_records rs) same',
      append-AreNumbered count (count + length rs) rs qs refl numbered numbered',
      All-append (FitsSize max_size) rs qs fit fit',
    )

-- Whatever the sections of a document, a chunker whose overlap is smaller than its maximum size
-- ends with a list of records: their ordinals count up from 0, so that no two share an id, and the
-- content of each is within the maximum size.
pub chunk_total :
    (max_size overlap : ℕ) (sections : List Text)
    → overlap < max_size
    → (rs : List KnowledgeChunkRecord) × (chunk max_size overlap sections ≡ some rs)
      × AreNumbered 0 rs
      × All (FitsSize max_size) rs
unfolding chunk
chunk_total max_size overlap sections h =
    chunk_from-lem max_size overlap 0 (pack max_size sections) h
