-- ===== src/Rag/Chunking.antt =====
-- `Chunker` of rag/chunking.py, from the sections of a document on. A part that the loop leaves is
-- stripped, and empty parts are dropped.
use ai_cybersecurity_soc_ana.Rag.Packing.{pack}
use ai_cybersecurity_soc_ana.Common.{
  List, Option, [], drop, if◌then◌else◌, leb, length, none, some, take, ℕ, ◌++◌, ◌+◌, ◌-◌, ◌∷◌,
}
use ai_cybersecurity_soc_ana.Rag.Windows.{windows}
use ai_cybersecurity_soc_ana.Common.Text.{Text, strip}

-- `section[start:end]`
abbrev pub slice : ℕ → ℕ → Text → Text
slice start end section = take (end - start) (drop start section)

unfoldable pub keep_full : Text → List Text → List Text
keep_full [] parts = parts
keep_full (c ∷ s) parts = (c ∷ s) ∷ parts

unfoldable pub parts_of : Text → List (ℕ × ℕ) → List Text
unfolding keep_full strip
parts_of section [] = []
parts_of section ((start, end) ∷ ws) =
    keep_full (strip (slice start end section)) (parts_of section ws)

unfoldable pub parts_if : Text → Option (List (ℕ × ℕ)) → Option (List Text)
unfolding parts_of
parts_if section none = none
parts_if section (some ws) = some (parts_of section ws)

-- `_split_oversized`, with as much fuel as the section has characters.
unfoldable pub split_oversized : ℕ → ℕ → Text → Option (List Text)
unfolding windows parts_if
split_oversized max_size overlap section =
    parts_if section (windows (length section) max_size overlap section 0)

-- `KnowledgeChunkRecord`: the chunk's id is made of the document's and the ordinal, the parent's of
-- the document's and a number. Title and metadata are left out.
pub record KnowledgeChunkRecord : Type 0 where
  pub content : Text
  pub ordinal : ℕ
  pub parent : Option ℕ

-- The inner loop: the parts of one section, after `count` records.
unfoldable pub part_records : ℕ → ℕ → List Text → List KnowledgeChunkRecord
part_records parent count [] = []
part_records parent count (p ∷ parts) =
    record { content = p; ordinal = count; parent = some parent }
    ∷ part_records parent (count + 1) parts

unfoldable pub records_of_parts : ℕ → Option (List Text) → Option (List KnowledgeChunkRecord)
unfolding part_records
records_of_parts count none = none
records_of_parts count (some parts) = some (part_records count count parts)

-- The records of one packed section.
unfoldable pub section_records : ℕ → ℕ → ℕ → Text → Option (List KnowledgeChunkRecord)
unfolding split_oversized records_of_parts
section_records max_size overlap count section =
    if leb (length section) max_size
    then some (record { content = section; ordinal = count; parent = none } ∷ [])
    else records_of_parts count (split_oversized max_size overlap section)

unfoldable pub join_records :
    List KnowledgeChunkRecord
    → Option (List KnowledgeChunkRecord)
    → Option (List KnowledgeChunkRecord)
join_records records none = none
join_records records (some rest) = some (records ++ rest)

-- The loop over the packed sections, after `count` records.
unfoldable pub chunk_from : ℕ → ℕ → ℕ → List Text → Option (List KnowledgeChunkRecord)
unfolding section_records join_records
chunk_from max_size overlap count [] = some []
chunk_from max_size overlap count (s ∷ sections) = elim (section_records max_size overlap count s) [
  | none ↦ none
  | some records ↦
      join_records records (chunk_from max_size overlap (count + length records) sections)
]

-- What `Chunker` refuses, and what it is set to.
pub data Configured : Type 0 where
  chunker : (max_characters overlap_characters : ℕ) → Configured
  overlap_too_large : Configured

unfoldable pub make : ℕ → ℕ → Configured
make max_characters overlap_characters =
    if leb max_characters overlap_characters
    then overlap_too_large
    else chunker max_characters overlap_characters

-- `chunk`, on the sections of a cleaned document.
unfoldable pub chunk : ℕ → ℕ → List Text → Option (List KnowledgeChunkRecord)
unfolding chunk_from pack
chunk max_size overlap sections = chunk_from max_size overlap 0 (pack max_size sections)
