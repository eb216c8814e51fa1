-- ===== src/Rag/Tests.antt =====
-- The properties of chunking and ranking at concrete inputs.
use ai_cybersecurity_soc_ana.Rag.Packing.{blank_line, join, pack, pack-join}
use ai_cybersecurity_soc_ana.Rag.Chunking.{KnowledgeChunkRecord, chunk}
use ai_cybersecurity_soc_ana.Common.Text.{Text, codes}
use ai_cybersecurity_soc_ana.Common.{
  All, List, [], arith, length, none, refl, some, take, ℕ, ◌++◌, ◌∷◌, ◌≡◌, ◌≤◌, ◌⊎◌,
}
use ai_cybersecurity_soc_ana.Rag.Selection.{
  IsFull, take_within_budget, take_within_budget_lem, total,
}
use ai_cybersecurity_soc_ana.Rag.Ranking.{RetrievedChunk, Scored, from_dense}
use ai_cybersecurity_soc_ana.Rag.Windows.{windows}
use ai_cybersecurity_soc_ana.Rag.Cover.{IsCover, windows-IsCover}
use ai_cybersecurity_soc_ana.Rag.Records.{AreNumbered, FitsSize, chunk_total}

-- Two short sections and one that is longer than the maximum of 12.
abbrev sections : List Text
sections = codes "ab" ∷ codes "cd" ∷ codes "one two three four" ∷ []

chunk_total_example :
    (rs : List KnowledgeChunkRecord) × (chunk 12 4 sections ≡ some rs)
    × AreNumbered 0 rs
    × All (FitsSize 12) rs
chunk_total_example = chunk_total 12 4 sections (omega arith)

-- The long section has no space in the last four characters before its first cut.
chunked :
    chunk 12 4 sections
    ≡ some (
        record { content = codes "ab" ++ blank_line ++ codes "cd"; ordinal = 0; parent = none }
        ∷ record { content = codes "one two thre"; ordinal = 1; parent = some 1 }
        ∷ record { content = codes "three four"; ordinal = 2; parent = some 1 }
        ∷ [])
unfolding chunk
chunked = refl

windows-IsCover_instance :
    (ws : List (ℕ × ℕ)) × (windows 18 12 4 (codes "one two three four") 0 ≡ some ws)
    × IsCover 12 18 0 ws
windows-IsCover_instance =
    windows-IsCover 18 12 4 (codes "one two three four") 0 (omega arith) (omega arith) (omega arith)

pack-join_example : join (pack 12 sections) ≡ join sections
pack-join_example = pack-join 12 sections (tt, (tt, (tt, tt)))

abbrev scored : ℕ → ℕ → Scored
scored k n = record { chunk_id = k; content = codes "ab"; score = n }

abbrev ranked : List RetrievedChunk
ranked = from_dense (scored 1 50) ∷ from_dense (scored 2 40) ∷ from_dense (scored 3 30) ∷ []

take_within_budget_lem_example :
    let taken = take_within_budget length 3 5 ranked in
    (left : List RetrievedChunk) × (taken ++ left ≡ take 3 ranked)
    × ((total length taken ≤ 5) ⊎ (length taken ≡ 1))
    × IsFull length 5 (total length taken) left
take_within_budget_lem_example = take_within_budget_lem length 3 5 ranked

taken_two : take_within_budget length 3 5 ranked ≡ take 2 ranked
unfolding take_within_budget
taken_two = refl
