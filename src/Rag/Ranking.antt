-- ===== src/Rag/Ranking.antt =====
-- `fuse` and `take_within_budget` of rag/ranking.py. Scores are only carried along here, so they are
-- numbers; the floating-point ranking in between is left out.
use ai_cybersecurity_soc_ana.Common.Dict.{Dict, insert, lookup, lookup-insert}
use ai_cybersecurity_soc_ana.Common.Text.{Text}
use ai_cybersecurity_soc_ana.Common.{
  List, Option, [], ap, arith, if◌then◌else◌, none, refl, some, ℕ, ◌++◌, ◌==◌, ◌∙◌, ◌∷◌, ◌≡◌,
}

pub data RetrievalPath : Type 0 where
  dense keyword : RetrievalPath

-- A chunk as one path found it.
pub record Scored : Type 0 where
  pub chunk_id : ℕ
  pub content : Text
  pub score : ℕ

pub record RetrievedChunk : Type 0 where
  pub chunk_id : ℕ
  pub content : Text
  pub dense_score : ℕ
  pub keyword_score : ℕ
  pub matched_by : List RetrievalPath

abbrev pub from_dense : Scored → RetrievedChunk
from_dense s = record {
  chunk_id = s.chunk_id;
  content = s.content;
  dense_score = s.score;
  keyword_score = 0;
  matched_by = dense ∷ [];
}

abbrev pub with_keyword : Option RetrievedChunk → Scored → RetrievedChunk
with_keyword none s = record {
  chunk_id = s.chunk_id;
  content = s.content;
  dense_score = 0;
  keyword_score = s.score;
  matched_by = keyword ∷ [];
}
with_keyword (some existing) s = record existing {
  keyword_score = s.score;
  matched_by = existing.matched_by ++ keyword ∷ [];
}

unfoldable pub merge_dense : Dict RetrievedChunk → List Scored → Dict RetrievedChunk
unfolding insert
merge_dense merged [] = merged
merge_dense merged (s ∷ hits) = merge_dense (insert s.chunk_id (from_dense s) merged) hits

unfoldable pub merge_keyword : Dict RetrievedChunk → List Scored → Dict RetrievedChunk
unfolding insert lookup
merge_keyword merged [] = merged
merge_keyword merged (s ∷ hits) =
    merge_keyword (insert s.chunk_id (with_keyword (lookup s.chunk_id merged) s) merged) hits

values : Dict RetrievedChunk → List RetrievedChunk
values [] = []
values ((k, r) ∷ d) = r ∷ values d

unfoldable pub merged_hits : List Scored → List Scored → Dict RetrievedChunk
unfolding merge_dense merge_keyword
merged_hits dense_hits keyword_hits = merge_keyword (merge_dense [] dense_hits) keyword_hits

unfoldable pub fuse : List Scored → List Scored → List RetrievedChunk
unfolding merged_hits values
fuse dense_hits keyword_hits = values (merged_hits dense_hits keyword_hits)

-- The last hit of a chunk on one path.
unfoldable pub hit_of : ℕ → List Scored → Option Scored
hit_of k [] = none
hit_of k (s ∷ hits) =
    let later = hit_of k hits in
    elim later [ some t ↦ some t | none ↦ if s.chunk_id == k then some s else none ]

-- No chunk stands twice.
abbrev pub AreDistinct : List Scored → Type 0
AreDistinct [] = Unit
AreDistinct (s ∷ hits) = (hit_of s.chunk_id hits ≡ none) × AreDistinct hits

-- What the two paths together say of one chunk.
abbrev pub combined : Option Scored → Option Scored → Option RetrievedChunk
combined none none = none
combined (some d) none = some (from_dense d)
combined none (some w) = some (with_keyword none w)
combined (some d) (some w) = some (with_keyword (some (from_dense d)) w)

abbrev pub after_dense : Option RetrievedChunk → Option Scored → Option RetrievedChunk
after_dense before none = before
after_dense before (some d) = some (from_dense d)

abbrev pub after_keyword : Option RetrievedChunk → Option Scored → Option RetrievedChunk
after_keyword before none = before
after_keyword before (some w) = some (with_keyword before w)

lookup-merge_dense :
    (k : ℕ) (merged : Dict RetrievedChunk) (hits : List Scored)
    → lookup k (merge_dense merged hits) ≡ after_dense (lookup k merged) (hit_of k hits)
unfolding merge_dense hit_of
lookup-merge_dense k merged [] = refl
lookup-merge_dense k merged (s ∷ hits) = ground (
  arith,
  lookup-merge_dense k (insert s.chunk_id (from_dense s) merged) hits,
  lookup-insert s.chunk_id k (from_dense s) merged,
)

lookup-merge_keyword :
    (k : ℕ) (merged : Dict RetrievedChunk) (hits : List Scored)
    → AreDistinct hits
    → lookup k (merge_keyword merged hits) ≡ after_keyword (lookup k merged) (hit_of k hits)
unfolding merge_keyword hit_of
lookup-merge_keyword k merged [] h = refl
lookup-merge_keyword k merged (s ∷ hits) h =
    let held = with_keyword (lookup s.chunk_id merged) s in
    let rest = lookup-merge_keyword k (insert s.chunk_id held merged) hits h.1 in
    ground (arith, rest, h.0, lookup-insert s.chunk_id k held merged)

after-combined : (d w : Option Scored) → after_keyword (after_dense none d) w ≡ combined d w
after-combined none none = refl
after-combined none (some w) = refl
after-combined (some d) none = refl
after-combined (some d) (some w) = refl

-- Fusing the two retrieval paths keeps one result per chunk: what is held under a chunk's id is
-- the hit of the one path that found it, or the two hits together, with both scores and both paths
-- named, if both did; and nothing if neither did. No chunk stands twice in the keyword hits.
fuse_lem :
    (dense_hits keyword_hits : List Scored) (k : ℕ)
    → AreDistinct keyword_hits
    → lookup k (merged_hits dense_hits keyword_hits)
      ≡ combined (hit_of k dense_hits) (hit_of k keyword_hits)
unfolding merged_hits lookup
fuse_lem dense_hits keyword_hits k h =
    lookup-merge_keyword k (merge_dense [] dense_hits) keyword_hits h
    ∙ ap (λ o. after_keyword o (hit_of k keyword_hits)) (lookup-merge_dense k [] dense_hits)
    ∙ after-combined (hit_of k dense_hits) (hit_of k keyword_hits)
