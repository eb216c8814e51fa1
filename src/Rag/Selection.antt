-- ===== src/Rag/Selection.antt =====
-- `take_within_budget` of rag/ranking.py: what goes into the context.
use ai_cybersecurity_soc_ana.Rag.Ranking.{RetrievedChunk}
use ai_cybersecurity_soc_ana.Common.Text.{Text}
use ai_cybersecurity_soc_ana.Common.{
  Bool, Bool-cases, List, [], ap, arith, false, if◌then◌else◌, inl, inr, length, ltb, ltb→lt, refl,
  take, true, ℕ, ◌&&◌, ◌++◌, ◌+◌, ◌<◌, ◌∷◌, ◌≡◌, ◌≤◌, ◌⊎◌, lt→ltb,
}

module _ (estimate : Text → ℕ) where
  -- The loop, after items that use `used` tokens; `any_yet` is the truth of `selected`.
  unfoldable pub select : ℕ → ℕ → Bool → List RetrievedChunk → List RetrievedChunk
  select token_budget used any_yet [] = []
  select token_budget used any_yet (item ∷ ranked) =
      let cost = estimate item.content in
      let rest = select token_budget (used + cost) true ranked in
      if any_yet && ltb token_budget (used + cost) then [] else item ∷ rest

  unfoldable pub take_within_budget : ℕ → ℕ → List RetrievedChunk → List RetrievedChunk
  unfolding select
  take_within_budget top_k token_budget ranked = select token_budget 0 false (take top_k ranked)

  abbrev pub total : List RetrievedChunk → ℕ
  total [] = 0
  total (item ∷ items) = estimate item.content + total items

  -- The next item would overflow the budget, or there is none.
  abbrev pub IsFull : ℕ → ℕ → List RetrievedChunk → Type 0
  IsFull token_budget used [] = Unit
  IsFull token_budget used (item ∷ items) = token_budget < used + estimate item.content

  IsFull-same :
      (token_budget a b : ℕ) (left : List RetrievedChunk)
      → a ≡ b
      → IsFull token_budget a left
      → IsFull token_budget b left
  IsFull-same token_budget a b [] e h = tt
  IsFull-same token_budget a b (item ∷ left) e h = omega (arith, e, h)

  select-lem :
      (token_budget used : ℕ) (ranked : List RetrievedChunk)
      → used ≤ token_budget
      → let taken = select token_budget used true ranked in
        (left : List RetrievedChunk) × (taken ++ left ≡ ranked)
        × (used + total taken ≤ token_budget)
        × IsFull token_budget (used + total taken) left
  unfolding select
  select-lem token_budget used [] h = ([], refl, omega arith, tt)
  select-lem token_budget used (item ∷ ranked) h =
      let cost = estimate item.content in
      let taken = select token_budget (used + cost) true ranked in
      elim (Bool-cases (ltb token_budget (used + cost))) [
        | inl over ↦
            let beyond = ltb→lt token_budget (used + cost) over in
            (
              item ∷ ranked,
              rw over refl,
              rw over (omega (arith, h)),
              rw over (omega (arith, beyond)),
            )
        | inr fits ↦
            let (left, same, within, full) =
              select-lem token_budget (used + cost) ranked (ground (arith, fits)) in
            (
              left,
              rw fits (ap (λ l. item ∷ l) same),
              rw fits (omega (arith, within)),
              rw fits (
                  IsFull-same token_budget (used + cost + total taken) (used + (cost + total taken))
                    left (omega arith) full),
            )
      ]

  -- Past the budget nothing more is taken.
  select_past :
      (token_budget used : ℕ) (ranked : List RetrievedChunk)
      → token_budget < used
      → select token_budget used true ranked ≡ []
  unfolding select
  select_past token_budget used [] h = refl
  select_past token_budget used (item ∷ ranked) h =
      rw (lt→ltb token_budget (used + estimate item.content) (omega (arith, h))) refl

  past-IsFull :
      (token_budget used : ℕ) (left : List RetrievedChunk)
      → token_budget < used
      → IsFull token_budget used left
  past-IsFull token_budget used [] h = tt
  past-IsFull token_budget used (item ∷ left) h = omega (arith, h)

  select_first :
      (token_budget : ℕ) (ranked : List RetrievedChunk)
      → let taken = select token_budget 0 false ranked in
        (left : List RetrievedChunk) × (taken ++ left ≡ ranked)
        × ((total taken ≤ token_budget) ⊎ (length taken ≡ 1))
        × IsFull token_budget (total taken) left
  unfolding select
  select_first token_budget [] = ([], refl, inl (omega arith), tt)
  select_first token_budget (item ∷ ranked) =
      let cost = estimate item.content in
      let taken = select token_budget (0 + cost) true ranked in
      elim (Bool-cases (ltb token_budget (0 + cost))) [
        | inl over ↦
            let beyond = ltb→lt token_budget (0 + cost) over in
            let none_left = select_past token_budget (0 + cost) ranked beyond in
            (
              ranked,
              rw none_left refl,
              rw none_left (inr refl),
              rw none_left (past-IsFull token_budget (cost + 0) ranked (omega (arith, beyond))),
            )
        | inr fits ↦
            let (left, same, within, full) =
              select-lem token_budget (0 + cost) ranked (ground (arith, fits)) in
            (
              left,
              ap (λ l. item ∷ l) same,
              inl (omega (arith, within)),
              IsFull-same token_budget (0 + cost + total taken) (cost + total taken) left
                  (omega arith) full,
            )
      ]

  -- What is taken is a prefix of the best `top_k` chunks, within the token budget unless it is a
  -- single chunk, and no shorter than it has to be: the next of the best chunks, if there is one,
  -- would overflow the budget.
  pub take_within_budget_lem :
      (top_k token_budget : ℕ) (ranked : List RetrievedChunk)
      → let taken = take_within_budget top_k token_budget ranked in
        (left : List RetrievedChunk) × (taken ++ left ≡ take top_k ranked)
        × ((total taken ≤ token_budget) ⊎ (length taken ≡ 1))
        × IsFull token_budget (total taken) left
  unfolding take_within_budget
  take_within_budget_lem top_k token_budget ranked = select_first token_budget (take top_k ranked)
