-- ===== src/Memory/Context.antt =====
-- `materialize_context` of memory/service.py: the context of one agent turn, cut to its budget. What
-- a tier answers is an argument, `none` if it raises; a turn or a chunk is its content.
use ai_cybersecurity_soc_ana.Common.{
  Bool, List, Option, [], any, false, if◌then◌else◌, ltb, none, some, true, ℕ, ◌++◌, ◌+◌, ◌<◌, ◌∷◌,
  ◌≡◌, ◌≤◌,
}
use ai_cybersecurity_soc_ana.Memory.Working.{
  MemoryEntry, estimate_entry_tokens, estimate_tokens, summary_tokens,
}
use ai_cybersecurity_soc_ana.Common.Text.{Text}

pub data MemoryTier : Type 0 where
  working session conversation long_term knowledge investigation_history : MemoryTier

pub record ContextBundle : Type 0 where
  pub working_entries : List MemoryEntry
  pub session_entries : List MemoryEntry
  pub turns : List Text
  pub chunks : List Text
  pub related_investigations : List ℕ
  pub summaries : List Text
  pub estimated : ℕ
  pub degraded_tiers : List MemoryTier

abbrev pub same_tier : MemoryTier → MemoryTier → Bool
same_tier working working = true
same_tier session session = true
same_tier conversation conversation = true
same_tier long_term long_term = true
same_tier knowledge knowledge = true
same_tier investigation_history investigation_history = true
same_tier _ _ = false

-- `_read_tier`: what is read, and the degraded tiers.
unfoldable pub read_tier {ℓ} :
    {A : Type ℓ} → MemoryTier → Option (List A) → List MemoryTier → List A × List MemoryTier
read_tier tier (some found) degraded = (found, degraded)
read_tier tier none degraded =
    ([], if any (same_tier tier) degraded then degraded else degraded ++ tier ∷ [])

unfoldable pub read_knowledge :
    Bool → Bool → Option (List Text) → List MemoryTier → List Text × List MemoryTier
unfolding read_tier
read_knowledge asked available found degraded =
    if asked
    then (if available
        then read_tier knowledge found degraded
        else ([], degraded ++ knowledge ∷ []))
    else ([], degraded)

-- The loop over the related values, one read for each.
unfoldable pub read_related :
    List (Option (List ℕ)) → List ℕ → List MemoryTier → List ℕ × List MemoryTier
unfolding read_tier
read_related [] found degraded = (found, degraded)
read_related (r ∷ reads) found degraded =
    let (more, degraded') = read_tier investigation_history r degraded in
    read_related reads (found ++ more) degraded'

unfoldable pub entries_tokens : List MemoryEntry → ℕ
unfolding estimate_tokens
entries_tokens [] = 0
entries_tokens (e ∷ es) = estimate_entry_tokens e + entries_tokens es

-- The loop of `_fit_to_budget`: the trimmed entries, and the retained ones.
unfoldable pub trim : ℕ → ℕ → List MemoryEntry → List MemoryEntry × List MemoryEntry
unfolding entries_tokens
trim fixed budget [] = ([], [])
trim fixed budget (e ∷ es) =
    let (trimmed, retained) = trim fixed budget es in
    if ltb budget (fixed + entries_tokens (e ∷ es)) then (e ∷ trimmed, retained) else ([], e ∷ es)

abbrev pub fixed_tokens : ContextBundle → ℕ
fixed_tokens b =
    summary_tokens b.turns
    + summary_tokens b.chunks
    + entries_tokens b.working_entries
    + summary_tokens b.summaries

abbrev pub new_summary : Text → List Text
new_summary [] = []
new_summary (c ∷ s) = (c ∷ s) ∷ []

module _ (summarize : List MemoryEntry → Text) where
  abbrev pub summary_of : List MemoryEntry → List Text
  summary_of [] = []
  summary_of (e ∷ es) = new_summary (summarize (e ∷ es))

  -- `_fit_to_budget`
  unfoldable pub fit_to_budget : ContextBundle → ℕ → ContextBundle
  unfolding trim entries_tokens summary_tokens
  fit_to_budget b budget =
      let fixed = fixed_tokens b in
      let (trimmed, retained) = trim fixed budget b.session_entries in
      record b {
        session_entries = retained;
        summaries = b.summaries ++ summary_of trimmed;
        estimated = fixed + entries_tokens retained + summary_tokens (summary_of trimmed);
      }

-- What each tier answers.
pub record Tiers : Type 0 where
  pub session_read : Option (List MemoryEntry)
  pub turns_read : Option (List Text)
  pub is_available : Bool
  pub chunks_read : Option (List Text)
  pub related_reads : List (Option (List ℕ))

module _ (summarize : List MemoryEntry → Text) where
  -- `materialize_context`, with the working memory's entries and summaries.
  unfoldable pub materialize_context :
      Tiers → Bool → List MemoryEntry → List Text → ℕ → ContextBundle
  unfolding read_tier read_knowledge read_related fit_to_budget
  materialize_context tiers asked entries summaries budget =
      let (session_entries, d1) = read_tier session tiers.session_read [] in
      let (turns, d2) = read_tier conversation tiers.turns_read d1 in
      let (chunks, d3) = read_knowledge asked tiers.is_available tiers.chunks_read d2 in
      let (related, d4) = read_related tiers.related_reads [] d3 in
      fit_to_budget summarize
        (record {
          working_entries = entries;
          session_entries = session_entries;
          turns = turns;
          chunks = chunks;
          related_investigations = related;
          summaries = summaries;
          estimated = 0;
          degraded_tiers = d4;
        })
        budget

-- Nothing is retained, or what is retained fits.
abbrev pub Fits : ℕ → ℕ → List MemoryEntry → Type 0
Fits fixed budget [] = Unit
Fits fixed budget (e ∷ es) = fixed + entries_tokens (e ∷ es) ≤ budget

-- Two contexts agree on all but the session entries, the summaries and the estimate.
abbrev pub KeepsTheRest : ContextBundle → ContextBundle → Type 0
KeepsTheRest b c =
    (c.working_entries ≡ b.working_entries)
    × (c.turns ≡ b.turns)
    × (c.chunks ≡ b.chunks)
    × (c.related_investigations ≡ b.related_investigations)
    × (c.degraded_tiers ≡ b.degraded_tiers)

-- Each trimmed entry, with all that came after it, would not have fitted.
abbrev pub IsNeeded : ℕ → ℕ → List MemoryEntry → List MemoryEntry → Type 0
IsNeeded fixed budget [] retained = Unit
IsNeeded fixed budget (e ∷ trimmed) retained =
    (budget < fixed + entries_tokens ((e ∷ trimmed) ++ retained))
    × IsNeeded fixed budget trimmed retained
