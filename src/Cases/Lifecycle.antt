-- ===== src/Cases/Lifecycle.antt =====
-- The lifecycle operations of backend/services/investigations.py. The clock is an argument.
use ai_cybersecurity_soc_ana.Common.{
  Bool, Option, [], false, if◌then◌else◌, none, some, true, ℕ, ◌+◌, ◌==◌, ◌∷◌,
}
use ai_cybersecurity_soc_ana.Common.Dict.{Dict, insert}
use ai_cybersecurity_soc_ana.Common.Text.{Text}
use ai_cybersecurity_soc_ana.Enums.{DecisionType, InvestigationStatus, Severity, closed, opened}
use ai_cybersecurity_soc_ana.Graph.History.{NodeName}
use ai_cybersecurity_soc_ana.Cases.Tables.{
  Investigation, StageRecord, StageStatus, Tables, change, number,
}

abbrev pub opened_row : Investigation
opened_row = record {
  status = opened;
  severity = none;
  summary = [];
  closed_at = none;
  pipeline = λ n. none;
}

-- `create_investigation`, with the id that the database gives.
unfoldable pub create_investigation : Tables → Tables × ℕ
unfolding insert
create_investigation t = (
  record t {
    investigations = insert t.next_id opened_row t.investigations;
    next_id = t.next_id + 1;
  },
  t.next_id,
)

abbrev pub with_stage : NodeName → StageRecord → Investigation → Investigation
with_stage stage entry row = record row {
  pipeline = λ n. if number n == number stage then some entry else row.pipeline n;
}

unfoldable pub record_stage : ℕ → NodeName → StageStatus → Text → Tables → Tables
unfolding change
record_stage i stage status detail t =
    change i (with_stage stage (record { status = status; detail = detail })) t

abbrev pub is_closed : InvestigationStatus → Bool
is_closed closed = true
is_closed _ = false

abbrev pub or_now : Option ℕ → ℕ → Option ℕ
or_now none now = some now
or_now (some at) now = some at

abbrev pub with_status : InvestigationStatus → ℕ → Investigation → Investigation
with_status status now row = record row {
  status = status;
  closed_at = if is_closed status then or_now row.closed_at now else row.closed_at;
}

unfoldable pub mark_status : ℕ → InvestigationStatus → ℕ → Tables → Tables
unfolding change
mark_status i status now t = change i (with_status status now) t

abbrev pub or_kept : Option Severity → Option Severity → Option Severity
or_kept none kept = kept
or_kept (some s) kept = some s

abbrev pub text_or_kept : Text → Text → Text
text_or_kept [] kept = kept
text_or_kept (c ∷ s) kept = c ∷ s

abbrev pub with_headline : Option Severity → Text → Investigation → Investigation
with_headline severity summary row = record row {
  severity = or_kept severity row.severity;
  summary = text_or_kept summary row.summary;
}

unfoldable pub set_headline : ℕ → Option Severity → Text → Tables → Tables
unfolding change
set_headline i severity summary t = change i (with_headline severity summary) t

-- The first conversation of an investigation.
unfoldable pub first_of : ℕ → Dict ℕ → Option ℕ
first_of i [] = none
first_of i ((c, j) ∷ rows) = if j == i then some c else first_of i rows

unfoldable pub found_or_opened : ℕ → Tables → Option ℕ → Tables × ℕ
unfolding insert
found_or_opened i t (some c) = (t, c)
found_or_opened i t none = (
  record t { conversations = insert t.next_id i t.conversations; next_id = t.next_id + 1 },
  t.next_id,
)

-- `_conversation_for`
unfoldable pub conversation_for : ℕ → Tables → Tables × ℕ
unfolding first_of found_or_opened
conversation_for i t = found_or_opened i t (first_of i t.conversations)

unfoldable pub add_decision : DecisionType → Tables × ℕ → Tables × ℕ
unfolding insert
add_decision d (t, c) = (
  record t {
    decisions = insert t.next_id (record { conversation_id = c; decision = d }) t.decisions;
    next_id = t.next_id + 1;
  },
  t.next_id,
)

-- `record_gate_decision`, with the id of the decision. Rationale and target are left out.
unfoldable pub record_gate_decision : ℕ → DecisionType → Tables → Tables × ℕ
unfolding conversation_for add_decision
record_gate_decision i d t = add_decision d (conversation_for i t)
