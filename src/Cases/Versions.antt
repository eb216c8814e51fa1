-- ===== src/Cases/Versions.antt =====
-- The generations of a report: what writing a new one and deciding at the gate do to them.
use ai_cybersecurity_soc_ana.Notify.Contracts.{is_approve}
use ai_cybersecurity_soc_ana.Cases.Tables.{Investigation, Report, Tables, change, draft, final}
use ai_cybersecurity_soc_ana.Cases.Decision.{apply_gate_outcome, has_report}
use ai_cybersecurity_soc_ana.Cases.Lifecycle.{mark_status, with_status}
use ai_cybersecurity_soc_ana.Cases.Reports.{
  current, finalize_report, for_version, latest_version, next_draft, record_report_content,
  set_final,
}
use ai_cybersecurity_soc_ana.Common.Dict.{insert, lookup}
use ai_cybersecurity_soc_ana.Common.{
  Bool, Bool-cases, List, Option, [], ap, arith, false, if◌then◌else◌, inl, inr, max, none, refl,
  some, sym, true, ℕ, ◌&&◌, ◌++◌, ◌+◌, ◌<◌, ◌==◌, ◌∙◌, ◌∷◌, ◌≡◌,
}
use ai_cybersecurity_soc_ana.Enums.{DecisionType, awaiting_approval, closed}
use ai_cybersecurity_soc_ana.Common.Text.{Text}

for_version-le : (i v : ℕ) (rs : List Report) → latest_version i rs < v → for_version i v rs ≡ none
unfolding for_version latest_version
for_version-le i v [] h = refl
for_version-le i v (r ∷ rs) h = ground (arith, h, for_version-le i v rs)

for_version-append :
    (i v : ℕ) (rs : List Report) (row : Report)
    → for_version i v (rs ++ row ∷ []) ≡ elim (for_version i v rs) [
      | some r ↦ some r
      | none ↦ if (row.investigation_id == i) && (row.version == v) then some row else none
    ]
unfolding for_version
for_version-append i v [] row = refl
for_version-append i v (r ∷ rs) row = ground (arith, for_version-append i v rs row)

latest_version-append :
    (i : ℕ) (rs : List Report) (row : Report)
    → latest_version i (rs ++ row ∷ [])
      ≡ max (latest_version i rs) (if row.investigation_id == i then row.version else 0)
unfolding latest_version
latest_version-append i [] row = ground arith
latest_version-append i (r ∷ rs) row = ground (arith, latest_version-append i rs row)

latest_version-next :
    (i w : ℕ) (rs : List Report) (row : Report)
    → row.investigation_id ≡ i
    → row.version ≡ w
    → latest_version i rs < w
    → latest_version i (rs ++ row ∷ []) ≡ w
latest_version-next i w rs row e f h = ground (arith, e, f, h, latest_version-append i rs row)

latest_version-draft :
    (i : ℕ) (summary body : Text) (rs : List Report)
    → latest_version i (rs ++ next_draft i summary body rs ∷ []) ≡ latest_version i rs + 1
latest_version-draft i summary body rs =
    latest_version-next i (latest_version i rs + 1) rs (next_draft i summary body rs) refl refl
      (omega arith)

found_if_new :
    (i j v : ℕ) (row : Report) (rs : List Report)
    → row.investigation_id ≡ i
    → for_version i row.version rs ≡ none
    → for_version j v (rs ++ row ∷ [])
      ≡ (if (i == j) && (row.version == v) then some row else for_version j v rs)
found_if_new i j v row rs e h = elim (Bool-cases ((i == j) && (row.version == v))) [
  | inl same ↦
      let p : i ≡ j = ground (arith, same) in
      let q : row.version ≡ v = ground (arith, same) in
      let none_yet : for_version j v rs ≡ none = rw (sym p) (rw (sym q) h) in
      rw same (for_version-append j v rs row ∙ ground (arith, none_yet, same, e))
  | inr other ↦ rw other (ground (arith, other, e, for_version-append j v rs row))
]

-- A new report is the current one of its investigation, as a draft; its version is one that the
-- investigation did not have, and every report that there was, of any investigation, is still found
-- under its version, unchanged.
pub record_report_content_lem :
    (i j v : ℕ) (summary body : Text) (t : Tables)
    → let (t', row) = record_report_content i summary body t in
      (current i t'.reports ≡ some row)
      × (row.status ≡ draft)
      × (for_version i row.version t.reports ≡ none)
      × (for_version j v t'.reports
          ≡ (if (i == j) && (row.version == v) then some row else for_version j v t.reports))
unfolding record_report_content current
record_report_content_lem i j v summary body t =
    let row = next_draft i summary body t.reports in
    let fresh = for_version-le i row.version t.reports (omega arith) in
    let highest = latest_version-draft i summary body t.reports in
    (
      ap (λ w. for_version i w (t.reports ++ row ∷ [])) highest
          ∙ ground (arith, fresh, for_version-append i row.version t.reports row),
      refl,
      fresh,
      found_if_new i j v row t.reports refl fresh,
    )

abbrev pub made_final : Option Report → Option Report
made_final none = none
made_final (some r) = some (record r { status = final })

for_version-set_final :
    (i w j v : ℕ) (rs : List Report)
    → for_version j v (set_final i w rs)
      ≡ (if (i == j) && (w == v) then made_final (for_version j v rs) else for_version j v rs)
unfolding for_version set_final
for_version-set_final i w j v [] = ground arith
for_version-set_final i w j v (r ∷ rs) = ground (arith, for_version-set_final i w j v rs)

for_version-version :
    (i v : ℕ) (rs : List Report) (r : Report) → for_version i v rs ≡ some r → r.version ≡ v
unfolding for_version
for_version-version i v [] r h = absurd (cc)
for_version-version i v (q ∷ rs) r h = ground (arith, h, for_version-version i v rs r)

change-reports :
    (i : ℕ) (f : Investigation → Investigation) (t : Tables) → (change i f t).reports ≡ t.reports
unfolding change
change-reports i f t =
    elim (lookup i t.investigations)
      as (λ o.
        (elim o as (λ _. Tables) [
          | none ↦ t
          | some row ↦ record t { investigations = insert i (f row) t.investigations }
        ]).reports
        ≡ t.reports) [ none ↦ refl | some row ↦ refl ]

nothing_found :
    (i j v : ℕ) (rs : List Report)
    → for_version i (latest_version i rs) rs ≡ none
    → for_version j v rs ≡ (
        if (i == j) && (latest_version i rs == v)
        then made_final (for_version j v rs)
        else for_version j v rs)
nothing_found i j v rs h = elim (Bool-cases ((i == j) && (latest_version i rs == v))) [
  | inl same ↦
      let p : i ≡ j = ground (arith, same) in
      let q : latest_version i rs ≡ v = ground (arith, same) in
      let absent : for_version j v rs ≡ none = rw (sym p) (rw (sym q) h) in rw same (rw absent refl)
  | inr other ↦ rw other refl
]

-- What `finalize_report` does after the test, by the report that it finds.
finalized_result :
    (b : Bool) (o : Option Report) (i j v : ℕ) (t t' : Tables)
    → current i t.reports ≡ o
    → (if b && (elim o [ none ↦ false | some r ↦ true ])
        then elim o [
          | none ↦ none
          | some r ↦ some (record t { reports = set_final i r.version t.reports })
        ]
        else some t)
      ≡ some t'
    → for_version j v t'.reports ≡ (
        if b && ((i == j) && (latest_version i t.reports == v))
        then made_final (for_version j v t.reports)
        else for_version j v t.reports)
unfolding current
finalized_result false o i j v t t' e h =
    let same : t ≡ t' = cc in ap (λ (u : Tables). for_version j v u.reports) (sym same)
finalized_result true none i j v t t' e h =
    let same : t ≡ t' = cc in
    ap (λ (u : Tables). for_version j v u.reports) (sym same) ∙ nothing_found i j v t.reports e
finalized_result true (some r) i j v t t' e h =
    let same : record t { reports = set_final i r.version t.reports } ≡ t' = cc in
    let version = for_version-version i (latest_version i t.reports) t.reports r e in
    ap (λ (u : Tables). for_version j v u.reports) (sym same)
    ∙ for_version-set_final i r.version j v t.reports
    ∙ ap
        (λ w.
          if (i == j) && (w == v)
          then made_final (for_version j v t.reports)
          else for_version j v t.reports)
        version

-- The outcome of the gate makes the current report of the investigation final, if the decision is an
-- approval, and changes no other report; after any other decision no report changes.
pub gate_finalizes_current :
    (i j v : ℕ) (d : DecisionType) (awaiting : Bool) (now : ℕ) (t t' : Tables)
    → apply_gate_outcome i d awaiting now t ≡ some t'
    → for_version j v t'.reports ≡ (
        if is_approve d && ((i == j) && (latest_version i t.reports == v))
        then made_final (for_version j v t.reports)
        else for_version j v t.reports)
unfolding apply_gate_outcome has_report finalize_report mark_status
gate_finalizes_current i j v d awaiting now t t' h =
    let status = if awaiting then awaiting_approval else closed in
    let marked = change i (with_status status now) t in
    let kept = change-reports i (with_status status now) t in
    rw (sym kept)
      (finalized_result (is_approve d) (current i marked.reports) i j v marked t' refl h)
