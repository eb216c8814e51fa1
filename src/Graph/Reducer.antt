-- ===== src/Graph/Reducer.antt =====
-- `merge_substate` of graph/state.py, on JSON-like values. A key and a scalar are numbers; a mapping
-- keeps its keys in the order of their insertion.
use ai_cybersecurity_soc_ana.Common.{
  ==_iff, Bool-cases, Option, arith, if◌then◌else◌, inl, inr, none, refl, some, ℕ, ◌==◌, ◌∙◌, ◌≡◌,
  ◌≢◌,
}

mutual
  pub data Value : Type 0 where
    scalar : ℕ → Value
    list : Values → Value
    mapping : Fields → Value

  pub data Values : Type 0 where
    nil : Values
    item : Value → Values → Values

  pub data Fields : Type 0 where
    end : Fields
    field : ℕ → Value → Fields → Fields

unfoldable pub append_values : Values → Values → Values
append_values nil ys = ys
append_values (item x xs) ys = item x (append_values xs ys)

-- `result[key] = …` for a key that is there or not.
update : ℕ → Value → (Value → Value) → Fields → Fields
update k v f end = field k v end
update k v f (field key w rest) =
    let rest' = update k v f rest in if key == k then field key (f w) rest else field key w rest'

-- A list joins a list, and replaces anything else.
list_onto : Values → Value → Value
unfolding append_values
list_onto ys (list xs) = list (append_values xs ys)
list_onto ys _ = list ys

-- A mapping is merged into a mapping, and replaces anything else.
mapping_onto : (Fields → Fields) → Fields → Value → Value
mapping_onto merged g (mapping f) = mapping (merged f)
mapping_onto merged g _ = mapping g

unfoldable mutual
  unfolding update list_onto mapping_onto

  -- `_merge_value`, the incoming value first.
  pub merge_value : Value → Value → Value
  merge_value (scalar n) current = scalar n
  merge_value (list ys) current = list_onto ys current
  merge_value (mapping g) current = mapping_onto (merge_mapping g) g current

  -- `_merge_mapping`, the incoming mapping first.
  pub merge_mapping : Fields → Fields → Fields
  merge_mapping end current = current
  merge_mapping (field k v rest) current = merge_mapping rest (update k v (merge_value v) current)

unfoldable pub merge_substate : Fields → Fields → Fields
unfolding merge_mapping
merge_substate current incoming = merge_mapping incoming current

unfoldable pub find : ℕ → Fields → Option Value
find k end = none
find k (field key v rest) = let later = find k rest in if key == k then some v else later

-- No key occurs twice, as in any mapping.
abbrev pub HasDistinctNames : Fields → Type 0
HasDistinctNames end = Unit
HasDistinctNames (field k v rest) = (find k rest ≡ none) × HasDistinctNames rest

-- What one key holds after a merge.
unfoldable pub merged_entry : Option Value → Option Value → Option Value
merged_entry current none = current
merged_entry none (some v) = some v
merged_entry (some w) (some v) = some (merge_value v w)

find-update_same :
    (k : ℕ) (v : Value) (f : Fields)
    → find k (update k v (merge_value v) f) ≡ merged_entry (find k f) (some v)
unfolding find update merged_entry
find-update_same k v end = ground arith
find-update_same k v (field key w rest) = elim (Bool-cases (key == k)) [
  | inl same ↦ rw same (rw same refl)
  | inr other ↦ rw other (rw other (find-update_same k v rest))
]

find-update_other :
    (k j : ℕ) (v : Value) (m : Value → Value) (f : Fields)
    → k ≢ j
    → find k (update j v m f) ≡ find k f
unfolding find update
find-update_other k j v m end h = ground arith
find-update_other k j v m (field key w rest) h = ground (arith, h, find-update_other k j v m rest h)

-- The merge of two mappings without double keys, key by key: a key of one mapping only keeps its
-- value, and a key of both holds the merge of the two values, in which lists append, mappings merge
-- and anything else is replaced by what comes in.
merge_substate-find :
    (current incoming : Fields) (k : ℕ)
    → HasDistinctNames incoming
    → find k (merge_substate current incoming) ≡ merged_entry (find k current) (find k incoming)
unfolding merge_substate find merged_entry
merge_substate-find current end k h = refl
merge_substate-find current (field key v rest) k h =
    let rest_merged = merge_substate-find (update key v (merge_value v) current) rest k h.1 in
    elim (Bool-cases (key == k)) [
      | inl same ↦
          let at_key : key ≡ k = (==_iff key k).0 same in
          let absent : find k rest ≡ none = rw at_key at (h.0) in
          let updated : find k (update key v (merge_value v) current)
              ≡ merged_entry (find k current) (some v) =
            rw at_key (find-update_same k v current) in
          rw same (rest_merged ∙ rw (absent, updated) refl)
      | inr other ↦
          let elsewhere : k ≢ key = λ e. absurd (ground (arith, e, other)) in
          let updated : find k (update key v (merge_value v) current) ≡ find k current =
            find-update_other k key v (merge_value v) current elsewhere in
          rw other (rest_merged ∙ rw updated refl)
    ]
