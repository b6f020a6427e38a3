-- ===== src/Schema.antt =====
-- packages/core/src/toolErrors.ts, `validateToolArguments`: the arguments of a tool against its input
-- schema. Numbers, the equality of JSON values and regular expressions are arguments. A path is a
-- list of keys and indexes, the last first.
pub mod Rules
pub mod Validate
pub mod Parts
pub mod Branches
pub mod Laws
mod Tests
use ninjacode_agent.Prelude.{
  is_some, if◌then◌else◌, ℕ, ◌+◌, Bool, true, false, Option, none, some, List, [], ◌∷◌,
}
use ninjacode_agent.Prelude.Texts.{Text, text_eq}

mutual
  -- A JSON value over a type of numbers.
  pub data Json (N : Type 0) : Type 0 where
    null_value : Json N
    bool_value : Bool → Json N
    number_value : N → Json N
    text_value : Text → Json N
    array_value : Items N → Json N
    object_value : Entries N → Json N

  pub data Items (N : Type 0) : Type 0 where
    no_items : Items N
    item : Json N → Items N → Items N

  -- The entries of an object, in order.
  pub data Entries (N : Type 0) : Type 0 where
    no_entries : Entries N
    entry : Text → Json N → Entries N → Entries N

pub data Segment : Type 0 where
  key_segment : Text → Segment
  index_segment : ℕ → Segment

pub data Complaint : Type 0 where
  over_budget too_deep forbidden invalid_schema unresolved_ref : Complaint
  not_const not_in_enum wrong_type no_branch not_one_branch : Complaint
  required not_allowed too_few_items too_many_items : Complaint
  too_short too_long unsafe_pattern no_match invalid_pattern : Complaint
  not_finite_number below_minimum above_maximum : Complaint

pub record Issue : Type 0 where
  pub path : List Segment
  pub complaint : Complaint

-- What JavaScript does with numbers and regular expressions, and `jsonEqual`. A pattern that is no
-- regular expression gives `none`.
pub record Platform (N : Type 0) : Type 0 where
  pub is_finite : N → Bool
  pub is_zero : N → Bool
  pub is_integer : N → Bool
  pub is_below : N → N → Bool
  pub of_length : ℕ → N
  pub json_equal : Json N → Json N → Bool
  pub is_bounded_pattern : Text → Text → Bool
  pub matches : Text → Text → Option Bool

abbrev pub max_schema_depth : ℕ
max_schema_depth = 32

abbrev pub max_validation_nodes : ℕ
max_validation_nodes = 10000

-- `if (extra)`: an empty key is no extra key.
unfoldable pub extra_found : Option Text → Bool
extra_found none = false
extra_found (some []) = false
extra_found (some (c ∷ key)) = true

module _ {N : Type 0} where
  -- `value[key]`, none where the key is absent.
  unfoldable pub entry_of : Text → Entries N → Option (Json N)
  entry_of key no_entries = none
  entry_of key (entry k v entries) = if text_eq k key then some v else entry_of key entries

  unfoldable pub has_own : Text → Entries N → Bool
  unfolding entry_of
  has_own key entries = is_some (entry_of key entries)

  unfoldable pub to_list : Items N → List (Json N)
  to_list no_items = []
  to_list (item v items) = v ∷ to_list items

  -- `Array.isArray(x) ? x : []` on a field that may be absent.
  unfoldable pub items_in : Option (Json N) → Items N
  items_in (some (array_value values)) = values
  items_in _ = no_items

  unfoldable pub entries_in : Option (Json N) → Entries N
  entries_in (some (object_value fields)) = fields
  entries_in _ = no_entries

  -- The first key of the list that is a text and is not in the object.
  unfoldable pub missing_key : Items N → Entries N → Option Text
  unfolding has_own
  missing_key no_items value = none
  missing_key (item (text_value key) items) value =
      if has_own key value then missing_key items value else some key
  missing_key (item other items) value = missing_key items value

  -- The first key of the object that is not among the properties.
  unfoldable pub extra_key : Entries N → Entries N → Option Text
  unfolding has_own
  extra_key properties no_entries = none
  extra_key properties (entry k v value) =
      if has_own k properties then extra_key properties value else some k

  unfoldable pub is_false : Option (Json N) → Bool
  is_false (some (bool_value false)) = true
  is_false _ = false

-- A part of the validation: the number of nodes visited after it, with the first issue.
abbrev pub Check : Type 0
Check = ℕ × Option Issue

-- `if (issue) return issue;`
abbrev pub or_next : Check → (ℕ → Check) → Check
or_next (visited, some issue) next = (visited, some issue)
or_next (visited, none) next = next visited

abbrev pub complain : ℕ → List Segment → Complaint → Check
complain visited path complaint = (visited, some (record { path = path; complaint = complaint }))

-- The rest, unless the test fails.
abbrev pub unless : Bool → ℕ → List Segment → Complaint → Check → Check
unless fails visited path complaint rest = if fails then complain visited path complaint else rest

-- The loops over branches, properties and items, for the validation of a smaller depth.
module _ {N : Type 0} (check : Json N → Json N → ℕ → List Segment → Check) where
  unfoldable pub all_of : Items N → Json N → ℕ → List Segment → Check
  all_of no_items value visited path = (visited, none)
  all_of (item branch branches) value visited path =
      or_next (check branch value visited path) (λ later. all_of branches value later path)

  -- `schema.anyOf.some(...)` stops at the first branch without an issue.
  unfoldable pub any_of : Items N → Json N → ℕ → List Segment → ℕ × Bool
  any_of no_items value visited path = (visited, false)
  any_of (item branch branches) value visited path =
      let (later, issue) = check branch value visited path in
      let rest = any_of branches value later path in if is_some issue then rest else (later, true)

  unfoldable pub one_of : Items N → Json N → ℕ → List Segment → ℕ × ℕ
  one_of no_items value visited path = (visited, 0)
  one_of (item branch branches) value visited path =
      let (later, issue) = check branch value visited path in
      let (last, count) = one_of branches value later path in
      (last, (if is_some issue then count else count + 1))

  unfoldable pub check_properties : Entries N → Entries N → ℕ → List Segment → Check
  unfolding entry_of
  check_properties no_entries value visited path = (visited, none)
  check_properties (entry key child properties) value visited path = elim (entry_of key value) [
    | none ↦ check_properties properties value visited path
    | some v ↦
        or_next (check child v visited (key_segment key ∷ path))
          (λ later. check_properties properties value later path)
  ]

  unfoldable pub check_items : Json N → List (Json N) → ℕ → ℕ → List Segment → Check
  check_items schema [] index visited path = (visited, none)
  check_items schema (v ∷ values) index visited path =
      or_next (check schema v visited (index_segment index ∷ path))
        (λ later. check_items schema values (index + 1) later path)
