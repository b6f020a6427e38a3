-- ===== src/Schema/Validate.antt =====
-- toolErrors.ts: `validateSchema` and what it calls.
use ninjacode_agent.Prelude.{
  ltb, ◌==◌, is_some, if◌then◌else◌, length, ℕ, zero, suc, ◌+◌, Bool, true, false, ◌&&◌, Option,
  none, some, List, [],
}
use ninjacode_agent.Prelude.Texts.{codes}
use ninjacode_agent.Schema.{
  over_budget, null_value, Check, Entries, entries_in, no_branch, extra_key, unless, forbidden,
  entry_of, invalid_schema, too_few_items, required, check_items, not_allowed, items_in, complain,
  max_validation_nodes, not_one_branch, array_value, to_list, too_deep, Segment, is_false,
  extra_found, number_value, unresolved_ref, missing_key, Platform, one_of, all_of, text_value,
  check_properties, object_value, Issue, Json, any_of, or_next, max_schema_depth, bool_value,
  too_many_items,
}
use ninjacode_agent.Schema.Rules.{
  over, under, validate_number, validate_basic_rules, resolve_reference, validate_string,
}

module _ {N : Type 0} (js : Platform N) (check : Json N → Json N → ℕ → List Segment → Check) where
  unfoldable pub check_any_of : Option (Json N) → Json N → ℕ → List Segment → Check
  unfolding any_of
  check_any_of (some (array_value branches)) value visited path =
      let (later, valid) = any_of check branches value visited path in
      if valid then (later, none) else complain later path no_branch
  check_any_of _ value visited path = (visited, none)

  unfoldable pub check_one_of : Option (Json N) → Json N → ℕ → List Segment → Check
  unfolding one_of
  check_one_of (some (array_value branches)) value visited path =
      let (later, count) = one_of check branches value visited path in
      if count == 1 then (later, none) else complain later path not_one_branch
  check_one_of _ value visited path = (visited, none)

  unfoldable pub validate_combinators : Entries N → Json N → ℕ → List Segment → Check
  unfolding all_of check_any_of check_one_of items_in entry_of
  validate_combinators schema value visited path =
      or_next (all_of check (items_in (entry_of (codes "allOf") schema)) value visited path)
        (λ later.
          or_next (check_any_of (entry_of (codes "anyOf") schema) value later path)
            (λ last. check_one_of (entry_of (codes "oneOf") schema) value last path))

  unfoldable pub check_additional : Entries N → Entries N → ℕ → List Segment → Check
  unfolding is_false extra_key extra_found entries_in entry_of
  check_additional schema value visited path =
      if is_false (entry_of (codes "additionalProperties") schema)
        && extra_found (extra_key (entries_in (entry_of (codes "properties") schema)) value)
      then complain visited path not_allowed
      else (visited, none)

  unfoldable pub validate_object : Entries N → Entries N → ℕ → List Segment → Check
  unfolding missing_key items_in entries_in check_properties check_additional entry_of
  validate_object schema value visited path =
      if is_some (missing_key (items_in (entry_of (codes "required") schema)) value)
      then complain visited path required
      else or_next
          (check_properties check (entries_in (entry_of (codes "properties") schema)) value visited
            path)
          (λ later. check_additional schema value later path)

  unfoldable pub check_all_items : Option (Json N) → List (Json N) → ℕ → List Segment → Check
  unfolding check_items
  check_all_items none values visited path = (visited, none)
  check_all_items (some schema) values visited path = check_items check schema values 0 visited path

  unfoldable pub validate_array : Entries N → List (Json N) → ℕ → List Segment → Check
  unfolding under over check_all_items entry_of
  validate_array schema values visited path =
      let size = js.of_length (length values) in
      unless (under js (entry_of (codes "minItems") schema) size) visited path too_few_items (
        unless (over js (entry_of (codes "maxItems") schema) size) visited path too_many_items
          (check_all_items (entry_of (codes "items") schema) values visited path))

  unfoldable pub validate_value : Entries N → Json N → ℕ → List Segment → Check
  unfolding validate_array validate_object validate_string validate_number to_list
  validate_value schema (array_value values) visited path =
      validate_array schema (to_list values) visited path
  validate_value schema (object_value fields) visited path =
      validate_object schema fields visited path
  validate_value schema (text_value s) visited path = validate_string js schema s visited path
  validate_value schema (number_value n) visited path = validate_number js schema n visited path
  validate_value schema null_value visited path = (visited, none)
  validate_value schema (bool_value b) visited path = (visited, none)

  -- What follows `resolveReference`.
  unfoldable pub validate_resolved : Option (Entries N) → Json N → ℕ → List Segment → Check
  unfolding validate_combinators validate_basic_rules validate_value
  validate_resolved none value visited path = complain visited path unresolved_ref
  validate_resolved (some schema) value visited path =
      or_next (validate_combinators schema value visited path) (λ later.
        or_next (validate_basic_rules js schema value later path)
          (λ last. validate_value schema value last path))

  -- `validateSchema`, once the node is counted and the depth is known to be allowed.
  unfoldable pub validate_raw : Entries N → Json N → Json N → ℕ → List Segment → Check
  unfolding resolve_reference validate_resolved
  validate_raw root (bool_value true) value visited path = (visited, none)
  validate_raw root (bool_value false) value visited path = complain visited path forbidden
  validate_raw root (object_value raw) value visited path =
      validate_resolved (resolve_reference raw root) value visited path
  validate_raw root null_value value visited path = complain visited path invalid_schema
  validate_raw root (number_value n) value visited path = complain visited path invalid_schema
  validate_raw root (text_value s) value visited path = complain visited path invalid_schema
  validate_raw root (array_value values) value visited path = complain visited path invalid_schema

module _ {N : Type 0} (js : Platform N) (root : Entries N) where
  -- `validateSchema`, on the depths that are left: one more than the greatest depth at the start.
  unfoldable pub validate_schema : ℕ → Json N → Json N → ℕ → List Segment → Check
  unfolding validate_raw
  validate_schema zero raw value visited path =
      if ltb max_validation_nodes (visited + 1)
      then complain (visited + 1) path over_budget
      else complain (visited + 1) path too_deep
  validate_schema (suc left) raw value visited path =
      if ltb max_validation_nodes (visited + 1)
      then complain (visited + 1) path over_budget
      else validate_raw js (validate_schema left) root raw value (visited + 1) path

-- What is thrown: the arguments are truncated, or they have an issue.
pub data Rejection : Type 0 where
  truncated_arguments : Rejection
  mismatch : Issue → Rejection

unfoldable pub is_true : {N : Type 0} → Option (Json N) → Bool
is_true (some (bool_value true)) = true
is_true _ = false

unfoldable pub validate_tool_arguments :
    {N : Type 0} → Platform N → Entries N → Entries N → Option Rejection
unfolding is_true validate_schema entry_of
validate_tool_arguments js schema args =
    if is_true (entry_of (codes "_truncated") args)
    then some truncated_arguments
    else elim (validate_schema js schema (max_schema_depth + 1) (object_value schema)
        (object_value args) 0 []).1 [ none ↦ none | some issue ↦ some (mismatch issue) ]
