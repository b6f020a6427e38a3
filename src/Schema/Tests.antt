-- ===== src/Schema/Tests.antt =====
-- toolErrors.ts, `validateToolArguments`, on a concrete schema, and its theorem there.
use ninjacode_agent.Prelude.{ltb, ◌==◌, ℕ, String, ◌≡◌, refl, true, false, none, some, [], ◌∷◌}
use ninjacode_agent.Prelude.Texts.{text_eq, codes}
use ninjacode_agent.Schema.{
  null_value, no_items, Entries, no_entries, entry, not_allowed, array_value, wrong_type,
  number_value, Platform, item, text_value, object_value, Json, key_segment, bool_value,
}
use ninjacode_agent.Schema.Validate.{validate_tool_arguments, mismatch}

abbrev plain_js : Platform ℕ
plain_js = record {
  is_finite = λ n. true;
  is_zero = λ n. n == 0;
  is_integer = λ n. true;
  is_below = λ n m. ltb n m;
  of_length = λ n. n;
  json_equal = λ a b. false;
  is_bounded_pattern = λ pattern s. true;
  matches = λ pattern s. some true;
}

abbrev word : String → Json ℕ
word s = text_value (codes s)

abbrev path_schema : Entries ℕ
path_schema = entry (codes "type") (word "object") (
    entry (codes "required") (array_value (item (word "path") no_items)) (
      entry (codes "properties")
        (object_value (
          entry (codes "path") (object_value (entry (codes "type") (word "string") no_entries))
            no_entries))
        (entry (codes "additionalProperties") (bool_value false) no_entries)))

abbrev good : Entries ℕ
good = entry (codes "path") (word "a.ts") no_entries

rejects_number :
    validate_tool_arguments plain_js path_schema (entry (codes "path") (number_value 7) no_entries)
    ≡ some (mismatch (record { path = key_segment (codes "path") ∷ []; complaint = wrong_type }))
unfolding validate_tool_arguments text_eq
rejects_number = refl

rejects_other_key :
    validate_tool_arguments plain_js path_schema
      (entry (codes "path") (word "a.ts") (entry (codes "mode") (word "x") no_entries))
    ≡ some (mismatch (record { path = []; complaint = not_allowed }))
unfolding validate_tool_arguments text_eq
rejects_other_key = refl

-- A key that is the empty text hides itself and the keys behind it.
hidden_behind_empty :
    validate_tool_arguments plain_js path_schema (
      entry
        (codes "path")
        (word "a.ts")
        (entry [] null_value (entry (codes "mode") (word "x") no_entries)))
    ≡ none
unfolding validate_tool_arguments text_eq
hidden_behind_empty = refl
