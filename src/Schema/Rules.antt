-- ===== src/Schema/Rules.antt =====
-- toolErrors.ts: the rules of a schema that look at one value alone, and references.
use ninjacode_agent.Prelude.{
  ◌==◌, if◌then◌else◌, drop, any, length, ℕ, Bool, true, false, not, ◌&&◌, ◌||◌, Option, none, some,
  List, [], ◌∷◌, ◌++◌,
}
use ninjacode_agent.Prelude.Texts.{Text, text_eq, starts_with, codes}
use ninjacode_agent.Schema.{
  null_value, no_items, Check, Entries, no_match, unsafe_pattern, invalid_pattern, unless, entry_of,
  not_in_enum, complain, too_long, array_value, to_list, Segment, wrong_type, not_const,
  number_value, Items, Platform, item, text_value, object_value, Json, too_short, bool_value,
  not_finite_number, below_minimum, above_maximum,
}

-- `~1` and `~0` in a part of a reference.
unfoldable pub replace_pair : ℕ → ℕ → Text → Text
replace_pair digit by [] = []
replace_pair digit by (c ∷ []) = c ∷ []
replace_pair digit by (c ∷ d ∷ s) =
    if c == b'~' && d == digit
    then by ∷ replace_pair digit by s
    else c ∷ replace_pair digit by (d ∷ s)

unfoldable pub decoded : Text → Text
unfolding replace_pair
decoded part = replace_pair b'0' b'~' (replace_pair b'1' b'/' part)

-- `text.split("/")`
unfoldable pub split_slashes : Text → Text → List Text
split_slashes part [] = part ∷ []
split_slashes part (c ∷ s) =
    if c == b'/' then part ∷ split_slashes [] s else split_slashes (part ++ c ∷ []) s

module _ {N : Type 0} where
  unfoldable pub walk : List Text → Json N → Option (Json N)
  unfolding entry_of decoded
  walk [] current = some current
  walk (part ∷ parts) (object_value fields) = elim (entry_of (decoded part) fields) [
    | none ↦ none
    | some next ↦ walk parts next
  ]
  walk (part ∷ parts) other = none

  unfoldable pub record_in : Option (Json N) → Option (Entries N)
  record_in (some (object_value fields)) = some fields
  record_in _ = none

  -- `resolveReference`, by `schema.$ref`.
  unfoldable pub referred : Option (Json N) → Entries N → Entries N → Option (Entries N)
  unfolding walk record_in split_slashes starts_with
  referred (some (text_value reference)) schema root =
      if not (starts_with reference (codes "#/"))
      then none
      else record_in (walk (split_slashes [] (drop 2 reference)) (object_value root))
  referred _ schema root = some schema

  unfoldable pub resolve_reference : Entries N → Entries N → Option (Entries N)
  unfolding referred entry_of
  resolve_reference schema root = referred (entry_of (codes "$ref") schema) schema root

module _ {N : Type 0} (js : Platform N) where
  -- `typeof value === expected`, after the names that are treated by themselves.
  unfoldable pub has_type_name : Text → Json N → Bool
  has_type_name expected null_value = text_eq expected (codes "null")
  has_type_name expected (array_value values) = text_eq expected (codes "array")
  has_type_name expected (object_value fields) = text_eq expected (codes "object")
  has_type_name expected (number_value n) =
      (text_eq expected (codes "integer") && js.is_integer n) || text_eq expected (codes "number")
  has_type_name expected (text_value s) = text_eq expected (codes "string")
  has_type_name expected (bool_value b) = text_eq expected (codes "boolean")

  unfoldable mutual
    unfolding has_type_name

    pub matches_type : Json N → Json N → Bool
    matches_type (array_value values) value = matches_some values value
    matches_type (text_value expected) value = has_type_name expected value
    matches_type null_value value = false
    matches_type (bool_value b) value = false
    matches_type (number_value n) value = false
    matches_type (object_value fields) value = false

    pub matches_some : Items N → Json N → Bool
    matches_some no_items value = false
    matches_some (item expected items) value =
        matches_type expected value || matches_some items value

  unfoldable pub is_truthy : Json N → Bool
  is_truthy null_value = false
  is_truthy (bool_value b) = b
  is_truthy (number_value n) = not (js.is_zero n)
  is_truthy (text_value []) = false
  is_truthy (text_value (c ∷ s)) = true
  is_truthy (array_value values) = true
  is_truthy (object_value fields) = true

  unfoldable pub breaks_const : Option (Json N) → Json N → Bool
  breaks_const none value = false
  breaks_const (some expected) value = not (js.json_equal value expected)

  unfoldable pub breaks_enum : Option (Json N) → Json N → Bool
  unfolding to_list
  breaks_enum (some (array_value values)) value =
      not (any (λ allowed. js.json_equal allowed value) (to_list values))
  breaks_enum _ value = false

  unfoldable pub breaks_type : Option (Json N) → Json N → Bool
  unfolding is_truthy matches_type
  breaks_type none value = false
  breaks_type (some expected) value = is_truthy expected && not (matches_type expected value)

  unfoldable pub validate_basic_rules : Entries N → Json N → ℕ → List Segment → Check
  unfolding breaks_const breaks_enum breaks_type entry_of
  validate_basic_rules schema value visited path =
      unless (breaks_const (entry_of (codes "const") schema) value) visited path not_const (
        unless (breaks_enum (entry_of (codes "enum") schema) value) visited path not_in_enum (
          unless (breaks_type (entry_of (codes "type") schema) value) visited path wrong_type
            (visited, none)))

  -- `typeof limit === "number" && value < limit`, and the other way.
  unfoldable pub under : Option (Json N) → N → Bool
  under (some (number_value limit)) n = js.is_below n limit
  under _ n = false

  unfoldable pub over : Option (Json N) → N → Bool
  over (some (number_value limit)) n = js.is_below limit n
  over _ n = false

  unfoldable pub check_pattern : Option (Json N) → Text → ℕ → List Segment → Check
  check_pattern (some (text_value pattern)) s visited path =
      if not (js.is_bounded_pattern pattern s)
      then complain visited path unsafe_pattern
      else elim (js.matches pattern s) [
        | none ↦ complain visited path invalid_pattern
        | some found ↦ if found then (visited, none) else complain visited path no_match
      ]
  check_pattern _ s visited path = (visited, none)

  unfoldable pub validate_string : Entries N → Text → ℕ → List Segment → Check
  unfolding under over check_pattern entry_of
  validate_string schema s visited path =
      let size = js.of_length (length s) in
      unless (under (entry_of (codes "minLength") schema) size) visited path too_short (
        unless (over (entry_of (codes "maxLength") schema) size) visited path too_long
          (check_pattern (entry_of (codes "pattern") schema) s visited path))

  unfoldable pub validate_number : Entries N → N → ℕ → List Segment → Check
  unfolding under over entry_of
  validate_number schema n visited path =
      unless (not (js.is_finite n)) visited path not_finite_number (
        unless (under (entry_of (codes "minimum") schema) n) visited path below_minimum (
          unless (over (entry_of (codes "maximum") schema) n) visited path above_maximum
            (visited, none)))
