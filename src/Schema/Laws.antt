-- ===== src/Schema/Laws.antt =====
-- toolErrors.ts: what is known of arguments that `validateToolArguments` accepts.
use ninjacode_agent.Prelude.{
  ltb, is_some, All, ℕ, zero, suc, ◌+◌, ◌≡◌, refl, sym, true, false, ◌&&◌, Option, none, some, List,
  arith,
}
use ninjacode_agent.Prelude.Texts.{Text, codes}
use ninjacode_agent.Schema.{
  over_budget, Entries, entries_in, extra_key, entry_of, required, not_allowed, items_in, complain,
  max_validation_nodes, to_list, too_deep, Segment, is_false, has_own, extra_found, missing_key,
  Platform, all_of, check_properties, object_value, Issue, Json, or_next,
}
use ninjacode_agent.Schema.Branches.{
  OneItem, check_one_of-passed, AnyItem, check_any_of-passed, IfArray,
}
use ninjacode_agent.Schema.Parts.{
  none_ne_some, unless-none, check_properties-passed, EachPresent, or_next-none, missing_key-none,
  validate_basic_rules-follows, all_of-passed, FollowsRules, requires,
}
use ninjacode_agent.Schema.Rules.{validate_basic_rules, resolve_reference}
use ninjacode_agent.Schema.Validate.{
  validate_value, validate_raw, check_one_of, validate_schema, validate_object, check_additional,
  validate_resolved, validate_combinators, check_any_of,
}

-- What a schema without a reference asks of an object: every required key, all the schemas of `allOf`,
-- one of those of `anyOf`, one of those of `oneOf` with all the others refusing, the constant, the
-- enumeration and the type, the schema of each of its properties, and, where no others are allowed, no
-- first other key but the empty one.
pub record FitsObject {N : Type 0} (js : Platform N) (P R : Json N → Json N → Type 0)
    (schema value : Entries N) : Type 0 where
  pub filled :
      (key : Text)
      → requires key (items_in (entry_of (codes "required") schema)) ≡ true
      → has_own key value ≡ true
  pub all_hold :
      All
        (λ branch. P branch (object_value value))
        (to_list (items_in (entry_of (codes "allOf") schema)))
  pub any_holds :
      IfArray (AnyItem (λ branch. P branch (object_value value))) (entry_of (codes "anyOf") schema)
  pub one_holds :
      IfArray
        (OneItem
          (λ branch. P branch (object_value value))
          (λ branch. R branch (object_value value)))
        (entry_of (codes "oneOf") schema)
  pub rules : FollowsRules js schema value
  pub properties : EachPresent P (entries_in (entry_of (codes "properties") schema)) value
  pub no_others :
      (is_false (entry_of (codes "additionalProperties") schema)
        && extra_found (extra_key (entries_in (entry_of (codes "properties") schema)) value))
      ≡ false

module _ {N : Type 0} (js : Platform N) (root : Entries N) where
  -- A schema has accepted a value at some depth.
  abbrev pub IsAccepted : Json N → Json N → Type 0
  IsAccepted raw value =
      (left : ℕ) × (visited : ℕ) × (path : List Segment) × ((validate_schema js root left raw value
          visited path).1
        ≡ none)

  -- A schema has refused a value at some depth.
  abbrev pub IsRefused : Json N → Json N → Type 0
  IsRefused raw value =
      (left : ℕ) × (visited : ℕ) × (path : List Segment) × (issue : Issue) × ((validate_schema js
          root left raw value visited path).1
        ≡ some issue)

  accepts :
      (left : ℕ) (raw value : Json N) (visited : ℕ) (path : List Segment)
      → (validate_schema js root left raw value visited path).1 ≡ none
      → IsAccepted raw value
  accepts left raw value visited path e = (left, visited, path, e)

  refuses :
      (left : ℕ) (raw value : Json N) (visited : ℕ) (path : List Segment) (issue : Issue)
      → (validate_schema js root left raw value visited path).1 ≡ some issue
      → IsRefused raw value
  refuses left raw value visited path issue e = (left, visited, path, issue, e)

  -- The parts of what an accepted object has that `validateObject` sees to.
  validate_object-fits :
      (left : ℕ) (schema value : Entries N) (visited : ℕ) (path : List Segment)
      → (validate_object js (validate_schema js root left) schema value visited path).1 ≡ none
      → (is_some (missing_key (items_in (entry_of (codes "required") schema)) value) ≡ false)
        × EachPresent IsAccepted (entries_in (entry_of (codes "properties") schema)) value
        × ((is_false (entry_of (codes "additionalProperties") schema)
              && extra_found (extra_key (entries_in (entry_of (codes "properties") schema)) value))
            ≡ false)
  unfolding validate_object check_additional
  validate_object-fits left schema value visited path h =
      let check = validate_schema js root left in
      let properties = entries_in (entry_of (codes "properties") schema) in
      let checked = check_properties check properties value visited path in
      let additional = λ (later : ℕ). check_additional js check schema value later path in
      let (filled, inner) =
        unless-none (is_some (missing_key (items_in (entry_of (codes "required") schema)) value))
          visited path required (or_next checked additional) h in
      let (each, extras) = or_next-none checked additional inner in
      (
        filled,
        check_properties-passed check IsAccepted (accepts left) properties value visited path each,
        (unless-none
            (is_false (entry_of (codes "additionalProperties") schema)
              && extra_found (extra_key properties value))
            (checked.0) path not_allowed (checked.0, none) extras).0,
      )

  validate_resolved-FitsObject :
      (left : ℕ) (schema value : Entries N) (visited : ℕ) (path : List Segment)
      → (validate_resolved js
          (validate_schema js root left)
          (some schema)
          (object_value value)
          visited
          path).1
        ≡ none
      → FitsObject js IsAccepted IsRefused schema value
  unfolding validate_resolved validate_combinators validate_value
  validate_resolved-FitsObject left schema value visited path h =
      let check = validate_schema js root left in
      let whole = object_value value in
      let combined = validate_combinators js check schema whole visited path in
      let basic = λ (later : ℕ). validate_basic_rules js schema whole later path in
      let object = λ (last : ℕ). validate_object js check schema value last path in
      let (combines, after) = or_next-none combined (λ later. or_next (basic later) object) h in
      let all_of_branches =
        all_of check (items_in (entry_of (codes "allOf") schema)) whole visited path in
      let any_of_branches =
        λ (later : ℕ). check_any_of js check (entry_of (codes "anyOf") schema) whole later path in
      let one_of_branches =
        λ (last : ℕ). check_one_of js check (entry_of (codes "oneOf") schema) whole last path in
      let (all_hold, others) =
        or_next-none all_of_branches (λ later. or_next (any_of_branches later) one_of_branches)
          combines in
      let (any_holds, one_holds) =
        or_next-none (any_of_branches (all_of_branches.0)) one_of_branches others in
      let (follows, fits) = or_next-none (basic (combined.0)) object after in
      let (filled, properties, extras) =
        validate_object-fits left schema value ((basic (combined.0)).0) path fits in
      let passed = accepts left in
      let refused = refuses left in
      record {
        filled = λ key r.
            missing_key-none (items_in (entry_of (codes "required") schema)) value key filled r;
        all_hold =
            all_of-passed check IsAccepted passed (items_in (entry_of (codes "allOf") schema)) whole
              visited path all_hold;
        any_holds =
            check_any_of-passed check IsAccepted IsRefused passed refused js
              (entry_of (codes "anyOf") schema) whole (all_of_branches.0) path any_holds;
        one_holds =
            check_one_of-passed check IsAccepted IsRefused passed refused js
              (entry_of (codes "oneOf") schema) whole ((any_of_branches (all_of_branches.0)).0) path
              one_holds;
        rules = validate_basic_rules-follows js schema value (combined.0) path follows;
        properties = properties;
        no_others = extras;
      }

  -- The schema that a reference leads to, or the schema itself, has what it asks for.
  abbrev pub FitsResolved : Entries N → Entries N → Type 0
  FitsResolved schema value =
      (resolved : Entries N) × (resolve_reference schema root ≡ some resolved)
      × FitsObject js IsAccepted IsRefused resolved value

  by_reference :
      (left : ℕ) (schema value : Entries N) (visited : ℕ) (path : List Segment)
      (o : Option (Entries N))
      → resolve_reference schema root ≡ o
      → (validate_resolved js (validate_schema js root left) o (object_value value) visited path).1
        ≡ none
      → FitsResolved schema value
  unfolding validate_resolved
  by_reference left schema value visited path none e h = ground arith
  by_reference left schema value visited path (some resolved) e h =
      (resolved, e, validate_resolved-FitsObject left resolved value visited path h)

  -- Whatever object a schema accepts.
  pub validate_schema-FitsResolved :
      (left : ℕ) (schema value : Entries N) (visited : ℕ) (path : List Segment)
      → (validate_schema js root left (object_value schema) (object_value value) visited path).1
        ≡ none
      → FitsResolved schema value
  unfolding validate_schema validate_raw
  validate_schema-FitsResolved zero schema value visited path h =
      let (_, deep) =
        unless-none (ltb max_validation_nodes (visited + 1)) (visited + 1) path over_budget
          (complain (visited + 1) path too_deep) h in
      absurd (none_ne_some (record { path = path; complaint = too_deep }) (sym deep))
  validate_schema-FitsResolved (suc left) schema value visited path h =
      let check = validate_schema js root left in
      let (_, accepted) =
        unless-none (ltb max_validation_nodes (visited + 1)) (visited + 1) path over_budget
          (validate_raw js check root (object_value schema) (object_value value) (visited + 1) path)
          h in
      by_reference left schema value (visited + 1) path (resolve_reference schema root) refl
        accepted
