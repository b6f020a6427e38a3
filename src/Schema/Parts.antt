-- ===== src/Schema/Parts.antt =====
-- toolErrors.ts: what each part of the validation makes sure of.
-- Whether a list of required keys has the key.
use ninjacode_agent.Prelude.{
  some_inj, is_some, All, any, ℕ, ◌≡◌, refl, sym, subst, ◌∙◌, ◌≢◌, Bool, true, false, ◌||◌, Option,
  none, some, List, ◌∷◌, arith,
}
use ninjacode_agent.Prelude.Texts.{Text, text_eq, codes, text_eq→≡}
use ninjacode_agent.Schema.{
  null_value, no_items, Check, Entries, unless, entry_of, no_entries, entry, not_in_enum,
  array_value, to_list, Segment, wrong_type, has_own, not_const, number_value, missing_key, Items,
  Platform, all_of, item, text_value, check_properties, object_value, Json, key_segment, or_next,
  bool_value, Complaint,
}
use ninjacode_agent.Schema.Rules.{
  breaks_enum, has_type_name, breaks_const, breaks_type, validate_basic_rules,
}

unfoldable pub requires : {N : Type 0} → Text → Items N → Bool
requires key no_items = false
requires key (item (text_value k) items) = text_eq k key || requires key items
requires key (item v items) = requires key items

pub none_ne_some : {X : Type 0} (x : X) → none ≢ some x
none_ne_some x = ground arith

pub or_next-none :
    (c : Check) (next : ℕ → Check)
    → (or_next c next).1 ≡ none
    → (c.1 ≡ none) × ((next (c.0)).1 ≡ none)
or_next-none (visited, none) next h = (refl, h)
or_next-none (visited, some issue) next h = ground arith

pub unless-none :
    (fails : Bool) (visited : ℕ) (path : List Segment) (complaint : Complaint) (rest : Check)
    → (unless fails visited path complaint rest).1 ≡ none
    → (fails ≡ false) × (rest.1 ≡ none)
unless-none true visited path complaint rest h = ground arith
unless-none false visited path complaint rest h = (refl, h)

module _ {N : Type 0} where
  -- What holds of each property that the value has.
  abbrev pub EachPresent : (Json N → Json N → Type 0) → Entries N → Entries N → Type 0
  EachPresent P no_entries value = Unit {0}
  EachPresent P (entry key child properties) value =
      ((v : Json N) → entry_of key value ≡ some v → P child v) × EachPresent P properties value

  pub missing_key-none :
      (items : Items N) (value : Entries N) (key : Text)
      → is_some (missing_key items value) ≡ false
      → requires key items ≡ true
      → has_own key value ≡ true
  unfolding missing_key requires
  missing_key-none no_items value key h r = ground arith
  missing_key-none (item (text_value k) items) value key h r =
      ground (arith, missing_key-none items value key, text_eq→≡ k key)
  missing_key-none (item null_value items) value key h r = missing_key-none items value key h r
  missing_key-none (item (bool_value b) items) value key h r = missing_key-none items value key h r
  missing_key-none (item (number_value n) items) value key h r =
      missing_key-none items value key h r
  missing_key-none (item (array_value xs) items) value key h r =
      missing_key-none items value key h r
  missing_key-none (item (object_value xs) items) value key h r =
      missing_key-none items value key h r

  module _ (check : Json N → Json N → ℕ → List Segment → Check) (P : Json N → Json N → Type 0)
      (passed : (raw value : Json N) (visited : ℕ) (path : List Segment)
        → (check raw value visited path).1 ≡ none
        → P raw value) where
    pub all_of-passed :
        (branches : Items N) (value : Json N) (visited : ℕ) (path : List Segment)
        → (all_of check branches value visited path).1 ≡ none
        → All (λ branch. P branch value) (to_list branches)
    unfolding all_of to_list
    all_of-passed no_items value visited path h = tt
    all_of-passed (item branch branches) value visited path h =
        let (first, rest) =
          or_next-none (check branch value visited path)
            (λ later. all_of check branches value later path) h in
        (
          passed branch value visited path first,
          all_of-passed branches value ((check branch value visited path).0) path rest,
        )

    pub check_properties-passed :
        (properties value : Entries N) (visited : ℕ) (path : List Segment)
        → (check_properties check properties value visited path).1 ≡ none
        → EachPresent P properties value
    unfolding check_properties
    check_properties-passed no_entries value visited path h = tt
    check_properties-passed (entry key child properties) value visited path h =
        by_value (entry_of key value) refl
          (λ later g. check_properties-passed properties value later path g) h
      where
        by_value :
            (o : Option (Json N))
            → entry_of key value ≡ o
            → ((later : ℕ)
                → (check_properties check properties value later path).1 ≡ none
                → EachPresent P properties value)
            → ((elim o as (λ _. Check) [
              | none ↦ check_properties check properties value visited path
              | some v ↦
                  or_next
                    (check child v visited (key_segment key ∷ path))
                    (λ later. check_properties check properties value later path)
            ]).1
                ≡ none)
            → EachPresent P (entry key child properties) value
        by_value none found rest g =
            (λ v e. absurd (none_ne_some v (sym found ∙ e)), rest visited g)
        by_value (some v) found rest g =
            let (first, later) =
              or_next-none (check child v visited (key_segment key ∷ path))
                (λ later. check_properties check properties value later path) g in
            (
              λ w e.
                  subst (P child) (some_inj v w (sym found ∙ e))
                    (passed child v visited (key_segment key ∷ path) first),
              rest ((check child v visited (key_segment key ∷ path)).0) later,
            )

-- What `const`, `enum` and a type that is one name ask of an object.
pub record FollowsRules {N : Type 0} (js : Platform N) (schema : Entries N) (value : Entries N)
    : Type 0 where
  pub fixed :
      (expected : Json N)
      → entry_of (codes "const") schema ≡ some expected
      → js.json_equal (object_value value) expected ≡ true
  pub listed :
      (values : Items N)
      → entry_of (codes "enum") schema ≡ some (array_value values)
      → any (λ allowed. js.json_equal allowed (object_value value)) (to_list values) ≡ true
  pub typed :
      (c : ℕ) (name : Text)
      → entry_of (codes "type") schema ≡ some (text_value (c ∷ name))
      → c ∷ name ≡ codes "object"

module _ {N : Type 0} (js : Platform N) where
  breaks_const-holds :
      (field : Option (Json N)) (value expected : Json N)
      → breaks_const js field value ≡ false
      → field ≡ some expected
      → js.json_equal value expected ≡ true
  unfolding breaks_const
  breaks_const-holds field value expected h e =
      ground (arith, subst (λ f. breaks_const js f value ≡ false) e h)

  breaks_enum-holds :
      (field : Option (Json N)) (value : Json N) (values : Items N)
      → breaks_enum js field value ≡ false
      → field ≡ some (array_value values)
      → any (λ allowed. js.json_equal allowed value) (to_list values) ≡ true
  unfolding breaks_enum
  breaks_enum-holds field value values h e =
      ground (arith, subst (λ f. breaks_enum js f value ≡ false) e h)

  breaks_type-holds :
      (field : Option (Json N)) (fields : Entries N) (c : ℕ) (name : Text)
      → breaks_type js field (object_value fields) ≡ false
      → field ≡ some (text_value (c ∷ name))
      → c ∷ name ≡ codes "object"
  unfolding breaks_type has_type_name
  breaks_type-holds field fields c name h e =
      let g = subst (λ f. breaks_type js f (object_value fields) ≡ false) e h in
      text_eq→≡ (c ∷ name) (codes "object") (ground (arith, g))

  pub validate_basic_rules-follows :
      (schema value : Entries N) (visited : ℕ) (path : List Segment)
      → (validate_basic_rules js schema (object_value value) visited path).1 ≡ none
      → FollowsRules js schema value
  unfolding validate_basic_rules
  validate_basic_rules-follows schema value visited path h =
      let whole = object_value value in
      let typed =
        unless (breaks_type js (entry_of (codes "type") schema) whole) visited path wrong_type
          (visited, none) in
      let (no_const, rest) =
        unless-none (breaks_const js (entry_of (codes "const") schema) whole) visited path not_const
          (unless (breaks_enum js (entry_of (codes "enum") schema) whole) visited path not_in_enum
            typed)
          h in
      let (no_enum, last) =
        unless-none (breaks_enum js (entry_of (codes "enum") schema) whole) visited path not_in_enum
          typed rest in
      let (no_type, _) =
        unless-none (breaks_type js (entry_of (codes "type") schema) whole) visited path wrong_type
          (visited, none) last in
      record {
        fixed = λ expected.
            breaks_const-holds (entry_of (codes "const") schema) whole expected no_const;
        listed = λ values. breaks_enum-holds (entry_of (codes "enum") schema) whole values no_enum;
        typed = λ c name. breaks_type-holds (entry_of (codes "type") schema) value c name no_type;
      }
