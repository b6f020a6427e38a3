-- ===== src/Schema/Branches.antt =====
-- toolErrors.ts: what is known of a value that the branches of `anyOf` and `oneOf` let pass.
use ninjacode_agent.Prelude.{
  is_some, All, ℕ, ◌≡◌, refl, ◌⊎◌, inl, inr, true, false, Option, none, some, List, arith,
}
use ninjacode_agent.Schema.{
  null_value, no_items, Check, array_value, to_list, Segment, number_value, Items, Platform, one_of,
  item, text_value, object_value, Issue, Json, any_of, bool_value,
}
use ninjacode_agent.Schema.Validate.{check_one_of, check_any_of}

module _ {N : Type 0} where
  abbrev pub AnyItem : (Json N → Type 0) → Items N → Type 0
  AnyItem P no_items = ⊥
  AnyItem P (item v items) = P v ⊎ AnyItem P items

  -- One item has the first property, and all the others have the second.
  abbrev pub OneItem : (Json N → Type 0) → (Json N → Type 0) → Items N → Type 0
  OneItem P R no_items = ⊥
  OneItem P R (item v items) = (P v × All R (to_list items)) ⊎ (R v × OneItem P R items)

  -- What holds of the items, if the field is an array at all.
  abbrev pub IfArray : (Items N → Type 0) → Option (Json N) → Type 0
  IfArray Q (some (array_value items)) = Q items
  IfArray Q _ = Unit {0}

module _ {N : Type 0} (check : Json N → Json N → ℕ → List Segment → Check)
    (P R : Json N → Json N → Type 0)
    (passed : (raw value : Json N) (visited : ℕ) (path : List Segment)
      → (check raw value visited path).1 ≡ none
      → P raw value)
    (refused : (raw value : Json N) (visited : ℕ) (path : List Segment) (issue : Issue)
      → (check raw value visited path).1 ≡ some issue
      → R raw value) where
  -- A branch lets the value pass or refuses it.
  verdict :
      (raw value : Json N) (visited : ℕ) (path : List Segment)
      → ((is_some ((check raw value visited path).1) ≡ false) × P raw value)
        ⊎ ((is_some ((check raw value visited path).1) ≡ true) × R raw value)
  verdict raw value visited path = by_issue ((check raw value visited path).1) refl
    where
      by_issue :
          (issue : Option Issue)
          → (check raw value visited path).1 ≡ issue
          → ((is_some issue ≡ false) × P raw value) ⊎ ((is_some issue ≡ true) × R raw value)
      by_issue none e = inl (refl, passed raw value visited path e)
      by_issue (some issue) e = inr (refl, refused raw value visited path issue e)

  any_of-passed :
      (branches : Items N) (value : Json N) (visited : ℕ) (path : List Segment)
      → (any_of check branches value visited path).1 ≡ true
      → AnyItem (λ branch. P branch value) branches
  unfolding any_of
  any_of-passed no_items value visited path h = ground arith
  any_of-passed (item branch branches) value visited path h =
      elim (verdict branch value visited path) [
        | inl (_, p) ↦ inl p
        | inr (e, _) ↦ inr (
            any_of-passed branches value ((check branch value visited path).0) path
              (ground (arith, e, h)))
      ]

  one_of-none :
      (branches : Items N) (value : Json N) (visited : ℕ) (path : List Segment)
      → (one_of check branches value visited path).1 ≡ 0
      → All (λ branch. R branch value) (to_list branches)
  unfolding one_of to_list
  one_of-none no_items value visited path h = tt
  one_of-none (item branch branches) value visited path h =
      elim (verdict branch value visited path) [
        | inl (e, _) ↦ absurd (ground (arith, e, h))
        | inr (e, r) ↦ (
          r,
          one_of-none branches value ((check branch value visited path).0) path
              (ground (arith, e, h)),
        )
      ]

  one_of-passed :
      (branches : Items N) (value : Json N) (visited : ℕ) (path : List Segment)
      → (one_of check branches value visited path).1 ≡ 1
      → OneItem (λ branch. P branch value) (λ branch. R branch value) branches
  unfolding one_of
  one_of-passed no_items value visited path h = absurd (omega (arith, h))
  one_of-passed (item branch branches) value visited path h =
      elim (verdict branch value visited path) [
        | inl (e, p) ↦ inl (
          p,
          one_of-none branches value ((check branch value visited path).0) path
              (ground (arith, e, h)),
        )
        | inr (e, r) ↦ inr (
          r,
          one_of-passed branches value ((check branch value visited path).0) path
              (ground (arith, e, h)),
        )
      ]

  pub check_any_of-passed :
      (js : Platform N) (field : Option (Json N)) (value : Json N) (visited : ℕ)
      (path : List Segment)
      → (check_any_of js check field value visited path).1 ≡ none
      → IfArray (AnyItem (λ branch. P branch value)) field
  unfolding check_any_of
  check_any_of-passed js (some (array_value branches)) value visited path h =
      any_of-passed branches value visited path (ground (arith, h))
  check_any_of-passed js none value visited path h = tt
  check_any_of-passed js (some null_value) value visited path h = tt
  check_any_of-passed js (some (bool_value b)) value visited path h = tt
  check_any_of-passed js (some (number_value n)) value visited path h = tt
  check_any_of-passed js (some (text_value s)) value visited path h = tt
  check_any_of-passed js (some (object_value fields)) value visited path h = tt

  pub check_one_of-passed :
      (js : Platform N) (field : Option (Json N)) (value : Json N) (visited : ℕ)
      (path : List Segment)
      → (check_one_of js check field value visited path).1 ≡ none
      → IfArray (OneItem (λ branch. P branch value) (λ branch. R branch value)) field
  unfolding check_one_of
  check_one_of-passed js (some (array_value branches)) value visited path h =
      one_of-passed branches value visited path (ground (arith, h))
  check_one_of-passed js none value visited path h = tt
  check_one_of-passed js (some null_value) value visited path h = tt
  check_one_of-passed js (some (bool_value b)) value visited path h = tt
  check_one_of-passed js (some (number_value n)) value visited path h = tt
  check_one_of-passed js (some (text_value s)) value visited path h = tt
  check_one_of-passed js (some (object_value fields)) value visited path h = tt
