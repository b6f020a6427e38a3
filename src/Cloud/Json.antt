-- ===== src/Cloud/Json.antt =====
-- A value of type `unknown`, such as `JSON.parse` gives, as contract.ts examines it.
use ninjacode_agent.Prelude.{if◌then◌else◌, ℕ, Bool, Option, none, some, List, [], ◌∷◌}
use ninjacode_agent.Prelude.Texts.{Text, text_eq}

-- `num n` is the integer n ≥ 0, `other_num` any other number.
mutual
  -- The entries of an object, in order.
  pub data Fields : Type 0 where
    no_fields : Fields
    entry : Text → Value → Fields → Fields

  -- The elements of an array.
  pub data Elements : Type 0 where
    no_elements : Elements
    element : Value → Elements → Elements

  pub data Value : Type 0 where
    text : Text → Value
    num : ℕ → Value
    obj : Fields → Value
    arr : Elements → Value
    bool : Bool → Value
    undefined null other_num : Value

-- `value[name]`
unfoldable pub field_of : Text → Fields → Value
field_of name no_fields = undefined
field_of name (entry key v rest) = if text_eq key name then v else field_of name rest

unfoldable pub of_texts : List Text → Elements
of_texts [] = no_elements
of_texts (t ∷ ts) = element (text t) (of_texts ts)

-- A field that may be absent.
unfoldable pub of_option {ℓ} : {A : Type ℓ} → (A → Value) → Option A → Value
of_option f none = undefined
of_option f (some a) = f a
