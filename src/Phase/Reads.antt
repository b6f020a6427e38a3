-- ===== src/Phase/Reads.antt =====
-- packages/core/src/phasePolicy.ts: `observeRead`, `observeReadTarget` and `independentArea`.
use ninjacode_agent.Phase.{
  PhasePolicyState, exploration_budget_for, complex, ToolInvocation, TaskComplexity,
}
use ninjacode_agent.Prelude.{
  ltb, get_or, ◌==◌, leb, if◌then◌else◌, length, ℕ, ◌+◌, max, Bool, true, false, not, ◌&&◌, ◌||◌,
  Option, none, some, List, [], ◌∷◌, ◌++◌, map,
}
use ninjacode_agent.Prelude.Maps.{get, insert}
use ninjacode_agent.Prelude.Texts.{member, Text, text_eq, trim, codes}

-- `target.split("/").filter(Boolean)`, where `part` is what has been read of the part so far.
unfoldable pub parts_from : Text → Text → List Text
parts_from part [] = if text_eq part [] then [] else part ∷ []
parts_from part (c ∷ s) =
    let rest = parts_from (if c == b'/' then [] else part ++ c ∷ []) s in
    if c == b'/' && not (text_eq part []) then part ∷ rest else rest

-- `parts[parts.lastIndexOf(marker) + 1]`
unfoldable pub part_after_last : Text → List Text → Option Text
part_after_last marker [] = none
part_after_last marker (part ∷ []) = none
part_after_last marker (part ∷ next ∷ parts) =
    if member marker (next ∷ parts)
    then part_after_last marker (next ∷ parts)
    else if text_eq part marker
    then some next
    else none

unfoldable pub marked_area : List Text → List Text → Option Text
unfolding part_after_last
marked_area [] parts = none
marked_area (marker ∷ markers) parts = elim (part_after_last marker parts) [
  | some next ↦ some (marker ++ b'/' ∷ next)
  | none ↦ marked_area markers parts
]

-- `parts.length >= 2 ? parts.slice(-2, -1)[0] : parts[0]`
unfoldable pub parent_part : List Text → Option Text
parent_part [] = none
parent_part (part ∷ []) = some part
parent_part (part ∷ next ∷ []) = some part
parent_part (part ∷ next ∷ other ∷ parts) = parent_part (next ∷ other ∷ parts)

unfoldable pub independent_area : Text → Option Text
unfolding parts_from marked_area parent_part
independent_area target =
    let parts = parts_from [] target in
    let markers =
      codes "packages" ∷ codes "apps" ∷ codes "src" ∷ codes "test" ∷ codes "tests" ∷ [] in
    elim (marked_area markers parts) [ some area ↦ some area | none ↦ parent_part parts ]

-- The order of `sort()`: by code units.
unfoldable pub text_leb : Text → Text → Bool
text_leb [] t = true
text_leb (x ∷ s) [] = false
text_leb (x ∷ s) (y ∷ t) = ltb x y || (x == y && text_leb s t)

unfoldable pub insert_sorted : Text → List Text → List Text
unfolding text_leb
insert_sorted a [] = a ∷ []
insert_sorted a (b ∷ bs) = if text_leb b a then b ∷ insert_sorted a bs else a ∷ b ∷ bs

-- `areas.sort()`
unfoldable pub sorted : List Text → List Text
unfolding insert_sorted
sorted [] = []
sorted (a ∷ areas) = insert_sorted a (sorted areas)

unfoldable pub is_complex : TaskComplexity → Bool
is_complex complex = true
is_complex _ = false

-- The task turns out to be complex, which can only enlarge the budget.
unfoldable pub note_areas : List Text → PhasePolicyState → PhasePolicyState
unfolding is_complex
note_areas areas s =
    let noted = record s { independent_areas = areas } in
    if leb 2 (length areas) && not (is_complex s.complexity)
    then record noted {
      complexity = complex;
      exploration_budget =
          max s.exploration_budget
            (exploration_budget_for complex s.max_turns s.options.exploration_budget_scale);
    }
    else noted

unfoldable pub note_area : Option Text → PhasePolicyState → PhasePolicyState
unfolding note_areas sorted
note_area none s = s
note_area (some area) s =
    if text_eq area [] || member area s.independent_areas
    then s
    else note_areas (sorted (s.independent_areas ++ area ∷ [])) s

-- The members of `Object.prototype`.
abbrev pub inherited_names : List Text
inherited_names = map codes (
    "constructor" ∷ "toString" ∷ "valueOf" ∷ "toLocaleString" ∷ "hasOwnProperty" ∷ "isPrototypeOf"
    ∷ "propertyIsEnumerable" ∷ "__proto__" ∷ "__defineGetter__" ∷ "__defineSetter__"
    ∷ "__lookupGetter__" ∷ "__lookupSetter__" ∷ [])

-- `state.readTargets[target] ?? 0`, as far as it is a number above 0: for an inherited name the record
-- gives what it inherits at first and later a text, neither of which is.
unfoldable pub seen_before : Text → PhasePolicyState → ℕ
unfolding get
seen_before target s =
    if member target inherited_names then 0 else get_or (get target s.read_targets) 0

-- `state.readTargets[target] = seen + 1`, which is no number for an inherited name and is left out.
unfoldable pub noted_read : Text → PhasePolicyState → List (Text × ℕ)
unfolding insert seen_before
noted_read target s =
    if member target inherited_names
    then s.read_targets
    else insert target (seen_before target s + 1) s.read_targets

unfoldable pub observe_read_target : Text → PhasePolicyState → PhasePolicyState
unfolding seen_before noted_read independent_area note_area
observe_read_target target s = note_area (independent_area target) (record s {
  read_count = s.read_count + 1;
  reread_count = if ltb 0 (seen_before target s) then s.reread_count + 1 else s.reread_count;
  read_targets = noted_read target s;
})

unfoldable pub observe_read_targets : List Text → PhasePolicyState → PhasePolicyState
unfolding observe_read_target
observe_read_targets [] s = s
observe_read_targets (target ∷ targets) s =
    observe_read_targets targets (observe_read_target target s)

-- `value.replaceAll("\\", "/")`
unfoldable pub slashed : Text → Text
slashed [] = []
slashed (c ∷ s) = (if c == 92 then b'/' else c) ∷ slashed s

unfoldable pub read_target : ToolInvocation → Option Text
unfolding slashed trim
read_target i = elim i.path [
  | none ↦ none
  | some value ↦ if text_eq (trim value) [] then none else some (slashed value)
]

unfoldable pub is_read_tool : Text → Bool
is_read_tool name = member name (
    codes "read_file"
    ∷ codes "list_dir"
    ∷ codes "glob"
    ∷ codes "grep"
    ∷ codes "search_codebase"
    ∷ [])

unfoldable pub observe_read : ToolInvocation → PhasePolicyState → PhasePolicyState
unfolding is_read_tool read_target observe_read_target
observe_read i s = if not (is_read_tool i.name) then s else elim (read_target i) [
  | none ↦ record s { read_count = s.read_count + 1 }
  | some target ↦ observe_read_target target s
]
