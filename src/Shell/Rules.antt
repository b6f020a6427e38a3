-- ===== src/Shell/Rules.antt =====
-- packages/tools/src/shellDanger.ts: `PROGRAM_RULES`, what the classification of a command can
-- give, and the tests on arguments.
use ninjacode_agent.Prelude.{
  get_or, is_some, if◌then◌else◌, drop, any, keep, ℕ, String, Bool, false, not, ◌&&◌, ◌||◌, Option,
  none, some, List, [], ◌∷◌,
}
use ninjacode_agent.Prelude.Maps.{get}
use ninjacode_agent.Prelude.Texts.{member, Text, text_eq, starts_with, codes, includes}
use ninjacode_agent.Shell.Parse.{words}

-- `fine` is null, `danger` a reason, `a_value` a truthy value that is no text, and `crash` a
-- TypeError; `starved` is the model running out of fuel.
pub data Verdict : Type 0 where
  fine a_value crash starved : Verdict
  danger : Text → Verdict

-- `if (first) return first; return second;`
unfoldable pub or_else : Verdict → Verdict → Verdict
or_else fine second = second
or_else first second = first

unfoldable pub reason_if : Bool → String → Option Text
reason_if test reason = if test then some (codes reason) else none

unfoldable pub has_short_flag : List Text → String → Bool
has_short_flag args letter =
    any
      (λ a.
        starts_with a (codes "-")
        && not (starts_with a (codes "--"))
        && includes (drop 1 a) (codes letter))
      args

unfoldable pub has_flag : List Text → List String → Bool
has_flag args flags = any (λ a. member a (words flags)) args

unfoldable pub is_recursive : List Text → Bool
unfolding has_short_flag has_flag
is_recursive args =
    has_short_flag args "r" || has_short_flag args "R" || has_flag args ("--recursive" ∷ [])

unfoldable pub operands : List Text → List Text
operands args = keep (λ a. not (starts_with a (codes "-")) && not (includes a (codes "="))) args

unfoldable pub touches_outside_workspace : List Text → Bool
unfolding operands
touches_outside_workspace args =
    any (λ a. starts_with a (codes "/") || starts_with a (codes "~") || includes a (codes ".."))
      (operands args)

-- `args[n] === word`
unfoldable pub nth_is : ℕ → List Text → String → Bool
nth_is n args word = elim (drop n args) [ [] ↦ false | a ∷ rest ↦ text_eq a (codes word) ]

unfoldable pub git_danger : List Text → Option Text
unfolding nth_is has_flag has_short_flag
git_danger args =
    let rest = drop 1 args in
    let is = nth_is 0 args in
    if is "push" && has_flag rest ("-f" ∷ "--force" ∷ "--force-with-lease" ∷ [])
    then some (codes "force push rewrites remote history")
    else if is "push" && has_flag rest ("--delete" ∷ "-d" ∷ [])
    then some (codes "remote branch deletion")
    else if is "reset" && has_flag rest ("--hard" ∷ [])
    then some (codes "discards uncommitted work")
    else if is "clean" && (has_short_flag rest "f" || has_flag rest ("--force" ∷ []))
    then some (codes "deletes untracked files")
    else if is "branch" && has_short_flag rest "D"
    then some (codes "force branch deletion")
    else reason_if (is "filter-branch" || is "filter-repo") "rewrites history"

unfoldable pub docker_danger : List Text → Option Text
unfolding nth_is
docker_danger args =
    let is = nth_is 0 args in
    let object_is = nth_is 1 args in
    if is "system" && object_is "prune"
    then some (codes "prunes docker state")
    else if is "rmi" || is "prune"
    then some (codes "removes docker images")
    else reason_if ((is "volume" || is "image") && object_is "rm")
        "removes docker volumes or images"

unfoldable pub rm_danger : List Text → Option Text
unfolding is_recursive touches_outside_workspace
rm_danger args =
    if is_recursive args
    then some (codes "recursive delete")
    else reason_if (touches_outside_workspace args) "delete outside the workspace"

unfoldable pub find_danger : List Text → Option Text
unfolding has_flag
find_danger args =
    reason_if
      (has_flag args ("-delete" ∷ []) || (member (codes "-exec") args && member (codes "rm") args))
      "bulk delete"

unfoldable pub publish_danger : List Text → Option Text
unfolding nth_is
publish_danger args = reason_if (nth_is 0 args "publish") "publishes a package"

-- The record's own rules.
abbrev pub own_rules : List (Text × (List Text → Option Text))
own_rules =
    (codes "rm", rm_danger)
    ∷ (
      codes "chmod",
      λ args.
          reason_if (is_recursive args || member (codes "777") (operands args))
            "recursive permission change",
    )
    ∷ (codes "chown", λ args. reason_if (is_recursive args) "recursive ownership change")
    ∷ (codes "git", git_danger)
    ∷ (codes "docker", docker_danger)
    ∷ (
      codes "docker-compose",
      λ args.
          reason_if (nth_is 0 args "down" && has_flag args ("-v" ∷ "--volumes" ∷ []))
            "removes compose volumes",
    )
    ∷ (
      codes "kubectl",
      λ args.
          reason_if (nth_is 0 args "delete" || nth_is 0 args "drain") "deletes cluster resources",
    )
    ∷ (
      codes "terraform",
      λ args.
          reason_if (nth_is 0 args "apply" || nth_is 0 args "destroy")
            "mutates real infrastructure",
    )
    ∷ (codes "gh", λ args. reason_if (nth_is 1 args "delete") "deletes a GitHub resource")
    ∷ (codes "npm", publish_danger)
    ∷ (codes "pnpm", publish_danger)
    ∷ (codes "yarn", publish_danger)
    ∷ (codes "bun", publish_danger)
    ∷ (codes "cargo", λ args. reason_if (nth_is 0 args "publish") "publishes a crate")
    ∷ (codes "find", find_danger)
    ∷ []

-- What the record inherits from `Object.prototype`, called on an array without a receiver:
-- `Object(args)` is the array itself, `toString` gives a text, and everything else throws.
abbrev pub inherited_rules : List (Text × Verdict)
inherited_rules =
    (codes "constructor", a_value)
    ∷ (codes "toString", danger (codes "[object Undefined]"))
    ∷ (codes "valueOf", crash)
    ∷ (codes "toLocaleString", crash)
    ∷ (codes "hasOwnProperty", crash)
    ∷ (codes "isPrototypeOf", crash)
    ∷ (codes "propertyIsEnumerable", crash)
    ∷ (codes "__proto__", crash)
    ∷ (codes "__defineGetter__", crash)
    ∷ (codes "__defineSetter__", crash)
    ∷ (codes "__lookupGetter__", crash)
    ∷ (codes "__lookupSetter__", crash)
    ∷ []

-- `rule !== undefined` for `rule = PROGRAM_RULES[program]`
unfoldable pub has_rule : Text → Bool
unfolding get
has_rule program = is_some (get program own_rules) || is_some (get program inherited_rules)

-- `reason` as the result of the classification.
unfoldable pub verdict_of : Option Text → Verdict
verdict_of none = fine
verdict_of (some reason) = danger reason

-- `rule(args)`
unfoldable pub program_rule : Text → List Text → Verdict
unfolding get verdict_of
program_rule program args = elim (get program own_rules) [
  | some rule ↦ verdict_of (rule args)
  | none ↦ get_or (get program inherited_rules) fine
]
