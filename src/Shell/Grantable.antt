-- ===== src/Shell/Grantable.antt =====
-- packages/tools/src/shellParse.ts, `isNonGrantableShellCommand`, and packages/tools/src/
-- shellScope.ts: the scopes that an approval of a command may be remembered under.
pub mod Laws
use ninjacode_agent.Prelude.{
  ◌==◌, leb, if◌then◌else◌, drop, any, ℕ, zero, suc, Bool, true, false, not, ◌&&◌, ◌||◌, Option,
  none, some, List, [], ◌∷◌, ◌++◌,
}
use ninjacode_agent.Prelude.Texts.{member, Text, text_eq, starts_with, codes, includes}
use ninjacode_agent.Shell.Parse.{
  parse_shell_invocation, words, invocation_is_dynamic, is_digit, is_letter,
}
use ninjacode_agent.Shell.Scan.{canonicalize_shell_command, split_shell_segments}

-- Whether some rest of the text matches: the search of a regular expression that is not anchored.
unfoldable pub some_suffix : (Text → Bool) → Text → Bool
some_suffix p [] = p []
some_suffix p (c ∷ s) = p (c ∷ s) || some_suffix p s

-- `/(\$\(|`|<<|<\(|>\()/`
unfoldable pub has_substitution : Text → Bool
has_substitution s = any (λ p. includes s p) (words ("$(" ∷ "`" ∷ "<<" ∷ "<(" ∷ ">(" ∷ []))

unfoldable pub starts_expansion : Text → Bool
starts_expansion [] = false
starts_expansion (c ∷ []) = false
starts_expansion (c ∷ d ∷ s) =
    c == b'$'
    && (d == 39 || d == 123 || is_letter d || d == b'_' || d == b'*' || d == b'@' || d == b'?')

-- `/\$'|\$\{|\$[A-Za-z_*@?]/`
unfoldable pub has_expansion : Text → Bool
unfolding some_suffix starts_expansion
has_expansion s = some_suffix starts_expansion s

unfoldable pub is_hex : ℕ → Bool
is_hex c = is_digit c || (leb b'a' c && leb c b'f') || (leb b'A' c && leb c b'F')

unfoldable pub is_octal : ℕ → Bool
is_octal c = leb b'0' c && leb c b'7'

-- Whether the text starts with n characters that the test passes.
unfoldable pub starts_run : (ℕ → Bool) → ℕ → Text → Bool
starts_run p zero s = true
starts_run p (suc n) [] = false
starts_run p (suc n) (c ∷ s) = p c && starts_run p n s

unfoldable pub starts_code : Text → Bool
unfolding is_hex is_octal starts_run
starts_code [] = false
starts_code (c ∷ s) =
    c == 92
    && (starts_run is_octal 3 s
        || (starts_with s (codes "x") && starts_run is_hex 2 (drop 1 s))
        || (starts_with s (codes "u") && starts_run is_hex 4 (drop 1 s)))

-- `/\\x[0-9a-fA-F]{2}|\\[0-7]{3}|\\u[0-9a-fA-F]{4}/`
unfoldable pub has_code : Text → Bool
unfolding some_suffix starts_code
has_code s = some_suffix starts_code s

-- `!parsed || invocationIsDynamic(parsed.program, parsed.args)`
unfoldable pub is_dynamic_segment : Text → Bool
unfolding parse_shell_invocation invocation_is_dynamic
is_dynamic_segment segment = elim (parse_shell_invocation segment) [
  | none ↦ true
  | some i ↦ invocation_is_dynamic i.program i.args
]

unfoldable pub is_non_grantable_shell_command : Text → Bool
unfolding canonicalize_shell_command has_substitution has_expansion has_code is_dynamic_segment
is_non_grantable_shell_command command =
    let canonical = canonicalize_shell_command command in
    has_substitution canonical
    || has_expansion canonical
    || has_code canonical
    || any is_dynamic_segment (split_shell_segments canonical)

abbrev pub subcommand_programs : List Text
subcommand_programs = words (
    "git" ∷ "npm" ∷ "pnpm" ∷ "yarn" ∷ "npx" ∷ "docker" ∷ "docker-compose" ∷ "kubectl" ∷ "cargo"
    ∷ "go" ∷ "gh" ∷ "brew" ∷ "apt" ∷ "apt-get" ∷ "pip" ∷ "pip3" ∷ "poetry" ∷ "terraform"
    ∷ "systemctl" ∷ "gcloud" ∷ "aws" ∷ "dotnet" ∷ "make" ∷ "bun" ∷ "deno" ∷ [])

abbrev pub unsafe_units : Text
unsafe_units = 36 ∷ 96 ∷ 40 ∷ 41 ∷ 60 ∷ 62 ∷ 42 ∷ 63 ∷ 123 ∷ 125 ∷ 91 ∷ 93 ∷ 33 ∷ 126 ∷ []

-- `UNSAFE_TOKEN.test(token)`
unfoldable pub is_unsafe_token : Text → Bool
is_unsafe_token token = any (λ c. any (λ u. u == c) unsafe_units) token

-- The test on `next` in `segmentScope`.
unfoldable pub is_subcommand : Text → Bool
unfolding is_unsafe_token
is_subcommand next =
    not (text_eq next []) && not (starts_with next (codes "-")) && not (is_unsafe_token next)

unfoldable pub scope_of : Text → List Text → Text
unfolding is_subcommand
scope_of program [] = program
scope_of program (next ∷ args) =
    if member program subcommand_programs && is_subcommand next
    then program ++ 32 ∷ next
    else program

unfoldable pub segment_scope : Text → Option Text
unfolding parse_shell_invocation is_unsafe_token scope_of
segment_scope segment = elim (parse_shell_invocation segment) [
  | none ↦ none
  | some i ↦ if is_unsafe_token i.program then none else some (scope_of i.program i.args)
]

-- `scopes.add(scope)`
abbrev pub with_scope : Text → List Text → List Text
with_scope scope scopes = if member scope scopes then scopes else scopes ++ scope ∷ []

-- One round of the loop over the segments, on what the next rounds do. A scope that is empty ends
-- the loop like one that is missing.
unfoldable pub scope_round : (List Text → List Text) → Option Text → List Text → List Text
scope_round next none scopes = []
scope_round next (some scope) scopes =
    if text_eq scope [] then [] else next (with_scope scope scopes)

-- The loop; `scopes` is the set so far, in the order of insertion.
unfoldable pub collect_scopes : List Text → List Text → List Text
unfolding segment_scope scope_round
collect_scopes [] scopes = scopes
collect_scopes (segment ∷ segments) scopes =
    scope_round (collect_scopes segments) (segment_scope segment) scopes

unfoldable pub shell_grant_scopes : Text → List Text
unfolding canonicalize_shell_command is_non_grantable_shell_command collect_scopes
shell_grant_scopes command =
    let trimmed = canonicalize_shell_command command in
    if text_eq trimmed []
    then []
    else if is_non_grantable_shell_command trimmed || includes trimmed (codes "${")
    then []
    else collect_scopes (split_shell_segments trimmed) []
