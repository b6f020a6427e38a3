-- ===== src/Shell/Parse.antt =====
-- packages/tools/src/shellParse.ts: the program and the arguments of one segment, and what the
-- program is known for.
use ninjacode_agent.Prelude.{
  ◌==◌, leb, if◌then◌else◌, any, ℕ, String, Bool, false, not, ◌&&◌, ◌||◌, Option, none, some, List,
  [], ◌∷◌, ◌++◌,
}
use ninjacode_agent.Prelude.Texts.{member, Text, text_eq, starts_with, codes, includes}
use ninjacode_agent.Shell.Scan.{tokenize_shell_words}

abbrev pub words : List String → List Text
words [] = []
words (s ∷ ss) = codes s ∷ words ss

abbrev pub shell_interpreters : List Text
shell_interpreters = words ("sh" ∷ "bash" ∷ "zsh" ∷ "dash" ∷ "ksh" ∷ "fish" ∷ [])

abbrev pub code_interpreters : List Text
code_interpreters = words ("node" ∷ "python" ∷ "python2" ∷ "python3" ∷ "ruby" ∷ "perl" ∷ [])

abbrev pub dynamic_wrappers : List Text
dynamic_wrappers = words (
    "eval" ∷ "xargs" ∷ "env" ∷ "nohup" ∷ "time" ∷ "nice" ∷ "timeout" ∷ "command" ∷ "stdbuf" ∷ "sudo"
    ∷ "doas" ∷ "su" ∷ "busybox" ∷ "entrypoint" ∷ [])

abbrev pub script_suffixes : List Text
script_suffixes = words (
    ".sh" ∷ ".bash" ∷ ".zsh" ∷ ".ksh" ∷ ".fish" ∷ ".py" ∷ ".js" ∷ ".mjs" ∷ ".cjs" ∷ ".rb" ∷ ".pl"
    ∷ [])

unfoldable pub is_letter : ℕ → Bool
is_letter c = (leb b'a' c && leb c b'z') || (leb b'A' c && leb c b'Z')

unfoldable pub is_digit : ℕ → Bool
is_digit c = leb b'0' c && leb c b'9'

-- The part of `ASSIGNMENT` behind its first character.
unfoldable pub is_name_then_equals : Text → Bool
unfolding is_letter is_digit
is_name_then_equals [] = false
is_name_then_equals (c ∷ s) =
    c == b'=' || ((is_letter c || is_digit c || c == b'_') && is_name_then_equals s)

-- `ASSIGNMENT.test(token)`
unfoldable pub is_assignment : Text → Bool
unfolding is_letter is_name_then_equals
is_assignment [] = false
is_assignment (c ∷ s) = (is_letter c || c == b'_') && is_name_then_equals s

unfoldable pub skip_assignments : List Text → List Text
unfolding is_assignment
skip_assignments [] = []
skip_assignments (t ∷ ts) = if is_assignment t then skip_assignments ts else t ∷ ts

-- The text behind the last slash, where `seen` is what follows the last one so far.
unfoldable pub after_last_slash : Text → Text → Text
after_last_slash seen [] = seen
after_last_slash seen (c ∷ s) = after_last_slash (if c == b'/' then [] else seen ++ c ∷ []) s

-- `program.replaceAll("\\", "/")`
unfoldable pub forward_slashes : Text → Text
forward_slashes [] = []
forward_slashes (c ∷ s) = (if c == 92 then b'/' else c) ∷ forward_slashes s

unfoldable pub program_basename : Text → Text
unfolding after_last_slash forward_slashes
program_basename program = after_last_slash [] (forward_slashes program)

pub record Invocation : Type 0 where
  pub program : Text
  pub args : List Text

-- The invocation in the tokens left; an empty program is none.
unfoldable pub invocation_of : List Text → Option Invocation
unfolding program_basename
invocation_of [] = none
invocation_of ([] ∷ args) = none
invocation_of ((c ∷ raw) ∷ args) =
    some (record { program = program_basename (c ∷ raw); args = args })

unfoldable pub parse_shell_invocation : Text → Option Invocation
unfolding tokenize_shell_words skip_assignments invocation_of
parse_shell_invocation segment = elim (tokenize_shell_words segment) [
  | none ↦ none
  | some tokens ↦ invocation_of (skip_assignments tokens)
]

-- A `c` before any further dash.
unfoldable pub has_c_before_dash : Text → Bool
has_c_before_dash [] = false
has_c_before_dash (c ∷ s) = c == b'c' || (not (c == b'-') && has_c_before_dash s)

-- `/^-[^-]*c/.test(arg)`
unfoldable pub is_c_flag : Text → Bool
unfolding has_c_before_dash
is_c_flag [] = false
is_c_flag (c ∷ s) = c == b'-' && has_c_before_dash s

unfoldable pub is_command_flag : Text → Bool
unfolding is_c_flag
is_command_flag arg = text_eq arg (codes "--command") || is_c_flag arg

unfoldable pub has_eval_flag : Text → List Text → Bool
unfolding is_command_flag
has_eval_flag program args =
    if member program shell_interpreters
    then any is_command_flag args
    else if starts_with program (codes "python")
    then member (codes "-c") args
    else member program code_interpreters
      && any (λ arg. text_eq arg (codes "-e") || text_eq arg (codes "--eval")) args

-- The argument behind the first command flag.
unfoldable pub payload_of : List Text → Option Text
unfolding is_command_flag
payload_of [] = none
payload_of (a ∷ []) = none
payload_of (a ∷ b ∷ args) = if is_command_flag a then some b else payload_of (b ∷ args)

unfoldable pub interpreter_payload : Text → List Text → Option Text
unfolding payload_of
interpreter_payload program args =
    if member program shell_interpreters then payload_of args else none

-- `s.endsWith(suffix)`
unfoldable pub ends_with : Text → Text → Bool
ends_with [] suffix = text_eq [] suffix
ends_with (c ∷ s) suffix = text_eq (c ∷ s) suffix || ends_with s suffix

unfoldable pub looks_like_script : Text → Bool
unfolding ends_with
looks_like_script program =
    starts_with program (codes ".")
    || includes program (codes "/")
    || any (ends_with program) script_suffixes

unfoldable pub invocation_is_dynamic : Text → List Text → Bool
unfolding looks_like_script has_eval_flag
invocation_is_dynamic program args =
    member program dynamic_wrappers
    || looks_like_script program
    || any (λ arg. member arg (words ("-c" ∷ "-e" ∷ "--eval" ∷ "--command" ∷ []))) args
    || has_eval_flag program args

unfoldable pub is_code_interpreter : Text → Bool
is_code_interpreter program =
    member program code_interpreters && not (member program shell_interpreters)
