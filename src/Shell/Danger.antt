-- ===== src/Shell/Danger.antt =====
-- packages/tools/src/shellDanger.ts: `classifyShellDanger`. The two functions that call each other
-- are one recursion on fuel.
pub mod Laws
pub mod Harmless
use ninjacode_agent.Prelude.{
  ◌==◌, leb, if◌then◌else◌, any, length, ℕ, zero, suc, ◌+◌, Bool, true, false, not, ◌&&◌, ◌||◌,
  Option, none, some, List, [], ◌∷◌, ◌++◌,
}
use ninjacode_agent.Prelude.Maps.{get}
use ninjacode_agent.Prelude.Texts.{
  member, Text, text_eq, starts_with, trim_start, trim, codes, includes,
}
use ninjacode_agent.Shell.Grantable.{some_suffix}
use ninjacode_agent.Shell.Parse.{
  after_last_slash, parse_shell_invocation, shell_interpreters, interpreter_payload,
  is_code_interpreter, words, has_eval_flag, is_digit,
}
use ninjacode_agent.Shell.Rules.{starved, program_rule, danger, has_rule, or_else, Verdict, fine}
use ninjacode_agent.Shell.Scan.{split_shell_segments}

-- Programs that hand the command root privileges.
abbrev pub privilege_escalation : List Text
privilege_escalation = words ("sudo" ∷ "doas" ∷ "su" ∷ [])

abbrev pub always_destructive : List (Text × Text)
always_destructive =
    (codes "dd", codes "raw device write")
    ∷ (codes "shred", codes "unrecoverable file destruction")
    ∷ (codes "fdisk", codes "partition table edit")
    ∷ (codes "parted", codes "partition table edit")
    ∷ (codes "shutdown", codes "host shutdown")
    ∷ (codes "reboot", codes "host reboot")
    ∷ (codes "halt", codes "host shutdown")
    ∷ (codes "poweroff", codes "host shutdown")
    ∷ []

abbrev pub command_wrappers : List Text
command_wrappers =
    words ("xargs" ∷ "env" ∷ "nohup" ∷ "time" ∷ "nice" ∷ "timeout" ∷ "command" ∷ "stdbuf" ∷ [])

-- `/^\d+[smhd]?$/` behind its first digit.
unfoldable pub is_duration_rest : Text → Bool
unfolding is_digit
is_duration_rest [] = true
is_duration_rest (c ∷ []) = is_digit c || c == b's' || c == b'm' || c == b'h' || c == b'd'
is_duration_rest (c ∷ d ∷ s) = is_digit c && is_duration_rest (d ∷ s)

unfoldable pub is_duration : Text → Bool
unfolding is_digit is_duration_rest
is_duration [] = false
is_duration (c ∷ s) = is_digit c && is_duration_rest s

unfoldable pub is_wrapper_own : Text → Bool
unfolding is_duration
is_wrapper_own token =
    starts_with token (codes "-") || includes token (codes "=") || is_duration token

-- The argv left once the wrapper's own tokens are skipped; an empty one stands for null.
unfoldable pub unwrap_command : List Text → List Text
unfolding is_wrapper_own
unwrap_command [] = []
unwrap_command (token ∷ args) = if is_wrapper_own token then unwrap_command args else token ∷ args

-- `basename(program)`
unfoldable pub basename : Text → Text
unfolding after_last_slash
basename program = after_last_slash [] program

-- What is done with the recursive calls: the argv that a wrapper runs, the command in a payload.
unfoldable pub wrapped_danger : (Text → List Text → Verdict) → List Text → Verdict
unfolding basename
wrapped_danger argv [] = fine
wrapped_danger argv (inner ∷ args) = argv (basename inner) args

unfoldable pub payload_danger : (Text → Verdict) → Option Text → ℕ → Verdict
payload_danger classify none depth = danger (codes "executes dynamic shell code")
payload_danger classify (some payload) depth =
    if text_eq payload [] || leb 4 depth
    then danger (codes "executes dynamic shell code")
    else classify payload

unfoldable pub interpreter_danger : (Text → Verdict) → Text → List Text → ℕ → Verdict
unfolding has_eval_flag is_code_interpreter interpreter_payload payload_danger
interpreter_danger classify program args depth =
    if not (has_eval_flag program args)
    then fine
    else if is_code_interpreter program
    then danger (codes "executes dynamic code")
    else payload_danger classify (interpreter_payload program args) depth

-- What `argvDanger` does for a program that no list of names decides.
unfoldable pub examined :
    (Text → Verdict) → (Text → List Text → Verdict) → Text → List Text → ℕ → Verdict
unfolding interpreter_danger wrapped_danger unwrap_command
examined classify argv program args depth =
    or_else (interpreter_danger classify program args depth) (
      if has_rule program
      then program_rule program args
      else if not (leb 2 depth) && member program command_wrappers
      then wrapped_danger argv (unwrap_command args)
      else fine)

unfoldable pub argv_with :
    (Text → Verdict) → (Text → List Text → Verdict) → Text → List Text → ℕ → Verdict
unfolding examined
argv_with classify argv program args depth =
    if member program privilege_escalation
    then danger (codes "runs with elevated privileges")
    else if text_eq program (codes "eval")
    then danger (codes "evaluates a dynamic shell command")
    else elim (get program always_destructive) [
      | some reason ↦ danger reason
      | none ↦
          if starts_with program (codes "mkfs")
          then danger (codes "formats a filesystem")
          else examined classify argv program args depth
    ]

unfoldable pub segment_danger : (Text → List Text → Verdict) → Text → Verdict
unfolding parse_shell_invocation
segment_danger argv segment = elim (parse_shell_invocation segment) [
  | none ↦ fine
  | some i ↦ argv i.program i.args
]

-- The text behind blanks and c, again for each c: `c` with `\s*` before it.
unfoldable pub spaced : Text → Text → Bool
spaced [] s = true
spaced (c ∷ cs) s = elim (trim_start s) [ [] ↦ false | d ∷ rest ↦ d == c && spaced cs rest ]

-- `/:\s*\(\s*\)\s*\{|:\|:&/` at the start of the text.
unfoldable pub starts_fork_bomb : Text → Bool
unfolding spaced
starts_fork_bomb [] = false
starts_fork_bomb (c ∷ s) =
    c == b':' && (spaced (40 ∷ 41 ∷ 123 ∷ []) s || starts_with s (codes "|:&"))

-- `/>\s*\/dev\/(sd|disk|nvme|hd)/` at the start of the text.
unfoldable pub starts_device_redirect : Text → Bool
starts_device_redirect [] = false
starts_device_redirect (c ∷ s) =
    c == b'>'
    && any (starts_with (trim_start s))
        (words ("/dev/sd" ∷ "/dev/disk" ∷ "/dev/nvme" ∷ "/dev/hd" ∷ []))

unfoldable pub raw_command_danger : Text → Verdict
unfolding some_suffix starts_fork_bomb starts_device_redirect
raw_command_danger command =
    if some_suffix starts_fork_bomb command
    then danger (codes "fork bomb")
    else if some_suffix starts_device_redirect command
    then danger (codes "writes to a block device")
    else fine

abbrev pub fetchers : List Text
fetchers = words ("curl" ∷ "wget" ∷ [])

unfoldable pub remote_execution_danger : List Text → Verdict
remote_execution_danger programs =
    if leb 2 (length programs)
      && any (λ p. member p fetchers) programs
      && any (λ p. member p shell_interpreters) programs
    then danger (codes "executes unreviewed remote code")
    else fine

-- `if (parsed) programs.push(parsed.program)`
unfoldable pub program_of : Text → List Text
unfolding parse_shell_invocation
program_of segment = elim (parse_shell_invocation segment) [ none ↦ [] | some i ↦ i.program ∷ [] ]

unfoldable pub scan_segments : (Text → List Text → Verdict) → List Text → List Text → Verdict
unfolding segment_danger program_of remote_execution_danger
scan_segments argv [] programs = remote_execution_danger programs
scan_segments argv (segment ∷ segments) programs =
    or_else (segment_danger argv segment)
      (scan_segments argv segments (programs ++ program_of segment))

unfoldable pub classify_with : (Text → List Text → Verdict) → Text → Verdict
unfolding raw_command_danger scan_segments split_shell_segments
classify_with argv command =
    let trimmed = trim command in
    if text_eq trimmed []
    then fine
    else or_else (raw_command_danger trimmed) (scan_segments argv (split_shell_segments trimmed) [])

unfoldable pub argv_danger : ℕ → ℕ → Text → List Text → Verdict
unfolding argv_with classify_with
argv_danger zero depth program args = starved
argv_danger (suc fuel) depth program args =
    let deeper = argv_danger fuel (depth + 1) in
    argv_with (classify_with deeper) deeper program args depth

unfoldable pub classify_shell_danger : Text → Verdict
unfolding argv_danger classify_with
classify_shell_danger command = classify_with (argv_danger 5 0) command
