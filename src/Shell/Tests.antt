-- ===== src/Shell/Tests.antt =====
-- The shell modules of packages/tools on concrete commands, and their theorems there.
use ninjacode_agent.Prelude.{all, ◌≡◌, refl, ◌≢◌, ◌↔◌, ◌⊎◌, true, false, some, List, [], ◌∷◌, arith}
use ninjacode_agent.Prelude.Maps.{get}
use ninjacode_agent.Prelude.Texts.{
  member, Text, is_space, text_eq, starts_with, trim, codes, includes,
}
use ninjacode_agent.Shell.Danger.{
  remote_execution_danger, argv_danger, privilege_escalation, is_wrapper_own, raw_command_danger,
  command_wrappers, classify_shell_danger,
}
use ninjacode_agent.Shell.Danger.Harmless.{
  programs_of, IsCalm, classify_shell_danger-fine_iff, classify_shell_danger-privileged,
}
use ninjacode_agent.Shell.Danger.Laws.{classify_shell_danger-IsFed}
use ninjacode_agent.Shell.Grantable.{shell_grant_scopes, is_non_grantable_shell_command}
use ninjacode_agent.Shell.Grantable.Laws.{shell_grant_scopes-IsCovered, IsCovered}
use ninjacode_agent.Shell.Parse.{parse_shell_invocation, words, Invocation}
use ninjacode_agent.Shell.Rules.{
  rm_danger, starved, program_rule, danger, has_rule, crash, or_else, fine,
}
use ninjacode_agent.Shell.Scan.{
  tokenize_shell_words, canonicalize_shell_command, split_shell_segments,
}
use ninjacode_agent.Shell.Scan.Quoting.{quoted_line, tokenize_shell_words-quoted_line}

abbrev plain_command : Text
plain_command = codes "git status && ls"

abbrev root_command : Text
root_command = codes "ls; A=1 sudo reboot"

abbrev root_call : Invocation
root_call = record { program = codes "sudo"; args = codes "reboot" ∷ [] }

scopes_of_plain : shell_grant_scopes plain_command ≡ codes "git status" ∷ codes "ls" ∷ []
unfolding shell_grant_scopes text_eq trim includes split_shell_segments member
scopes_of_plain = refl

wrapped_delete :
    classify_shell_danger (codes "nohup env A=1 rm -rf build") ≡ danger (codes "recursive delete")
unfolding classify_shell_danger text_eq trim or_else member get starts_with has_rule includes
    program_rule rm_danger
wrapped_delete = refl

-- A program named like a method of every object is found in the table of rules.
inherited_crash : classify_shell_danger (codes "valueOf") ≡ crash
unfolding classify_shell_danger text_eq trim or_else member get starts_with has_rule includes
    program_rule rm_danger
inherited_crash = refl

classify_shell_danger-IsFed_example : classify_shell_danger root_command ≢ starved
classify_shell_danger-IsFed_example = classify_shell_danger-IsFed root_command

classify_shell_danger-fine_iff_example : (classify_shell_danger plain_command ≡ fine) ↔ (
    (trim plain_command ≡ [])
    ⊎ ((raw_command_danger (trim plain_command) ≡ fine)
        × IsCalm (argv_danger 5 0) (split_shell_segments (trim plain_command))
        × (remote_execution_danger (programs_of (split_shell_segments (trim plain_command)))
            ≡ fine)))
classify_shell_danger-fine_iff_example = classify_shell_danger-fine_iff plain_command

root_split : split_shell_segments (trim root_command) ≡ codes "ls" ∷ codes "A=1 sudo reboot" ∷ []
unfolding split_shell_segments trim text_eq
root_split = refl

root_parsed : parse_shell_invocation (codes "A=1 sudo reboot") ≡ some root_call
unfolding parse_shell_invocation text_eq is_space
root_parsed = refl

root_is_root : member root_call.program privilege_escalation ≡ true
unfolding member text_eq
root_is_root = refl

classify_shell_danger-privileged_example : classify_shell_danger root_command ≢ fine
classify_shell_danger-privileged_example =
    classify_shell_danger-privileged root_command (codes "A=1 sudo reboot") root_call
      (codes "ls" ∷ []) [] root_split root_parsed root_is_root

xargs_wraps : member (codes "xargs") command_wrappers ≡ true
unfolding member text_eq
xargs_wraps = refl

flags_are_own : all is_wrapper_own (words ("-n" ∷ "1" ∷ [])) ≡ true
unfolding is_wrapper_own starts_with includes
flags_are_own = refl

rm_is_not_own : is_wrapper_own (codes "/bin/rm") ≡ false
unfolding is_wrapper_own starts_with includes
rm_is_not_own = refl

abbrev odd_words : List Text
odd_words = words ("git" ∷ "a b; c\\" ∷ "" ∷ [])

tokenize_shell_words-quoted_line_example :
    tokenize_shell_words (quoted_line odd_words) ≡ some odd_words
tokenize_shell_words-quoted_line_example =
    tokenize_shell_words-quoted_line odd_words (refl, (refl, (refl, tt)))

plain_has_scopes : shell_grant_scopes plain_command ≢ []
plain_has_scopes = rw scopes_of_plain (ground arith)

shell_grant_scopes-IsCovered_example :
    (is_non_grantable_shell_command (canonicalize_shell_command plain_command) ≡ false)
    × IsCovered
        (shell_grant_scopes plain_command)
        (split_shell_segments (canonicalize_shell_command plain_command))
shell_grant_scopes-IsCovered_example = shell_grant_scopes-IsCovered plain_command plain_has_scopes
