-- ===== src/Shell/Danger/Harmless.antt =====
-- packages/tools/src/shellDanger.ts: which commands `classifyShellDanger` lets pass.
use ninjacode_agent.Prelude.{
  Bool-cases, if◌then◌else◌, all, All, ℕ, suc, ◌+◌, ◌<◌, ◌≡◌, refl, sym, ap, subst, ◌∙◌, ◌≢◌, ◌↔◌,
  ◌⊎◌, inl, inr, true, false, none, some, List, [], ◌∷◌, ◌++◌, append-nil, append_assoc, arith,
}
use ninjacode_agent.Prelude.Maps.{get}
use ninjacode_agent.Prelude.Texts.{
  member, trim_end, Text, text_eq, starts_with, trim_start, trim, codes, text_eq→≡,
}
use ninjacode_agent.Shell.Danger.{
  examined, remote_execution_danger, argv_danger, privilege_escalation, program_of, is_wrapper_own,
  interpreter_danger, always_destructive, unwrap_command, raw_command_danger, argv_with, basename,
  classify_with, scan_segments, wrapped_danger, segment_danger, command_wrappers,
  classify_shell_danger,
}
use ninjacode_agent.Shell.Parse.{
  parse_shell_invocation, shell_interpreters, Invocation, code_interpreters, has_eval_flag,
}
use ninjacode_agent.Shell.Rules.{has_rule, or_else, Verdict, fine}
use ninjacode_agent.Shell.Scan.{split_from, push_nonempty, split_shell_segments}

or_else-fine_iff : (v w : Verdict) → (or_else v w ≡ fine) ↔ ((v ≡ fine) × (w ≡ fine))
unfolding or_else
or_else-fine_iff v w = (λ h. ground arith, λ h. ground arith)

-- The programs of all segments.
abbrev pub programs_of : List Text → List Text
programs_of [] = []
programs_of (segment ∷ segments) = program_of segment ++ programs_of segments

module _ (argv : Text → List Text → Verdict) where
  abbrev pub IsCalm : List Text → Type 0
  IsCalm segments = All (λ segment. segment_danger argv segment ≡ fine) segments

  scan_segments-fine_iff :
      (segments programs : List Text)
      → (scan_segments argv segments programs ≡ fine)
        ↔ (IsCalm segments × (remote_execution_danger (programs ++ programs_of segments) ≡ fine))
  unfolding scan_segments
  scan_segments-fine_iff [] programs =
      (λ h. rw (append-nil programs) (tt, h), λ (_, h). rw (sym (append-nil programs)) h)
  scan_segments-fine_iff (segment ∷ segments) programs =
      let (to, from) = scan_segments-fine_iff segments (programs ++ program_of segment) in
      let (split, join) =
        or_else-fine_iff (segment_danger argv segment)
          (scan_segments argv segments (programs ++ program_of segment)) in
      let assoc = append_assoc programs (program_of segment) (programs_of segments) in
      (
        λ h. let (calm, r) = to (split h).1 in (((split h).0, calm), rw (sym assoc) r),
        λ ((c, calm), r). join (c, from (calm, rw assoc r)),
      )

blank_or {ℓ} :
    {P : Type ℓ} (t : Text) (v : Verdict)
    → (v ≡ fine → P)
    → (P → v ≡ fine)
    → ((if text_eq t [] then fine else v) ≡ fine) ↔ ((t ≡ []) ⊎ P)
unfolding text_eq
blank_or [] v to from = (λ _. inl refl, λ _. refl)
blank_or (c ∷ t) v to from = (λ h. inr (to h), λ s. elim s [ inl e ↦ cc | inr p ↦ from p ])

-- A command passes as harmless exactly if it is blank, or its text shows neither a fork bomb nor a
-- write to a block device, each of its segments passes by itself, and its programs are not a
-- fetcher together with a shell.
pub classify_shell_danger-fine_iff :
    (command : Text)
    → (classify_shell_danger command ≡ fine) ↔ (
        (trim command ≡ [])
        ⊎ ((raw_command_danger (trim command) ≡ fine)
            × IsCalm (argv_danger 5 0) (split_shell_segments (trim command))
            × (remote_execution_danger (programs_of (split_shell_segments (trim command))) ≡ fine)))
unfolding classify_shell_danger classify_with
classify_shell_danger-fine_iff command =
    let trimmed = trim command in
    let segments = split_shell_segments trimmed in
    let (to, from) = scan_segments-fine_iff (argv_danger 5 0) segments [] in
    let (split, join) =
      or_else-fine_iff (raw_command_danger trimmed) (scan_segments (argv_danger 5 0) segments []) in
    blank_or trimmed _ (λ h. let (calm, remote) = to (split h).1 in ((split h).0, calm, remote))
      (λ (raw, calm, remote). join (raw, from (calm, remote)))

All-behind {ℓ κ} :
    {A : Type ℓ} (P : A → Type κ) (front back : List A) → All P (front ++ back) → All P back
All-behind P [] back h = h
All-behind P (x ∷ front) back (_, h) = All-behind P front back h

segment_danger-parsed :
    (argv : Text → List Text → Verdict) (segment : Text) (i : Invocation)
    → parse_shell_invocation segment ≡ some i
    → segment_danger argv segment ≡ argv i.program i.args
unfolding segment_danger
segment_danger-parsed argv segment i parsed = rw (segment_danger, parsed) refl

argv_danger-privileged :
    (fuel depth : ℕ) (program : Text) (args : List Text)
    → member program privilege_escalation ≡ true
    → argv_danger (suc fuel) depth program args ≢ fine
unfolding argv_danger argv_with
argv_danger-privileged fuel depth program args root = rw root (ground arith)

nil-ne {ℓ} : {A : Type ℓ} (front : List A) (x : A) (back : List A) → [] ≢ front ++ x ∷ back
nil-ne [] x back = ground arith
nil-ne (y ∷ front) x back = ground arith

split-nil : split_shell_segments [] ≡ []
unfolding split_shell_segments split_from trim trim_start trim_end push_nonempty
split-nil = refl

-- A command with a segment that runs sudo, doas or su, behind assignments if there are any, never
-- passes.
pub classify_shell_danger-privileged :
    (command : Text) (segment : Text) (i : Invocation) (front back : List Text)
    → split_shell_segments (trim command) ≡ front ++ segment ∷ back
    → parse_shell_invocation segment ≡ some i
    → member i.program privilege_escalation ≡ true
    → classify_shell_danger command ≢ fine
classify_shell_danger-privileged command segment i front back split parsed root passes =
    elim ((classify_shell_danger-fine_iff command).0 passes) [
      | inl blank ↦
          nil-ne front segment back (sym split-nil ∙ ap split_shell_segments (sym blank) ∙ split)
      | inr (raw, calm, remote) ↦
          let (here, behind) =
            All-behind (λ s. segment_danger (argv_danger 5 0) s ≡ fine) front (segment ∷ back)
              (subst (IsCalm (argv_danger 5 0)) split calm) in
          argv_danger-privileged 4 0 i.program i.args root
            (sym (segment_danger-parsed (argv_danger 5 0) segment i parsed) ∙ here)
    ]

-- The program is decided by no list of names, no rule and no evaluation of its arguments.
abbrev IsPlain : Text → Type 0
IsPlain program =
    (member program privilege_escalation ≡ false)
    × (text_eq program (codes "eval") ≡ false)
    × (get program always_destructive ≡ none)
    × (starts_with program (codes "mkfs") ≡ false)
    × (member program shell_interpreters ≡ false)
    × (starts_with program (codes "python") ≡ false)
    × (member program code_interpreters ≡ false)
    × (has_rule program ≡ false)

member-All {κ} :
    (P : Text → Type κ) (k : Text) (ks : List Text) → member k ks ≡ true → All P ks → P k
unfolding member
member-All P k [] h a = cc
member-All P k (j ∷ ks) h (pj, a) = elim (Bool-cases (text_eq j k)) [
  | inl e ↦ subst P (text_eq→≡ j k e) pj
  | inr e ↦ member-All P k ks (ground arith) a
]

command_wrappers-IsPlain : All IsPlain command_wrappers
unfolding member text_eq get starts_with has_rule
command_wrappers-IsPlain = ground arith

argv_with-plain :
    (classify : Text → Verdict) (argv : Text → List Text → Verdict) (depth : ℕ) (program : Text)
    (args : List Text)
    → member program command_wrappers ≡ true
    → IsPlain program
    → depth < 2
    → argv_with classify argv program args depth ≡ wrapped_danger argv (unwrap_command args)
unfolding argv_with examined interpreter_danger has_eval_flag or_else
argv_with-plain classify argv depth program args is (root, ev, always, mkfs, sh, py, code, rule)
      lt =
    ground (arith)

module _ (fuel depth : ℕ) (p : Text) (rest : List Text) where
  unwrap_command-own :
      (own : List Text)
      → all is_wrapper_own own ≡ true
      → is_wrapper_own p ≡ false
      → unwrap_command (own ++ p ∷ rest) ≡ p ∷ rest
  unfolding unwrap_command
  unwrap_command-own [] h stop = rw stop refl
  unwrap_command-own (token ∷ own) h stop = ground (arith, unwrap_command-own own)

  -- A wrapper passes exactly what the command behind the wrapper's own tokens passes, for at most
  -- two wrappers around each other.
  pub argv_danger-wrapped :
      (wrapper : Text) (own : List Text)
      → member wrapper command_wrappers ≡ true
      → all is_wrapper_own own ≡ true
      → is_wrapper_own p ≡ false
      → depth < 2
      → argv_danger (suc fuel) depth wrapper (own ++ p ∷ rest)
        ≡ argv_danger fuel (depth + 1) (basename p) rest
  unfolding argv_danger wrapped_danger
  argv_danger-wrapped wrapper own is h stop lt =
      let plain = member-All IsPlain wrapper command_wrappers is command_wrappers-IsPlain in
      let argv = argv_danger fuel (depth + 1) in
      argv_with-plain (classify_with argv) argv depth wrapper (own ++ p ∷ rest) is plain lt
      ∙ ap (wrapped_danger argv) (unwrap_command-own own h stop)
