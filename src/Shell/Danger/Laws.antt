-- ===== src/Shell/Danger/Laws.antt =====
-- packages/tools/src/shellDanger.ts: the fuel of `classifyShellDanger`.
use ninjacode_agent.Prelude.{
  get_or, if◌then◌else◌, All, ℕ, zero, suc, ◌+◌, ◌≤◌, ◌<◌, ◌≡◌, ◌≢◌, not, Option, none, some, List,
  [], ◌∷◌, ◌++◌, arith,
}
use ninjacode_agent.Prelude.Maps.{get}
use ninjacode_agent.Prelude.Texts.{Text, trim, codes}
use ninjacode_agent.Shell.Danger.{
  examined, argv_danger, program_of, interpreter_danger, unwrap_command, raw_command_danger,
  argv_with, basename, classify_with, scan_segments, wrapped_danger, payload_danger, segment_danger,
  classify_shell_danger,
}
use ninjacode_agent.Shell.Parse.{
  parse_shell_invocation, interpreter_payload, is_code_interpreter, Invocation, has_eval_flag,
}
use ninjacode_agent.Shell.Rules.{
  starved, inherited_rules, own_rules, program_rule, danger, crash, verdict_of, a_value, or_else,
  Verdict, fine,
}
use ninjacode_agent.Shell.Scan.{split_shell_segments}

abbrev IsFed : Verdict → Type 0
IsFed v = v ≢ starved

or_else-IsFed : (v w : Verdict) → IsFed v → IsFed w → IsFed (or_else v w)
unfolding or_else
or_else-IsFed fine w hv hw = hw
or_else-IsFed a_value w hv hw = hv
or_else-IsFed crash w hv hw = hv
or_else-IsFed starved w hv hw = hv
or_else-IsFed (danger reason) w hv hw = hv

or_else-eq-fine : (v w : Verdict) → or_else v w ≡ fine → (v ≡ fine) × (w ≡ fine)
unfolding or_else
or_else-eq-fine v w h = ground arith

verdict_of-IsFed : (reason : Option Text) → IsFed (verdict_of reason)
unfolding verdict_of
verdict_of-IsFed none = ground arith
verdict_of-IsFed (some reason) = ground arith

get-IsFed :
    (rules : List (Text × Verdict)) (program : Text)
    → All (λ (rule : Text × Verdict). IsFed (rule.1)) rules
    → IsFed (get_or (get program rules) fine)
unfolding get
get-IsFed [] program h = ground arith
get-IsFed ((k, v) ∷ rules) program (hv, h) = ground (arith, get-IsFed rules program h)

inherited_rules-IsFed : All (λ (rule : Text × Verdict). IsFed (rule.1)) inherited_rules
inherited_rules-IsFed = ground arith

program_rule-IsFed : (program : Text) (args : List Text) → IsFed (program_rule program args)
unfolding program_rule
program_rule-IsFed program args =
    by_rules (get program own_rules) (get-IsFed inherited_rules program inherited_rules-IsFed)
  where
    by_rules :
        (own : Option (List Text → Option Text))
        → IsFed (get_or (get program inherited_rules) fine)
        → IsFed (elim own [
          | some rule ↦ verdict_of (rule args)
          | none ↦ get_or (get program inherited_rules) fine
        ])
    by_rules none h = h
    by_rules (some rule) h = verdict_of-IsFed (rule args)

module _ (argv : Text → List Text → Verdict)
    (fed : (p : Text) (args : List Text) → IsFed (argv p args)) where
  segment_danger-IsFed : (segment : Text) → IsFed (segment_danger argv segment)
  unfolding segment_danger
  segment_danger-IsFed segment = by_parse (parse_shell_invocation segment)
    where
      by_parse :
          (o : Option Invocation) → IsFed (elim o [ none ↦ fine | some i ↦ argv i.program i.args ])
      by_parse none = ground arith
      by_parse (some i) = fed i.program i.args

  scan_segments-IsFed :
      (segments programs : List Text) → IsFed (scan_segments argv segments programs)
  unfolding scan_segments
  scan_segments-IsFed [] programs = ground arith
  scan_segments-IsFed (segment ∷ segments) programs =
      or_else-IsFed _ _ (segment_danger-IsFed segment)
        (scan_segments-IsFed segments (programs ++ program_of segment))

  raw_command_danger-IsFed : (command : Text) → IsFed (raw_command_danger command)
  unfolding raw_command_danger
  raw_command_danger-IsFed command = ground arith

  classify_with-IsFed : (command : Text) → IsFed (classify_with argv command)
  unfolding classify_with
  classify_with-IsFed command =
      let trimmed = trim command in
      let segments = split_shell_segments trimmed in
      ground (
        arith,
        or_else-IsFed (raw_command_danger trimmed) (scan_segments argv segments [])
            (raw_command_danger-IsFed trimmed) (scan_segments-IsFed segments []),
      )

module _ (classify : Text → Verdict) (argv : Text → List Text → Verdict) (program : Text)
    (args : List Text) (depth : ℕ) where
  interpreter_danger-IsFed :
      (depth < 4 → (payload : Text) → IsFed (classify payload))
      → IsFed (interpreter_danger classify program args depth)
  unfolding interpreter_danger payload_danger
  interpreter_danger-IsFed fed = by_payload (interpreter_payload program args)
    where
      by_payload :
          (o : Option Text)
          → IsFed (
              if not (has_eval_flag program args)
              then fine
              else if is_code_interpreter program
              then danger (codes "executes dynamic code")
              else payload_danger classify o depth)
      by_payload none = ground arith
      by_payload (some payload) = ground (arith, λ (lt : depth < 4). fed lt payload)

  wrapped_danger-IsFed :
      ((p : Text) (rest : List Text) → IsFed (argv p rest))
      → IsFed (wrapped_danger argv (unwrap_command args))
  unfolding wrapped_danger
  wrapped_danger-IsFed fed = by_inner (unwrap_command args)
    where
      by_inner : (inner : List Text) → IsFed (wrapped_danger argv inner)
      by_inner [] = ground arith
      by_inner (token ∷ rest) = fed (basename token) rest

  examined-IsFed :
      (depth < 4 → (payload : Text) → IsFed (classify payload))
      → (depth < 2 → (p : Text) (rest : List Text) → IsFed (argv p rest))
      → IsFed (examined classify argv program args depth)
  unfolding examined
  examined-IsFed hc ha =
      or_else-IsFed (interpreter_danger classify program args depth) _ (interpreter_danger-IsFed hc)
        (ground (
          arith,
          program_rule-IsFed program args,
          λ (lt : depth < 2). wrapped_danger-IsFed (ha lt),
        ))

  argv_with-IsFed :
      (depth < 4 → (payload : Text) → IsFed (classify payload))
      → (depth < 2 → (p : Text) (rest : List Text) → IsFed (argv p rest))
      → IsFed (argv_with classify argv program args depth)
  unfolding argv_with
  argv_with-IsFed hc ha = ground (arith, examined-IsFed hc ha)

argv_danger-IsFed :
    (fuel depth : ℕ) (program : Text) (args : List Text)
    → depth ≤ 4
    → 5 ≤ fuel + depth
    → IsFed (argv_danger fuel depth program args)
unfolding argv_danger
argv_danger-IsFed zero depth program args le enough = omega arith
argv_danger-IsFed (suc fuel) depth program args le enough =
    let deeper = argv_danger fuel (depth + 1) in
    argv_with-IsFed (classify_with deeper) deeper program args depth
      (λ lt.
        classify_with-IsFed deeper
          (λ p rest. argv_danger-IsFed fuel (depth + 1) p rest (omega arith) (omega arith)))
      (λ lt p rest. argv_danger-IsFed fuel (depth + 1) p rest (omega arith) (omega arith))

-- The classification of a command always ends: at most five levels of wrappers and of commands in
-- the payload of a shell are entered, so the fuel never runs out.
pub classify_shell_danger-IsFed : (command : Text) → classify_shell_danger command ≢ starved
unfolding classify_shell_danger
classify_shell_danger-IsFed command =
    classify_with-IsFed (argv_danger 5 0)
      (λ p rest. argv_danger-IsFed 5 0 p rest (omega arith) (omega arith)) command
