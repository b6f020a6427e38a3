-- ===== src/Pipeline/ShellTool.antt =====
-- packages/tools/src/shell.ts: the tool `run_shell` as the pipeline asks it. Its arguments are the
-- text of `args.command`, and whether `args.network_access` is true.
use ninjacode_agent.Permissions.{
  destructive, listed, never, is_destructive, is_never, GrantPolicy, exact, RiskClass, grant_key,
  shell, PermissionPolicy, scoped,
}
use ninjacode_agent.Permissions.Laws.{evaluate-destructive}
use ninjacode_agent.Pipeline.{ToolCall, Tool, Registry, Deps, Session, ApprovalAnswer}
use ninjacode_agent.Pipeline.Approval.{
  approval_check, safe_risk, is_empty, wait_state, approval_payload, answer_of, decision_on,
  ApprovalCheck,
}
use ninjacode_agent.Pipeline.Calls.{run_tool_call}
use ninjacode_agent.Pipeline.Events.{runs}
use ninjacode_agent.Pipeline.Safety.{
  IsPermitted, asked_breaker, IsAuthorized, run_tool_call-executes,
}
use ninjacode_agent.Prelude.{
  some_inj, get_or, if◌then◌else◌, ◌≡◌, refl, sym, subst, ◌∙◌, ◌≢◌, ◌⊎◌, inl, inr, Bool, true,
  false, ◌||◌, Option, none, some, List, [], ◌++◌, arith,
}
use ninjacode_agent.Prelude.Maps.{get}
use ninjacode_agent.Prelude.Results.{ok}
use ninjacode_agent.Prelude.Texts.{Text, codes}
use ninjacode_agent.Shell.Danger.{classify_shell_danger}
use ninjacode_agent.Shell.Grantable.{shell_grant_scopes, is_non_grantable_shell_command}
use ninjacode_agent.Shell.Rules.{starved, danger, crash, a_value, Verdict, fine}
use ninjacode_agent.Shell.Scan.{canonicalize_shell_command}

pub record ShellArguments : Type 0 where
  pub command : Text
  pub network_access : Bool

unfoldable pub shell_target : ShellArguments → Option Text
shell_target args =
    let command = canonicalize_shell_command args.command in
    some (if args.network_access then command ++ codes " [network access]" else command)

-- `classifyShellDanger(...) ? "destructive" : "shell"`; a TypeError in it is thrown on.
unfoldable pub risk_of : Verdict → Option RiskClass
risk_of fine = some shell
risk_of a_value = some destructive
risk_of (danger reason) = some destructive
risk_of crash = none
risk_of starved = none

unfoldable pub shell_risk : ShellArguments → Option RiskClass
unfolding risk_of
shell_risk args = risk_of (classify_shell_danger (canonicalize_shell_command args.command))

unfoldable pub scopes_of : Verdict → Text → Option (List Text)
scopes_of fine command = some (shell_grant_scopes command)
scopes_of a_value command = some []
scopes_of (danger reason) command = some []
scopes_of crash command = none
scopes_of starved command = none

unfoldable pub shell_scopes : ShellArguments → Option (List Text)
unfolding scopes_of
shell_scopes args =
    let command = canonicalize_shell_command args.command in
    scopes_of (classify_shell_danger command) command

unfoldable pub shell_grant_policy : Text → Bool → GrantPolicy
unfolding is_empty
shell_grant_policy command network_access =
    if network_access || is_non_grantable_shell_command command
    then never
    else if is_empty (shell_grant_scopes command)
    then exact
    else scoped

unfoldable pub run_shell_tool : Tool ShellArguments
unfolding shell_target shell_risk shell_scopes shell_grant_policy
run_shell_tool = record {
  name = codes "run_shell";
  risk = shell;
  target = shell_target;
  risk_for = some shell_risk;
  grant_scopes = some shell_scopes;
  grant_policy = some (λ args.
      some (shell_grant_policy (canonicalize_shell_command args.command) args.network_access));
  retry_policy = none;
  schema_retry = none;
}

risk_of-fine : (v : Verdict) → v ≢ fine → get_or (risk_of v) destructive ≡ destructive
unfolding risk_of
risk_of-fine fine n = absurd (n refl)
risk_of-fine a_value n = refl
risk_of-fine (danger reason) n = refl
risk_of-fine crash n = refl
risk_of-fine starved n = refl

-- The check that `runToolCall` makes for a command.
abbrev pub shell_check : ToolCall ShellArguments → ApprovalCheck ShellArguments
shell_check tc = approval_check run_shell_tool tc

shell_check-destructive :
    (tc : ToolCall ShellArguments)
    → classify_shell_danger (canonicalize_shell_command tc.arguments.command) ≢ fine
    → (shell_check tc).risk ≡ destructive
unfolding approval_check safe_risk run_shell_tool shell_risk
shell_check-destructive tc n =
    risk_of-fine (classify_shell_danger (canonicalize_shell_command tc.arguments.command)) n

-- A destructive call that is let through without asking is held exactly.
abbrev pub IsHeld : {A : Type 0} → ApprovalCheck A → PermissionPolicy → Type 0
IsHeld c p =
    (is_never c.grant_policy ≡ false) × (listed p.grants (grant_key c.tool.name c.target) ≡ true)

automatic-IsHeld :
    {A : Type 0} (c : ApprovalCheck A) (p : PermissionPolicy)
    → c.risk ≡ destructive
    → (decision_on c p).allowed ≡ true
    → (decision_on c p).needs_approval ≡ false
    → IsHeld c p
unfolding decision_on
automatic-IsHeld c p risky allowed free =
    let exactly =
      evaluate-destructive p (record { name = c.tool.name; tool_risk = c.tool.risk }) c.target
        (record { scopes = some c.scopes; risk = some c.risk; grant_policy = some c.grant_policy })
        risky in
    (ground arith, ground arith)

module _ {W : Type 0} (deps : Deps W ShellArguments) where
  -- The handler was asked about the call, shown that it is dangerous, and has approved.
  abbrev pub IsApproved : ApprovalCheck ShellArguments → Session W ShellArguments → Type 0
  IsApproved c s =
      (answer : ApprovalAnswer) × (reason : Text) × (deps.has_handler ≡ true)
      × ((deps.ask (approval_payload c reason) (wait_state deps s.world)).1 ≡ ok answer)
      × ((approval_payload c reason).danger ≡ true)
      × (answer.approved ≡ true)

  permitted-destructive :
      (c : ApprovalCheck ShellArguments) (s : Session W ShellArguments)
      → c.risk ≡ destructive
      → IsPermitted deps c s
      → IsHeld c s.permissions ⊎ IsApproved c s
  unfolding answer_of approval_payload is_destructive
  permitted-destructive c s risky (allowed, inl free) =
      inl (automatic-IsHeld c s.permissions risky allowed free)
  permitted-destructive c s risky (allowed, inr (handled, answer, answers, approves)) =
      inr (answer, (decision_on c s.permissions).reason, handled, answers, rw risky refl, approves)

  -- A shell command that the classifier does not pass as harmless is executed only if a grant for
  -- this very command is held and the command may be remembered, or if the approval handler was
  -- shown the call as dangerous and approved it: no mode, no allowlist, no grant for the tool or
  -- for a command type lets it run.
  pub run_shell-danger :
      (registry : Registry ShellArguments) (tc : ToolCall ShellArguments)
      (s : Session W ShellArguments)
      → get tc.name registry ≡ some run_shell_tool
      → classify_shell_danger (canonicalize_shell_command tc.arguments.command) ≢ fine
      → runs ((run_tool_call deps registry tc s).0) ≢ runs s
      → IsHeld (shell_check tc) s.permissions ⊎ IsApproved (shell_check tc) s
  run_shell-danger registry tc s found risky ran =
      let (_, tool, registered, authorized) = run_tool_call-executes deps registry tc s ran in
      let same : tool ≡ run_shell_tool = some_inj tool run_shell_tool (sym registered ∙ found) in
      let trusted : IsAuthorized deps tc (asked_breaker deps tc s) run_shell_tool =
        subst (IsAuthorized deps tc (asked_breaker deps tc s)) same authorized in
      permitted-destructive (shell_check tc) (asked_breaker deps tc s)
        (shell_check-destructive tc risky) trusted.permitted
