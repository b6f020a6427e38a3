-- ===== src/Pipeline/Approval.antt =====
-- packages/core/src/toolPipelineHelpers.ts: from a call to the decision whether it may run.
use ninjacode_agent.Breaker.{ToolCircuitBreaker, is_open}
use ninjacode_agent.Permissions.{
  destructive, default_grant_policy, never, is_destructive, is_never, GrantPolicy, grant, exact,
  PermissionDecision, RiskClass, PermissionPolicy, evaluate,
}
use ninjacode_agent.Pipeline.{
  Thrown, Run, ToolInvocation, ToolCall, Tool, running, ApprovalRequest, waiting, Registry, emit,
  approval_required, RunState, stopping, stopped, Deps, Session, with_world, ApprovalAnswer,
}
use ninjacode_agent.Pipeline.Batches.{safe_target, unclassifiable_target}
use ninjacode_agent.Prelude.{
  get_or, if◌then◌else◌, Bool, true, false, not, ◌||◌, Option, none, some, List, [], ◌∷◌, ◌++◌,
}
use ninjacode_agent.Prelude.Maps.{get}
use ninjacode_agent.Prelude.Results.{err, Result, ok}
use ninjacode_agent.Prelude.Texts.{Text, text_eq, codes}

-- `ToolApprovalCheck`, with the risk of the call.
pub record ApprovalCheck (A : Type 0) : Type 0 where
  pub tool : Tool A
  pub tc : ToolCall A
  pub target : Text
  pub scopes : List Text
  pub grant_policy : GrantPolicy
  pub risk : RiskClass

-- An approval is granted, or the call ends early with an invocation.
pub data Approval (A : Type 0) : Type 0 where
  early_return : ToolInvocation A → Approval A
  granted : Approval A

unfoldable pub failed_invocation : {A : Type 0} → ToolCall A → Text → Text → ToolInvocation A
failed_invocation tc output error = record {
  tool_call = tc;
  output = output;
  approved = false;
  error = some error;
  artifact_id = none;
  classified = none;
}

unfoldable pub aborted_invocation : {A : Type 0} → ToolCall A → ToolInvocation A
unfolding failed_invocation
aborted_invocation tc =
    failed_invocation tc (codes "Run stopped before this tool call ran.") (codes "aborted")

unfoldable pub grant_each : Text → List Text → PermissionPolicy → PermissionPolicy
grant_each tool [] p = p
grant_each tool (s ∷ scopes) p = grant_each tool scopes (grant tool s p)

unfoldable pub is_exact : GrantPolicy → Bool
is_exact exact = true
is_exact _ = false

unfoldable pub is_empty : List Text → Bool
is_empty [] = true
is_empty (s ∷ scopes) = false

module _ {A : Type 0} where
  unfoldable pub safe_grant_scopes : Tool A → A → List Text
  safe_grant_scopes tool args = elim tool.grant_scopes [
    | none ↦ []
    | some grant_scopes ↦ get_or (grant_scopes args) []
  ]

  unfoldable pub safe_grant_policy : Tool A → A → List Text → GrantPolicy
  unfolding default_grant_policy
  safe_grant_policy tool args scopes = elim tool.grant_policy [
    | none ↦ default_grant_policy (some scopes)
    | some grant_policy ↦ get_or (grant_policy args) never
  ]

  unfoldable pub safe_risk : Tool A → A → RiskClass
  safe_risk tool args = elim tool.risk_for [
    | none ↦ tool.risk
    | some risk_for ↦ get_or (risk_for args) destructive
  ]

  -- What `runToolCall` hands to `resolveToolApproval`.
  unfoldable pub approval_check : Tool A → ToolCall A → ApprovalCheck A
  unfolding safe_target safe_grant_scopes safe_grant_policy safe_risk unclassifiable_target
  approval_check tool tc =
      let target = safe_target tool tc.arguments in
      let lost = text_eq target unclassifiable_target in
      let scopes = if lost then [] else safe_grant_scopes tool tc.arguments in
      record {
        tool = tool;
        tc = tc;
        target = target;
        scopes = scopes;
        grant_policy = if lost then never else safe_grant_policy tool tc.arguments scopes;
        risk = safe_risk tool tc.arguments;
      }

  -- `permissions.evaluate(tool, target, { scopes, risk, grantPolicy })`
  unfoldable pub decision_on : ApprovalCheck A → PermissionPolicy → PermissionDecision
  decision_on c p =
      evaluate p (record { name = c.tool.name; tool_risk = c.tool.risk }) c.target
        (record { scopes = some c.scopes; risk = some c.risk; grant_policy = some c.grant_policy })

  unfoldable pub remember_grant : ApprovalCheck A → Bool → PermissionPolicy → PermissionPolicy
  unfolding grant_each is_exact is_empty is_never
  remember_grant c remember p =
      if not remember || is_never c.grant_policy
      then p
      else if is_exact c.grant_policy || is_empty c.scopes
      then grant c.tool.name c.target p
      else grant_each c.tool.name c.scopes p

  unfoldable pub approval_payload : ApprovalCheck A → Text → ApprovalRequest A
  unfolding is_never is_destructive
  approval_payload c reason = record {
    tool_name = c.tool.name;
    target = c.target;
    arguments = c.tc.arguments;
    reason = reason;
    grant_scopes = c.scopes;
    can_remember = not (is_never c.grant_policy);
    danger = is_destructive c.risk;
  }

unfoldable pub is_waiting : RunState → Bool
is_waiting waiting = true
is_waiting _ = false

unfoldable pub is_stopping : RunState → Bool
is_stopping stopping = true
is_stopping stopped = true
is_stopping _ = false

module _ {W A : Type 0} (deps : Deps W A) where
  -- `if (wasWaiting) await deps.setState("waiting")`
  unfoldable pub wait_state : W → W
  unfolding is_stopping
  wait_state w = if is_stopping (deps.get_state w) then w else deps.set_state waiting w

  unfoldable pub resume_state : W → W
  unfolding is_waiting
  resume_state w = if is_waiting (deps.get_state w) then deps.set_state running w else w

  -- What follows the handler's answer, and what it throws.
  unfoldable pub collected :
      ApprovalCheck A → Session W A → Result Thrown ApprovalAnswer → Run W A (Approval A)
  unfolding remember_grant failed_invocation
  collected c s (ok answer) =
      if answer.approved
      then (record s { permissions = remember_grant c answer.remember s.permissions }, ok granted)
      else (
        s,
        ok (
            early_return
              (failed_invocation c.tc (codes "User denied this tool call.") (codes "user_denied"))),
      )
  collected c s (err thrown) =
      if deps.is_abort_error thrown
      then (
        s,
        ok (
            early_return
              (failed_invocation c.tc (codes "Approval wait aborted.") (codes "aborted"))),
      )
      else (s, err thrown)

  unfoldable pub answer_of : ApprovalCheck A → Text → W → W × Result Thrown ApprovalAnswer
  unfolding wait_state approval_payload
  answer_of c reason w = deps.ask (approval_payload c reason) (wait_state w)

  unfoldable pub collect_approval_result :
      ApprovalCheck A → Text → Session W A → Run W A (Approval A)
  unfolding answer_of resume_state collected
  collect_approval_result c reason s =
      let answered = answer_of c reason s.world in
      collected c (with_world (resume_state (answered.0)) s) (answered.1)

  unfoldable pub wait_for_approval : ApprovalCheck A → Text → Session W A → Run W A (Approval A)
  unfolding emit approval_payload failed_invocation collect_approval_result
  wait_for_approval c reason s =
      let asked_for = emit (approval_required (approval_payload c reason)) s in
      if deps.has_handler then collect_approval_result c reason asked_for else (
        asked_for,
        ok (
            early_return (
              failed_invocation c.tc
                (codes "Approval required for "
                  ++ c.tool.name
                  ++ codes " ("
                  ++ reason
                  ++ codes ") but no approval handler is configured.")
                (codes "approval_required"))),
      )

  unfoldable pub resolve_tool_approval : ApprovalCheck A → Session W A → Run W A (Approval A)
  unfolding decision_on failed_invocation wait_for_approval
  resolve_tool_approval c s =
      let decision = decision_on c s.permissions in
      if not decision.allowed
      then (
        s,
        ok (
            early_return
              (failed_invocation c.tc (codes "Denied: " ++ decision.reason) (codes "denied"))),
      )
      else if not decision.needs_approval
      then (s, ok granted)
      else wait_for_approval c decision.reason s

  -- `preflightToolCall`, once the breaker is asked; asking may change it.
  unfoldable pub looked_up :
      ToolCall A → Option (Tool A) → Session W A → Session W A × Option (ToolInvocation A)
  unfolding failed_invocation
  looked_up tc none s =
      (s, some (failed_invocation tc (codes "Unknown tool: " ++ tc.name) (codes "unknown_tool")))
  looked_up tc (some tool) s = (s, none)

  unfoldable pub preflight_from :
      Registry A
      → ToolCall A
      → Session W A
      → ToolCircuitBreaker × Bool
      → Session W A × Option (ToolInvocation A)
  unfolding failed_invocation looked_up
  preflight_from registry tc s (breaker, true) = (
    record s { breaker = breaker },
    some (
        failed_invocation tc
          (codes "Tool " ++ tc.name ++ codes " circuit-open after repeated failures this session.")
          (codes "circuit_open")),
  )
  preflight_from registry tc s (breaker, false) =
      looked_up tc (get tc.name registry) (record s { breaker = breaker })

  unfoldable pub preflight_tool_call :
      Registry A → ToolCall A → Session W A → Session W A × Option (ToolInvocation A)
  unfolding is_open preflight_from
  preflight_tool_call registry tc s =
      preflight_from registry tc s (is_open (deps.now s.world) tc.name s.breaker)
