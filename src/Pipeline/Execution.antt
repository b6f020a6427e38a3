-- ===== src/Pipeline/Execution.antt =====
-- packages/core/src/toolPipeline.ts: the hooks before a call, and its attempts.
use ninjacode_agent.Pipeline.{
  Thrown, aborted, Run, provider_error, ToolErrorCategory, unexpected_environment, not_found,
  ToolInvocation, timeout, pre_tool_use, ToolErrorCode, ToolCall, Tool, tool_error, HookRunResult,
  timed_out, runtime, ambiguous_edit, emit, executed, invalid_args, permission, abort_error, Deps,
  Session, ClassifiedToolError, with_world, stale_patch,
}
use ninjacode_agent.Pipeline.Approval.{failed_invocation}
use ninjacode_agent.Pipeline.Errors.{category_text, tool_max_attempts, classify_tool_failure}
use ninjacode_agent.Prelude.{
  leb, if◌then◌else◌, ℕ, zero, suc, ◌+◌, ◌-◌, ◌*◌, ◌^◌, min, Bool, true, false, not, ◌||◌, Option,
  none, some, List, [], ◌∷◌, ◌++◌, map,
}
use ninjacode_agent.Prelude.Results.{err, Result, ok, ◌>>=◌}
use ninjacode_agent.Prelude.Texts.{member, Text, codes}

-- `ToolRunContext`; a call that gets here is approved.
pub record ToolRunContext (A : Type 0) : Type 0 where
  pub tool : Tool A
  pub tc : ToolCall A
  pub target : Text

unfoldable pub first_blocked : List HookRunResult → Option HookRunResult
first_blocked [] = none
first_blocked (r ∷ results) = if r.blocked then some r else first_blocked results

-- `a || b` on texts
unfoldable pub or_text : Text → Text → Text
or_text [] b = b
or_text (c ∷ a) b = c ∷ a

-- Whether the category is one of the three that a same-call retry may follow.
unfoldable pub is_transient : ToolErrorCategory → Bool
is_transient timed_out = true
is_transient provider_error = true
is_transient unexpected_environment = true
is_transient _ = false

unfoldable pub is_write_tool : Text → Bool
is_write_tool name =
    member name (map codes ("write_file" ∷ "edit_file" ∷ "apply_patch" ∷ "delete_file" ∷ []))

-- `Math.min(1_000, 100 * 2 ** (attempt - 1))`
unfoldable pub retry_delay_ms : ℕ → ℕ
retry_delay_ms attempt = min 1000 (100 * 2 ^ (attempt - 1))

unfoldable pub error_output : ClassifiedToolError → Text
unfolding category_text
error_output c =
    codes "Tool error ["
    ++ category_text c.category
    ++ codes "]: "
    ++ c.message
    ++ codes "\nRecovery: "
    ++ c.recovery_hint

unfoldable pub code_text : ToolErrorCode → Text
code_text invalid_args = codes "invalid_args"
code_text not_found = codes "not_found"
code_text permission = codes "permission"
code_text runtime = codes "runtime"
code_text timeout = codes "timeout"
code_text aborted = codes "aborted"
code_text stale_patch = codes "stale_patch"
code_text ambiguous_edit = codes "ambiguous_edit"

-- `error instanceof ToolError ? error.code : classified.message`
unfoldable pub thrown_code : Thrown → Text → Text
unfolding code_text
thrown_code (tool_error code msg) message = code_text code
thrown_code thrown message = message

module _ {W A : Type 0} (deps : Deps W A) where
  unfoldable pub classify : ToolCall A → Text → Thrown → ClassifiedToolError
  unfolding classify_tool_failure
  classify tc tool thrown = classify_tool_failure tool thrown (deps.is_truncated tc.arguments)

  unfoldable pub pre_execution_failure : ToolCall A → Thrown → ToolInvocation A
  unfolding classify error_output
  pre_execution_failure tc thrown =
      let c = classify tc tc.name thrown in
      record {
        tool_call = tc;
        output = error_output c;
        approved = false;
        error = some (thrown_code thrown c.message);
        artifact_id = none;
        classified = some c;
      }

  -- What the results of the hooks mean for the call.
  unfoldable pub hook_verdict : ToolCall A → Option HookRunResult → Option (ToolInvocation A)
  unfolding or_text failed_invocation
  hook_verdict tc none = none
  hook_verdict tc (some r) =
      some
        (record (failed_invocation tc
          (codes "Blocked by PreToolUse hook: "
            ++ or_text r.stderr (or_text r.stdout (or_text r.reason (codes "no reason given"))))
          (codes "blocked_by_hook")) { approved = true })

  unfoldable pub check_pre_tool_hooks :
      ToolCall A → Session W A → Run W A (Option (ToolInvocation A))
  unfolding hook_verdict first_blocked
  check_pre_tool_hooks tc s =
      let ran = deps.run_hooks pre_tool_use tc s.world in
      (with_world (ran.0) s, ran.1 >>= λ results. ok (hook_verdict tc (first_blocked results)))

  unfoldable pub can_retry_execution : ClassifiedToolError → ℕ → ℕ → W → Bool
  unfolding is_transient
  can_retry_execution c attempt max_attempts w =
      if deps.is_aborted w || not c.retryable || leb max_attempts attempt
      then false
      else is_transient c.category

  -- `waitBeforeRetry`, and then the next attempt.
  unfoldable pub after_wait :
      (Session W A → Run W A Text) → Session W A → W × Option Thrown → Run W A Text
  after_wait next s (w, some thrown) = (with_world w s, err thrown)
  after_wait next s (w, none) = next (with_world w s)

  -- What follows an attempt.
  unfoldable pub after_attempt :
      (Session W A → Run W A Text)
      → ToolRunContext A
      → ℕ
      → ℕ
      → Session W A
      → Result Thrown Text
      → Run W A Text
  unfolding classify can_retry_execution after_wait retry_delay_ms
  after_attempt next ctx max_attempts attempt s (ok output) = (s, ok output)
  after_attempt next ctx max_attempts attempt s (err thrown) =
      if can_retry_execution (classify ctx.tc ctx.tool.name thrown) attempt max_attempts s.world
      then after_wait next s (deps.sleep (retry_delay_ms attempt) s.world)
      else (s, err thrown)

  -- One call of `execute`, noted in the events.
  unfoldable pub executed_once : ToolRunContext A → Session W A → Session W A
  unfolding emit
  executed_once ctx s =
      emit (executed ctx.tool.name ctx.tc.arguments)
        (with_world ((deps.execute ctx.tool ctx.tc.arguments s.world).0) s)

  -- The loop of `executeWithRetry`, with the attempts left.
  unfoldable pub attempts_from : ToolRunContext A → ℕ → ℕ → ℕ → Session W A → Run W A Text
  unfolding executed_once after_attempt
  attempts_from ctx max_attempts zero attempt s =
      (s, err (tool_error runtime (codes "Tool retry budget exhausted")))
  attempts_from ctx max_attempts (suc left) attempt s =
      if deps.is_aborted s.world
      then (s, err (abort_error (codes "Aborted")))
      else after_attempt (attempts_from ctx max_attempts left (attempt + 1)) ctx max_attempts
          attempt (executed_once ctx s) ((deps.execute ctx.tool ctx.tc.arguments s.world).1)

  unfoldable pub execute_with_retry : ToolRunContext A → Session W A → Run W A Text
  unfolding attempts_from tool_max_attempts
  execute_with_retry ctx s =
      let max_attempts = tool_max_attempts ctx.tool ctx.tc.arguments in
      attempts_from ctx max_attempts max_attempts 1 s
