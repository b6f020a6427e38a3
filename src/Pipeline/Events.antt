-- ===== src/Pipeline/Events.antt =====
-- toolPipeline.ts: how often `execute` of a tool has been called, by the events.
use ninjacode_agent.Pipeline.{
  Thrown, Run, ToolInvocation, tool_aborted, Event, emit, approval_required, executed, tool_end,
  abort_error, Deps, tool_start, Session, with_world, ApprovalAnswer,
}
use ninjacode_agent.Pipeline.Approval.{
  resume_state, Approval, collected, collect_approval_result, granted, approval_payload, answer_of,
  decision_on, wait_for_approval, resolve_tool_approval, early_return, failed_invocation,
  ApprovalCheck,
}
use ninjacode_agent.Pipeline.Calls.{
  failed_with, handle_tool_success, once_archived, handle_tool_failure, succeeded, finish_execution,
  execute_approved_tool, after_hooks, or_failure, after_approval,
}
use ninjacode_agent.Pipeline.Errors.{tool_max_attempts}
use ninjacode_agent.Pipeline.Execution.{
  after_attempt, ToolRunContext, can_retry_execution, executed_once, after_wait, attempts_from,
  check_pre_tool_hooks, execute_with_retry, retry_delay_ms, classify,
}
use ninjacode_agent.Prelude.{
  if-holds, ℕ, zero, suc, ◌+◌, ◌≤◌, ◌≡◌, refl, true, ◌||◌, Option, none, some, List, [], ◌∷◌, arith,
}
use ninjacode_agent.Prelude.Results.{err, Result, ok}
use ninjacode_agent.Prelude.Texts.{Text, codes}

module _ {A : Type 0} where
  -- The executions among the events.
  unfoldable pub executions : List (Event A) → ℕ
  executions [] = 0
  executions (executed name args ∷ events) = executions events + 1
  executions (approval_required request ∷ events) = executions events
  executions (tool_start tc target ∷ events) = executions events
  executions (tool_end tc c ∷ events) = executions events
  executions (tool_aborted tc ∷ events) = executions events

module _ {W A : Type 0} where
  abbrev pub runs : Session W A → ℕ
  runs s = executions s.events

le_suc_right : (a b c : ℕ) → a ≤ b + 1 + c → a ≤ b + suc c
le_suc_right a b c h = omega arith

module _ {W A : Type 0} (deps : Deps W A) where
  -- The parts around the attempts execute nothing.
  collected-runs :
      (c : ApprovalCheck A) (s : Session W A) (r : Result Thrown ApprovalAnswer)
      → runs ((collected deps c s r).0) ≡ runs s
  unfolding collected
  collected-runs c s (ok answer) = ground arith
  collected-runs c s (err thrown) = ground arith

  pub resolve_tool_approval-runs :
      (c : ApprovalCheck A) (s : Session W A) → runs ((resolve_tool_approval deps c s).0) ≡ runs s
  unfolding resolve_tool_approval wait_for_approval collect_approval_result emit executions
  resolve_tool_approval-runs c s =
      let reason = (decision_on c s.permissions).reason in
      let asked_for = emit (approval_required (approval_payload c reason)) s in
      let answered = answer_of deps c reason s.world in
      ground (
        arith,
        collected-runs c (with_world (resume_state deps (answered.0)) asked_for) (answered.1),
      )

  once_archived-runs :
      (next : Option Text → Session W A → Run W A (ToolInvocation A)) (s : Session W A)
      (archived : W × Result Thrown (Option Text))
      → ((artifact : Option Text) (t : Session W A) → runs ((next artifact t).0) ≡ runs t)
      → runs ((once_archived deps next s archived).0) ≡ runs s
  unfolding once_archived
  once_archived-runs next s (w, err thrown) h = refl
  once_archived-runs next s (w, ok artifact) h = h artifact (with_world w s)

  handle_tool_failure-runs :
      (ctx : ToolRunContext A) (thrown : Thrown) (s : Session W A)
      → runs ((handle_tool_failure deps ctx thrown s).0) ≡ runs s
  unfolding handle_tool_failure failed_with emit executions
  handle_tool_failure-runs ctx thrown s =
      let c = classify deps ctx.tc ctx.tool.name thrown in
      if-holds (λ (r : Run W A (ToolInvocation A)). runs (r.0) ≡ runs s)
        (deps.is_aborted s.world || deps.is_abort_error thrown)
        (
          emit (tool_aborted ctx.tc) s,
          ok
              (record (failed_invocation ctx.tc (codes "Tool call aborted by user.")
                (codes "aborted")) { approved = true }),
        )
        (once_archived deps (failed_with deps ctx c) s (deps.archive c.message s.world)) (λ _. refl)
        (λ _.
          once_archived-runs (failed_with deps ctx c) s (deps.archive c.message s.world)
            (λ artifact t. refl))

  handle_tool_success-runs :
      (ctx : ToolRunContext A) (output : Text) (s : Session W A)
      → runs ((handle_tool_success deps ctx output s).0) ≡ runs s
  unfolding handle_tool_success succeeded emit executions
  handle_tool_success-runs ctx output s =
      once_archived-runs (succeeded deps ctx output) s (deps.archive output s.world)
        (λ artifact t. refl)

  after_attempt-runs :
      (next : Session W A → Run W A Text) (ctx : ToolRunContext A) (k max_attempts attempt : ℕ)
      (s : Session W A) (r : Result Thrown Text)
      → ((t : Session W A) → runs ((next t).0) ≤ runs t + k)
      → runs ((after_attempt deps next ctx max_attempts attempt s r).0) ≤ runs s + k
  unfolding after_attempt
  after_attempt-runs next ctx k m a s (ok output) h = ground arith
  after_attempt-runs next ctx k m a s (err thrown) h =
      if-holds (λ (r : Run W A Text). runs (r.0) ≤ runs s + k)
        (can_retry_execution deps (classify deps ctx.tc ctx.tool.name thrown) a m s.world)
        (after_wait deps next s (deps.sleep (retry_delay_ms a) s.world)) (s, err thrown)
        (λ _. waited (deps.sleep (retry_delay_ms a) s.world)) (λ _. ground arith)
    where
      waited : (slept : W × Option Thrown) → runs ((after_wait deps next s slept).0) ≤ runs s + k
      waited (w, some again) = ground arith
      waited (w, none) = h (with_world w s)

  attempts_from-runs :
      (ctx : ToolRunContext A) (max_attempts left attempt : ℕ) (s : Session W A)
      → runs ((attempts_from deps ctx max_attempts left attempt s).0) ≤ runs s + left
  unfolding attempts_from executed_once emit executions
  attempts_from-runs ctx m zero attempt s = ground arith
  attempts_from-runs ctx m (suc left) attempt s =
      let next = attempts_from deps ctx m left (attempt + 1) in
      let result = (deps.execute ctx.tool ctx.tc.arguments s.world).1 in
      let once =
        after_attempt-runs next ctx left m attempt (executed_once deps ctx s) result
          (attempts_from-runs ctx m left (attempt + 1)) in
      if-holds (λ (r : Run W A Text). runs (r.0) ≤ runs s + suc left) (deps.is_aborted s.world)
        (s, err (abort_error (codes "Aborted")))
        (after_attempt deps next ctx m attempt (executed_once deps ctx s) result)
        (λ _. ground arith) (λ _. le_suc_right _ (runs s) left once)

  finish_execution-runs :
      (ctx : ToolRunContext A) (r : Run W A Text)
      → runs ((finish_execution deps ctx r).0) ≡ runs (r.0)
  unfolding finish_execution
  finish_execution-runs ctx (s, ok output) = handle_tool_success-runs ctx output s
  finish_execution-runs ctx (s, err thrown) = refl

  or_failure-runs :
      (ctx : ToolRunContext A) (r : Run W A (ToolInvocation A))
      → runs ((or_failure deps ctx r).0) ≡ runs (r.0)
  unfolding or_failure
  or_failure-runs ctx (s, ok invocation) = refl
  or_failure-runs ctx (s, err thrown) = handle_tool_failure-runs ctx thrown s

  pub execute_approved_tool-runs :
      (ctx : ToolRunContext A) (s : Session W A)
      → runs ((execute_approved_tool deps ctx s).0)
        ≤ runs s + tool_max_attempts ctx.tool ctx.tc.arguments
  unfolding execute_approved_tool execute_with_retry emit executions
  execute_approved_tool-runs ctx s =
      let started = emit (tool_start ctx.tc ctx.target) s in
      let tried = execute_with_retry deps ctx started in
      let m = tool_max_attempts ctx.tool ctx.tc.arguments in
      ground (
        arith,
        or_failure-runs ctx (finish_execution deps ctx tried),
        finish_execution-runs ctx tried,
        attempts_from-runs ctx m m 1 started,
      )

  pub after_hooks-runs :
      (ctx : ToolRunContext A) (r : Run W A (Option (ToolInvocation A)))
      → runs ((after_hooks deps ctx r).0) ≤ runs (r.0) + tool_max_attempts ctx.tool ctx.tc.arguments
  unfolding after_hooks
  after_hooks-runs ctx (s, err thrown) = ground arith
  after_hooks-runs ctx (s, ok (some blocked)) = ground arith
  after_hooks-runs ctx (s, ok none) = execute_approved_tool-runs ctx s

  pub after_approval-runs :
      (c : ApprovalCheck A) (r : Run W A (Approval A))
      → runs ((after_approval deps c r).0) ≤ runs (r.0) + tool_max_attempts c.tool c.tc.arguments
  unfolding after_approval check_pre_tool_hooks
  after_approval-runs c (s, err thrown) = ground arith
  after_approval-runs c (s, ok (early_return invocation)) = ground arith
  after_approval-runs c (s, ok granted) =
      let ctx : ToolRunContext A = record { tool = c.tool; tc = c.tc; target = c.target } in
      ground (arith, after_hooks-runs ctx (check_pre_tool_hooks deps c.tc s))
