-- ===== src/Pipeline/Order.antt =====
-- toolPipeline.ts: every call of a turn gets one invocation, in the order of the calls.
use ninjacode_agent.Breaker.{ToolCircuitBreaker, is_open}
use ninjacode_agent.Pipeline.{
  Thrown, Run, ToolInvocation, pre_tool_use, ToolCall, Tool, tool_aborted, HookRunResult, Registry,
  emit, approval_required, Deps, tool_start, Session, with_world, post_tool_use, ApprovalAnswer,
}
use ninjacode_agent.Pipeline.Approval.{
  preflight_tool_call, resume_state, approval_check, Approval, aborted_invocation, collected,
  collect_approval_result, granted, approval_payload, preflight_from, answer_of, decision_on,
  wait_for_approval, resolve_tool_approval, early_return, looked_up, failed_invocation,
  ApprovalCheck,
}
use ninjacode_agent.Pipeline.Calls.{
  failed_with, handle_tool_success, with_diagnostics, once_archived, handle_tool_failure, succeeded,
  finish_execution, with_tool, execute_approved_tool, run_tool_call, after_hooks, or_failure,
  run_registered_tool, after_preflight, after_approval,
}
use ninjacode_agent.Pipeline.Execution.{
  hook_verdict, ToolRunContext, first_blocked, pre_execution_failure, check_pre_tool_hooks,
  execute_with_retry, classify,
}
use ninjacode_agent.Prelude.{
  if-holds, ◌≡◌, refl, Bool, true, false, not, ◌||◌, Option, none, some, List,
}
use ninjacode_agent.Prelude.Maps.{get}
use ninjacode_agent.Prelude.Results.{err, Result, ok, ◌>>=◌}
use ninjacode_agent.Prelude.Texts.{Text, codes}

module _ {W A : Type 0} (deps : Deps W A) where
  -- What is returned, if anything is, is about the call.
  abbrev pub IsAbout : ToolCall A → Result Thrown (ToolInvocation A) → Type 0
  IsAbout tc (err thrown) = Unit {0}
  IsAbout tc (ok invocation) = invocation.tool_call ≡ tc

  abbrev IsEarly : ToolCall A → Result Thrown (Approval A) → Type 0
  IsEarly tc (err thrown) = Unit {0}
  IsEarly tc (ok granted) = Unit {0}
  IsEarly tc (ok (early_return invocation)) = invocation.tool_call ≡ tc

  abbrev IsBlocked : ToolCall A → Result Thrown (Option (ToolInvocation A)) → Type 0
  IsBlocked tc (err thrown) = Unit {0}
  IsBlocked tc (ok none) = Unit {0}
  IsBlocked tc (ok (some invocation)) = invocation.tool_call ≡ tc

  bind-IsAbout :
      {X : Type 0} (tc : ToolCall A) (r : Result Thrown X) (i : ToolInvocation A)
      → i.tool_call ≡ tc
      → IsAbout tc (r >>= λ _. ok i)
  bind-IsAbout tc (err thrown) i h = tt
  bind-IsAbout tc (ok x) i h = h

  once_archived-IsAbout :
      (tc : ToolCall A) (next : Option Text → Session W A → Run W A (ToolInvocation A))
      (s : Session W A) (archived : W × Result Thrown (Option Text))
      → ((artifact : Option Text) (t : Session W A) → IsAbout tc ((next artifact t).1))
      → IsAbout tc ((once_archived deps next s archived).1)
  unfolding once_archived
  once_archived-IsAbout tc next s (w, err thrown) h = tt
  once_archived-IsAbout tc next s (w, ok artifact) h = h artifact (with_world w s)

  handle_tool_failure-IsAbout :
      (ctx : ToolRunContext A) (thrown : Thrown) (s : Session W A)
      → IsAbout ctx.tc ((handle_tool_failure deps ctx thrown s).1)
  unfolding handle_tool_failure failed_with failed_invocation
  handle_tool_failure-IsAbout ctx thrown s =
      let c = classify deps ctx.tc ctx.tool.name thrown in
      if-holds (λ (r : Run W A (ToolInvocation A)). IsAbout ctx.tc (r.1))
        (deps.is_aborted s.world || deps.is_abort_error thrown)
        (
          emit (tool_aborted ctx.tc) s,
          ok
              (record (failed_invocation ctx.tc (codes "Tool call aborted by user.")
                (codes "aborted")) { approved = true }),
        )
        (once_archived deps (failed_with deps ctx c) s (deps.archive c.message s.world)) (λ _. refl)
        (λ _.
          once_archived-IsAbout ctx.tc (failed_with deps ctx c) s (deps.archive c.message s.world)
            (λ artifact t.
              bind-IsAbout ctx.tc ((deps.run_hooks post_tool_use ctx.tc t.world).1) _ refl))

  handle_tool_success-IsAbout :
      (ctx : ToolRunContext A) (output : Text) (s : Session W A)
      → IsAbout ctx.tc ((handle_tool_success deps ctx output s).1)
  unfolding handle_tool_success succeeded
  handle_tool_success-IsAbout ctx output s =
      once_archived-IsAbout ctx.tc (succeeded deps ctx output) s (deps.archive output s.world)
        (λ artifact t.
          bind-IsAbout ctx.tc
            ((deps.run_hooks post_tool_use ctx.tc (
              (with_diagnostics deps ctx.tool.name output
                (deps.on_modified_files ctx.tool.name t.world)).0)).1)
            _ refl)

  finish_execution-IsAbout :
      (ctx : ToolRunContext A) (r : Run W A Text) → IsAbout ctx.tc ((finish_execution deps ctx r).1)
  unfolding finish_execution
  finish_execution-IsAbout ctx (s, ok output) = handle_tool_success-IsAbout ctx output s
  finish_execution-IsAbout ctx (s, err thrown) = tt

  or_failure-IsAbout :
      (ctx : ToolRunContext A) (r : Run W A (ToolInvocation A))
      → IsAbout ctx.tc (r.1)
      → IsAbout ctx.tc ((or_failure deps ctx r).1)
  unfolding or_failure
  or_failure-IsAbout ctx (s, ok invocation) h = h
  or_failure-IsAbout ctx (s, err thrown) h = handle_tool_failure-IsAbout ctx thrown s

  after_hooks-IsAbout :
      (ctx : ToolRunContext A) (r : Run W A (Option (ToolInvocation A)))
      → IsBlocked ctx.tc (r.1)
      → IsAbout ctx.tc ((after_hooks deps ctx r).1)
  unfolding after_hooks execute_approved_tool
  after_hooks-IsAbout ctx (s, err thrown) h = tt
  after_hooks-IsAbout ctx (s, ok (some blocked)) h = h
  after_hooks-IsAbout ctx (s, ok none) h = or_failure-IsAbout ctx _ (
      finish_execution-IsAbout ctx
        (execute_with_retry deps ctx (emit (tool_start ctx.tc ctx.target) s)))

  hooks-IsBlocked :
      (tc : ToolCall A) (r : Result Thrown (List HookRunResult))
      → IsBlocked tc (r >>= λ results. ok (hook_verdict deps tc (first_blocked results)))
  unfolding hook_verdict failed_invocation
  hooks-IsBlocked tc (err thrown) = tt
  hooks-IsBlocked tc (ok results) = by_first (first_blocked results)
    where
      by_first : (o : Option HookRunResult) → IsBlocked tc (ok (hook_verdict deps tc o))
      by_first none = tt
      by_first (some r) = refl

  collected-IsEarly :
      (c : ApprovalCheck A) (s : Session W A) (r : Result Thrown ApprovalAnswer)
      → IsEarly c.tc ((collected deps c s r).1)
  unfolding collected failed_invocation
  collected-IsEarly c s (ok answer) =
      if-holds (λ (r : Run W A (Approval A)). IsEarly c.tc (r.1)) answer.approved _ _ (λ _. tt)
        (λ _. refl)
  collected-IsEarly c s (err thrown) =
      if-holds (λ (r : Run W A (Approval A)). IsEarly c.tc (r.1)) (deps.is_abort_error thrown) _ _
        (λ _. refl) (λ _. tt)

  resolve_tool_approval-IsEarly :
      (c : ApprovalCheck A) (s : Session W A) → IsEarly c.tc ((resolve_tool_approval deps c s).1)
  unfolding resolve_tool_approval wait_for_approval collect_approval_result failed_invocation
  resolve_tool_approval-IsEarly c s =
      let decision = decision_on c s.permissions in
      let asked_for = emit (approval_required (approval_payload c decision.reason)) s in
      let answered = answer_of deps c decision.reason s.world in
      let early = λ (r : Run W A (Approval A)). IsEarly c.tc (r.1) in
      if-holds early (not decision.allowed) _ _ (λ _. refl)
        (λ _.
          if-holds early (not decision.needs_approval) (s, ok granted) _ (λ _. tt)
            (λ _.
              if-holds early deps.has_handler
                (collect_approval_result deps c decision.reason asked_for) _
                (λ _.
                  collected-IsEarly c (with_world (resume_state deps (answered.0)) asked_for)
                    (answered.1))
                (λ _. refl)))

  after_approval-IsAbout :
      (c : ApprovalCheck A) (r : Run W A (Approval A))
      → IsEarly c.tc (r.1)
      → IsAbout c.tc ((after_approval deps c r).1)
  unfolding after_approval check_pre_tool_hooks aborted_invocation failed_invocation
  after_approval-IsAbout c (s, err thrown) h = tt
  after_approval-IsAbout c (s, ok (early_return invocation)) h = h
  after_approval-IsAbout c (s, ok granted) h =
      let ctx : ToolRunContext A = record { tool = c.tool; tc = c.tc; target = c.target } in
      if-holds (λ (r : Run W A (ToolInvocation A)). IsAbout c.tc (r.1)) (deps.is_aborted s.world)
        (s, ok (aborted_invocation c.tc)) (after_hooks deps ctx (check_pre_tool_hooks deps c.tc s))
        (λ _. refl)
        (λ _.
          after_hooks-IsAbout ctx (check_pre_tool_hooks deps c.tc s)
            (hooks-IsBlocked c.tc ((deps.run_hooks pre_tool_use c.tc s.world).1)))

  with_tool-IsAbout :
      (tc : ToolCall A) (o : Option (Tool A)) (s : Session W A)
      → IsAbout tc ((with_tool deps tc o s).1)
  unfolding with_tool run_registered_tool pre_execution_failure approval_check
  with_tool-IsAbout tc none s = tt
  with_tool-IsAbout tc (some tool) s = by_arguments (deps.validate tool tc.arguments)
    where
      by_arguments :
          (o : Option Thrown)
          → IsAbout tc (
              (elim o as (λ _. Run W A (ToolInvocation A)) [
                | some thrown ↦ (s, ok (pre_execution_failure deps tc thrown))
                | none ↦
                    after_approval deps
                      (approval_check tool tc)
                      (resolve_tool_approval deps (approval_check tool tc) s)
              ]).1)
      by_arguments (some thrown) = refl
      by_arguments none =
          let c = approval_check tool tc in
          after_approval-IsAbout c (resolve_tool_approval deps c s)
            (resolve_tool_approval-IsEarly c s)

  looked_up-IsAbout :
      (registry : Registry A) (tc : ToolCall A) (o : Option (Tool A)) (s : Session W A)
      → IsAbout tc ((after_preflight deps registry tc (looked_up deps tc o s)).1)
  unfolding after_preflight looked_up failed_invocation
  looked_up-IsAbout registry tc none s = refl
  looked_up-IsAbout registry tc (some tool) s = with_tool-IsAbout tc (get tc.name registry) s

  preflighted-IsAbout :
      (registry : Registry A) (tc : ToolCall A) (s : Session W A)
      (asked : ToolCircuitBreaker × Bool)
      → IsAbout tc ((after_preflight deps registry tc (preflight_from deps registry tc s asked)).1)
  unfolding preflight_from after_preflight failed_invocation
  preflighted-IsAbout registry tc s (b, true) = refl
  preflighted-IsAbout registry tc s (b, false) =
      looked_up-IsAbout registry tc (get tc.name registry) (record s { breaker = b })

  pub run_tool_call-IsAbout :
      (registry : Registry A) (tc : ToolCall A) (s : Session W A)
      → IsAbout tc ((run_tool_call deps registry tc s).1)
  unfolding run_tool_call preflight_tool_call aborted_invocation failed_invocation
  run_tool_call-IsAbout registry tc s =
      let asked = is_open (deps.now s.world) tc.name s.breaker in
      if-holds (λ (r : Run W A (ToolInvocation A)). IsAbout tc (r.1)) (deps.is_aborted s.world)
        (s, ok (aborted_invocation tc))
        (after_preflight deps registry tc (preflight_from deps registry tc s asked)) (λ _. refl)
        (λ _. preflighted-IsAbout registry tc s asked)
