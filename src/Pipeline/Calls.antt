-- ===== src/Pipeline/Calls.antt =====
-- packages/core/src/toolPipeline.ts: what follows the attempts of a call, a whole call, and the calls
-- of a turn. The calls of one batch run in its order, one of the orders that `Promise.all` allows.
use ninjacode_agent.Breaker.{record_failure, record_success}
use ninjacode_agent.Pipeline.{
  Thrown, Run, ToolInvocation, ToolCall, other_error, Tool, tool_aborted, Registry, emit, tool_end,
  Deps, tool_start, Session, ClassifiedToolError, with_world, post_tool_use,
}
use ninjacode_agent.Pipeline.Approval.{
  preflight_tool_call, approval_check, Approval, aborted_invocation, granted, resolve_tool_approval,
  early_return, failed_invocation, ApprovalCheck,
}
use ninjacode_agent.Pipeline.Batches.{tool_execution_batches}
use ninjacode_agent.Pipeline.Execution.{
  error_output, ToolRunContext, pre_execution_failure, check_pre_tool_hooks, execute_with_retry,
  is_write_tool, classify,
}
use ninjacode_agent.Prelude.{
  if◌then◌else◌, true, ◌||◌, Option, none, some, List, [], ◌∷◌, ◌++◌, map,
}
use ninjacode_agent.Prelude.Maps.{get}
use ninjacode_agent.Prelude.Results.{err, Result, ok, ◌>>=◌}
use ninjacode_agent.Prelude.Texts.{Text, codes}

module _ {W A : Type 0} (deps : Deps W A) where
  unfoldable pub with_diagnostics : Text → Text → W → W × Text
  unfolding is_write_tool
  with_diagnostics tool output w =
      if is_write_tool tool
      then (let noted = deps.post_edit_diagnostics output w in
          (
            noted.0,
            (elim (noted.1) [ none ↦ output | some note ↦ output ++ codes "\n\n" ++ note ]),
          ))
      else (w, output)

  -- `handleToolSuccess`, once the output is archived.
  unfoldable pub succeeded :
      ToolRunContext A → Text → Option Text → Session W A → Run W A (ToolInvocation A)
  unfolding with_diagnostics record_success emit
  succeeded ctx output artifact s =
      let noted =
        with_diagnostics ctx.tool.name output (deps.on_modified_files ctx.tool.name s.world) in
      let hooked = deps.run_hooks post_tool_use ctx.tc (noted.0) in
      (
        emit (tool_end ctx.tc none)
            (record s { world = hooked.0; breaker = record_success ctx.tool.name s.breaker }),
        hooked.1 >>= λ _. ok (record {
          tool_call = ctx.tc;
          output = noted.1;
          approved = true;
          error = none;
          artifact_id = artifact;
          classified = none;
        }),
      )

  -- `archiveToolOutput`, and then what follows it.
  unfoldable pub once_archived :
      (Option Text → Session W A → Run W A (ToolInvocation A))
      → Session W A
      → W × Result Thrown (Option Text)
      → Run W A (ToolInvocation A)
  once_archived next s (w, err thrown) = (with_world w s, err thrown)
  once_archived next s (w, ok artifact) = next artifact (with_world w s)

  unfoldable pub handle_tool_success :
      ToolRunContext A → Text → Session W A → Run W A (ToolInvocation A)
  unfolding succeeded once_archived
  handle_tool_success ctx output s =
      once_archived (succeeded ctx output) s (deps.archive output s.world)

  -- `handleToolFailure`, once the message is archived.
  unfoldable pub failed_with :
      ToolRunContext A
      → ClassifiedToolError
      → Option Text
      → Session W A
      → Run W A (ToolInvocation A)
  unfolding record_failure emit error_output
  failed_with ctx c artifact s =
      let hooked = deps.run_hooks post_tool_use ctx.tc s.world in
      (
        emit (tool_end ctx.tc (some c)) (record s {
          world = hooked.0;
          breaker = record_failure (deps.now s.world) ctx.tool.name s.breaker;
        }),
        hooked.1 >>= λ _. ok (record {
          tool_call = ctx.tc;
          output = error_output c;
          approved = true;
          error = some c.message;
          artifact_id = artifact;
          classified = some c;
        }),
      )

  unfoldable pub handle_tool_failure :
      ToolRunContext A → Thrown → Session W A → Run W A (ToolInvocation A)
  unfolding classify failed_with emit failed_invocation once_archived
  handle_tool_failure ctx thrown s =
      let c = classify deps ctx.tc ctx.tool.name thrown in
      if deps.is_aborted s.world || deps.is_abort_error thrown
      then (
        emit (tool_aborted ctx.tc) s,
        ok
            (record (failed_invocation ctx.tc (codes "Tool call aborted by user.")
              (codes "aborted")) { approved = true }),
      )
      else once_archived (failed_with ctx c) s (deps.archive c.message s.world)

  -- `catch (e) { return this.handleToolFailure(ctx, e); }`
  unfoldable pub or_failure :
      ToolRunContext A → Run W A (ToolInvocation A) → Run W A (ToolInvocation A)
  unfolding handle_tool_failure
  or_failure ctx (s, ok invocation) = (s, ok invocation)
  or_failure ctx (s, err thrown) = handle_tool_failure ctx thrown s

  unfoldable pub finish_execution : ToolRunContext A → Run W A Text → Run W A (ToolInvocation A)
  unfolding handle_tool_success
  finish_execution ctx (s, ok output) = handle_tool_success ctx output s
  finish_execution ctx (s, err thrown) = (s, err thrown)

  unfoldable pub execute_approved_tool : ToolRunContext A → Session W A → Run W A (ToolInvocation A)
  unfolding emit execute_with_retry finish_execution or_failure
  execute_approved_tool ctx s =
      or_failure ctx
        (finish_execution ctx (execute_with_retry deps ctx (emit (tool_start ctx.tc ctx.target) s)))

  unfoldable pub after_hooks :
      ToolRunContext A → Run W A (Option (ToolInvocation A)) → Run W A (ToolInvocation A)
  unfolding execute_approved_tool
  after_hooks ctx (s, err thrown) = (s, err thrown)
  after_hooks ctx (s, ok (some blocked)) = (s, ok blocked)
  after_hooks ctx (s, ok none) = execute_approved_tool ctx s

  unfoldable pub after_approval :
      ApprovalCheck A → Run W A (Approval A) → Run W A (ToolInvocation A)
  unfolding aborted_invocation check_pre_tool_hooks after_hooks
  after_approval c (s, err thrown) = (s, err thrown)
  after_approval c (s, ok (early_return invocation)) = (s, ok invocation)
  after_approval c (s, ok granted) =
      if deps.is_aborted s.world
      then (s, ok (aborted_invocation c.tc))
      else after_hooks (record { tool = c.tool; tc = c.tc; target = c.target })
          (check_pre_tool_hooks deps c.tc s)

  unfoldable pub run_registered_tool :
      Tool A → ToolCall A → Session W A → Run W A (ToolInvocation A)
  unfolding pre_execution_failure approval_check resolve_tool_approval after_approval
  run_registered_tool tool tc s = elim (deps.validate tool tc.arguments) [
    | some thrown ↦ (s, ok (pre_execution_failure deps tc thrown))
    | none ↦ (let c = approval_check tool tc in after_approval c (resolve_tool_approval deps c s))
  ]

  -- `registryToolOrThrow`
  unfoldable pub with_tool : ToolCall A → Option (Tool A) → Session W A → Run W A (ToolInvocation A)
  unfolding run_registered_tool
  with_tool tc none s = (s, err (other_error (codes "Unknown tool: " ++ tc.name)))
  with_tool tc (some tool) s = run_registered_tool tool tc s

  unfoldable pub after_preflight :
      Registry A → ToolCall A → Session W A × Option (ToolInvocation A) → Run W A (ToolInvocation A)
  unfolding with_tool
  after_preflight registry tc (s, some invocation) = (s, ok invocation)
  after_preflight registry tc (s, none) = with_tool tc (get tc.name registry) s

  unfoldable pub run_tool_call : Registry A → ToolCall A → Session W A → Run W A (ToolInvocation A)
  unfolding aborted_invocation preflight_tool_call after_preflight
  run_tool_call registry tc s =
      if deps.is_aborted s.world
      then (s, ok (aborted_invocation tc))
      else after_preflight registry tc (preflight_tool_call deps registry tc s)

  -- `Promise.all`: every call runs, whichever of them throws.
  unfoldable pub run_batch :
      Registry A → List (ToolCall A) → Session W A → Run W A (List (ToolInvocation A))
  unfolding run_tool_call
  run_batch registry [] s = (s, ok [])
  run_batch registry (tc ∷ calls) s =
      let ran = run_tool_call registry tc s in
      let rest = run_batch registry calls (ran.0) in
      (rest.0, ran.1 >>= λ invocation. rest.1 >>= λ invocations. ok (invocation ∷ invocations))

  unfoldable pub run_batches :
      Registry A → List (List (ToolCall A)) → Session W A → Run W A (List (ToolInvocation A))
  unfolding run_batch aborted_invocation
  run_batches registry [] s = (s, ok [])
  run_batches registry (batch ∷ batches) s =
      let ran =
        if deps.is_aborted s.world
        then (s, ok (map aborted_invocation batch))
        else run_batch registry batch s in
      let rest = run_batches registry batches (ran.0) in
      elim (ran.1) [
        | err thrown ↦ (ran.0, err thrown)
        | ok first ↦ (rest.0, rest.1 >>= λ invocations. ok (first ++ invocations))
      ]

  unfoldable pub execute_tool_calls :
      Registry A → List (ToolCall A) → Session W A → Run W A (List (ToolInvocation A))
  unfolding aborted_invocation tool_execution_batches run_batches
  execute_tool_calls registry calls s =
      if deps.is_aborted s.world
      then (s, ok (map aborted_invocation calls))
      else run_batches registry (tool_execution_batches registry calls deps.parallel_tool_reads) s
