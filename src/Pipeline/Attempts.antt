-- ===== src/Pipeline/Attempts.antt =====
-- toolPipeline.ts: how often a call executes its tool.
use ninjacode_agent.Breaker.{ToolCircuitBreaker, is_open}
use ninjacode_agent.Pipeline.{Run, ToolInvocation, ToolCall, Tool, Registry, Deps, Session}
use ninjacode_agent.Pipeline.Approval.{
  preflight_tool_call, approval_check, aborted_invocation, preflight_from, resolve_tool_approval,
  looked_up,
}
use ninjacode_agent.Pipeline.Calls.{with_tool, run_tool_call, run_registered_tool, after_preflight}
use ninjacode_agent.Pipeline.Errors.{
  tool_max_attempts, is_read_only, attempts_of, stays_read_only, bounded_attempts,
}
use ninjacode_agent.Pipeline.Events.{after_approval-runs, resolve_tool_approval-runs, runs}
use ninjacode_agent.Prelude.{
  if-holds, if◌then◌else◌, ◌+◌, ◌≤◌, ◌≡◌, sym, subst, Bool, true, false, ◌&&◌, some, arith,
}
use ninjacode_agent.Prelude.Maps.{get}
use ninjacode_agent.Prelude.Results.{ok}

tool_max_attempts-bound :
    {A : Type 0} (tool : Tool A) (args : A)
    → tool_max_attempts tool args
      ≤ (if is_read_only tool.risk && stays_read_only tool.risk_for args then 3 else 1)
unfolding tool_max_attempts attempts_of bounded_attempts
tool_max_attempts-bound tool args = ground arith

module _ {W A : Type 0} (deps : Deps W A) where
  run_registered_tool-runs :
      (tool : Tool A) (tc : ToolCall A) (s : Session W A)
      → runs ((run_registered_tool deps tool tc s).0) ≤ runs s + tool_max_attempts tool tc.arguments
  unfolding run_registered_tool approval_check
  run_registered_tool-runs tool tc s =
      let c = approval_check tool tc in
      ground (
        arith,
        after_approval-runs deps c (resolve_tool_approval deps c s),
        resolve_tool_approval-runs deps c s,
      )

  preflighted-runs :
      (registry : Registry A) (tc : ToolCall A) (s : Session W A) (tool : Tool A)
      (asked : ToolCircuitBreaker × Bool)
      → get tc.name registry ≡ some tool
      → runs ((after_preflight deps registry tc (preflight_from deps registry tc s asked)).0)
        ≤ runs s + tool_max_attempts tool tc.arguments
  unfolding after_preflight preflight_from looked_up with_tool
  preflighted-runs registry tc s tool (b, true) found = ground arith
  preflighted-runs registry tc s tool (b, false) found =
      let asked : Session W A = record s { breaker = b } in
      subst
        (λ o.
          runs ((after_preflight deps registry tc (looked_up deps tc o asked)).0)
          ≤ runs s + tool_max_attempts tool tc.arguments)
        (sym found)
        (subst
          (λ o. runs ((with_tool deps tc o asked).0) ≤ runs s + tool_max_attempts tool tc.arguments)
          (sym found) (run_registered_tool-runs tool tc asked))

  -- A call executes its tool at most once, unless the tool only reads and its classifier does not
  -- raise the risk of this call: then at most three times.
  pub run_tool_call-runs :
      (registry : Registry A) (tc : ToolCall A) (s : Session W A) (tool : Tool A)
      → get tc.name registry ≡ some tool
      → runs ((run_tool_call deps registry tc s).0)
        ≤ runs s
          + (if is_read_only tool.risk && stays_read_only tool.risk_for tc.arguments then 3 else 1)
  unfolding run_tool_call preflight_tool_call
  run_tool_call-runs registry tc s tool found =
      let asked = is_open (deps.now s.world) tc.name s.breaker in
      let bound =
        if is_read_only tool.risk && stays_read_only tool.risk_for tc.arguments then 3 else 1 in
      if-holds (λ (r : Run W A (ToolInvocation A)). runs (r.0) ≤ runs s + bound)
        (deps.is_aborted s.world) (s, ok (aborted_invocation tc))
        (after_preflight deps registry tc (preflight_from deps registry tc s asked))
        (λ _. omega arith)
        (λ _. omega (
          arith,
          preflighted-runs registry tc s tool asked found,
          tool_max_attempts-bound tool tc.arguments,
        ))
