-- ===== src/Pipeline/Safety.antt =====
-- toolPipeline.ts: under which conditions a call executes its tool.
use ninjacode_agent.Breaker.{ToolCircuitBreaker, is_open}
use ninjacode_agent.Pipeline.{
  Thrown, Run, ToolInvocation, pre_tool_use, ToolCall, Tool, HookRunResult, Registry, emit,
  approval_required, Deps, Session, with_world, ApprovalAnswer,
}
use ninjacode_agent.Pipeline.Approval.{
  preflight_tool_call, resume_state, approval_check, Approval, aborted_invocation, collected,
  collect_approval_result, granted, approval_payload, preflight_from, answer_of, decision_on,
  wait_for_approval, resolve_tool_approval, early_return, looked_up, ApprovalCheck,
}
use ninjacode_agent.Pipeline.Calls.{
  with_tool, run_tool_call, after_hooks, run_registered_tool, after_preflight, after_approval,
}
use ninjacode_agent.Pipeline.Events.{resolve_tool_approval-runs, runs}
use ninjacode_agent.Pipeline.Execution.{
  hook_verdict, ToolRunContext, first_blocked, pre_execution_failure, check_pre_tool_hooks,
}
use ninjacode_agent.Prelude.{
  if-holds, if◌then◌else◌, ◌≡◌, refl, subst, ◌∙◌, ◌≢◌, ◌⊎◌, inl, inr, Bool, true, false, not,
  Option, none, some, List, arith,
}
use ninjacode_agent.Prelude.Maps.{get}
use ninjacode_agent.Prelude.Results.{err, Result, ok, ◌>>=◌}
use ninjacode_agent.Prelude.Texts.{Text}

module _ {W A : Type 0} (deps : Deps W A) where
  -- The call runs without asking, or the handler has been asked and has approved.
  abbrev pub IsPermitted : ApprovalCheck A → Session W A → Type 0
  IsPermitted c s =
      let decision = decision_on c s.permissions in
      (decision.allowed ≡ true)
      × ((decision.needs_approval ≡ false)
          ⊎ ((deps.has_handler ≡ true)
              × (answer : ApprovalAnswer) × ((answer_of deps c decision.reason s.world).1
                  ≡ ok answer)
              × (answer.approved ≡ true)))

  collected-granted :
      (c : ApprovalCheck A) (s : Session W A) (r : Result Thrown ApprovalAnswer)
      → (collected deps c s r).1 ≡ ok granted
      → (answer : ApprovalAnswer) × (r ≡ ok answer) × (answer.approved ≡ true)
  unfolding collected
  collected-granted c s (ok answer) h = (answer, refl, ground arith)
  collected-granted c s (err thrown) h = ground arith

  by_decision :
      (allowed asks : Bool) (s : Session W A) (i : ToolInvocation A) (r : Run W A (Approval A))
      → (if not allowed
          then (s, ok (early_return i))
          else if not asks
          then (s, ok granted)
          else r).1
        ≡ ok granted
      → (allowed ≡ true) × ((asks ≡ false) ⊎ (r.1 ≡ ok granted))
  by_decision true true s i r h = (refl, inr h)
  by_decision true false s i r h = (refl, inl refl)
  by_decision false asks s i r h = ground arith

  by_handler :
      (handler : Bool) (s : Session W A) (i : ToolInvocation A) (r : Run W A (Approval A))
      → (if handler then r else (s, ok (early_return i))).1 ≡ ok granted
      → (handler ≡ true) × (r.1 ≡ ok granted)
  by_handler true s i r h = (refl, h)
  by_handler false s i r h = ground arith

  wait_for_approval-granted :
      (c : ApprovalCheck A) (reason : Text) (s : Session W A)
      → (wait_for_approval deps c reason s).1 ≡ ok granted
      → (deps.has_handler ≡ true)
        × (answer : ApprovalAnswer) × ((answer_of deps c reason s.world).1 ≡ ok answer)
        × (answer.approved ≡ true)
  unfolding wait_for_approval collect_approval_result emit
  wait_for_approval-granted c reason s h =
      let asked_for = emit (approval_required (approval_payload c reason)) s in
      let answered = answer_of deps c reason s.world in
      let (handled, collects) =
        by_handler deps.has_handler asked_for _ (collect_approval_result deps c reason asked_for)
          h in
      let (answer, answers, approves) =
        collected-granted c (with_world (resume_state deps (answered.0)) asked_for) (answered.1)
          collects in
      (handled, answer, answers, approves)

  -- An approval is granted only to a call that may run.
  pub resolve_tool_approval-IsPermitted :
      (c : ApprovalCheck A) (s : Session W A)
      → (resolve_tool_approval deps c s).1 ≡ ok granted
      → IsPermitted c s
  unfolding resolve_tool_approval
  resolve_tool_approval-IsPermitted c s h =
      let decision = decision_on c s.permissions in
      let (allowed, rest) =
        by_decision decision.allowed decision.needs_approval s _
          (wait_for_approval deps c decision.reason s) h in
      (
        allowed,
        elim rest [
          | inl free ↦ inl free
          | inr waited ↦ inr (wait_for_approval-granted c decision.reason s waited)
        ],
      )

  -- What the hooks before the call have said in a session.
  abbrev pub IsUnblocked : ToolCall A → Session W A → Type 0
  IsUnblocked tc s =
      (results : List HookRunResult) × ((deps.run_hooks pre_tool_use tc s.world).1 ≡ ok results)
      × (first_blocked results ≡ none)

  -- What has to be so for a call to reach its tool.
  pub record IsAuthorized (tc : ToolCall A) (s : Session W A) (tool : Tool A) : Type 0 where
    pub valid : deps.validate tool tc.arguments ≡ none
    pub permitted : IsPermitted (approval_check tool tc) s
    pub unblocked : IsUnblocked tc ((resolve_tool_approval deps (approval_check tool tc) s).0)

  -- The attempts start only if the hooks do not block the call.
  after_hooks-executes :
      (ctx : ToolRunContext A) (s : Session W A)
      → runs ((after_hooks deps ctx (check_pre_tool_hooks deps ctx.tc s)).0) ≢ runs s
      → IsUnblocked ctx.tc s
  unfolding after_hooks check_pre_tool_hooks
  after_hooks-executes ctx s ran =
      by_results ((deps.run_hooks pre_tool_use ctx.tc s.world).1) refl ran
    where
      by_results :
          (r : Result Thrown (List HookRunResult))
          → (deps.run_hooks pre_tool_use ctx.tc s.world).1 ≡ r
          → runs (
              (after_hooks deps ctx (
                with_world ((deps.run_hooks pre_tool_use ctx.tc s.world).0) s,
                r >>= λ results. ok (hook_verdict deps ctx.tc (first_blocked results)),
              )).0)
            ≢ runs s
          → IsUnblocked ctx.tc s
      by_results (err thrown) e n = absurd (n refl)
      by_results (ok results) e n = by_first (first_blocked results) refl n
        where
          by_first :
              (o : Option HookRunResult)
              → first_blocked results ≡ o
              → runs (
                  (after_hooks deps ctx (
                    with_world ((deps.run_hooks pre_tool_use ctx.tc s.world).0) s,
                    ok (hook_verdict deps ctx.tc o),
                  )).0)
                ≢ runs s
              → IsUnblocked ctx.tc s
          by_first none f n = (results, e, f)
          by_first (some r) f n = absurd (n refl)

  after_approval-executes :
      (c : ApprovalCheck A) (s : Session W A) (r : Result Thrown (Approval A))
      → runs ((after_approval deps c (s, r)).0) ≢ runs s
      → (r ≡ ok granted) × IsUnblocked c.tc s
  unfolding after_approval
  after_approval-executes c s (err thrown) n = absurd (n refl)
  after_approval-executes c s (ok (early_return i)) n = absurd (n refl)
  after_approval-executes c s (ok granted) n =
      let ctx : ToolRunContext A = record { tool = c.tool; tc = c.tc; target = c.target } in
      (
        refl,
        after_hooks-executes ctx s (
            if-holds
              (λ (r : Run W A (ToolInvocation A)).
                runs (r.0) ≢ runs s
                → runs ((after_hooks deps ctx (check_pre_tool_hooks deps c.tc s)).0) ≢ runs s)
              (deps.is_aborted s.world) (s, ok (aborted_invocation c.tc))
              (after_hooks deps ctx (check_pre_tool_hooks deps c.tc s)) (λ _ m. absurd (m refl))
              (λ _ m. m) n),
      )

  run_registered_tool-executes :
      (tool : Tool A) (tc : ToolCall A) (s : Session W A)
      → runs ((run_registered_tool deps tool tc s).0) ≢ runs s
      → IsAuthorized tc s tool
  unfolding run_registered_tool approval_check
  run_registered_tool-executes tool tc s ran =
      by_arguments (deps.validate tool tc.arguments) refl ran
    where
      by_arguments :
          (o : Option Thrown)
          → deps.validate tool tc.arguments ≡ o
          → runs (
              (elim o as (λ _. Run W A (ToolInvocation A)) [
                | some thrown ↦ (s, ok (pre_execution_failure deps tc thrown))
                | none ↦
                    after_approval deps
                      (approval_check tool tc)
                      (resolve_tool_approval deps (approval_check tool tc) s)
              ]).0)
            ≢ runs s
          → IsAuthorized tc s tool
      by_arguments (some thrown) e n = absurd (n refl)
      by_arguments none e n =
          let c = approval_check tool tc in
          let resolved = resolve_tool_approval deps c s in
          let (grants, unblocked) =
            after_approval-executes c (resolved.0) (resolved.1)
              (λ same. n (same ∙ resolve_tool_approval-runs deps c s)) in
          record {
            valid = e;
            permitted = resolve_tool_approval-IsPermitted c s grants;
            unblocked = unblocked;
          }

  -- The session once the breaker has been asked about a call.
  abbrev pub asked_breaker : ToolCall A → Session W A → Session W A
  asked_breaker tc s = record s { breaker = (is_open (deps.now s.world) tc.name s.breaker).0 }

  preflighted-executes :
      (registry : Registry A) (tc : ToolCall A) (s : Session W A) (b : ToolCircuitBreaker)
      (blocked : Bool)
      → runs ((after_preflight deps registry tc (preflight_from deps registry tc s (b, blocked))).0)
        ≢ runs s
      → (blocked ≡ false)
        × (tool : Tool A) × (get tc.name registry ≡ some tool)
        × IsAuthorized tc (record s { breaker = b }) tool
  unfolding after_preflight preflight_from looked_up with_tool
  preflighted-executes registry tc s b true ran = absurd (ran refl)
  preflighted-executes registry tc s b false ran = by_tool (get tc.name registry) refl ran
    where
      asked : Session W A
      asked = record s { breaker = b }

      by_tool :
          (o : Option (Tool A))
          → get tc.name registry ≡ o
          → runs ((after_preflight deps registry tc (looked_up deps tc o asked)).0) ≢ runs s
          → (false ≡ false)
            × (tool : Tool A) × (get tc.name registry ≡ some tool)
            × IsAuthorized tc asked tool
      by_tool none found n = absurd (n refl)
      by_tool (some tool) found n = (
        refl,
        tool,
        found,
        run_registered_tool-executes tool tc asked
            (subst (λ o. runs ((with_tool deps tc o asked).0) ≢ runs s) found n),
      )

  -- If a call executes its tool at all, then the breaker is not open for it, it names a registered
  -- tool, its arguments have passed the validation, the permission engine lets it run without asking
  -- or the approval handler was asked and approved, and no hook before the call blocks it.
  pub run_tool_call-executes :
      (registry : Registry A) (tc : ToolCall A) (s : Session W A)
      → runs ((run_tool_call deps registry tc s).0) ≢ runs s
      → ((is_open (deps.now s.world) tc.name s.breaker).1 ≡ false)
        × (tool : Tool A) × (get tc.name registry ≡ some tool)
        × IsAuthorized tc (asked_breaker tc s) tool
  unfolding run_tool_call preflight_tool_call
  run_tool_call-executes registry tc s ran =
      let asked = is_open (deps.now s.world) tc.name s.breaker in
      let called = after_preflight deps registry tc (preflight_from deps registry tc s asked) in
      preflighted-executes registry tc s (asked.0) (asked.1) (
        if-holds
          (λ (r : Run W A (ToolInvocation A)). runs (r.0) ≢ runs s → runs (called.0) ≢ runs s)
          (deps.is_aborted s.world) (s, ok (aborted_invocation tc)) called (λ _ m. absurd (m refl))
          (λ _ m. m) ran)
