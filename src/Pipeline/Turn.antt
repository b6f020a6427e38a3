-- ===== src/Pipeline/Turn.antt =====
-- toolPipeline.ts, `executeToolCalls`: the invocations of a turn.
use ninjacode_agent.Pipeline.{Thrown, Run, ToolInvocation, ToolCall, Registry, Deps, Session}
use ninjacode_agent.Pipeline.Approval.{aborted_invocation, failed_invocation}
use ninjacode_agent.Pipeline.Batches.{tool_execution_batches}
use ninjacode_agent.Pipeline.Batches.Laws.{joined, tool_execution_batches-joined}
use ninjacode_agent.Pipeline.Calls.{run_tool_call, execute_tool_calls, run_batch, run_batches}
use ninjacode_agent.Pipeline.Order.{run_tool_call-IsAbout, IsAbout}
use ninjacode_agent.Prelude.{
  if-holds, if◌then◌else◌, ◌≡◌, refl, ap, subst, Bool, true, false, List, [], ◌∷◌, ◌++◌, map,
}
use ninjacode_agent.Prelude.Results.{err, Result, ok, ◌>>=◌}

module _ {W A : Type 0} (deps : Deps W A) (registry : Registry A) where
  -- The calls that the invocations are about, where the turn returns any.
  abbrev AreAbout : List (ToolCall A) → Result Thrown (List (ToolInvocation A)) → Type 0
  AreAbout calls (err thrown) = Unit {0}
  AreAbout calls (ok invocations) = map (λ (i : ToolInvocation A). i.tool_call) invocations ≡ calls

  map-aborted :
      (calls : List (ToolCall A))
      → map (λ (i : ToolInvocation A). i.tool_call) (map aborted_invocation calls) ≡ calls
  unfolding aborted_invocation failed_invocation
  map-aborted [] = refl
  map-aborted (tc ∷ calls) = ap (tc ∷◌) (map-aborted calls)

  map-append :
      (first rest : List (ToolInvocation A))
      → map (λ (i : ToolInvocation A). i.tool_call) (first ++ rest)
        ≡ map (λ (i : ToolInvocation A). i.tool_call) first
          ++ map (λ (i : ToolInvocation A). i.tool_call) rest
  map-append [] rest = refl
  map-append (i ∷ first) rest = ap (i.tool_call ∷◌) (map-append first rest)

  before-AreAbout :
      (first calls : List (ToolCall A)) (done : List (ToolInvocation A))
      (r : Result Thrown (List (ToolInvocation A)))
      → map (λ (i : ToolInvocation A). i.tool_call) done ≡ first
      → AreAbout calls r
      → AreAbout (first ++ calls) (r >>= λ invocations. ok (done ++ invocations))
  before-AreAbout first calls done (err thrown) h k = tt
  before-AreAbout first calls done (ok rest) h k = rw (map-append done rest, h, k) refl

  run_batch-AreAbout :
      (calls : List (ToolCall A)) (s : Session W A)
      → AreAbout calls ((run_batch deps registry calls s).1)
  unfolding run_batch
  run_batch-AreAbout [] s = refl
  run_batch-AreAbout (tc ∷ calls) s =
      by_call ((run_tool_call deps registry tc s).1) (run_tool_call-IsAbout deps registry tc s)
        (run_batch-AreAbout calls next)
    where
      next : Session W A
      next = (run_tool_call deps registry tc s).0

      by_call :
          (r : Result Thrown (ToolInvocation A))
          → IsAbout deps tc r
          → AreAbout calls ((run_batch deps registry calls next).1)
          → AreAbout (tc ∷ calls) (
              r >>= λ invocation. (run_batch deps registry calls next).1 >>= λ invocations.
              ok (invocation ∷ invocations))
      by_call (err thrown) h later = tt
      by_call (ok invocation) h later =
          before-AreAbout (tc ∷ []) calls (invocation ∷ []) ((run_batch deps registry calls next).1)
            (ap (◌∷ []) h) later

  first_batch-AreAbout :
      (batch : List (ToolCall A)) (s : Session W A) (aborted_now : Bool)
      → AreAbout batch (
          (if aborted_now
            then (s, ok (map aborted_invocation batch))
            else run_batch deps registry batch s).1)
  first_batch-AreAbout batch s true = map-aborted batch
  first_batch-AreAbout batch s false = run_batch-AreAbout batch s

  run_batches-AreAbout :
      (batches : List (List (ToolCall A))) (s : Session W A)
      → AreAbout (joined batches) ((run_batches deps registry batches s).1)
  unfolding run_batches joined
  run_batches-AreAbout [] s = refl
  run_batches-AreAbout (batch ∷ batches) s =
      by_batch (ran.1) (first_batch-AreAbout batch s (deps.is_aborted s.world))
        (run_batches-AreAbout batches (ran.0))
    where
      ran : Run W A (List (ToolInvocation A))
      ran =
          if deps.is_aborted s.world
          then (s, ok (map aborted_invocation batch))
          else run_batch deps registry batch s

      by_batch :
          (r : Result Thrown (List (ToolInvocation A)))
          → AreAbout batch r
          → AreAbout (joined batches) ((run_batches deps registry batches (ran.0)).1)
          → AreAbout (batch ++ joined batches) (
              (elim r as (λ _. Run W A (List (ToolInvocation A))) [
                | err thrown ↦ (ran.0, err thrown)
                | ok first ↦ (
                  (run_batches deps registry batches (ran.0)).0,
                  (run_batches deps registry batches (ran.0)).1 >>= λ invocations.
                      ok (first ++ invocations),
                )
              ]).1)
      by_batch (err thrown) h later = tt
      by_batch (ok first) h later =
          before-AreAbout batch (joined batches) first
            ((run_batches deps registry batches (ran.0)).1) h later

  -- The invocations that a turn returns are about its calls, one for each, in the model's order,
  -- however the calls are batched and whichever of them fail, are denied or come after an abort.
  pub execute_tool_calls-order :
      (calls : List (ToolCall A)) (s : Session W A) (invocations : List (ToolInvocation A))
      → (execute_tool_calls deps registry calls s).1 ≡ ok invocations
      → map (λ (i : ToolInvocation A). i.tool_call) invocations ≡ calls
  unfolding execute_tool_calls
  execute_tool_calls-order calls s invocations returned =
      let batches = tool_execution_batches registry calls deps.parallel_tool_reads in
      let (order, _) = tool_execution_batches-joined registry calls deps.parallel_tool_reads in
      subst (AreAbout calls) returned (
        if-holds (λ (r : Run W A (List (ToolInvocation A))). AreAbout calls (r.1))
          (deps.is_aborted s.world) (s, ok (map aborted_invocation calls))
          (run_batches deps registry batches s) (λ _. map-aborted calls)
          (λ _.
            subst (λ held_calls. AreAbout held_calls ((run_batches deps registry batches s).1))
              order (run_batches-AreAbout batches s)))
