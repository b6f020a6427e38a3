-- ===== src/Completion/Outcomes.antt =====
-- agentTurnCompletion.ts: when a run ends as done.
use ninjacode_agent.Completion.{
  verification_messages, verified, fail_after_verification, entering_verification,
  finalize_completion, AgentTurnOutcome, handle_max_tokens_truncation, is_none_left,
  handle_verification_failure, done, handle_failure_by, say, decided, failed, continue_run,
  Completion, is_empty_completion, correct_and_continue, handle_stop_hook_block,
  handle_completion_without_tools, after_stop_hooks, Surroundings, TurnState,
}
use ninjacode_agent.Phase.{PhasePolicyState}
use ninjacode_agent.Prelude.{
  leb, ℕ, ◌≡◌, Bool, true, false, not, ◌&&◌, ◌||◌, Option, none, some, List, arith,
}
use ninjacode_agent.Prelude.Texts.{Text}

-- The hooks let the completion pass, or have used up their retries.
unfoldable pub hooks_pass : Option Text → TurnState → Bool
hooks_pass none s = true
hooks_pass (some detail) s = leb 3 s.stop_hook_retries

abbrev pub is_done : AgentTurnOutcome → Bool
is_done continue_run = false
is_done (done answer) = true
is_done (failed message) = false

handle_failure_by-not_done :
    (o : Option PhasePolicyState) (turn : ℕ) (c : Completion) (messages : List Text) (s : TurnState)
    → is_done ((handle_failure_by o turn c messages s).1) ≡ false
unfolding handle_failure_by decided fail_after_verification correct_and_continue say
handle_failure_by-not_done none turn c messages s = ground arith
handle_failure_by-not_done (some policy) turn c messages s = ground arith

verified-done :
    (e : Surroundings) (c : Completion) (s : TurnState)
    → is_done ((verified e c s).1)
      ≡ (not e.has_modified_files || is_none_left (verification_messages e))
unfolding verified handle_verification_failure finalize_completion
verified-done e c s =
    ground (arith, handle_failure_by-not_done s.phase_policy e.turn c (verification_messages e) s)

after_stop_hooks-done :
    (e : Surroundings) (blocked : Option Text) (c : Completion) (s : TurnState)
    → is_done ((after_stop_hooks e blocked c s).1) ≡ (
        hooks_pass blocked s
        && (not e.has_modified_files || is_none_left (verification_messages e)))
unfolding after_stop_hooks hooks_pass handle_stop_hook_block
after_stop_hooks-done e none c s = verified-done e c s
after_stop_hooks-done e (some detail) c s = ground (arith, verified-done e c s)

-- An answer without tool calls ends the run as done exactly if it is not empty and not truncated,
-- no Stop hook blocks it or three blocks have been answered already, and no file was modified or
-- the enabled verifications have nothing to say.
pub handle_completion_without_tools-done :
    (e : Surroundings) (c : Completion) (s : TurnState)
    → is_done ((handle_completion_without_tools e c s).1) ≡ (
        not (is_empty_completion c)
        && (not c.truncated
            && (hooks_pass e.stop_block s
                && (not e.has_modified_files || is_none_left (verification_messages e)))))
unfolding handle_completion_without_tools handle_max_tokens_truncation entering_verification
    hooks_pass
handle_completion_without_tools-done e c s =
    ground (arith, after_stop_hooks-done e e.stop_block c (entering_verification e.turn s))
