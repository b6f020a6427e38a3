-- ===== src/Completion/Tests.antt =====
-- agentTurnCompletion.ts on concrete inputs, and its theorems there.
use ninjacode_agent.Completion.{
  verification_messages, is_none_left, Completion, is_empty_completion,
  handle_completion_without_tools, Surroundings, TurnState,
}
use ninjacode_agent.Completion.Loops.{
  stop, IsJust, evaluate_tool_loop, warn, quiet, evaluate_tool_loop-IsJust,
}
use ninjacode_agent.Completion.Outcomes.{handle_completion_without_tools-done, is_done, hooks_pass}
use ninjacode_agent.Completion.Retries.{
  continued-bound, cut_offs, retries_left, continued, is_cut_off,
}
use ninjacode_agent.Prelude.{
  drop, ℕ, zero, suc, ◌+◌, ◌≤◌, String, ◌≡◌, refl, true, false, not, ◌&&◌, ◌||◌, none, List, [],
  ◌∷◌,
}
use ninjacode_agent.Prelude.Maps.{get, insert}
use ninjacode_agent.Prelude.Texts.{Text, text_eq, codes}

abbrev same_calls : ℕ → List Text
same_calls zero = []
same_calls (suc n) = codes "grep:x" ∷ same_calls n

four_are_warned : evaluate_tool_loop (codes "ls:" ∷ same_calls 4) true ≡ warn (codes "grep:x") 4
unfolding evaluate_tool_loop insert text_eq get
four_are_warned = refl

seven_stop : evaluate_tool_loop (same_calls 7) true ≡ stop (codes "grep:x") 7
unfolding evaluate_tool_loop insert text_eq get
seven_stop = refl

evaluate_tool_loop-IsJust_example :
    IsJust (drop 0 (same_calls 7)) (evaluate_tool_loop (same_calls 7) true)
    × (evaluate_tool_loop (same_calls 7) false ≡ quiet)
evaluate_tool_loop-IsJust_example = evaluate_tool_loop-IsJust (same_calls 7)

abbrev answer : String → Completion
answer words = record {
  text = codes words;
  reasoning = none;
  has_tool_calls = false;
  truncated = false;
}

abbrev failing : Surroundings
failing = record {
  turn = 3;
  stop_block = none;
  has_modified_files = true;
  enable_completion_verification = true;
  local_messages = codes "lint" ∷ [];
  enable_verification_sub_agent = false;
  verdict = none;
}

abbrev fresh : TurnState
fresh = record {
  empty_response_retries = 0;
  stop_hook_retries = 0;
  verification_retries = 0;
  phase_policy = none;
  history = [];
  global_turn = 0;
}

abbrev three_failures : List (Surroundings × Completion)
three_failures =
    (failing, answer "done") ∷ (failing, answer "done now") ∷ (failing, answer "really") ∷ []

abbrev cut_off : Completion
cut_off = record (answer "half") { truncated = true }

abbrev some_cut_off : List (Surroundings × Completion)
some_cut_off = (failing, cut_off) ∷ (failing, cut_off) ∷ three_failures

two_corrections : continued three_failures fresh ≡ 2
unfolding continued
two_corrections = refl

four_continuations : (continued some_cut_off fresh ≡ 4) × (cut_offs some_cut_off ≡ 2)
unfolding continued cut_offs is_cut_off
four_continuations = (refl, refl)

continued-bound_example :
    (continued some_cut_off fresh ≤ cut_offs some_cut_off + retries_left fresh)
    × (retries_left fresh ≤ 7)
continued-bound_example = continued-bound some_cut_off fresh

handle_completion_without_tools-done_example :
    is_done ((handle_completion_without_tools failing (answer "ok") fresh).1) ≡ (
      not (is_empty_completion (answer "ok"))
      && (not false
          && (hooks_pass none fresh && (not true || is_none_left (verification_messages failing)))))
handle_completion_without_tools-done_example =
    handle_completion_without_tools-done failing (answer "ok") fresh
