-- ===== src/Completion/Retries.antt =====
-- agentTurnCompletion.ts: how often a run may be sent on after an answer without tool calls.
use ninjacode_agent.Completion.{
  verification_messages, verified, fail_after_verification, entering_verification,
  finalize_completion, AgentTurnOutcome, handle_max_tokens_truncation, is_none_left, entered,
  handle_verification_failure, done, handle_failure_by, say, decided, failed, continue_run,
  Completion, is_empty_completion, or_words, correct_and_continue, handle_stop_hook_block,
  handle_completion_without_tools, after_stop_hooks, Surroundings, TurnState,
}
use ninjacode_agent.Phase.{AgentPhase, PhasePolicyState, recover, verify}
use ninjacode_agent.Phase.Moves.{
  PhaseTurnDecision, go, completion, TransitionReason, completion_verification_failed,
  transition_to, verification_failure_decision,
}
use ninjacode_agent.Phase.Turn.{record_verification_failure, enter_verification_phase}
use ninjacode_agent.Prelude.{
  ltb, if-holds, if◌then◌else◌, ℕ, suc, ◌+◌, ◌-◌, ◌≤◌, ◌≡◌, refl, Bool, true, false, not, ◌&&◌,
  Option, none, some, List, [], ◌∷◌, arith,
}
use ninjacode_agent.Prelude.Texts.{Text}

-- The corrections that the verification has left, from the policy or from the counter.
unfoldable pub corrections_left : Option PhasePolicyState → ℕ → ℕ
corrections_left (some policy) retries = 2 - policy.verification_recovery_cycles
corrections_left none retries = 2 - retries

-- What the counters of a state leave.
unfoldable pub retries_left : TurnState → ℕ
unfolding corrections_left
retries_left s =
    (2 - s.empty_response_retries)
    + (3 - s.stop_hook_retries)
    + corrections_left s.phase_policy s.verification_retries

abbrev pub is_continue : AgentTurnOutcome → Bool
is_continue continue_run = true
is_continue (done answer) = false
is_continue (failed message) = false

-- Sending the run on takes one retry; any other outcome takes none back.
abbrev IsPaid : TurnState → TurnState × AgentTurnOutcome → Type 0
IsPaid s r = retries_left (r.0) + (if is_continue (r.1) then 1 else 0) ≤ retries_left s

transition_to-cycles :
    (next : AgentPhase) (turn : ℕ) (reason : TransitionReason) (p : PhasePolicyState)
    → (transition_to next turn reason p).0.verification_recovery_cycles
      ≡ p.verification_recovery_cycles
unfolding transition_to
transition_to-cycles next turn reason p = ground arith

entered-corrections :
    (turn retries : ℕ) (o : Option PhasePolicyState)
    → corrections_left (entered turn o) retries ≡ corrections_left o retries
unfolding corrections_left entered enter_verification_phase
entered-corrections turn retries none = refl
entered-corrections turn retries (some policy) =
    rw (transition_to-cycles verify (turn + 1) completion policy) refl

entering_verification-retries :
    (turn : ℕ) (s : TurnState) → retries_left (entering_verification turn s) ≡ retries_left s
unfolding entering_verification retries_left
entering_verification-retries turn s =
    rw (entered-corrections turn s.verification_retries s.phase_policy) refl

-- A recorded failure that grants a retry counts a cycle, of at most two.
record_verification_failure-cycles :
    (policy : PhasePolicyState) (turn : ℕ)
    → let r = record_verification_failure policy turn in
      (2 - (r.0).verification_recovery_cycles) + (if (r.1).retry then 1 else 0)
      ≤ 2 - policy.verification_recovery_cycles
unfolding record_verification_failure verification_failure_decision go
record_verification_failure-cycles policy turn =
    let grown : PhasePolicyState = record policy {
      verification_recovery_cycles = policy.verification_recovery_cycles + 1;
      recovery_cycles = policy.recovery_cycles + 1;
    } in
    ground (arith, transition_to-cycles recover turn completion_verification_failed grown)

decided-IsPaid :
    (c : Completion) (messages : List Text) (s : TurnState) (policy : PhasePolicyState)
    (r : PhasePolicyState × PhaseTurnDecision)
    → s.phase_policy ≡ some policy
    → (2 - (r.0).verification_recovery_cycles) + (if (r.1).retry then 1 else 0)
      ≤ 2 - policy.verification_recovery_cycles
    → IsPaid s (decided c messages s r)
unfolding decided retries_left fail_after_verification correct_and_continue say corrections_left
decided-IsPaid c messages s policy (moved, decision) e le = ground arith

handle_failure_by-IsPaid :
    (o : Option PhasePolicyState) (turn : ℕ) (c : Completion) (messages : List Text) (s : TurnState)
    → s.phase_policy ≡ o
    → IsPaid s (handle_failure_by o turn c messages s)
unfolding handle_failure_by retries_left fail_after_verification correct_and_continue say
    corrections_left
handle_failure_by-IsPaid (some policy) turn c messages s e =
    decided-IsPaid c messages s policy (record_verification_failure policy (turn + 1)) e
      (record_verification_failure-cycles policy (turn + 1))
handle_failure_by-IsPaid none turn c messages s e = ground arith

verified-IsPaid : (e : Surroundings) (c : Completion) (s : TurnState) → IsPaid s (verified e c s)
unfolding verified handle_verification_failure finalize_completion retries_left say
verified-IsPaid e c s =
    let messages = verification_messages e in
    if-holds (IsPaid s) (e.has_modified_files && not (is_none_left messages))
      (handle_verification_failure e.turn c messages s) (finalize_completion c s)
      (λ _. handle_failure_by-IsPaid s.phase_policy e.turn c messages s refl) (λ _. ground arith)

after_stop_hooks-IsPaid :
    (e : Surroundings) (blocked : Option Text) (c : Completion) (s : TurnState)
    → IsPaid s (after_stop_hooks e blocked c s)
unfolding after_stop_hooks handle_stop_hook_block retries_left say
after_stop_hooks-IsPaid e none c s = verified-IsPaid e c s
after_stop_hooks-IsPaid e (some detail) c s =
    if-holds (IsPaid s) (ltb s.stop_hook_retries 3)
      (handle_stop_hook_block c (or_words detail "no reason given") s) (verified e c s)
      (λ left. ground arith) (λ _. verified-IsPaid e c s)

-- An answer that stops at the limit on output tokens; an empty one counts as empty.
unfoldable pub is_cut_off : Completion → Bool
is_cut_off c = not (is_empty_completion c) && c.truncated

-- A continuation that is not asked for by an answer that was cut off.
abbrev costs : Completion → AgentTurnOutcome → ℕ
costs c outcome = if is_continue outcome && not (is_cut_off c) then 1 else 0

is_cut_off-holds :
    (c : Completion) → is_empty_completion c ≡ false → c.truncated ≡ true → is_cut_off c ≡ true
unfolding is_cut_off
is_cut_off-holds c full cut = rw full (rw cut refl)

handle_completion-pays :
    (e : Surroundings) (c : Completion) (s : TurnState)
    → let r = handle_completion_without_tools e c s in
      retries_left (r.0) + costs c (r.1) ≤ retries_left s
unfolding handle_completion_without_tools handle_max_tokens_truncation retries_left say
handle_completion-pays e c s =
    let entered_state = entering_verification e.turn s in
    let pays =
      λ (r : TurnState × AgentTurnOutcome). retries_left (r.0) + costs c (r.1) ≤ retries_left s in
    if-holds pays (is_empty_completion c) _ _ (λ _. ground arith)
      (λ full.
        if-holds pays c.truncated _ (after_stop_hooks e e.stop_block c entered_state)
          (λ cut. ground (arith, is_cut_off-holds c full cut))
          (λ _. ground (
            arith,
            after_stop_hooks-IsPaid e e.stop_block c entered_state,
            entering_verification-retries e.turn s,
          )))

-- How often the run is sent on in a series of answers, until it ends.
unfoldable pub continued : List (Surroundings × Completion) → TurnState → ℕ
unfolding handle_completion_without_tools
continued [] s = 0
continued ((e, c) ∷ answers) s =
    let r = handle_completion_without_tools e c s in
    let later = continued answers (r.0) in if is_continue (r.1) then suc later else 0

-- The answers that were cut off.
unfoldable pub cut_offs : List (Surroundings × Completion) → ℕ
cut_offs [] = 0
cut_offs ((e, c) ∷ answers) = (if is_cut_off c then 1 else 0) + cut_offs answers

-- In a series of answers without tool calls, the run is sent on at most once for each answer that was
-- cut off at the limit on output tokens, and otherwise at most as often as the counters allow: twice
-- for an empty answer, three times for a Stop hook and twice for a failed verification, that is seven
-- times at most, with or without a phase policy.
pub continued-bound :
    (answers : List (Surroundings × Completion)) (s : TurnState)
    → (continued answers s ≤ cut_offs answers + retries_left s) × (retries_left s ≤ 7)
unfolding continued cut_offs retries_left corrections_left
continued-bound [] s = (ground arith, ground arith)
continued-bound ((e, c) ∷ answers) s =
    let r = handle_completion_without_tools e c s in
    (ground (arith, handle_completion-pays e c s, (continued-bound answers (r.0)).0), ground arith)
