-- ===== src/Completion.antt =====
-- packages/core/src/agentTurnCompletion.ts: an answer of the model without tool calls, and the
-- detection of tool calls that repeat. Events for the user interface are left out.
pub mod Loops
pub mod Outcomes
pub mod Retries
mod Tests
use ninjacode_agent.Phase.{PhasePolicyState}
use ninjacode_agent.Phase.Moves.{PhaseTurnDecision}
use ninjacode_agent.Phase.Turn.{record_verification_failure, enter_verification_phase}
use ninjacode_agent.Prelude.{
  ltb, get_or, leb, if◌then◌else◌, ℕ, ◌+◌, String, Bool, true, false, not, ◌&&◌, Option, none, some,
  List, [], ◌∷◌, ◌++◌, map,
}
use ninjacode_agent.Prelude.Texts.{Text, trim, codes}

pub data Speaker : Type 0 where
  assistant_said user_said : Speaker

-- What the file reads and writes of the state of a run; the latest message comes first.
pub record TurnState : Type 0 where
  pub empty_response_retries : ℕ
  pub stop_hook_retries : ℕ
  pub verification_retries : ℕ
  pub phase_policy : Option PhasePolicyState
  pub history : List (Speaker × Text)
  pub global_turn : ℕ

-- `truncated` is `stopReason === "max_tokens"`.
pub record Completion : Type 0 where
  pub text : Text
  pub reasoning : Option Text
  pub has_tool_calls : Bool
  pub truncated : Bool

pub record VerifierIssue : Type 0 where
  pub severity : Text
  pub summary : Text
  pub evidence : List Text

pub record VerifierVerdict : Type 0 where
  pub lgtm : Bool
  pub issues : List VerifierIssue
  pub missing_tests : List Text

-- What the turn is given: its number, the detail of the first Stop hook that blocks, whether files
-- were modified, and what the verifications would say, each with whether it is enabled.
pub record Surroundings : Type 0 where
  pub turn : ℕ
  pub stop_block : Option Text
  pub has_modified_files : Bool
  pub enable_completion_verification : Bool
  pub local_messages : List Text
  pub enable_verification_sub_agent : Bool
  pub verdict : Option VerifierVerdict

pub data AgentTurnOutcome : Type 0 where
  continue_run : AgentTurnOutcome
  done : Text → AgentTurnOutcome
  failed : Text → AgentTurnOutcome

unfoldable pub is_blank : Text → Bool
unfolding trim
is_blank s = elim (trim s) [ [] ↦ true | _ ∷ _ ↦ false ]

unfoldable pub is_empty_completion : Completion → Bool
unfolding is_blank
is_empty_completion c =
    not c.has_tool_calls && (is_blank c.text && is_blank (get_or c.reasoning []))

unfoldable pub say : Speaker → Text → TurnState → TurnState
say speaker content s = record s { history = (speaker, content) ∷ s.history }

unfoldable pub or_words : Text → String → Text
or_words [] words = codes words
or_words (c ∷ text) words = c ∷ text

unfoldable pub handle_max_tokens_truncation : Completion → TurnState → TurnState × AgentTurnOutcome
unfolding say or_words
handle_max_tokens_truncation c s =
    let told =
      say user_said
        (codes
          "[System] Your previous response was truncated because it hit the output token limit. Continue from where you left off. If you were writing a file, use write_file or edit_file instead of putting the full content in chat.")
        (say assistant_said (or_words c.text "(response truncated at max_tokens)") s) in
    (record told { global_turn = s.global_turn + 1 }, continue_run)

unfoldable pub handle_stop_hook_block : Completion → Text → TurnState → TurnState × AgentTurnOutcome
unfolding say
handle_stop_hook_block c detail s =
    let told =
      say user_said
        (codes "[Stop hook] Completion blocked: "
          ++ detail
          ++ codes ". Address this before finishing.")
        (say assistant_said c.text s) in
    (record told { stop_hook_retries = s.stop_hook_retries + 1 }, continue_run)

unfoldable pub joined_by : Text → List Text → Text
joined_by between [] = []
joined_by between (t ∷ []) = t
joined_by between (t ∷ u ∷ texts) = t ++ between ++ joined_by between (u ∷ texts)

unfoldable pub issue_message : VerifierIssue → Text
unfolding joined_by
issue_message issue = b'[' ∷ issue.severity ++ codes "] " ++ issue.summary ++ (elim issue.evidence [
  | [] ↦ []
  | e ∷ es ↦ codes " Evidence: " ++ joined_by (codes "; ") (e ∷ es)
])

unfoldable pub verdict_messages : VerifierVerdict → List Text
unfolding issue_message
verdict_messages v =
    map issue_message v.issues ++ map (λ test. codes "Missing test: " ++ test) v.missing_tests

-- `verdict && !verdict.lgtm ? verdictMessages(verdict) : []`
unfoldable pub messages_of : Option VerifierVerdict → List Text
unfolding verdict_messages
messages_of none = []
messages_of (some v) = if v.lgtm then [] else verdict_messages v

unfoldable pub verification_messages : Surroundings → List Text
unfolding messages_of
verification_messages e =
    (if e.enable_completion_verification then e.local_messages else [])
    ++ (if e.enable_verification_sub_agent then messages_of e.verdict else [])

abbrev pub exhausted_message : Text
exhausted_message = codes "Verification failed again after two correction-verification cycles."

abbrev pub adaptive_exhausted_message : Text
adaptive_exhausted_message =
    codes "Verification failed again after two adaptive correction-verification cycles."

unfoldable pub fail_after_verification :
    Completion → Text → TurnState → TurnState × AgentTurnOutcome
unfolding say
fail_after_verification c message s = (say assistant_said c.text s, failed message)

-- The cycle is written as one digit: there are at most two.
unfoldable pub correct_and_continue :
    Completion → List Text → TurnState → TurnState × AgentTurnOutcome
unfolding say joined_by
correct_and_continue c messages s =
    let cycle = s.verification_retries + 1 in
    let told =
      say user_said
        (codes "[System] Verification failed before completion (correction cycle "
          ++ (b'0' + cycle) ∷ codes "/2):\n"
          ++ joined_by (codes "\n\n") messages
          ++ codes "\n\nFix the issues and verify before finishing.")
        (say assistant_said c.text s) in
    (record told { verification_retries = cycle }, continue_run)

-- What the phase policy has decided about the failure.
unfoldable pub decided :
    Completion
    → List Text
    → TurnState
    → PhasePolicyState × PhaseTurnDecision
    → TurnState × AgentTurnOutcome
unfolding fail_after_verification correct_and_continue
decided c messages s (policy, decision) =
    if not decision.retry
    then fail_after_verification c adaptive_exhausted_message
        (record s { phase_policy = some policy })
    else correct_and_continue c messages (record s { phase_policy = some policy })

-- `handleVerificationFailure`, by `state.phasePolicy`.
unfoldable pub handle_failure_by :
    Option PhasePolicyState → ℕ → Completion → List Text → TurnState → TurnState × AgentTurnOutcome
unfolding record_verification_failure fail_after_verification correct_and_continue decided
handle_failure_by (some policy) turn c messages s =
    decided c messages s (record_verification_failure policy (turn + 1))
handle_failure_by none turn c messages s =
    if leb 2 s.verification_retries
    then fail_after_verification c exhausted_message s
    else correct_and_continue c messages s

unfoldable pub handle_verification_failure :
    ℕ → Completion → List Text → TurnState → TurnState × AgentTurnOutcome
unfolding handle_failure_by
handle_verification_failure turn c messages s = handle_failure_by s.phase_policy turn c messages s

unfoldable pub finalize_completion : Completion → TurnState → TurnState × AgentTurnOutcome
unfolding say
finalize_completion c s =
    (say assistant_said c.text (record s { global_turn = s.global_turn + 1 }), done c.text)

unfoldable pub is_none_left : List Text → Bool
is_none_left [] = true
is_none_left (m ∷ messages) = false

-- What is left once the hooks have let the completion pass.
unfoldable pub verified : Surroundings → Completion → TurnState → TurnState × AgentTurnOutcome
unfolding verification_messages handle_verification_failure is_none_left finalize_completion
verified e c s =
    if e.has_modified_files && not (is_none_left (verification_messages e))
    then handle_verification_failure e.turn c (verification_messages e) s
    else finalize_completion c s

-- `enterVerificationPhase`, if there is a policy.
unfoldable pub entered : ℕ → Option PhasePolicyState → Option PhasePolicyState
unfolding enter_verification_phase
entered turn none = none
entered turn (some policy) = some ((enter_verification_phase policy (turn + 1)).0)

unfoldable pub entering_verification : ℕ → TurnState → TurnState
unfolding entered
entering_verification turn s = record s { phase_policy = entered turn s.phase_policy }

-- `blocked && state.stopHookRetries < 3`
unfoldable pub after_stop_hooks :
    Surroundings → Option Text → Completion → TurnState → TurnState × AgentTurnOutcome
unfolding handle_stop_hook_block verified or_words
after_stop_hooks e none c s = verified e c s
after_stop_hooks e (some detail) c s =
    if ltb s.stop_hook_retries 3
    then handle_stop_hook_block c (or_words detail "no reason given") s
    else verified e c s

abbrev pub empty_response : Text
empty_response =
    codes
      "Model returned an empty response (no text or tool calls). Check your provider, API key, credits, and model settings."

unfoldable pub handle_completion_without_tools :
    Surroundings → Completion → TurnState → TurnState × AgentTurnOutcome
unfolding is_empty_completion handle_max_tokens_truncation entering_verification after_stop_hooks
handle_completion_without_tools e c s =
    if is_empty_completion c
    then (if leb 2 s.empty_response_retries
        then (s, failed empty_response)
        else (record s { empty_response_retries = s.empty_response_retries + 1 }, continue_run))
    else if c.truncated
    then handle_max_tokens_truncation c s
    else after_stop_hooks e e.stop_block c (entering_verification e.turn s)
