-- ===== src/Phase/Turn.antt =====
-- packages/core/src/phasePolicy.ts: `observePhaseTurn` and the other operations of a turn.
use ninjacode_agent.Phase.{
  AdaptiveDelegationRole, is_recoverable, invocation_error_category, AgentPhase, PhasePolicyState,
  ToolErrorCategory, recover, verification_tool, mutation_tool, verify, ToolInvocation,
  DelegationReason, invocation_succeeded, execute, explore,
}
use ninjacode_agent.Phase.Moves.{
  tool_verification_failed, workspace_mutated, PhaseTurnDecision, go, PhaseTransition, completion,
  verification_tool_used, recovery_guidance, exploration_guidance, completion_verification_failed,
  phase_eq, transition_to, verification_failure_decision, delegation_decision, tool_failed,
  exploration_budget_exhausted, resume_guidance, no_decision, recovery_action_succeeded,
}
use ninjacode_agent.Phase.Reads.{observe_read_targets, observe_read}
use ninjacode_agent.Prelude.{
  ltb, is_some, leb, if◌then◌else◌, any, ℕ, ◌+◌, Bool, false, not, ◌&&◌, ◌||◌, Option, none, some,
  List, [], ◌∷◌,
}
use ninjacode_agent.Prelude.Texts.{text_eq, codes}

-- What the loop of `observePhaseTurn` gathers.
pub record TurnScan : Type 0 where
  pub state : PhasePolicyState
  pub mutation : Bool
  pub verification : Bool
  pub verification_failed : Bool
  pub first_recoverable_error : Option ToolErrorCategory

-- The first error that can be recovered from, given the one so far.
unfoldable pub first_error :
    Option ToolErrorCategory → Option ToolErrorCategory → Option ToolErrorCategory
first_error (some found) category = some found
first_error none none = none
first_error none (some category) = if is_recoverable category then some category else none

unfoldable pub observe_reads : ToolInvocation → PhasePolicyState → PhasePolicyState
unfolding observe_read observe_read_targets
observe_reads i s =
    let seen = observe_read i s in
    if text_eq i.name (codes "run_shell") then observe_read_targets i.shell_targets seen else seen

unfoldable pub scan_invocation : ToolInvocation → TurnScan → TurnScan
unfolding invocation_succeeded mutation_tool verification_tool invocation_error_category first_error
scan_invocation i scan =
    let success = invocation_succeeded i in
    let is_mutation = mutation_tool scan.state.goal i.name in
    let is_verification = verification_tool i in
    let counted : PhasePolicyState =
      if is_mutation && success
      then record scan.state { mutation_count = scan.state.mutation_count + 1 }
      else scan.state in
    record {
      state = if success then observe_reads i counted else counted;
      mutation = scan.mutation || (is_mutation && success);
      verification = scan.verification || is_verification;
      verification_failed = scan.verification_failed || (is_verification && not success);
      first_recoverable_error =
          first_error scan.first_recoverable_error (invocation_error_category i);
    }

unfoldable pub scan_invocations : List ToolInvocation → TurnScan → TurnScan
unfolding scan_invocation
scan_invocations [] scan = scan
scan_invocations (i ∷ is) scan = scan_invocations is (scan_invocation i scan)

unfoldable pub start_scan : PhasePolicyState → TurnScan
start_scan s = record {
  state = s;
  mutation = false;
  verification = false;
  verification_failed = false;
  first_recoverable_error = none;
}

-- The two counters behind the loop.
unfoldable pub close_turn : TurnScan → ℕ → PhasePolicyState
close_turn scan turn =
    let s = scan.state in
    record s {
      read_only_turns = if scan.mutation then s.read_only_turns else s.read_only_turns + 1;
      exploration_closed = leb s.exploration_budget turn || s.exploration_closed;
    }

-- The end of `observePhaseTurn`, on the delegation if there is one.
unfoldable pub explore_on :
    Option (AdaptiveDelegationRole × DelegationReason)
    → ℕ
    → PhasePolicyState
    → PhasePolicyState × PhaseTurnDecision
unfolding go
explore_on (some delegation) turn s = (
  s,
  record no_decision { delegation = some delegation; guidance = some (exploration_guidance turn) },
)
explore_on none turn s =
    if (phase_eq s.phase explore || phase_eq s.phase recover) && s.exploration_closed
    then go execute turn exploration_budget_exhausted (some (exploration_guidance turn)) s
    else (s, no_decision)

-- `state.phase === "recover" && invocations.some(invocationSucceeded)` and what comes behind it.
unfoldable pub decide_progress :
    TurnScan → Bool → ℕ → PhasePolicyState → PhasePolicyState × PhaseTurnDecision
unfolding go explore_on
decide_progress scan succeeded turn s =
    let next : AgentPhase =
      if ltb 0 s.mutation_count || s.exploration_closed then execute else explore in
    if phase_eq s.phase recover && succeeded
    then go next turn recovery_action_succeeded (some (resume_guidance next)) s
    else if scan.mutation
    then go execute turn workspace_mutated none s
    else if scan.verification && ltb 0 s.mutation_count
    then go verify turn verification_tool_used none s
    else explore_on (if s.exploration_closed then none else delegation_decision s turn) turn s

unfoldable pub decide_recovery :
    ToolErrorCategory → ℕ → PhasePolicyState → PhasePolicyState × PhaseTurnDecision
unfolding go
decide_recovery category turn s =
    let (moved, decision) =
      go recover turn (tool_failed category) (some (recovery_guidance category)) s in
    (
      record moved {
        recovery_cycles = moved.recovery_cycles + (if is_some decision.transition then 1 else 0);
      },
      decision,
    )

unfoldable pub observe_phase_turn :
    PhasePolicyState → List ToolInvocation → ℕ → PhasePolicyState × PhaseTurnDecision
unfolding scan_invocations start_scan close_turn decide_progress decide_recovery
    verification_failure_decision
observe_phase_turn s invocations turn =
    let scan = scan_invocations invocations (start_scan s) in
    let closed = close_turn scan turn in
    if scan.verification_failed
    then verification_failure_decision turn tool_verification_failed closed
    else elim scan.first_recoverable_error [
      | some category ↦ decide_recovery category turn closed
      | none ↦ decide_progress scan (any invocation_succeeded invocations) turn closed
    ]

unfoldable pub mark_automatic_delegation : PhasePolicyState → PhasePolicyState
mark_automatic_delegation s = record s { automatic_delegations = s.automatic_delegations + 1 }

unfoldable pub enter_verification_phase :
    PhasePolicyState → ℕ → PhasePolicyState × Option PhaseTransition
unfolding transition_to
enter_verification_phase s turn = transition_to verify turn completion s

unfoldable pub record_verification_failure :
    PhasePolicyState → ℕ → PhasePolicyState × PhaseTurnDecision
unfolding verification_failure_decision
record_verification_failure s turn =
    verification_failure_decision turn completion_verification_failed s
