-- ===== src/Phase/Moves.antt =====
-- packages/core/src/phasePolicy.ts: transitions, the failure of a verification and delegations.
use ninjacode_agent.Phase.{
  AdaptiveDelegationRole, AgentPhase, PhasePolicyState, ToolErrorCategory, recover, research,
  repeated_reads, planner, verify, DelegationReason, execute, exploration_budget_spent,
  independent_areas_found, TaskComplexity, explore,
}
use ninjacode_agent.Phase.Reads.{is_complex}
use ninjacode_agent.Prelude.{
  ltb, leb, if◌then◌else◌, length, ℕ, ◌+◌, Bool, true, false, not, ◌||◌, Option, none, some,
}

pub data TransitionReason : Type 0 where
  initial : TaskComplexity → TransitionReason
  tool_verification_failed completion_verification_failed : TransitionReason
  tool_failed : ToolErrorCategory → TransitionReason
  recovery_action_succeeded workspace_mutated verification_tool_used : TransitionReason
  exploration_budget_exhausted completion : TransitionReason

-- `from_phase` is `from`.
pub record PhaseTransition : Type 0 where
  pub from_phase : Option AgentPhase
  pub to : AgentPhase
  pub turn : ℕ
  pub reason : TransitionReason

-- The messages to the model, by what they depend on.
pub data Guidance : Type 0 where
  verification_guidance : ℕ → Guidance
  recovery_guidance : ToolErrorCategory → Guidance
  resume_guidance : AgentPhase → Guidance
  exploration_guidance : ℕ → Guidance

-- `PhaseTurnDecision` and `VerificationPhaseDecision`; `terminal_failure` says whether there is one.
pub record PhaseTurnDecision : Type 0 where
  pub transition : Option PhaseTransition
  pub guidance : Option Guidance
  pub delegation : Option (AdaptiveDelegationRole × DelegationReason)
  pub retry : Bool
  pub terminal_failure : Bool

abbrev pub no_decision : PhaseTurnDecision
no_decision = record {
  transition = none;
  guidance = none;
  delegation = none;
  retry = false;
  terminal_failure = false;
}

abbrev pub phase_eq : AgentPhase → AgentPhase → Bool
phase_eq explore explore = true
phase_eq execute execute = true
phase_eq verify verify = true
phase_eq recover recover = true
phase_eq _ _ = false

unfoldable pub take_initial_phase_transition :
    PhasePolicyState → PhasePolicyState × Option PhaseTransition
take_initial_phase_transition s = if not s.initial_transition_pending then (s, none) else (
  record s { initial_transition_pending = false },
  some (record { from_phase = none; to = explore; turn = 0; reason = initial s.complexity }),
)

unfoldable pub transition_to :
    AgentPhase → ℕ → TransitionReason → PhasePolicyState → PhasePolicyState × Option PhaseTransition
transition_to next turn reason s = if phase_eq s.phase next then (s, none) else (
  record s { phase = next; phase_started_turn = turn },
  some (record { from_phase = some s.phase; to = next; turn = turn; reason = reason }),
)

-- A decision that is the transition, with guidance.
unfoldable pub go :
    AgentPhase
    → ℕ
    → TransitionReason
    → Option Guidance
    → PhasePolicyState
    → PhasePolicyState × PhaseTurnDecision
unfolding transition_to
go next turn reason guidance s =
    let (moved, transition) = transition_to next turn reason s in
    (moved, record no_decision { transition = transition; guidance = guidance })

unfoldable pub verification_failure_decision :
    ℕ → TransitionReason → PhasePolicyState → PhasePolicyState × PhaseTurnDecision
unfolding go
verification_failure_decision turn reason s =
    if leb 2 s.verification_recovery_cycles
    then (s, record no_decision { terminal_failure = true })
    else let counted : PhasePolicyState = record s {
      verification_recovery_cycles = s.verification_recovery_cycles + 1;
      recovery_cycles = s.recovery_cycles + 1;
    } in
      let (moved, decision) =
        go recover turn reason (some (verification_guidance counted.verification_recovery_cycles))
          counted in
      (moved, record decision { retry = true })

unfoldable pub delegation_decision :
    PhasePolicyState → ℕ → Option (AdaptiveDelegationRole × DelegationReason)
unfolding is_complex
delegation_decision s turn =
    if not s.options.automatic_delegation
      || leb s.options.max_automatic_delegations s.automatic_delegations
      || ltb 0 s.mutation_count
    then none
    else if leb 2 (length s.independent_areas)
    then some (planner, independent_areas_found)
    else if leb 2 s.reread_count
    then some (research, repeated_reads)
    else if leb s.exploration_budget turn
    then some (if is_complex s.complexity then planner else research, exploration_budget_spent)
    else none
