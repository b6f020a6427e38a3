-- ===== src/Phase/Budgets.antt =====
-- packages/core/src/phasePolicy.ts, with the calls of packages/core/src/agentTurn.ts: what a whole
-- run may spend on corrections, delegations and exploring.
use ninjacode_agent.Phase.{
  AdaptiveOrchestrationOptions, TaskSignals, PhaseProgressGoal,
  resolve_adaptive_orchestration_options, PhasePolicyState, create_phase_policy_state,
  ResolvedAdaptiveOrchestrationOptions, verify, ToolInvocation,
}
use ninjacode_agent.Phase.Fairness.{
  verification_failure_decision-IsFair, observe_phase_turn-IsFair, IsFair,
}
use ninjacode_agent.Phase.Moves.{
  PhaseTurnDecision, PhaseTransition, completion_verification_failed, phase_eq, transition_to,
  verification_failure_decision, no_decision,
}
use ninjacode_agent.Phase.Turn.{
  record_verification_failure, observe_phase_turn, mark_automatic_delegation,
  enter_verification_phase,
}
use ninjacode_agent.Prelude.{
  if-holds, is_some, if◌then◌else◌, ℕ, ◌+◌, ◌≤◌, ◌<◌, ◌≡◌, refl, ◌∙◌, Bool, true, false, not, ◌&&◌,
  Option, none, List, [], ◌∷◌, arith,
}

-- What can happen to the policy: a turn, of whose delegation `adaptiveGuidance` makes a mark if
-- sub-agents are enabled, the start of the verification of a completion, and its failure.
pub data Event : Type 0 where
  turn_ends : List ToolInvocation → ℕ → Bool → Event
  completion_starts completion_fails : ℕ → Event

-- `adaptiveGuidance`: the policy, the decision, and whether a sub-agent is run.
unfoldable pub adaptive_guidance :
    Bool → PhasePolicyState × PhaseTurnDecision → PhasePolicyState × PhaseTurnDecision × Bool
unfolding mark_automatic_delegation
adaptive_guidance enabled (s, d) =
    if not d.terminal_failure && is_some d.delegation && enabled
    then (mark_automatic_delegation s, d, true)
    else (s, d, false)

unfoldable pub apply : Event → PhasePolicyState → PhasePolicyState × PhaseTurnDecision × Bool
unfolding adaptive_guidance observe_phase_turn enter_verification_phase record_verification_failure
apply (turn_ends invocations turn enabled) s =
    adaptive_guidance enabled (observe_phase_turn s invocations turn)
apply (completion_starts turn) s = ((enter_verification_phase s turn).0, no_decision, false)
apply (completion_fails turn) s = let (t, d) = record_verification_failure s turn in (t, d, false)

unfoldable pub apply_all : List Event → PhasePolicyState → PhasePolicyState
unfolding apply
apply_all [] s = s
apply_all (e ∷ es) s = apply_all es (apply e s).0

-- How often a correction is asked for.
unfoldable pub retries_of : List Event → PhasePolicyState → ℕ
unfolding apply
retries_of [] s = 0
retries_of (e ∷ es) s = (if (apply e s).1.retry then 1 else 0) + retries_of es (apply e s).0

-- How many sub-agents are run.
unfoldable pub sub_agents_of : List Event → PhasePolicyState → ℕ
unfolding apply
sub_agents_of [] s = 0
sub_agents_of (e ∷ es) s = (if (apply e s).2 then 1 else 0) + sub_agents_of es (apply e s).0

-- The bounds that a run keeps.
abbrev pub IsWithin : ResolvedAdaptiveOrchestrationOptions → PhasePolicyState → Type 0
IsWithin options s =
    (s.options ≡ options)
    × (s.verification_recovery_cycles ≤ 2)
    × (s.automatic_delegations ≤ options.max_automatic_delegations)
    × (options.automatic_delegation ≡ false → s.automatic_delegations ≡ 0)

-- What one event does to the counters.
abbrev IsCounted : PhasePolicyState → PhasePolicyState × PhaseTurnDecision × Bool → Type 0
IsCounted s (t, d, starts) =
    (t.verification_recovery_cycles ≡ (if d.retry then 1 else 0) + s.verification_recovery_cycles)
    × (d.retry ≡ true → s.verification_recovery_cycles < 2)
    × (t.options ≡ s.options)
    × (t.automatic_delegations ≡ (if starts then 1 else 0) + s.automatic_delegations)
    × (starts ≡ true
        → (s.options.automatic_delegation ≡ true)
          × (s.automatic_delegations < s.options.max_automatic_delegations))

IsFair→IsCounted :
    (s t : PhasePolicyState) (d : PhaseTurnDecision) → IsFair s (t, d) → IsCounted s (t, d, false)
IsFair→IsCounted s t d (cycles, few, options, delegations, due) =
    (omega (arith, cycles), few, options, omega (arith, delegations), λ e. ground arith)

adaptive_guidance-IsCounted :
    (enabled : Bool) (s t : PhasePolicyState) (d : PhaseTurnDecision)
    → IsFair s (t, d)
    → IsCounted s (adaptive_guidance enabled (t, d))
unfolding adaptive_guidance mark_automatic_delegation
adaptive_guidance-IsCounted enabled s t d (cycles, few, options, delegations, due) =
    if-holds (IsCounted s) (not d.terminal_failure && is_some d.delegation && enabled) _
      (t, d, false)
      (λ e.
        (omega (arith, cycles), few, options, omega (arith, delegations), λ _. due (ground arith)))
      (λ _. IsFair→IsCounted s t d (cycles, few, options, delegations, due))

apply-IsCounted : (e : Event) (s : PhasePolicyState) → IsCounted s (apply e s)
unfolding apply enter_verification_phase record_verification_failure transition_to
apply-IsCounted (turn_ends invocations turn enabled) s =
    let r = observe_phase_turn s invocations turn in
    adaptive_guidance-IsCounted enabled s r.0 r.1 (observe_phase_turn-IsFair s invocations turn)
apply-IsCounted (completion_starts turn) s =
    if-holds
      (λ (r : PhasePolicyState × Option PhaseTransition). IsCounted s (r.0, no_decision, false))
      (phase_eq s.phase verify) (s, none) _
      (λ _. (omega arith, λ e. ground arith, refl, omega arith, λ e. ground arith))
      (λ _. (omega arith, λ e. ground arith, refl, omega arith, λ e. ground arith))
apply-IsCounted (completion_fails turn) s =
    let r = verification_failure_decision turn completion_verification_failed s in
    IsFair→IsCounted s r.0 r.1
      (verification_failure_decision-IsFair turn completion_verification_failed s)

step-IsWithin :
    (options : ResolvedAdaptiveOrchestrationOptions) (s t : PhasePolicyState)
    (d : PhaseTurnDecision) (starts : Bool)
    → IsWithin options s
    → IsCounted s (t, d, starts)
    → IsWithin options t
step-IsWithin options s t d starts (same, low, few, off) (cycles, retry, kept, delegations, due) = (
  kept ∙ same,
  ground arith,
  ground (arith, same, few, delegations, due),
  λ e. ground (arith, same, off, e, delegations, due),
)

apply_all-IsWithin :
    (options : ResolvedAdaptiveOrchestrationOptions) (es : List Event) (s : PhasePolicyState)
    → IsWithin options s
    → IsWithin options (apply_all es s)
unfolding apply_all
apply_all-IsWithin options [] s h = h
apply_all-IsWithin options (e ∷ es) s h =
    apply_all-IsWithin options es (apply e s).0
      (step-IsWithin options s (apply e s).0 (apply e s).1 (apply e s).2 h (apply-IsCounted e s))

create-IsWithin :
    (task : TaskSignals) (max_turns : ℕ) (goal : PhaseProgressGoal)
    (options : AdaptiveOrchestrationOptions) (es : List Event)
    → IsWithin
        (resolve_adaptive_orchestration_options options)
        (apply_all es (create_phase_policy_state task max_turns goal options))
unfolding create_phase_policy_state
create-IsWithin task max_turns goal options es =
    apply_all-IsWithin (resolve_adaptive_orchestration_options options) es
      (create_phase_policy_state task max_turns goal options)
      (refl, omega arith, omega arith, λ e. refl)

-- The corrections and the sub-agents of a run are counted by the state.
apply_all-counts :
    (es : List Event) (s : PhasePolicyState)
    → ((apply_all es s).verification_recovery_cycles
        ≡ retries_of es s + s.verification_recovery_cycles)
      × ((apply_all es s).automatic_delegations ≡ sub_agents_of es s + s.automatic_delegations)
unfolding apply_all retries_of sub_agents_of
apply_all-counts [] s = (omega arith, omega arith)
apply_all-counts (e ∷ es) s =
    let (retries, agents) = apply_all-counts es (apply e s).0 in
    let (cycles, _, _, delegations, _) = apply-IsCounted e s in
    (omega (arith, retries, cycles), omega (arith, agents, delegations))

resolved_bound :
    (options : AdaptiveOrchestrationOptions)
    → (resolve_adaptive_orchestration_options options).max_automatic_delegations ≤ 2
unfolding resolve_adaptive_orchestration_options
resolved_bound options = ground arith

-- In a run of a new policy, whatever its events, a correction of a failed verification is asked for at
-- most twice, and at most as many sub-agents are run as the options allow, that is at most two, and
-- none if they forbid them.
pub retries_of-sub_agents_of-bound :
    (task : TaskSignals) (max_turns : ℕ) (goal : PhaseProgressGoal)
    (options : AdaptiveOrchestrationOptions) (es : List Event)
    → let s = create_phase_policy_state task max_turns goal options in
      let resolved = resolve_adaptive_orchestration_options options in
      (retries_of es s ≤ 2)
      × (sub_agents_of es s
          ≤ (if resolved.automatic_delegation then resolved.max_automatic_delegations else 0))
      × (sub_agents_of es s ≤ 2)
retries_of-sub_agents_of-bound task max_turns goal options es =
    let s = create_phase_policy_state task max_turns goal options in
    let (retries, agents) = apply_all-counts es s in
    let (same, low, few, off) = create-IsWithin task max_turns goal options es in
    (
      omega (arith, retries, low),
      ground (arith, agents, few, off),
      ground (arith, agents, few, resolved_bound options),
    )
