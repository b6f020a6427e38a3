-- ===== src/Phase/Fairness.antt =====
-- packages/core/src/phasePolicy.ts: what each decision does to the counters that bound a run.
use ninjacode_agent.Phase.{
  AgentPhase, PhasePolicyState, ToolErrorCategory, recover, ResolvedAdaptiveOrchestrationOptions,
  ToolInvocation, invocation_succeeded,
}
use ninjacode_agent.Phase.Laws.{
  decide_progress-holds, scan_invocations-Kept, observe_phase_turn-holds,
}
use ninjacode_agent.Phase.Moves.{
  tool_verification_failed, PhaseTurnDecision, go, PhaseTransition, recovery_guidance,
  TransitionReason, phase_eq, transition_to, Guidance, verification_guidance,
  verification_failure_decision, delegation_decision, tool_failed, no_decision,
}
use ninjacode_agent.Phase.Turn.{
  close_turn, observe_phase_turn, decide_recovery, scan_invocations, start_scan,
}
use ninjacode_agent.Prelude.{
  if-holds, is_some, leb, if◌then◌else◌, any, ℕ, ◌+◌, ◌<◌, ◌≡◌, refl, ap, subst, true, Option, none,
  some, List, arith,
}

-- What a decision does to the counters that it is bounded by.
abbrev pub IsFair : PhasePolicyState → PhasePolicyState × PhaseTurnDecision → Type 0
IsFair s (t, d) =
    (t.verification_recovery_cycles ≡ s.verification_recovery_cycles + (if d.retry then 1 else 0))
    × (d.retry ≡ true → s.verification_recovery_cycles < 2)
    × (t.options ≡ s.options)
    × (t.automatic_delegations ≡ s.automatic_delegations)
    × (is_some d.delegation ≡ true
        → (s.options.automatic_delegation ≡ true)
          × (s.automatic_delegations < s.options.max_automatic_delegations))

go-IsFair :
    (next : AgentPhase) (turn : ℕ) (reason : TransitionReason) (guidance : Option Guidance)
    (s : PhasePolicyState)
    → IsFair s (go next turn reason guidance s)
unfolding go transition_to
go-IsFair next turn reason guidance s =
    if-holds
      (λ (r : PhasePolicyState × Option PhaseTransition).
        IsFair s (r.0, record no_decision { transition = r.1; guidance = guidance }))
      (phase_eq s.phase next) (s, none) _
      (λ _. (omega arith, λ e. ground arith, refl, refl, λ e. ground arith))
      (λ _. (omega arith, λ e. ground arith, refl, refl, λ e. ground arith))

pub verification_failure_decision-IsFair :
    (turn : ℕ) (reason : TransitionReason) (s : PhasePolicyState)
    → IsFair s (verification_failure_decision turn reason s)
unfolding verification_failure_decision go transition_to
verification_failure_decision-IsFair turn reason s =
    if-holds (IsFair s) (leb 2 s.verification_recovery_cycles) _ _
      (λ _. (omega arith, λ e. ground arith, refl, refl, λ e. ground arith))
      (λ low.
        if-holds
          (λ (r : PhasePolicyState × Option PhaseTransition). IsFair s (
            r.0,
            record no_decision {
              transition = r.1;
              guidance = some (verification_guidance (s.verification_recovery_cycles + 1));
              retry = true;
            },
          ))
          (phase_eq s.phase recover) _ _
          (λ _. (omega arith, λ e. ground arith, refl, refl, λ e. ground arith))
          (λ _. (omega arith, λ e. ground arith, refl, refl, λ e. ground arith)))

decide_recovery-IsFair :
    (category : ToolErrorCategory) (turn : ℕ) (s : PhasePolicyState)
    → IsFair s (decide_recovery category turn s)
unfolding decide_recovery
decide_recovery-IsFair category turn s =
    go-IsFair recover turn (tool_failed category) (some (recovery_guidance category)) s

delegation_decision-due :
    (s : PhasePolicyState) (turn : ℕ)
    → is_some (delegation_decision s turn) ≡ true
    → (s.options.automatic_delegation ≡ true)
      × (s.automatic_delegations < s.options.max_automatic_delegations)
unfolding delegation_decision
delegation_decision-due s turn due = ground arith

pub observe_phase_turn-IsFair :
    (s : PhasePolicyState) (invocations : List ToolInvocation) (turn : ℕ)
    → IsFair s (observe_phase_turn s invocations turn)
unfolding start_scan close_turn
observe_phase_turn-IsFair s invocations turn =
    let scan = scan_invocations invocations (start_scan s) in
    let closed = close_turn scan turn in
    let fair : IsFair closed (observe_phase_turn s invocations turn) =
      observe_phase_turn-holds (IsFair closed) s invocations turn
        (verification_failure_decision-IsFair turn tool_verification_failed closed)
        (λ category. decide_recovery-IsFair category turn closed)
        (decide_progress-holds (IsFair closed) turn closed
          (λ next reason guidance. go-IsFair next turn reason guidance closed)
          (omega arith, λ e. ground arith, refl, refl, λ e. ground arith)
          (λ d e. (
            omega arith,
            λ r. ground arith,
            refl,
            refl,
            λ _. delegation_decision-due closed turn (ap is_some e),
          ))
          scan (any invocation_succeeded invocations)) in
    subst
      (λ (c : ℕ × ℕ × ResolvedAdaptiveOrchestrationOptions).
        IsFair
          (record s {
            verification_recovery_cycles = c.0;
            automatic_delegations = c.1;
            options = c.2;
          })
          (observe_phase_turn s invocations turn))
      (ap (λ c. (c.5, c.4, c.2)) (scan_invocations-Kept invocations (start_scan s)).0) fair
