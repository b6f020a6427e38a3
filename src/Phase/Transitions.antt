-- ===== src/Phase/Transitions.antt =====
-- packages/core/src/phasePolicy.ts: the transitions that a turn announces.
use ninjacode_agent.Phase.{
  AdaptiveDelegationRole, AgentPhase, PhasePolicyState, ToolErrorCategory, recover, verify,
  ToolInvocation, DelegationReason, invocation_succeeded, execute, explore,
}
use ninjacode_agent.Phase.Laws.{scan_invocations-Kept}
use ninjacode_agent.Phase.Moves.{
  tool_verification_failed, workspace_mutated, PhaseTurnDecision, go, PhaseTransition,
  verification_tool_used, recovery_guidance, TransitionReason, exploration_guidance, phase_eq,
  transition_to, Guidance, verification_guidance, verification_failure_decision,
  delegation_decision, tool_failed, exploration_budget_exhausted, resume_guidance, no_decision,
  recovery_action_succeeded,
}
use ninjacode_agent.Phase.Turn.{
  TurnScan, explore_on, close_turn, observe_phase_turn, decide_recovery, decide_progress,
  scan_invocations, start_scan,
}
use ninjacode_agent.Prelude.{
  ltb, if-holds, leb, if◌then◌else◌, any, ℕ, ◌+◌, ◌≡◌, refl, ap, subst, ◌≢◌, Bool, true, ◌&&◌, ◌||◌,
  Option, none, some, List, arith,
}

phase_eq_refl : (p : AgentPhase) → phase_eq p p ≡ true
phase_eq_refl explore = refl
phase_eq_refl execute = refl
phase_eq_refl verify = refl
phase_eq_refl recover = refl

-- A transition says how the phase changed, none that it did not.
abbrev pub Explained : AgentPhase → AgentPhase → ℕ → Option PhaseTransition → Type 0
Explained old new turn none = new ≡ old
Explained old new turn (some t) =
    (old ≢ new) × (t.from_phase ≡ some old) × (t.to ≡ new) × (t.turn ≡ turn)

go-Explained :
    (next : AgentPhase) (turn : ℕ) (reason : TransitionReason) (guidance : Option Guidance)
    (s : PhasePolicyState)
    → Explained s.phase
        (go next turn reason guidance s).0.phase
        turn
        (go next turn reason guidance s).1.transition
unfolding go transition_to
go-Explained next turn reason guidance s =
    if-holds
      (λ (r : PhasePolicyState × Option PhaseTransition). Explained s.phase r.0.phase turn r.1)
      (phase_eq s.phase next) (s, none) _ (λ _. refl)
      (λ e. ((λ same. ground (arith, e, phase_eq_refl s.phase, same)), refl, refl, refl))

verification_failure_decision-Explained :
    (turn : ℕ) (reason : TransitionReason) (s : PhasePolicyState)
    → Explained s.phase
        (verification_failure_decision turn reason s).0.phase
        turn
        (verification_failure_decision turn reason s).1.transition
unfolding verification_failure_decision
verification_failure_decision-Explained turn reason s =
    if-holds
      (λ (r : PhasePolicyState × PhaseTurnDecision).
        Explained s.phase r.0.phase turn r.1.transition)
      (leb 2 s.verification_recovery_cycles) (s, record no_decision { terminal_failure = true }) _
      (λ _. refl)
      (λ _.
        go-Explained recover turn reason
          (some (verification_guidance (s.verification_recovery_cycles + 1)))
          (record s {
            verification_recovery_cycles = s.verification_recovery_cycles + 1;
            recovery_cycles = s.recovery_cycles + 1;
          }))

decide_recovery-Explained :
    (category : ToolErrorCategory) (turn : ℕ) (s : PhasePolicyState)
    → Explained s.phase
        (decide_recovery category turn s).0.phase
        turn
        (decide_recovery category turn s).1.transition
unfolding decide_recovery
decide_recovery-Explained category turn s =
    go-Explained recover turn (tool_failed category) (some (recovery_guidance category)) s

module _ (scan : TurnScan) (succeeded : Bool) (turn : ℕ) (s : PhasePolicyState) where
  abbrev Holds : PhasePolicyState × PhaseTurnDecision → Type 0
  Holds r = Explained s.phase r.0.phase turn r.1.transition

  explore_on-Explained :
      (o : Option (AdaptiveDelegationRole × DelegationReason)) → Holds (explore_on o turn s)
  unfolding explore_on
  explore_on-Explained (some delegation) = refl
  explore_on-Explained none =
      if-holds Holds
        ((phase_eq s.phase explore || phase_eq s.phase recover) && s.exploration_closed) _
        (s, no_decision)
        (λ _.
          go-Explained execute turn exploration_budget_exhausted (some (exploration_guidance turn))
            s)
        (λ _. refl)

  decide_progress-Explained : Holds (decide_progress scan succeeded turn s)
  unfolding decide_progress
  decide_progress-Explained =
      let next : AgentPhase =
        if ltb 0 s.mutation_count || s.exploration_closed then execute else explore in
      if-holds Holds (phase_eq s.phase recover && succeeded) _ _
        (λ _. go-Explained next turn recovery_action_succeeded (some (resume_guidance next)) s)
        (λ _.
          if-holds Holds scan.mutation _ _ (λ _. go-Explained execute turn workspace_mutated none s)
            (λ _.
              if-holds Holds (scan.verification && ltb 0 s.mutation_count) _ _
                (λ _. go-Explained verify turn verification_tool_used none s)
                (λ _.
                  explore_on-Explained
                    (if s.exploration_closed then none else delegation_decision s turn))))

-- A turn announces a transition exactly if it changes the phase, and announces it from the phase
-- before to the phase after, at its own number.
pub observe_phase_turn-Explained :
    (s : PhasePolicyState) (invocations : List ToolInvocation) (turn : ℕ)
    → Explained s.phase
        (observe_phase_turn s invocations turn).0.phase
        turn
        (observe_phase_turn s invocations turn).1.transition
unfolding observe_phase_turn
observe_phase_turn-Explained s invocations turn =
    let scan = scan_invocations invocations (start_scan s) in
    let closed = close_turn scan turn in
    subst
      (λ p.
        Explained p (observe_phase_turn s invocations turn).0.phase turn
          (observe_phase_turn s invocations turn).1.transition)
      (ap (λ c. c.0) (scan_invocations-Kept invocations (start_scan s)).0)
      (if-holds
        (λ (r : PhasePolicyState × PhaseTurnDecision).
          Explained closed.phase r.0.phase turn r.1.transition)
        scan.verification_failed _ _
        (λ _. verification_failure_decision-Explained turn tool_verification_failed closed)
        (λ _. by_error scan closed scan.first_recoverable_error))
  where
    by_error :
        (scan : TurnScan) (closed : PhasePolicyState) (o : Option ToolErrorCategory)
        → Holds scan (any invocation_succeeded invocations) turn closed (elim o [
          | some category ↦ decide_recovery category turn closed
          | none ↦ decide_progress scan (any invocation_succeeded invocations) turn closed
        ])
    by_error scan closed none =
        decide_progress-Explained scan (any invocation_succeeded invocations) turn closed
    by_error scan closed (some category) = decide_recovery-Explained category turn closed
