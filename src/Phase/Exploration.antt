-- ===== src/Phase/Exploration.antt =====
-- packages/core/src/phasePolicy.ts: the turns beyond the exploration budget.
use ninjacode_agent.Phase.{
  AgentPhase, PhasePolicyState, ToolErrorCategory, recover, verify, ToolInvocation,
  invocation_succeeded, execute, explore,
}
use ninjacode_agent.Phase.Laws.{
  decide_progress-holds, scan_invocations-Kept, observe_phase_turn-holds,
}
use ninjacode_agent.Phase.Moves.{
  tool_verification_failed, workspace_mutated, PhaseTurnDecision, go, PhaseTransition,
  verification_tool_used, recovery_guidance, TransitionReason, exploration_guidance, phase_eq,
  transition_to, Guidance, verification_guidance, verification_failure_decision,
  delegation_decision, tool_failed, exploration_budget_exhausted, resume_guidance, no_decision,
  recovery_action_succeeded,
}
use ninjacode_agent.Phase.Turn.{
  TurnScan, explore_on, close_turn, observe_phase_turn, decide_recovery, decide_progress,
  scan_invocations, start_scan,
}
use ninjacode_agent.Prelude.{
  ltb, if-holds, leb, if◌then◌else◌, any, ℕ, ◌+◌, ◌≤◌, ◌≡◌, refl, sym, ap, subst, ◌∙◌, ◌≢◌, ◌⊎◌,
  inl, inr, Bool, true, ◌&&◌, ◌||◌, Option, none, some, List, arith,
}

-- A pair of a state and a decision that has left it, or has failed for good.
abbrev pub HasLeft : PhasePolicyState × PhaseTurnDecision → Type 0
HasLeft r = (r.0.phase ≢ explore) ⊎ (r.1.terminal_failure ≡ true)

go-phase :
    (next : AgentPhase) (turn : ℕ) (reason : TransitionReason) (guidance : Option Guidance)
    (s : PhasePolicyState)
    → (go next turn reason guidance s).0.phase ≡ next
unfolding go transition_to
go-phase next turn reason guidance s =
    if-holds (λ (r : PhasePolicyState × Option PhaseTransition). r.0.phase ≡ next)
      (phase_eq s.phase next) (s, none) _ (λ e. same_phase s.phase next e) (λ _. refl)
  where
    same_phase : (p q : AgentPhase) → phase_eq p q ≡ true → p ≡ q
    same_phase explore explore e = refl
    same_phase execute execute e = refl
    same_phase verify verify e = refl
    same_phase recover recover e = refl
    same_phase p q e = cc

go-HasLeft :
    (next : AgentPhase) (turn : ℕ) (reason : TransitionReason) (guidance : Option Guidance)
    (s : PhasePolicyState)
    → next ≢ explore
    → HasLeft (go next turn reason guidance s)
go-HasLeft next turn reason guidance s ne =
    inl (λ e. ne (sym (go-phase next turn reason guidance s) ∙ e))

explore_on_closed :
    (turn : ℕ) (s : PhasePolicyState)
    → s.exploration_closed ≡ true
    → HasLeft (explore_on none turn s)
unfolding explore_on
explore_on_closed turn s closed =
    if-holds HasLeft
      ((phase_eq s.phase explore || phase_eq s.phase recover) && s.exploration_closed) _
      (s, no_decision)
      (λ _.
        go-HasLeft execute turn exploration_budget_exhausted (some (exploration_guidance turn)) s
          (ground arith))
      (λ e. inl (λ exploring. ground (arith, closed, ap (λ p. phase_eq p explore) exploring)))

decide_progress-HasLeft :
    (scan : TurnScan) (succeeded : Bool) (turn : ℕ) (s : PhasePolicyState)
    → s.exploration_closed ≡ true
    → HasLeft (decide_progress scan succeeded turn s)
unfolding decide_progress
decide_progress-HasLeft scan succeeded turn s closed =
    let next : AgentPhase =
      if ltb 0 s.mutation_count || s.exploration_closed then execute else explore in
    let next-ne : next ≢ explore =
      if-holds (λ p. p ≢ explore) (ltb 0 s.mutation_count || s.exploration_closed) execute explore
        (λ _. ground arith) (λ e. ground (arith, closed)) in
    if-holds HasLeft (phase_eq s.phase recover && succeeded) _ _
      (λ _. go-HasLeft next turn recovery_action_succeeded (some (resume_guidance next)) s next-ne)
      (λ _.
        if-holds HasLeft scan.mutation _ _
          (λ _. go-HasLeft execute turn workspace_mutated none s (ground arith))
          (λ _.
            if-holds HasLeft (scan.verification && ltb 0 s.mutation_count) _ _
              (λ _. go-HasLeft verify turn verification_tool_used none s (ground arith))
              (λ _.
                subst
                  (λ b.
                    HasLeft (explore_on (if b then none else delegation_decision s turn) turn s))
                  (sym closed) (explore_on_closed turn s closed))))

verification_failure_decision-HasLeft :
    (turn : ℕ) (reason : TransitionReason) (s : PhasePolicyState)
    → HasLeft (verification_failure_decision turn reason s)
unfolding verification_failure_decision
verification_failure_decision-HasLeft turn reason s =
    if-holds HasLeft (leb 2 s.verification_recovery_cycles) _ _ (λ _. inr refl)
      (λ _. inl (λ e. recovering (
        sym (
          go-phase recover turn reason
            (some (verification_guidance (s.verification_recovery_cycles + 1)))
            (record s {
              verification_recovery_cycles = s.verification_recovery_cycles + 1;
              recovery_cycles = s.recovery_cycles + 1;
            }))
        ∙ e)))
  where
    recovering : recover ≢ explore
    recovering = ground arith

decide_recovery-HasLeft :
    (category : ToolErrorCategory) (turn : ℕ) (s : PhasePolicyState)
    → HasLeft (decide_recovery category turn s)
unfolding decide_recovery
decide_recovery-HasLeft category turn s =
    go-HasLeft recover turn (tool_failed category) (some (recovery_guidance category)) s
      (ground arith)

-- Deciding leaves the budget alone.
abbrev HasBudget : PhasePolicyState → PhasePolicyState × PhaseTurnDecision → Type 0
HasBudget s r = r.0.exploration_budget ≡ s.exploration_budget

go-HasBudget :
    (next : AgentPhase) (turn : ℕ) (reason : TransitionReason) (guidance : Option Guidance)
    (s : PhasePolicyState)
    → HasBudget s (go next turn reason guidance s)
unfolding go transition_to
go-HasBudget next turn reason guidance s =
    if-holds
      (λ (r : PhasePolicyState × Option PhaseTransition).
        r.0.exploration_budget ≡ s.exploration_budget)
      (phase_eq s.phase next) (s, none) _ (λ _. refl) (λ _. refl)

verification_failure_decision-HasBudget :
    (turn : ℕ) (reason : TransitionReason) (s : PhasePolicyState)
    → HasBudget s (verification_failure_decision turn reason s)
unfolding verification_failure_decision
verification_failure_decision-HasBudget turn reason s =
    if-holds (HasBudget s) (leb 2 s.verification_recovery_cycles) _ _ (λ _. refl)
      (λ _.
        go-HasBudget recover turn reason
          (some (verification_guidance (s.verification_recovery_cycles + 1)))
          (record s {
            verification_recovery_cycles = s.verification_recovery_cycles + 1;
            recovery_cycles = s.recovery_cycles + 1;
          }))

decide_recovery-HasBudget :
    (category : ToolErrorCategory) (turn : ℕ) (s : PhasePolicyState)
    → HasBudget s (decide_recovery category turn s)
unfolding decide_recovery
decide_recovery-HasBudget category turn s =
    go-HasBudget recover turn (tool_failed category) (some (recovery_guidance category)) s

pub observe_phase_turn-HasBudget :
    (s : PhasePolicyState) (invocations : List ToolInvocation) (turn : ℕ)
    → HasBudget
        (close_turn (scan_invocations invocations (start_scan s)) turn)
        (observe_phase_turn s invocations turn)
observe_phase_turn-HasBudget s invocations turn =
    let scan = scan_invocations invocations (start_scan s) in
    let closed = close_turn scan turn in
    observe_phase_turn-holds (HasBudget closed) s invocations turn
      (verification_failure_decision-HasBudget turn tool_verification_failed closed)
      (λ category. decide_recovery-HasBudget category turn closed)
      (decide_progress-holds (HasBudget closed) turn closed
        (λ next reason guidance. go-HasBudget next turn reason guidance closed) refl (λ d _. refl)
        scan (any invocation_succeeded invocations))

close_turn-closed :
    (scan : TurnScan) (turn : ℕ)
    → (scan.state.exploration_closed ≡ true) ⊎ (scan.state.exploration_budget ≤ turn)
    → (close_turn scan turn).exploration_closed ≡ true
unfolding close_turn
close_turn-closed scan turn late = ground arith

close_turn-budget :
    (scan : TurnScan) (turn : ℕ)
    → (close_turn scan turn).exploration_budget ≡ scan.state.exploration_budget
unfolding close_turn
close_turn-budget scan turn = refl

-- A turn whose number has reached the exploration budget, as it is at its end, or that follows one
-- where that was so, does not end in the exploring phase, unless the run has failed for good.
pub observe_phase_turn-HasLeft :
    (s : PhasePolicyState) (invocations : List ToolInvocation) (turn : ℕ)
    → (s.exploration_closed ≡ true)
      ⊎ ((observe_phase_turn s invocations turn).0.exploration_budget ≤ turn)
    → HasLeft (observe_phase_turn s invocations turn)
unfolding start_scan
observe_phase_turn-HasLeft s invocations turn late =
    let scan = scan_invocations invocations (start_scan s) in
    let closed = close_turn scan turn in
    observe_phase_turn-holds HasLeft s invocations turn
      (verification_failure_decision-HasLeft turn tool_verification_failed closed)
      (λ category. decide_recovery-HasLeft category turn closed)
      (decide_progress-HasLeft scan (any invocation_succeeded invocations) turn closed (
        close_turn-closed scan turn (elim late [
          | inl e ↦ inl (ap (λ c. c.7) (scan_invocations-Kept invocations (start_scan s)).0 ∙ e)
          | inr le ↦ inr (
              subst (λ b. b ≤ turn)
                (observe_phase_turn-HasBudget s invocations turn ∙ close_turn-budget scan turn) le)
        ])))
