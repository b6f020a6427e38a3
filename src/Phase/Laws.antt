-- ===== src/Phase/Laws.antt =====
-- packages/core/src/phasePolicy.ts: what a turn does to the phase.
use ninjacode_agent.Phase.{
  AdaptiveDelegationRole, AgentPhase, PhasePolicyState, ToolErrorCategory, recover,
  ResolvedAdaptiveOrchestrationOptions, mutation_tool, verify, ToolInvocation, DelegationReason,
  invocation_succeeded, execute, explore,
}
use ninjacode_agent.Phase.Moves.{
  tool_verification_failed, workspace_mutated, PhaseTurnDecision, go, verification_tool_used,
  TransitionReason, exploration_guidance, phase_eq, Guidance, verification_failure_decision,
  delegation_decision, exploration_budget_exhausted, no_decision, recovery_action_succeeded,
}
use ninjacode_agent.Phase.Reads.{
  note_areas, read_target, observe_read_target, is_read_tool, is_complex, noted_read, note_area,
  observe_read_targets, sorted, independent_area, seen_before, observe_read,
}
use ninjacode_agent.Phase.Turn.{
  TurnScan, observe_reads, explore_on, scan_invocation, close_turn, observe_phase_turn,
  decide_recovery, decide_progress, scan_invocations, start_scan,
}
use ninjacode_agent.Prelude.{
  ltb, if-holds, leb, if◌then◌else◌, any, length, ℕ, ◌+◌, ◌≤◌, ◌≡◌, refl, ◌∙◌, Bool, true, false,
  not, ◌&&◌, ◌||◌, Option, none, some, List, [], ◌∷◌, ◌++◌, arith,
}
use ninjacode_agent.Prelude.Texts.{Text, text_eq, codes}

-- What reads and the loop of a turn leave alone.
abbrev pub core :
    PhasePolicyState → AgentPhase × ℕ × ResolvedAdaptiveOrchestrationOptions × ℕ × ℕ × ℕ × ℕ × Bool
core s = (
  s.phase, s.phase_started_turn, s.options, s.max_turns, s.automatic_delegations,
  s.verification_recovery_cycles, s.recovery_cycles, s.exploration_closed,
)

-- It stays, and the budget and the number of mutations only grow.
abbrev pub Kept : PhasePolicyState → PhasePolicyState → Type 0
Kept s t =
    (core t ≡ core s)
    × (s.exploration_budget ≤ t.exploration_budget)
    × (s.mutation_count ≤ t.mutation_count)

Kept-trans : (s t u : PhasePolicyState) → Kept s t → Kept t u → Kept s u
Kept-trans s t u (h, b, m) (k, c, n) = (k ∙ h, omega (arith, b, c), omega (arith, m, n))

Kept-refl : (s : PhasePolicyState) → Kept s s
Kept-refl s = (refl, omega arith, omega arith)

note_areas-Kept : (areas : List Text) (s : PhasePolicyState) → Kept s (note_areas areas s)
unfolding note_areas
note_areas-Kept areas s =
    if-holds (Kept s) (leb 2 (length areas) && not (is_complex s.complexity)) _ _
      (λ _. (refl, omega arith, omega arith)) (λ _. (refl, omega arith, omega arith))

note_area-Kept : (area : Option Text) (s : PhasePolicyState) → Kept s (note_area area s)
unfolding note_area
note_area-Kept none s = Kept-refl s
note_area-Kept (some area) s =
    if-holds (Kept s) _ _ _ (λ _. Kept-refl s)
      (λ _. note_areas-Kept (sorted (s.independent_areas ++ area ∷ [])) s)

observe_read_target-Kept :
    (target : Text) (s : PhasePolicyState) → Kept s (observe_read_target target s)
unfolding observe_read_target
observe_read_target-Kept target s = note_area-Kept (independent_area target) (record s {
  read_count = s.read_count + 1;
  reread_count = if ltb 0 (seen_before target s) then s.reread_count + 1 else s.reread_count;
  read_targets = noted_read target s;
})

observe_read_targets-Kept :
    (targets : List Text) (s : PhasePolicyState) → Kept s (observe_read_targets targets s)
unfolding observe_read_targets
observe_read_targets-Kept [] s = Kept-refl s
observe_read_targets-Kept (target ∷ targets) s =
    Kept-trans s (observe_read_target target s)
      (observe_read_targets targets (observe_read_target target s))
      (observe_read_target-Kept target s)
      (observe_read_targets-Kept targets (observe_read_target target s))

observe_read-Kept : (i : ToolInvocation) (s : PhasePolicyState) → Kept s (observe_read i s)
unfolding observe_read
observe_read-Kept i s =
    if-holds (Kept s) (not (is_read_tool i.name)) _ _ (λ _. Kept-refl s)
      (λ _. by_target (read_target i))
  where
    by_target :
        (o : Option Text)
        → Kept s (elim o [
          | none ↦ record s { read_count = s.read_count + 1 }
          | some target ↦ observe_read_target target s
        ])
    by_target none = (refl, omega arith, omega arith)
    by_target (some target) = observe_read_target-Kept target s

observe_reads-Kept : (i : ToolInvocation) (s : PhasePolicyState) → Kept s (observe_reads i s)
unfolding observe_reads
observe_reads-Kept i s =
    let seen = observe_read i s in
    if-holds (Kept s) (text_eq i.name (codes "run_shell")) _ _
      (λ _.
        Kept-trans s seen (observe_read_targets i.shell_targets seen) (observe_read-Kept i s)
          (observe_read_targets-Kept i.shell_targets seen))
      (λ _. observe_read-Kept i s)

scan_invocation-Kept :
    (i : ToolInvocation) (scan : TurnScan) → Kept scan.state (scan_invocation i scan).state
unfolding scan_invocation
scan_invocation-Kept i scan =
    let s = scan.state in
    let counts = mutation_tool s.goal i.name && invocation_succeeded i in
    let counted : PhasePolicyState =
      if counts then record s { mutation_count = s.mutation_count + 1 } else s in
    let counted-Kept : Kept s counted =
      if-holds (Kept s) counts (record s { mutation_count = s.mutation_count + 1 }) s
        (λ _. (refl, omega arith, omega arith)) (λ _. Kept-refl s) in
    if-holds (Kept s) (invocation_succeeded i) (observe_reads i counted) counted
      (λ _.
        Kept-trans s counted (observe_reads i counted) counted-Kept (observe_reads-Kept i counted))
      (λ _. counted-Kept)

pub scan_invocations-Kept :
    (is : List ToolInvocation) (scan : TurnScan) → Kept scan.state (scan_invocations is scan).state
unfolding scan_invocations
scan_invocations-Kept [] scan = Kept-refl scan.state
scan_invocations-Kept (i ∷ is) scan =
    Kept-trans scan.state (scan_invocation i scan).state
      (scan_invocations is (scan_invocation i scan)).state (scan_invocation-Kept i scan)
      (scan_invocations-Kept is (scan_invocation i scan))

-- What holds of every move to a phase, of a delegation that is due and of no decision, holds of
-- what a turn without failures decides.
module _ {κ} (P : PhasePolicyState × PhaseTurnDecision → Type κ) (turn : ℕ) (s : PhasePolicyState)
    (moves : (next : AgentPhase) (reason : TransitionReason) (guidance : Option Guidance)
      → P (go next turn reason guidance s))
    (rests : P (s, no_decision))
    (delegates : (d : AdaptiveDelegationRole × DelegationReason)
      → delegation_decision s turn ≡ some d
      → P (
        s,
        record no_decision { delegation = some d; guidance = some (exploration_guidance turn) },
      )) where
  explore_on_none-holds : P (explore_on none turn s)
  unfolding explore_on
  explore_on_none-holds =
      if-holds P ((phase_eq s.phase explore || phase_eq s.phase recover) && s.exploration_closed) _
        _ (λ _. moves execute exploration_budget_exhausted _) (λ _. rests)

  explore_on-holds :
      (closed : Bool) (o : Option (AdaptiveDelegationRole × DelegationReason))
      → delegation_decision s turn ≡ o
      → P (explore_on (if closed then none else o) turn s)
  unfolding explore_on
  explore_on-holds false (some d) e = delegates d e
  explore_on-holds false none e = explore_on_none-holds
  explore_on-holds true o e = explore_on_none-holds

  pub decide_progress-holds :
      (scan : TurnScan) (succeeded : Bool) → P (decide_progress scan succeeded turn s)
  unfolding decide_progress
  decide_progress-holds scan succeeded =
      if-holds P (phase_eq s.phase recover && succeeded) _ _
        (λ _. moves _ recovery_action_succeeded _)
        (λ _.
          if-holds P scan.mutation _ _ (λ _. moves execute workspace_mutated _)
            (λ _.
              if-holds P (scan.verification && ltb 0 s.mutation_count) _ _
                (λ _. moves verify verification_tool_used _)
                (λ _. explore_on-holds s.exploration_closed (delegation_decision s turn) refl)))

-- The three ways in which a turn is decided.
pub observe_phase_turn-holds {κ} :
    (P : PhasePolicyState × PhaseTurnDecision → Type κ) (s : PhasePolicyState)
    (invocations : List ToolInvocation) (turn : ℕ)
    → (let scan = scan_invocations invocations (start_scan s) in
        let closed = close_turn scan turn in
        P (verification_failure_decision turn tool_verification_failed closed)
        → ((category : ToolErrorCategory) → P (decide_recovery category turn closed))
        → P (decide_progress scan (any invocation_succeeded invocations) turn closed)
        → P (observe_phase_turn s invocations turn))
unfolding observe_phase_turn
observe_phase_turn-holds P s invocations turn verifying recovering progressing =
    let scan = scan_invocations invocations (start_scan s) in
    if-holds P scan.verification_failed _ _ (λ _. verifying)
      (λ _. by_error scan.first_recoverable_error)
  where
    closed : PhasePolicyState
    closed = close_turn (scan_invocations invocations (start_scan s)) turn

    by_error :
        (o : Option ToolErrorCategory)
        → P (elim o [
          | some category ↦ decide_recovery category turn closed
          | none ↦
              decide_progress
                (scan_invocations invocations (start_scan s))
                (any invocation_succeeded invocations)
                turn
                closed
        ])
    by_error none = progressing
    by_error (some category) = recovering category
