-- ===== src/Phase/Tests.antt =====
-- The phase policy on a concrete run, and its theorems there.
use ninjacode_agent.Phase.{
  AdaptiveOrchestrationOptions, TaskSignals, resolve_adaptive_orchestration_options,
  PhasePolicyState, create_phase_policy_state, edit, ToolInvocation,
}
use ninjacode_agent.Phase.Budgets.{
  Event, sub_agents_of, completion_fails, completion_starts, turn_ends,
  retries_of-sub_agents_of-bound, retries_of,
}
use ninjacode_agent.Phase.Exploration.{HasLeft, observe_phase_turn-HasLeft}
use ninjacode_agent.Phase.Moves.{delegation_decision}
use ninjacode_agent.Phase.Turn.{observe_reads, observe_phase_turn}
use ninjacode_agent.Prelude.{◌≤◌, ◌≡◌, refl, inr, true, false, none, some, List, [], ◌∷◌, arith}
use ninjacode_agent.Prelude.Maps.{get, insert}
use ninjacode_agent.Prelude.Numbers.{natural}
use ninjacode_agent.Prelude.Texts.{member, text_eq, trim, codes}

abbrev sample_task : TaskSignals
sample_task = record { file_references = 1; multi_area_signals = 0; requested_actions = 2 }

abbrev sample_options : AdaptiveOrchestrationOptions
sample_options = record {
  automatic_delegation = none;
  max_automatic_delegations = some (natural 7);
  exploration_budget_scale = none;
}

abbrev sample_state : PhasePolicyState
sample_state = create_phase_policy_state sample_task 20 edit sample_options

abbrev failing_test : ToolInvocation
failing_test = record {
  name = codes "run_shell";
  error = none;
  output = codes "1 failed";
  exit_code = some 1;
  category = none;
  path = none;
  shell_targets = [];
  verifies = true;
}

abbrev reading : ToolInvocation
reading = record {
  name = codes "read_file";
  error = none;
  output = codes "text";
  exit_code = none;
  category = none;
  path = some (codes "packages/core/src/a.ts");
  shell_targets = [];
  verifies = false;
}

abbrev sample_events : List Event
sample_events =
    turn_ends (reading ∷ []) 1 true
    ∷ turn_ends (failing_test ∷ []) 2 true
    ∷ completion_starts 3
    ∷ completion_fails 3
    ∷ completion_fails 4
    ∷ []

third_failure_ends : retries_of sample_events sample_state ≡ 2
unfolding retries_of create_phase_policy_state get text_eq member trim observe_reads
    delegation_decision
third_failure_ends = refl

budget_reached : (observe_phase_turn sample_state (reading ∷ []) 30).0.exploration_budget ≤ 30
unfolding observe_phase_turn create_phase_policy_state get text_eq member trim insert observe_reads
budget_reached = omega arith

observe_phase_turn-HasLeft_example : HasLeft (observe_phase_turn sample_state (reading ∷ []) 30)
observe_phase_turn-HasLeft_example =
    observe_phase_turn-HasLeft sample_state (reading ∷ []) 30 (inr budget_reached)

retries_of-sub_agents_of-bound_example :
    (retries_of sample_events sample_state ≤ 2)
    × (sub_agents_of sample_events sample_state ≤ 2)
    × (sub_agents_of sample_events sample_state ≤ 2)
unfolding resolve_adaptive_orchestration_options
retries_of-sub_agents_of-bound_example =
    retries_of-sub_agents_of-bound sample_task 20 edit sample_options sample_events
