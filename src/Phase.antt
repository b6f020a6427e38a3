-- ===== src/Phase.antt =====
-- packages/core/src/phasePolicy.ts: the phases of an adaptive run. This file has the state and what
-- is read off a tool invocation; Phase/Moves and Phase/Turn have the operations. Scales are in thousandths.
pub mod Reads
pub mod Moves
pub mod Turn
pub mod Laws
pub mod Transitions
pub mod Exploration
pub mod Fairness
pub mod Budgets
mod Tests
use ninjacode_agent.Prelude.{
  get_or, ◌==◌, leb, if◌then◌else◌, ℕ, ◌+◌, ◌-◌, ◌*◌, ◌/◌, min, max, String, Bool, true, false, not,
  ◌&&◌, ◌||◌, Option, none, some, List, [], ◌∷◌, ◌++◌,
}
use ninjacode_agent.Prelude.Numbers.{negative, not_finite, Number, natural}
use ninjacode_agent.Prelude.Texts.{member, Text, text_eq, to_lower, codes, includes}

pub data AgentPhase : Type 0 where
  explore execute verify recover : AgentPhase

pub data TaskComplexity : Type 0 where
  simple medium complex : TaskComplexity

pub data PhaseProgressGoal : Type 0 where
  edit plan : PhaseProgressGoal

pub data AdaptiveDelegationRole : Type 0 where
  research planner : AdaptiveDelegationRole

pub data DelegationReason : Type 0 where
  independent_areas_found repeated_reads exploration_budget_spent : DelegationReason

-- The categories that `isToolErrorCategory` knows. It leaves out StalePatch and AmbiguousEdit, which
-- packages/core/src/toolErrors.ts has too: an invocation with one of these in its metadata is one
-- without a category here, as it is there.
pub data ToolErrorCategory : Type 0 where
  unknown invalid_arguments unexpected_environment provider_error user_aborted : ToolErrorCategory
  timeout permission_denied not_found circuit_open blocked_by_hook : ToolErrorCategory

-- `RECOVERABLE_ERROR_CATEGORIES.has(category)`
unfoldable pub is_recoverable : ToolErrorCategory → Bool
is_recoverable user_aborted = false
is_recoverable permission_denied = false
is_recoverable _ = true

pub record AdaptiveOrchestrationOptions : Type 0 where
  pub automatic_delegation : Option Bool
  pub max_automatic_delegations : Option Number
  pub exploration_budget_scale : Option Number

pub record ResolvedAdaptiveOrchestrationOptions : Type 0 where
  pub automatic_delegation : Bool
  pub max_automatic_delegations : ℕ
  pub exploration_budget_scale : ℕ

-- A number that is present and finite, held between two bounds.
unfoldable pub clamped : Option Number → ℕ → ℕ → ℕ → ℕ
clamped none fallback lo hi = fallback
clamped (some not_finite) fallback lo hi = fallback
clamped (some (negative n)) fallback lo hi = min hi lo
clamped (some (natural n)) fallback lo hi = min hi (max lo n)

unfoldable pub resolve_adaptive_orchestration_options :
    AdaptiveOrchestrationOptions → ResolvedAdaptiveOrchestrationOptions
unfolding clamped
resolve_adaptive_orchestration_options options = record {
  automatic_delegation = get_or options.automatic_delegation true;
  max_automatic_delegations = clamped options.max_automatic_delegations 1 0 2;
  exploration_budget_scale = clamped options.exploration_budget_scale 1000 500 1500;
}

-- What the three patterns of `classifyTaskComplexity` find in a task: how many different file
-- references, how many signals of several areas, how many requested actions.
pub record TaskSignals : Type 0 where
  pub file_references : ℕ
  pub multi_area_signals : ℕ
  pub requested_actions : ℕ

unfoldable pub classify_task_complexity : TaskSignals → TaskComplexity
classify_task_complexity t =
    if leb 3 t.file_references || leb 2 t.multi_area_signals || leb 6 t.requested_actions
    then complex
    else if leb 2 t.file_references || leb 1 t.multi_area_signals || leb 3 t.requested_actions
    then medium
    else simple

unfoldable pub base_budget : TaskComplexity → ℕ
base_budget simple = 3
base_budget medium = 6
base_budget complex = 9

unfoldable pub exploration_budget_for : TaskComplexity → ℕ → ℕ → ℕ
unfolding base_budget
exploration_budget_for complexity max_turns scale =
    let scaled = max 1 ((base_budget complexity * min 1500 (max 500 scale) + 500) / 1000) in
    min scaled (max 1 (max_turns - 2))

pub record PhasePolicyState : Type 0 where
  pub phase : AgentPhase
  pub phase_started_turn : ℕ
  pub complexity : TaskComplexity
  pub exploration_budget : ℕ
  pub max_turns : ℕ
  pub goal : PhaseProgressGoal
  pub options : ResolvedAdaptiveOrchestrationOptions
  pub mutation_count : ℕ
  pub read_count : ℕ
  pub reread_count : ℕ
  pub read_only_turns : ℕ
  pub independent_areas : List Text
  pub automatic_delegations : ℕ
  pub verification_recovery_cycles : ℕ
  pub recovery_cycles : ℕ
  pub initial_transition_pending : Bool
  pub exploration_closed : Bool
  pub read_targets : List (Text × ℕ)

unfoldable pub create_phase_policy_state :
    TaskSignals → ℕ → PhaseProgressGoal → AdaptiveOrchestrationOptions → PhasePolicyState
unfolding resolve_adaptive_orchestration_options classify_task_complexity exploration_budget_for
create_phase_policy_state task max_turns goal options =
    let resolved = resolve_adaptive_orchestration_options options in
    let complexity = classify_task_complexity task in
    record {
      phase = explore;
      phase_started_turn = 0;
      complexity = complexity;
      exploration_budget =
          exploration_budget_for complexity max_turns resolved.exploration_budget_scale;
      max_turns = max_turns;
      goal = goal;
      options = resolved;
      mutation_count = 0;
      read_count = 0;
      reread_count = 0;
      read_only_turns = 0;
      independent_areas = [];
      automatic_delegations = 0;
      verification_recovery_cycles = 0;
      recovery_cycles = 0;
      initial_transition_pending = true;
      exploration_closed = false;
      read_targets = [];
    }

-- A tool invocation: the tool, a thrown error, its output, the exit code and the category in its
-- metadata, `args.path ?? args.file ?? args.directory` if that is a text, what
-- `extractShellReadTargets` finds in its command, and whether the pattern of `verificationTool`
-- matches the command.
pub record ToolInvocation : Type 0 where
  pub name : Text
  pub error : Option Text
  pub output : Text
  pub exit_code : Option ℕ
  pub category : Option ToolErrorCategory
  pub path : Option Text
  pub shell_targets : List Text
  pub verifies : Bool

-- `!!value` for a text that may be absent
unfoldable pub is_present : Option Text → Bool
is_present none = false
is_present (some []) = false
is_present (some (c ∷ s)) = true

unfoldable pub exited_well : Option ℕ → Bool
exited_well none = true
exited_well (some code) = code == 0

unfoldable pub invocation_succeeded : ToolInvocation → Bool
unfolding is_present exited_well
invocation_succeeded i = not (is_present i.error) && exited_well i.exit_code

-- The category that the text of an error and the output speak of.
unfoldable pub category_of_text : Text → Bool → Option ToolErrorCategory
category_of_text output thrown =
    let has = λ (s : String). includes output (codes s) in
    if has "circuit-open" || has "circuit open"
    then some circuit_open
    else if has "timeout"
    then some timeout
    else if has "blocked by" && has "hook"
    then some blocked_by_hook
    else if has "not found" || has "cannot read"
    then some not_found
    else if has "invalid" || has "hunk context"
    then some invalid_arguments
    else if thrown
    then some unknown
    else none

unfoldable pub unstructured_category : ToolInvocation → Option ToolErrorCategory
unfolding is_present category_of_text to_lower
unstructured_category i =
    if text_eq i.name (codes "run_shell") && not (is_present i.error)
    then none
    else category_of_text (to_lower (get_or i.error [] ++ 32 ∷ i.output)) (is_present i.error)

unfoldable pub invocation_error_category : ToolInvocation → Option ToolErrorCategory
unfolding invocation_succeeded unstructured_category
invocation_error_category i =
    if invocation_succeeded i
    then none
    else elim i.category [ some category ↦ some category | none ↦ unstructured_category i ]

unfoldable pub mutation_tool : PhaseProgressGoal → Text → Bool
mutation_tool plan name = text_eq name (codes "write_plan")
mutation_tool edit name =
    member name
      (codes "apply_patch" ∷ codes "edit_file" ∷ codes "write_file" ∷ codes "delete_file" ∷ [])

unfoldable pub verification_tool : ToolInvocation → Bool
verification_tool i =
    text_eq i.name (codes "read_lints") || (text_eq i.name (codes "run_shell") && i.verifies)
