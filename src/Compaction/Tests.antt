-- ===== src/Compaction/Tests.antt =====
-- compactionGate.ts on concrete inputs, and its theorems there.
use ninjacode_agent.Compaction.{
  should_skip_compaction, compute_compaction_limits, Pressure, token_hard,
  resolve_compaction_trigger, LimitOptions, with_budget, CompactionLimits,
}
use ninjacode_agent.Compaction.Laws.{
  should_skip_compaction-trigger, is_manual, compute_compaction_limits-IsOrdered, IsOrdered,
}
use ninjacode_agent.Prelude.{◌≤◌, ◌≡◌, refl, true, false, not, ◌&&◌, none, some, arith}

abbrev no_options : LimitOptions
no_options = record { reserved_output_tokens = none; safety_margin_tokens = none }

abbrev wide : CompactionLimits
wide = compute_compaction_limits 128000 no_options

wide_limits : wide ≡ record {
  hard_limit = 80;
  keep_recent = 30;
  input_budget = 121600;
  target_tokens = 72960;
  token_high_threshold = 103360;
  token_hard_threshold = 121600;
}
unfolding compute_compaction_limits
wide_limits = refl

compute_compaction_limits-IsOrdered_example : IsOrdered wide
compute_compaction_limits-IsOrdered_example = compute_compaction_limits-IsOrdered 128000 no_options

abbrev long_history : Pressure
long_history = record {
  messages = 40;
  history_tokens = 100000;
  system_tokens = some 3000;
  tool_tokens = some 900;
}

abbrev limits : CompactionLimits
limits = with_budget 80 30 121600

high_under_hard : limits.token_high_threshold ≤ limits.token_hard_threshold
unfolding with_budget
high_under_hard = omega arith

high_not_zero : limits.token_high_threshold ≡ 0 → limits.token_hard_threshold ≡ 0
unfolding with_budget
high_not_zero h = omega arith

should_skip_compaction-trigger_example :
    (should_skip_compaction long_history limits false
      ≡ (not false && is_manual (resolve_compaction_trigger long_history limits false)))
    × (is_manual (resolve_compaction_trigger long_history limits true) ≡ true)
should_skip_compaction-trigger_example =
    should_skip_compaction-trigger long_history limits false high_under_hard high_not_zero

-- With an input budget of one token the high threshold is zero, and a history above the hard one is
-- not compacted.
skips_over_hard :
    (should_skip_compaction long_history (with_budget 80 30 1) false ≡ true)
    × (resolve_compaction_trigger long_history (with_budget 80 30 1) false ≡ token_hard)
unfolding should_skip_compaction resolve_compaction_trigger with_budget
skips_over_hard = (refl, refl)
