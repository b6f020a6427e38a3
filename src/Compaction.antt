-- ===== src/Compaction.antt =====
-- packages/core/src/compactionGate.ts: when the history of a run is summarized. Windows and counts of
-- tokens are natural numbers, and fractions of them are taken exactly; of a history its length and
-- its estimated tokens are read.
pub mod Laws
mod Tests
use ninjacode_agent.Prelude.{
  ltb, get_or, ◌==◌, leb, if◌then◌else◌, keep, ℕ, ◌+◌, ◌-◌, ◌*◌, ◌/◌, min, max, Bool, false, not,
  ◌&&◌, Option,
}

abbrev pub base_context_window : ℕ
base_context_window = 128000

pub record CompactionLimits : Type 0 where
  pub hard_limit : ℕ
  pub keep_recent : ℕ
  pub input_budget : ℕ
  pub target_tokens : ℕ
  pub token_high_threshold : ℕ
  pub token_hard_threshold : ℕ

pub record LimitOptions : Type 0 where
  pub reserved_output_tokens : Option ℕ
  pub safety_margin_tokens : Option ℕ

pub data CompactionTrigger : Type 0 where
  manual token_high token_hard message_hard : CompactionTrigger

abbrev pub clamp : ℕ → ℕ → ℕ → ℕ
clamp value low high = min high (max low value)

-- `Math.round(base * contextWindow / BASE_CONTEXT_WINDOW)`
abbrev pub scaled : ℕ → ℕ → ℕ
scaled base window = (2 * (base * window) + base_context_window) / (2 * base_context_window)

-- `inputBudget` for a window that is not zero.
unfoldable pub budget_of : ℕ → LimitOptions → ℕ
budget_of window o = max 1 (
    window
    - get_or o.reserved_output_tokens 0
    - get_or o.safety_margin_tokens (max 512 (window * 5 / 100)))

-- The thresholds on tokens for an input budget.
unfoldable pub with_budget : ℕ → ℕ → ℕ → CompactionLimits
with_budget hard keep budget = record {
  hard_limit = hard;
  keep_recent = keep;
  input_budget = budget;
  target_tokens = budget * 60 / 100;
  token_high_threshold = budget * 85 / 100;
  token_hard_threshold = budget;
}

unfoldable pub scaled_keep : ℕ → ℕ
scaled_keep window = clamp (scaled 30 window) 12 120

-- An absent window and zero are the same.
unfoldable pub compute_compaction_limits : ℕ → LimitOptions → CompactionLimits
unfolding budget_of with_budget scaled_keep
compute_compaction_limits window o =
    if window == 0
    then with_budget 80 30 0
    else with_budget (max (scaled_keep window + 1) (clamp (scaled 80 window) 32 320))
        (scaled_keep window) (budget_of window o)

-- What is known of a history: its length, and the tokens of it, of the system text and the tools.
pub record Pressure : Type 0 where
  pub messages : ℕ
  pub history_tokens : ℕ
  pub system_tokens : Option ℕ
  pub tool_tokens : Option ℕ

unfoldable pub total_tokens : Pressure → ℕ
total_tokens p = p.history_tokens + get_or p.system_tokens 0 + get_or p.tool_tokens 0

unfoldable pub over_token_high : Pressure → CompactionLimits → Bool
unfolding total_tokens
over_token_high p l = ltb 0 l.token_high_threshold && ltb l.token_high_threshold (total_tokens p)

unfoldable pub over_token_hard : Pressure → CompactionLimits → Bool
unfolding total_tokens
over_token_hard p l = ltb 0 l.token_hard_threshold && ltb l.token_hard_threshold (total_tokens p)

unfoldable pub should_skip_compaction : Pressure → CompactionLimits → Bool → Bool
unfolding over_token_high
should_skip_compaction p l force =
    if force
    then false
    else if ltb 0 l.token_high_threshold
    then not (over_token_high p l) && leb p.messages l.hard_limit
    else leb p.messages l.hard_limit

unfoldable pub resolve_compaction_trigger : Pressure → CompactionLimits → Bool → CompactionTrigger
unfolding over_token_high over_token_hard
resolve_compaction_trigger p l force =
    if force
    then manual
    else if over_token_hard p l
    then token_hard
    else if over_token_high p l
    then token_high
    else if ltb l.hard_limit p.messages
    then message_hard
    else manual
