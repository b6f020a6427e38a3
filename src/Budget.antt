-- ===== src/Budget.antt =====
-- packages/core/src/reliability.ts, `BudgetTracker`. Prices are natural numbers of some unit of
-- money for a million tokens; a cost is in that unit divided by 10^8, in which the two multipliers
-- 0.1 and 1.25 leave whole numbers.
pub mod Laws
mod Tests
use ninjacode_agent.Prelude.{
  get_or, leb, if◌then◌else◌, ℕ, ◌+◌, ◌*◌, Bool, false, Option, none, some,
}
use ninjacode_agent.Prelude.Texts.{Text}

pub record ModelPricing : Type 0 where
  pub input : ℕ
  pub output : ℕ
  pub cache_read : Option ℕ
  pub cache_write : Option ℕ

pub record SessionBudget : Type 0 where
  pub max_input_tokens : Option ℕ
  pub max_output_tokens : Option ℕ
  pub max_total_tokens : Option ℕ
  pub max_cost : Option ℕ

pub record Usage : Type 0 where
  pub input_tokens : ℕ
  pub output_tokens : ℕ
  pub cache_read_tokens : Option ℕ
  pub cache_write_tokens : Option ℕ

-- `is_compaction` stands for `category === "compaction"`.
pub record AddOptions : Type 0 where
  pub is_compaction : Bool
  pub pricing : Option ModelPricing
  pub duration_ms : Option ℕ
  pub model : Option Text

pub record Totals : Type 0 where
  pub input : ℕ
  pub output : ℕ
  pub cache_read : ℕ
  pub cache_write : ℕ
  pub cost : ℕ

pub record BudgetTracker : Type 0 where
  pub budget : SessionBudget
  pub pricing : ModelPricing
  pub all_calls : Totals
  pub compaction : Totals
  pub compaction_count : ℕ
  pub compaction_duration_ms : ℕ
  pub compaction_model : Option Text

abbrev pub no_totals : Totals
no_totals = record { input = 0; output = 0; cache_read = 0; cache_write = 0; cost = 0 }

unfoldable pub new : SessionBudget → ModelPricing → BudgetTracker
new budget pricing = record {
  budget = budget;
  pricing = pricing;
  all_calls = no_totals;
  compaction = no_totals;
  compaction_count = 0;
  compaction_duration_ms = 0;
  compaction_model = none;
}

-- A price times 100, with the multiplier of the input price where it is absent.
unfoldable pub price_or : Option ℕ → ℕ → ℕ
price_or none scaled = scaled
price_or (some price) scaled = price * 100

unfoldable pub cost_of : ModelPricing → Usage → ℕ
unfolding price_or
cost_of p u =
    u.input_tokens * (p.input * 100)
    + get_or u.cache_read_tokens 0 * price_or p.cache_read (p.input * 10)
    + get_or u.cache_write_tokens 0 * price_or p.cache_write (p.input * 125)
    + u.output_tokens * (p.output * 100)

unfoldable pub plus : Totals → Usage → ℕ → Totals
plus t u cost = record {
  input = t.input + u.input_tokens;
  output = t.output + u.output_tokens;
  cache_read = t.cache_read + get_or u.cache_read_tokens 0;
  cache_write = t.cache_write + get_or u.cache_write_tokens 0;
  cost = t.cost + cost;
}

-- `a ?? b`, where b may be absent too.
unfoldable pub first_some : Option Text → Option Text → Option Text
first_some none b = b
first_some (some a) b = some a

unfoldable pub add : Usage → AddOptions → BudgetTracker → BudgetTracker
unfolding plus first_some
add u o b =
    let cost = cost_of (get_or o.pricing b.pricing) u in
    let counted = record b { all_calls = plus b.all_calls u cost } in
    if o.is_compaction
    then record counted {
      compaction = plus b.compaction u cost;
      compaction_count = b.compaction_count + 1;
      compaction_duration_ms = b.compaction_duration_ms + get_or o.duration_ms 0;
      compaction_model = first_some o.model b.compaction_model;
    }
    else counted

-- Why a check fails; the message adds the amount spent.
pub data Reason : Type 0 where
  input_exceeded output_exceeded total_exceeded cost_exceeded : ℕ → Reason

-- `limit != null && spent >= limit`
unfoldable pub reached : Option ℕ → ℕ → Bool
reached none spent = false
reached (some limit) spent = leb limit spent

unfoldable pub check : BudgetTracker → Option Reason
unfolding reached
check b =
    if reached b.budget.max_input_tokens b.all_calls.input
    then some (input_exceeded b.all_calls.input)
    else if reached b.budget.max_output_tokens b.all_calls.output
    then some (output_exceeded b.all_calls.output)
    else if reached b.budget.max_total_tokens (b.all_calls.input + b.all_calls.output)
    then some (total_exceeded (b.all_calls.input + b.all_calls.output))
    else if reached b.budget.max_cost b.all_calls.cost
    then some (cost_exceeded b.all_calls.cost)
    else none
