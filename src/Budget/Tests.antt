-- ===== src/Budget/Tests.antt =====
-- The budget tracker of reliability.ts on concrete inputs, and its theorems there.
use ninjacode_agent.Budget.{
  SessionBudget, AddOptions, BudgetTracker, cost_of, input_exceeded, new, ModelPricing, add, check,
  Usage,
}
use ninjacode_agent.Budget.Laws.{add_all, call_cost, sum_over, IsBelow, check-add_all-new}
use ninjacode_agent.Prelude.{◌+◌, ◌≡◌, refl, ◌≢◌, ◌↔◌, true, none, some, [], ◌∷◌}

abbrev prices : ModelPricing
prices = record { input = 3; output = 15; cache_read = none; cache_write = none }

abbrev limits : SessionBudget
limits = record {
  max_input_tokens = some 100;
  max_output_tokens = none;
  max_total_tokens = none;
  max_cost = none;
}

abbrev tight : SessionBudget
tight = record limits { max_input_tokens = some 120 }

abbrev big_call : Usage × AddOptions
big_call = (
  record {
    input_tokens = 120;
    output_tokens = 10;
    cache_read_tokens = some 40;
    cache_write_tokens = none;
  },
  record { is_compaction = true; pricing = none; duration_ms = none; model = none },
)

-- 120 * 3 + 40 * 0.3 + 10 * 15, in hundredths.
big_call_cost : cost_of prices big_call.0 ≡ 52200
unfolding cost_of
big_call_cost = refl

abbrev spent : BudgetTracker
spent = record (new limits prices) {
  all_calls = record { input = 120; output = 10; cache_read = 40; cache_write = 0; cost = 52200 };
}

spent_fails : check spent ≢ none
unfolding check new
spent_fails e = cc

-- The limit is just reached.
just_reached : check (add_all (big_call ∷ []) (new tight prices)) ≡ some (input_exceeded 120)
unfolding check add_all add new
just_reached = refl

check-add_all-new_example : (check (add_all (big_call ∷ []) (new tight prices)) ≡ none) ↔ (
    IsBelow (some 120) (sum_over (λ x. x.0.input_tokens) (big_call ∷ []))
    × IsBelow none (sum_over (λ x. x.0.output_tokens) (big_call ∷ []))
    × IsBelow none (
        sum_over (λ x. x.0.input_tokens) (big_call ∷ [])
        + sum_over (λ x. x.0.output_tokens) (big_call ∷ []))
    × IsBelow none (sum_over (call_cost prices) (big_call ∷ [])))
check-add_all-new_example = check-add_all-new (big_call ∷ []) tight prices
