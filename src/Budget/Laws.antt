-- ===== src/Budget/Laws.antt =====
-- What the budget tracker of reliability.ts guarantees.
use ninjacode_agent.Budget.{
  SessionBudget, AddOptions, BudgetTracker, cost_of, new, ModelPricing, plus, add, check, reached,
  Usage,
}
use ninjacode_agent.Prelude.{
  get_or, ℕ, ◌+◌, ◌≤◌, ◌<◌, ◌≡◌, refl, ap, ◌∙◌, ◌≢◌, ◌↔◌, false, Option, none, some, List, [], ◌∷◌,
  arith,
}

unfoldable pub add_all : List (Usage × AddOptions) → BudgetTracker → BudgetTracker
add_all [] b = b
add_all ((u, o) ∷ calls) b = add_all calls (add u o b)

-- The calls so far are at least those of a tracker before.
pub record Grown (b c : BudgetTracker) : Type 0 where
  pub same_budget : c.budget ≡ b.budget
  pub input : b.all_calls.input ≤ c.all_calls.input
  pub output : b.all_calls.output ≤ c.all_calls.output
  pub cost : b.all_calls.cost ≤ c.all_calls.cost

add-Grown : (u : Usage) (o : AddOptions) (b : BudgetTracker) → Grown b (add u o b)
unfolding add
add-Grown u o b = ground arith

Grown-trans : {a b c : BudgetTracker} → Grown a b → Grown b c → Grown a c
Grown-trans p q = record {
  same_budget = q.same_budget ∙ p.same_budget;
  input = omega (arith, p, q);
  output = omega (arith, p, q);
  cost = omega (arith, p, q);
}

pub add_all-Grown :
    (calls : List (Usage × AddOptions)) (b : BudgetTracker) → Grown b (add_all calls b)
unfolding add_all
add_all-Grown [] b = record {
  same_budget = refl;
  input = omega arith;
  output = omega arith;
  cost = omega arith;
}
add_all-Grown ((u, o) ∷ calls) b = Grown-trans (add-Grown u o b) (add_all-Grown calls (add u o b))

check-Grown : (b c : BudgetTracker) → Grown b c → check b ≢ none → check c ≢ none
unfolding check
check-Grown b c g over fine = ground arith

-- A budget that has run out stays so, whatever is called afterwards.
pub check-add_all :
    (calls : List (Usage × AddOptions)) (b : BudgetTracker)
    → check b ≢ none
    → check (add_all calls b) ≢ none
check-add_all calls b over = check-Grown b (add_all calls b) (add_all-Grown calls b) over

-- The sum of a number over the calls.
abbrev pub sum_over : {A : Type 0} → (A → ℕ) → List A → ℕ
sum_over number [] = 0
sum_over number (x ∷ xs) = number x + sum_over number xs

-- What a call costs: at its own prices, where it has some.
abbrev pub call_cost : ModelPricing → Usage × AddOptions → ℕ
call_cost pricing (u, o) = cost_of (get_or o.pricing pricing) u

-- A limit is not set, or above what has been spent.
abbrev pub IsBelow : Option ℕ → ℕ → Type 0
IsBelow none spent = Unit {0}
IsBelow (some limit) spent = spent < limit

reached-IsBelow :
    (limit : Option ℕ) (spent : ℕ) → (reached limit spent ≡ false) ↔ IsBelow limit spent
unfolding reached
reached-IsBelow none spent = (λ _. tt, λ _. refl)
reached-IsBelow (some limit) spent = (λ h. ground arith, λ h. ground arith)

below :
    {limit' : Option ℕ} (limit : Option ℕ) (spent spent' : ℕ)
    → limit' ≡ limit
    → spent' ≡ spent
    → (reached limit' spent' ≡ false) ↔ IsBelow limit spent
below {limit'} limit spent spent' l e =
    (λ h. (reached-IsBelow limit spent).0 cc, λ h. let g = (reached-IsBelow limit spent).1 h in cc)

-- The totals of a tracker after some calls, with its budget and its prices.
record HasSpent (calls : List (Usage × AddOptions)) (b c : BudgetTracker) : Type 0 where
  same_budget : c.budget ≡ b.budget
  same_pricing : c.pricing ≡ b.pricing
  input : c.all_calls.input ≡ b.all_calls.input + sum_over (λ x. x.0.input_tokens) calls
  output : c.all_calls.output ≡ b.all_calls.output + sum_over (λ x. x.0.output_tokens) calls
  cost : c.all_calls.cost ≡ b.all_calls.cost + sum_over (call_cost b.pricing) calls

add-then :
    (u : Usage) (o : AddOptions) (b : BudgetTracker) (calls : List (Usage × AddOptions))
    (c : BudgetTracker)
    → HasSpent calls (add u o b) c
    → HasSpent ((u, o) ∷ calls) b c
unfolding add plus
add-then u o b calls c h = ground (arith, h)

add_all-HasSpent :
    (calls : List (Usage × AddOptions)) (b : BudgetTracker) → HasSpent calls b (add_all calls b)
unfolding add_all add
add_all-HasSpent [] b = record {
  same_budget = refl;
  same_pricing = refl;
  input = omega arith;
  output = omega arith;
  cost = omega arith;
}
add_all-HasSpent ((u, o) ∷ calls) b =
    add-then u o b calls (add_all calls (add u o b)) (add_all-HasSpent calls (add u o b))

check-eq-none_iff :
    (b : BudgetTracker)
    → (check b ≡ none) ↔ (
        (reached b.budget.max_input_tokens b.all_calls.input ≡ false)
        × (reached b.budget.max_output_tokens b.all_calls.output ≡ false)
        × (reached b.budget.max_total_tokens (b.all_calls.input + b.all_calls.output) ≡ false)
        × (reached b.budget.max_cost b.all_calls.cost ≡ false))
unfolding check
check-eq-none_iff b = (λ h. ground arith, λ h. ground arith)

-- After any calls on a new tracker the check passes exactly if each limit that is set is above the sum
-- over the calls: of their input tokens, of their output tokens, of both, and of their costs, each call
-- at its own prices or else at those of the tracker. A limit that is just reached fails the check.
pub check-add_all-new :
    (calls : List (Usage × AddOptions)) (budget : SessionBudget) (pricing : ModelPricing)
    → let input = sum_over (λ x. x.0.input_tokens) calls in
      let output = sum_over (λ x. x.0.output_tokens) calls in
      (check (add_all calls (new budget pricing)) ≡ none) ↔ (
        IsBelow budget.max_input_tokens input
        × IsBelow budget.max_output_tokens output
        × IsBelow budget.max_total_tokens (input + output)
        × IsBelow budget.max_cost (sum_over (call_cost pricing) calls))
unfolding new
check-add_all-new calls budget pricing =
    let c = add_all calls (new budget pricing) in
    let h = add_all-HasSpent calls (new budget pricing) in
    let input =
      below budget.max_input_tokens (sum_over (λ x. x.0.input_tokens) calls) c.all_calls.input
        (ap (λ b. b.max_input_tokens) h.same_budget) (omega (arith, h.input)) in
    let output =
      below budget.max_output_tokens (sum_over (λ x. x.0.output_tokens) calls) c.all_calls.output
        (ap (λ b. b.max_output_tokens) h.same_budget) (omega (arith, h.output)) in
    let total =
      below budget.max_total_tokens
        (sum_over (λ x. x.0.input_tokens) calls + sum_over (λ x. x.0.output_tokens) calls)
        (c.all_calls.input + c.all_calls.output) (ap (λ b. b.max_total_tokens) h.same_budget)
        (omega (arith, h.input, h.output)) in
    let cost =
      below budget.max_cost (sum_over (call_cost pricing) calls) c.all_calls.cost
        (ap (λ b. b.max_cost) h.same_budget) (omega (arith, h.cost)) in
    let passes = check-eq-none_iff c in
    (
      λ e. let (i, o, t, k) = passes.0 e in (input.0 i, output.0 o, total.0 t, cost.0 k),
      λ (i, o, t, k). passes.1 (input.1 i, output.1 o, total.1 t, cost.1 k),
    )

-- What compaction has spent is part of what all calls have spent.
pub record IsShare (b : BudgetTracker) : Type 0 where
  pub input : b.compaction.input ≤ b.all_calls.input
  pub output : b.compaction.output ≤ b.all_calls.output
  pub cache_read : b.compaction.cache_read ≤ b.all_calls.cache_read
  pub cache_write : b.compaction.cache_write ≤ b.all_calls.cache_write
  pub cost : b.compaction.cost ≤ b.all_calls.cost

add-IsShare : (u : Usage) (o : AddOptions) (b : BudgetTracker) → IsShare b → IsShare (add u o b)
unfolding add
add-IsShare u o b h = ground arith

add_all-IsShare :
    (calls : List (Usage × AddOptions)) (b : BudgetTracker) → IsShare b → IsShare (add_all calls b)
unfolding add_all
add_all-IsShare [] b h = h
add_all-IsShare ((u, o) ∷ calls) b h = add_all-IsShare calls (add u o b) (add-IsShare u o b h)

-- Whatever calls a new tracker has seen, the tokens and the cost of compaction are at most those of
-- all calls, for each kind of token.
pub add_all-new-IsShare :
    (calls : List (Usage × AddOptions)) (budget : SessionBudget) (pricing : ModelPricing)
    → IsShare (add_all calls (new budget pricing))
unfolding new
add_all-new-IsShare calls budget pricing = add_all-IsShare calls (new budget pricing) (omega arith)
