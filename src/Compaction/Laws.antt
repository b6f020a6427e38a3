-- ===== src/Compaction/Laws.antt =====
-- compactionGate.ts: the order of the limits, and the gate against the trigger.
use ninjacode_agent.Compaction.{
  should_skip_compaction, CompactionTrigger, compute_compaction_limits, over_token_high,
  scaled_keep, Pressure, scaled, manual, over_token_hard, resolve_compaction_trigger, LimitOptions,
  with_budget, clamp, budget_of, CompactionLimits,
}
use ninjacode_agent.Prelude.{
  if-holds, ◌==◌, keep, ℕ, ◌+◌, ◌≤◌, ◌<◌, max, ◌≡◌, refl, Bool, true, false, not, ◌&&◌, arith,
}

clamp-bounds :
    (value low high : ℕ) → low ≤ high → (low ≤ clamp value low high) × (clamp value low high ≤ high)
clamp-bounds value low high h = (omega arith, omega arith)

-- How the limits of a history stand to each other.
pub record IsOrdered (l : CompactionLimits) : Type 0 where
  pub keep_low : 12 ≤ l.keep_recent
  pub keep_high : l.keep_recent ≤ 120
  pub keeps_less : l.keep_recent < l.hard_limit
  pub hard_low : 32 ≤ l.hard_limit
  pub hard_high : l.hard_limit ≤ 320
  pub target : l.target_tokens ≤ l.token_high_threshold
  pub high : l.token_high_threshold ≤ l.token_hard_threshold
  pub budget : l.token_hard_threshold ≡ l.input_budget

with_budget-IsOrdered :
    (hard keep budget : ℕ)
    → 12 ≤ keep
    → keep ≤ 120
    → keep < hard
    → 32 ≤ hard
    → hard ≤ 320
    → IsOrdered (with_budget hard keep budget)
unfolding with_budget
with_budget-IsOrdered hard keep budget a b c d e = record {
  keep_low = a;
  keep_high = b;
  keeps_less = c;
  hard_low = d;
  hard_high = e;
  target = omega arith;
  high = omega arith;
  budget = refl;
}

-- Whatever the window and the options, the limits are ordered: fewer messages are kept than start a
-- compaction, both within their bounds, and the target is at most the high threshold, and that at
-- most the hard one, which is the whole input budget.
pub compute_compaction_limits-IsOrdered :
    (window : ℕ) (o : LimitOptions) → IsOrdered (compute_compaction_limits window o)
unfolding compute_compaction_limits scaled_keep
compute_compaction_limits-IsOrdered window o =
    let (low, high) = clamp-bounds (scaled 30 window) 12 120 (omega arith) in
    let (least, most) = clamp-bounds (scaled 80 window) 32 320 (omega arith) in
    if-holds IsOrdered (window == 0) (with_budget 80 30 0)
      (with_budget (max (scaled_keep window + 1) (clamp (scaled 80 window) 32 320))
        (scaled_keep window) (budget_of window o))
      (λ _.
        with_budget-IsOrdered 80 30 0 (omega arith) (omega arith) (omega arith) (omega arith)
          (omega arith))
      (λ _.
        with_budget-IsOrdered _ (scaled_keep window) (budget_of window o) low high (omega arith)
          (omega (arith, least)) (omega (arith, high, most)))

unfoldable pub is_manual : CompactionTrigger → Bool
is_manual manual = true
is_manual _ = false

-- The gate and the trigger agree: without force, a compaction is skipped exactly if there is no
-- reason for one; with force it is never skipped, and the reason is the manual one. It is assumed
-- that the high threshold is not above the hard one, and zero only if that is.
pub should_skip_compaction-trigger :
    (p : Pressure) (l : CompactionLimits) (force : Bool)
    → l.token_high_threshold ≤ l.token_hard_threshold
    → (l.token_high_threshold ≡ 0 → l.token_hard_threshold ≡ 0)
    → (should_skip_compaction p l force
        ≡ (not force && is_manual (resolve_compaction_trigger p l force)))
      × (is_manual (resolve_compaction_trigger p l true) ≡ true)
unfolding should_skip_compaction resolve_compaction_trigger over_token_high over_token_hard
    is_manual
should_skip_compaction-trigger p l force le both = (ground arith, refl)
