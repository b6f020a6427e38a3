-- ===== src/Breaker.antt =====
-- packages/core/src/reliability.ts, `ToolCircuitBreaker`: a tool is blocked after a number of
-- failures in a row, and half-opens after a cooldown. The clock's reading is an argument. Times are
-- natural numbers of milliseconds; `now - t < cooldown` is written without the subtraction.
pub mod Spec
pub mod Refinement
pub mod Laws
mod Tests
use ninjacode_agent.Prelude.{
  ltb, get_or, is_some, leb, if◌then◌else◌, keep, ℕ, ◌+◌, Bool, true, false, Option, none, some,
  List, [], ◌∷◌,
}
use ninjacode_agent.Prelude.Maps.{add, keys, get, remove, delete, insert}
use ninjacode_agent.Prelude.Texts.{member, Text}

abbrev pub breaker_cooldown_ms : ℕ
breaker_cooldown_ms = 60000

pub record ToolCircuitBreaker : Type 0 where
  pub fails : List (Text × ℕ)
  pub opened_at : List (Text × ℕ)
  pub probing : List Text
  pub threshold : ℕ
  pub cooldown_ms : ℕ

unfoldable pub new : ℕ → Option ℕ → ToolCircuitBreaker
new threshold cooldown = record {
  fails = [];
  opened_at = [];
  probing = [];
  threshold = threshold;
  cooldown_ms = get_or cooldown breaker_cooldown_ms;
}

-- `openedAt !== undefined && now - openedAt < cooldownMs`
unfoldable pub blocked_since : ℕ → ℕ → Option ℕ → Bool
blocked_since now cooldown none = false
blocked_since now cooldown (some since) = ltb now (since + cooldown)

unfoldable pub is_blocked : ℕ → Text → ToolCircuitBreaker → Bool
unfolding blocked_since
is_blocked now tool b = blocked_since now b.cooldown_ms (get tool b.opened_at)

-- Asking may add the tool to `probing`.
unfoldable pub is_open : ℕ → Text → ToolCircuitBreaker → ToolCircuitBreaker × Bool
unfolding is_blocked
is_open now tool b =
    if is_blocked now tool b
    then (b, true)
    else if is_some (get tool b.opened_at)
    then (record b { probing = add tool b.probing }, false)
    else (b, false)

unfoldable pub record_success : Text → ToolCircuitBreaker → ToolCircuitBreaker
record_success tool b = record b {
  fails = delete tool b.fails;
  opened_at = delete tool b.opened_at;
  probing = remove tool b.probing;
}

unfoldable pub record_failure : ℕ → Text → ToolCircuitBreaker → ToolCircuitBreaker
record_failure now tool b =
    let n = get_or (get tool b.fails) 0 + 1 in
    if member tool b.probing
    then record b { probing = remove tool b.probing; opened_at = insert tool now b.opened_at }
    else record b {
      fails = insert tool n b.fails;
      opened_at = if leb b.threshold n then insert tool now b.opened_at else b.opened_at;
    }

-- `reset(name)` and `reset()`; an empty name counts as none.
unfoldable pub reset : Option Text → ToolCircuitBreaker → ToolCircuitBreaker
unfolding record_success
reset none b = record b { fails = []; opened_at = []; probing = [] }
reset (some []) b = record b { fails = []; opened_at = []; probing = [] }
reset (some (c ∷ tool)) b = record_success (c ∷ tool) b

unfoldable pub disabled_tools : ℕ → ToolCircuitBreaker → List Text
unfolding is_blocked
disabled_tools now b = keep (λ name. is_blocked now name b) (keys b.opened_at)
