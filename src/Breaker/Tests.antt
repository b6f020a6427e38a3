-- ===== src/Breaker/Tests.antt =====
-- The breaker of reliability.ts on concrete inputs, and its theorems there.
use ninjacode_agent.Breaker.{new, ToolCircuitBreaker, is_open, record_failure, record_success}
use ninjacode_agent.Breaker.Laws.{is_open_half}
use ninjacode_agent.Breaker.Refinement.{apply_all-refines, IsSoundAt}
use ninjacode_agent.Breaker.Spec.{
  Event, opened, apply_all, closed, fail, run_spec, probing, view, ask_spec,
}
use ninjacode_agent.Prelude.{◌≡◌, refl, false, none, List, [], ◌∷◌, arith}
use ninjacode_agent.Prelude.Maps.{get, insert}
use ninjacode_agent.Prelude.Texts.{member, Text, text_eq, codes}

abbrev shell_tool : Text
shell_tool = codes "run_shell"

abbrev three_failures : List Event
three_failures = fail 10 shell_tool ∷ fail 20 shell_tool ∷ fail 30 shell_tool ∷ []

-- A breaker that three failures have opened at time 30.
abbrev tripped : ToolCircuitBreaker
tripped = record {
  fails = (shell_tool, 3) ∷ [];
  opened_at = (shell_tool, 30) ∷ [];
  probing = [];
  threshold = 3;
  cooldown_ms = 60000;
}

trips : apply_all three_failures (new 3 none) ≡ tripped
unfolding apply_all new member insert get text_eq
trips = refl

tripped-IsSoundAt : IsSoundAt shell_tool tripped
unfolding member get text_eq
tripped-IsSoundAt = record { probing_opened = λ e. cc; opened_failed = λ e. omega arith }

tripped-view : view shell_tool tripped ≡ opened 30
unfolding view get member text_eq
tripped-view = refl

apply_all-refines_example :
    let b = apply_all three_failures (new 3 none) in
    let circuit = run_spec 3 60000 shell_tool three_failures (closed 0) in
    (view shell_tool b ≡ circuit) × ((is_open 40 shell_tool b).1 ≡ (ask_spec 3 60000 40 circuit).1)
apply_all-refines_example = apply_all-refines 3 none shell_tool three_failures 40

is_open_half_example :
    let b' = (is_open 60030 shell_tool tripped).0 in
    ((is_open 60030 shell_tool tripped).1 ≡ false)
    × ((is_open 60031 shell_tool b').1 ≡ false)
    × (view shell_tool b' ≡ probing 30)
    × (view shell_tool (record_failure 60031 shell_tool b') ≡ opened 60031)
    × (view shell_tool (record_success shell_tool b') ≡ closed 0)
is_open_half_example =
    is_open_half shell_tool tripped 30 60030 60031 tripped-IsSoundAt tripped-view (omega arith)
      (omega arith)
