-- ===== src/Breaker/Spec.antt =====
-- What the breaker of reliability.ts promises of one tool, as a state machine of three states.
use ninjacode_agent.Breaker.{reset, ToolCircuitBreaker, is_open, record_failure, record_success}
use ninjacode_agent.Prelude.{
  ltb, get_or, leb, if◌then◌else◌, ℕ, ◌+◌, Bool, true, false, Option, none, some, List, [], ◌∷◌,
}
use ninjacode_agent.Prelude.Maps.{get}
use ninjacode_agent.Prelude.Texts.{member, Text, text_eq}

-- `closed n`: n failures in a row. `opened t`: blocked from time t. `probing t`: half-open, last
-- opened at t.
pub data Circuit : Type 0 where
  closed opened probing : ℕ → Circuit

pub data Event : Type 0 where
  ask fail : ℕ → Text → Event
  succeed : Text → Event
  clear : Option Text → Event

-- One event on the whole breaker, and the answer where the event is a question.
unfoldable pub apply : Event → ToolCircuitBreaker → ToolCircuitBreaker × Bool
unfolding is_open record_success record_failure reset
apply (ask now tool) b = is_open now tool b
apply (fail now tool) b = (record_failure now tool b, false)
apply (succeed tool) b = (record_success tool b, false)
apply (clear tool) b = (reset tool b, false)

unfoldable pub apply_all : List Event → ToolCircuitBreaker → ToolCircuitBreaker
unfolding apply
apply_all [] b = b
apply_all (e ∷ es) b = apply_all es (apply e b).0

-- What a breaker shows of one tool.
unfoldable pub view_at : Option ℕ → Bool → Option ℕ → Circuit
view_at none p fails = closed (get_or fails 0)
view_at (some t) true fails = probing t
view_at (some t) false fails = opened t

unfoldable pub view : Text → ToolCircuitBreaker → Circuit
unfolding view_at
view tool b = view_at (get tool b.opened_at) (member tool b.probing) (get tool b.fails)

module _ (threshold cooldown : ℕ) where
  unfoldable pub ask_spec : ℕ → Circuit → Circuit × Bool
  ask_spec now (closed n) = (closed n, false)
  ask_spec now (opened t) = if ltb now (t + cooldown) then (opened t, true) else (probing t, false)
  ask_spec now (probing t) = (probing t, ltb now (t + cooldown))

  unfoldable pub fail_spec : ℕ → Circuit → Circuit
  fail_spec now (closed n) = if leb threshold (n + 1) then opened now else closed (n + 1)
  fail_spec now (opened t) = opened now
  fail_spec now (probing t) = opened now

  -- An event moves the circuit of the tool that it names, and of no other.
  unfoldable pub step_spec : Text → Event → Circuit → Circuit
  unfolding ask_spec fail_spec
  step_spec tool (ask now name) c = if text_eq name tool then (ask_spec now c).0 else c
  step_spec tool (fail now name) c = if text_eq name tool then fail_spec now c else c
  step_spec tool (succeed name) c = if text_eq name tool then closed 0 else c
  step_spec tool (clear none) c = closed 0
  step_spec tool (clear (some [])) c = closed 0
  step_spec tool (clear (some (x ∷ name))) c = if text_eq (x ∷ name) tool then closed 0 else c

  unfoldable pub run_spec : Text → List Event → Circuit → Circuit
  unfolding step_spec
  run_spec tool [] c = c
  run_spec tool (e ∷ es) c = run_spec tool es (step_spec tool e c)
