-- ===== src/Breaker/Laws.antt =====
-- What follows for a caller of the breaker of reliability.ts.
use native.Mathlib.Nat.{zero-add}
use ninjacode_agent.Breaker.{
  new, disabled_tools, ToolCircuitBreaker, is_open, record_failure, breaker_cooldown_ms, is_blocked,
  record_success,
}
use ninjacode_agent.Breaker.Refinement.{
  fail_sound, is_open-ask_spec, is_open-cooldown, apply_all-refines, success_sound, ask_sound,
  IsSoundAt,
}
use ninjacode_agent.Breaker.Spec.{
  Event, opened, apply_all, closed, fail, fail_spec, run_spec, probing, step_spec, view, ask_spec,
}
use ninjacode_agent.Prelude.{
  ltb, get_or, Bool-cases, is_some, leb, length, keep, ℕ, ◌+◌, ◌≤◌, ◌≡◌, refl, ap, ◌∙◌, inl, inr,
  Bool, false, ◌&&◌, Option, List, [], ◌∷◌, ◌++◌, arith,
}
use ninjacode_agent.Prelude.Maps.{keys, get}
use ninjacode_agent.Prelude.Texts.{member, Text, text_eq_refl, text_eq, text_eq→≡}

abbrev failures : Text → List ℕ → List Event
failures tool [] = []
failures tool (t ∷ times) = fail t tool ∷ failures tool times

-- Once opened, each further failure opens it anew.
run_opened :
    (n cd s : ℕ) (tool : Text) (times : List ℕ) (t now : ℕ)
    → (ask_spec n cd now (run_spec n cd tool (failures tool (times ++ t ∷ [])) (opened s))).1
      ≡ ltb now (t + cd)
unfolding run_spec step_spec fail_spec ask_spec
run_opened n cd s tool [] t now = ground (arith, text_eq_refl tool)
run_opened n cd s tool (r ∷ times) t now =
    ground (arith, text_eq_refl tool, run_opened n cd r tool times t now)

run_failures :
    (n cd k : ℕ) (tool : Text) (times : List ℕ) (t now : ℕ)
    → (ask_spec n cd now (run_spec n cd tool (failures tool (times ++ t ∷ [])) (closed k))).1
      ≡ (leb n (k + length times + 1) && ltb now (t + cd))
unfolding run_spec step_spec fail_spec ask_spec
run_failures n cd k tool [] t now = ground (arith, text_eq_refl tool)
run_failures n cd k tool (s ∷ times) t now = elim (Bool-cases (leb n (k + 1))) [
  | inl trips ↦ ground (arith, text_eq_refl tool, run_opened n cd s tool times t now)
  | inr counts ↦ ground (arith, text_eq_refl tool, run_failures n cd (k + 1) tool times t now)
]

-- After failures of one tool in a row on a new breaker, the last at time t, the tool is blocked
-- exactly if there were at least `threshold` of them and the cooldown since t is not over.
pub is_open-failures :
    (n : ℕ) (c : Option ℕ) (tool : Text) (times : List ℕ) (t now : ℕ)
    → (is_open now tool (apply_all (failures tool (times ++ t ∷ [])) (new n c))).1
      ≡ (leb n (length times + 1) && ltb now (t + get_or c breaker_cooldown_ms))
is_open-failures n c tool times t now =
    (apply_all-refines n c tool (failures tool (times ++ t ∷ [])) now).1
    ∙ (run_failures n (get_or c breaker_cooldown_ms) 0 tool times t now
        ∙ ap (λ k. leb n (k + 1) && ltb now (t + get_or c breaker_cooldown_ms))
            (zero-add (length times)))

-- When the cooldown of an opened tool is over, the breaker lets the call through, and the next one
-- too, if no result has been recorded: half-opening does not hold callers to one probe. A failure
-- then blocks the tool for a whole cooldown, and a success closes it and forgets all failures.
pub is_open_half :
    (tool : Text) (b : ToolCircuitBreaker) (t now later : ℕ)
    → IsSoundAt tool b
    → view tool b ≡ opened t
    → t + b.cooldown_ms ≤ now
    → now ≤ later
    → let b' = (is_open now tool b).0 in
      ((is_open now tool b).1 ≡ false)
      × ((is_open later tool b').1 ≡ false)
      × (view tool b' ≡ probing t)
      × (view tool (record_failure later tool b') ≡ opened later)
      × (view tool (record_success tool b') ≡ closed 0)
unfolding step_spec ask_spec fail_spec
is_open_half tool b t now later h v over le =
    let b' = (is_open now tool b).0 in
    let (sound, asked) = ask_sound tool b h now tool in
    let failed = (fail_sound tool b' sound later tool).1 in
    let fixed = (success_sound tool b' sound tool).1 in
    let kept = is_open-cooldown now tool b in
    (
      ground (arith, text_eq_refl tool, is_open-ask_spec now tool b),
      ground (arith, text_eq_refl tool, asked, kept, is_open-ask_spec later tool b'),
      ground (arith, text_eq_refl tool, asked),
      ground (arith, text_eq_refl tool, asked, failed),
      ground (arith, text_eq_refl tool, fixed),
    )

member-keep :
    (p : Text → Bool) (tool : Text) (names : List Text)
    → member tool (keep p names) ≡ (member tool names && p tool)
unfolding member
member-keep p tool [] = refl
member-keep p tool (x ∷ names) = elim (Bool-cases (text_eq x tool)) [
  | inl same ↦
      rw (text_eq→≡ x tool same) (ground (arith, text_eq_refl tool, member-keep p tool names))
  | inr other ↦ ground (arith, member-keep p tool names)
]

member-keys : (tool : Text) (m : List (Text × ℕ)) → member tool (keys m) ≡ is_some (get tool m)
unfolding member keys get
member-keys tool [] = refl
member-keys tool ((j, t) ∷ m) = ground (arith, member-keys tool m)

-- The list of disabled tools holds exactly the tools that are blocked at that time.
pub member-disabled_tools :
    (now : ℕ) (tool : Text) (b : ToolCircuitBreaker)
    → member tool (disabled_tools now b) ≡ is_blocked now tool b
unfolding disabled_tools
member-disabled_tools now tool b = ground (
  arith,
  member-keep (λ (name : Text). is_blocked now name b) tool (keys b.opened_at),
  member-keys tool b.opened_at,
)
