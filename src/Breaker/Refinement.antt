-- ===== src/Breaker/Refinement.antt =====
-- The breaker of reliability.ts, seen through one tool, beside the state machine of Breaker/Spec.
use ninjacode_agent.Breaker.{
  new, reset, ToolCircuitBreaker, is_open, record_failure, breaker_cooldown_ms, record_success,
}
use ninjacode_agent.Breaker.Spec.{
  Event, apply, clear, apply_all, closed, fail, run_spec, step_spec, view, ask_spec, succeed, ask,
  Circuit,
}
use ninjacode_agent.Prelude.{
  get_or, is_some, ℕ, ◌+◌, ◌≤◌, ◌≡◌, refl, ◌∙◌, true, Option, none, some, List, [], ◌∷◌, arith,
}
use ninjacode_agent.Prelude.Maps.{get-insert, get-delete, member-add, member-remove, get}
use ninjacode_agent.Prelude.Texts.{member, text_eq_iff, Text}

-- For one tool: only an opened tool is probing, and it is open exactly from `threshold` failures on.
pub record IsSoundAt (tool : Text) (b : ToolCircuitBreaker) : Type 0 where
  pub probing_opened : member tool b.probing ≡ true → is_some (get tool b.opened_at) ≡ true
  pub opened_failed :
      is_some (get tool b.opened_at) ≡ true → b.threshold ≤ get_or (get tool b.fails) 0

apply-threshold : (e : Event) (b : ToolCircuitBreaker) → (apply e b).0.threshold ≡ b.threshold
unfolding apply
apply-threshold (ask now tool) b = ground arith
apply-threshold (fail now tool) b = ground arith
apply-threshold (succeed tool) b = refl
apply-threshold (clear none) b = refl
apply-threshold (clear (some [])) b = refl
apply-threshold (clear (some (x ∷ t))) b = refl

apply-cooldown : (e : Event) (b : ToolCircuitBreaker) → (apply e b).0.cooldown_ms ≡ b.cooldown_ms
unfolding apply
apply-cooldown (ask now tool) b = ground arith
apply-cooldown (fail now tool) b = ground arith
apply-cooldown (succeed tool) b = refl
apply-cooldown (clear none) b = refl
apply-cooldown (clear (some [])) b = refl
apply-cooldown (clear (some (x ∷ t))) b = refl

pub is_open-cooldown :
    (now : ℕ) (tool : Text) (b : ToolCircuitBreaker)
    → (is_open now tool b).0.cooldown_ms ≡ b.cooldown_ms
unfolding is_open
is_open-cooldown now tool b = ground arith

module _ (tool : Text) (b : ToolCircuitBreaker) (h : IsSoundAt tool b) where
  pub ask_sound :
      (now : ℕ) (name : Text)
      → IsSoundAt tool (is_open now name b).0
        × (view tool (is_open now name b).0
            ≡ step_spec b.threshold b.cooldown_ms tool (ask now name) (view tool b))
  unfolding is_open view step_spec
  ask_sound now name = ground (arith, member-add name tool b.probing, text_eq_iff name tool)

  pub fail_sound :
      (now : ℕ) (name : Text)
      → IsSoundAt tool (record_failure now name b)
        × (view tool (record_failure now name b)
            ≡ step_spec b.threshold b.cooldown_ms tool (fail now name) (view tool b))
  unfolding record_failure view step_spec
  fail_sound now name = ground (
    arith,
    member-remove name tool b.probing,
    text_eq_iff name tool,
    get-insert name tool now b.opened_at,
    get-insert name tool (get_or (get name b.fails) 0 + 1) b.fails,
  )

  pub success_sound :
      (name : Text)
      → IsSoundAt tool (record_success name b)
        × (view tool (record_success name b)
            ≡ step_spec b.threshold b.cooldown_ms tool (succeed name) (view tool b))
  unfolding record_success view step_spec
  success_sound name = ground (
    arith,
    member-remove name tool b.probing,
    get-delete name tool b.opened_at,
    get-delete name tool b.fails,
  )

  clear_sound :
      (x : ℕ) (name : Text)
      → IsSoundAt tool (reset (some (x ∷ name)) b)
        × (view tool (reset (some (x ∷ name)) b)
            ≡ step_spec b.threshold b.cooldown_ms tool (clear (some (x ∷ name))) (view tool b))
  unfolding reset view step_spec
  clear_sound x name = ground (
    arith,
    member-remove (x ∷ name) tool b.probing,
    get-delete (x ∷ name) tool b.opened_at,
    get-delete (x ∷ name) tool b.fails,
  )

-- Every event keeps the invariant, and moves the circuit as the state machine does.
pub apply_sound :
    (tool : Text) (e : Event) (b : ToolCircuitBreaker)
    → IsSoundAt tool b
    → IsSoundAt tool (apply e b).0
      × (view tool (apply e b).0 ≡ step_spec b.threshold b.cooldown_ms tool e (view tool b))
unfolding apply member get view step_spec
apply_sound tool (ask now name) b h = ask_sound tool b h now name
apply_sound tool (fail now name) b h = fail_sound tool b h now name
apply_sound tool (succeed name) b h = success_sound tool b h name
apply_sound tool (clear none) b h = ground arith
apply_sound tool (clear (some [])) b h = ground arith
apply_sound tool (clear (some (x ∷ name))) b h = clear_sound tool b h x name

-- A question is answered by the state machine's answer for the circuit of that tool.
pub is_open-ask_spec :
    (now : ℕ) (tool : Text) (b : ToolCircuitBreaker)
    → (is_open now tool b).1 ≡ (ask_spec b.threshold b.cooldown_ms now (view tool b)).1
unfolding is_open view ask_spec
is_open-ask_spec now tool b = ground arith

run_spec_same :
    {n n' cd cd' : ℕ} {x y : Circuit} (tool : Text) (es : List Event)
    → n ≡ n'
    → cd ≡ cd'
    → x ≡ y
    → run_spec n cd tool es x ≡ run_spec n' cd' tool es y
run_spec_same tool es p q r = cc

apply_all_sound :
    (tool : Text) (es : List Event) (b : ToolCircuitBreaker)
    → IsSoundAt tool b
    → IsSoundAt tool (apply_all es b)
      × (view tool (apply_all es b) ≡ run_spec b.threshold b.cooldown_ms tool es (view tool b))
unfolding apply_all run_spec
apply_all_sound tool [] b h = (h, refl)
apply_all_sound tool (e ∷ es) b h =
    let (kept, moved) = apply_sound tool e b h in
    let (sound, same) = apply_all_sound tool es (apply e b).0 kept in
    (sound, same ∙ run_spec_same tool es (apply-threshold e b) (apply-cooldown e b) moved)

new-IsSoundAt : (n : ℕ) (c : Option ℕ) (tool : Text) → IsSoundAt tool (new n c)
unfolding new get member
new-IsSoundAt n c tool = ground arith

apply_all-threshold :
    (es : List Event) (b : ToolCircuitBreaker) → (apply_all es b).threshold ≡ b.threshold
unfolding apply_all
apply_all-threshold [] b = refl
apply_all-threshold (e ∷ es) b = apply_all-threshold es (apply e b).0 ∙ apply-threshold e b

apply_all-cooldown :
    (es : List Event) (b : ToolCircuitBreaker) → (apply_all es b).cooldown_ms ≡ b.cooldown_ms
unfolding apply_all
apply_all-cooldown [] b = refl
apply_all-cooldown (e ∷ es) b = apply_all-cooldown es (apply e b).0 ∙ apply-cooldown e b

new-view :
    (n : ℕ) (c : Option ℕ) (tool : Text)
    → (view tool (new n c) ≡ closed 0)
      × ((new n c).threshold ≡ n)
      × ((new n c).cooldown_ms ≡ get_or c breaker_cooldown_ms)
unfolding new view get member
new-view n c tool = (refl, refl, refl)

-- Whatever events a new breaker has met, it shows of each tool the circuit of the state machine run
-- on those events, and it answers the next question about that tool as the state machine does.
pub apply_all-refines :
    (n : ℕ) (c : Option ℕ) (tool : Text) (es : List Event) (now : ℕ)
    → let b = apply_all es (new n c) in
      let circuit = run_spec n (get_or c breaker_cooldown_ms) tool es (closed 0) in
      (view tool b ≡ circuit)
      × ((is_open now tool b).1 ≡ (ask_spec n (get_or c breaker_cooldown_ms) now circuit).1)
apply_all-refines n c tool es now =
    let sound = apply_all_sound tool es (new n c) (new-IsSoundAt n c tool) in
    let (first, same_n, same_c) = new-view n c tool in
    (
      cc (sound.1, first, same_n, same_c),
      cc (
        is_open-ask_spec now tool (apply_all es (new n c)),
        sound.1,
        first,
        same_n,
        same_c,
        apply_all-threshold es (new n c),
        apply_all-cooldown es (new n c),
      ),
    )
