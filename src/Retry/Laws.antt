-- ===== src/Retry/Laws.antt =====
-- What the retry loop of reliability.ts guarantees.
use native.Mathlib.Nat.{add-zero}
use ninjacode_agent.Prelude.{
  Bool-cases, ℕ, zero, suc, ◌+◌, ◌≤◌, ◌<◌, ◌≡◌, refl, ap, ◌∙◌, ◌↔◌, inl, inr, false, Option, none,
  some, arith,
}
use ninjacode_agent.Prelude.Results.{err, Result, ok}
use ninjacode_agent.Retry.{
  Thrown, retry, aborted, sleep_units, Limits, retry_after_ms_from, counted, give_up, retry_from,
  World, stop, slept, Run,
}

-- The n attempts from this one on have all failed in a way that lets the loop go on, with no abort.
abbrev pub FailsOver : {A : Type 0} → World A → Limits → ℕ → ℕ → Type 0
FailsOver w limits attempt zero = Unit
FailsOver w limits attempt (suc n) =
    (w.aborted_before attempt ≡ false)
    × ((e : Thrown) × (w.call attempt ≡ err e) × (give_up w limits attempt e ≡ none))
    × (w.sleep_aborted attempt ≡ false)
    × FailsOver w limits (attempt + 1) n

-- Attempt number k, counted from `attempt`, is the first that counts, and returns the value.
abbrev pub Returns : {A : Type 0} → World A → Limits → ℕ → ℕ → A → Type 0
Returns w limits attempt k a =
    FailsOver w limits attempt k
    × (w.aborted_before (attempt + k) ≡ false)
    × (w.call (attempt + k) ≡ ok a)

module _ {A : Type 0} (w : World A) (limits : Limits) where
  -- A round that goes on: the attempt failed in a way that may be retried, and the sleep was not cut
  -- short.
  abbrev pub GoesOn : ℕ → Thrown → Type 0
  GoesOn attempt e =
      (w.aborted_before attempt ≡ false)
      × (w.call attempt ≡ err e)
      × (give_up w limits attempt e ≡ none)
      × (w.sleep_aborted attempt ≡ false)

  -- One round either ends the run, after at most one attempt and one sleep, or goes on.
  pub data Round (attempt : ℕ) (run : Run A) (rest : Thrown → Run A) : Type 0 where
    halted : run ≡ stop (err (some aborted)) → Round attempt run rest
    returned :
        (a : A)
        → w.aborted_before attempt ≡ false
        → w.call attempt ≡ ok a
        → run ≡ counted (stop (ok a))
        → Round attempt run rest
    thrown :
        (e t : Thrown)
        → w.call attempt ≡ err e
        → give_up w limits attempt e ≡ some t
        → run ≡ counted (stop (err (some t)))
        → Round attempt run rest
    woken :
        (e : Thrown)
        → give_up w limits attempt e ≡ none
        → run
          ≡ counted (
              slept
                (sleep_units limits attempt (w.now attempt) (retry_after_ms_from e))
                (stop (err (some aborted))))
        → Round attempt run rest
    again :
        (e : Thrown)
        → GoesOn attempt e
        → run
          ≡ counted
              (slept (sleep_units limits attempt (w.now attempt) (retry_after_ms_from e)) (rest e))
        → Round attempt run rest

  pub round :
      (rounds attempt : ℕ) (last : Option Thrown)
      → Round attempt
          (retry_from w limits (suc rounds) attempt last)
          (λ e. retry_from w limits rounds (attempt + 1) (some e))
  unfolding retry_from
  round rounds attempt last = elim (Bool-cases (w.aborted_before attempt)) [
    | inl cut ↦ halted (rw cut)
    | inr open_ ↦ by_call (w.call attempt) refl open_
  ]
    where
      by_give_up :
          (o : Option Thrown) (e : Thrown)
          → give_up w limits attempt e ≡ o
          → w.call attempt ≡ err e
          → w.aborted_before attempt ≡ false
          → Round attempt
              (retry_from w limits (suc rounds) attempt last)
              (λ e. retry_from w limits rounds (attempt + 1) (some e))
      by_give_up (some t) e g c b = thrown e t c g (rw (b, c, g))
      by_give_up none e g c b = elim (Bool-cases (w.sleep_aborted attempt)) [
        | inl cut ↦ woken e g (rw (b, c, g, cut))
        | inr slept_well ↦ again e (b, c, g, slept_well) (rw (b, c, g, slept_well))
      ]

      by_call :
          (r : Result Thrown A)
          → w.call attempt ≡ r
          → w.aborted_before attempt ≡ false
          → Round attempt
              (retry_from w limits (suc rounds) attempt last)
              (λ e. retry_from w limits rounds (attempt + 1) (some e))
      by_call (ok a) c b = returned a b c (rw (b, c))
      by_call (err e) c b = by_give_up (give_up w limits attempt e) e refl c b

  -- A run that returns a value: which attempt it came from.
  result_sound :
      (rounds attempt : ℕ) (last : Option Thrown) (a : A)
      → (retry_from w limits rounds attempt last).result ≡ ok a
      → (k : ℕ) × Returns w limits attempt k a
        × (k < rounds)
        × ((retry_from w limits rounds attempt last).calls ≡ suc k)
  unfolding retry_from
  result_sound zero attempt last a h = cc
  result_sound (suc rounds) attempt last a h = elim (round rounds attempt last) [
    | halted e ↦ cc (e, h)
    | returned b open_ c e ↦ (
      0,
      (tt, rw add-zero open_, rw add-zero (cc (c, e, h))),
      omega arith,
      ap (λ (r : Run A). r.calls) e,
    )
    | thrown x t c g e ↦ cc (e, h)
    | woken x g e ↦ cc (e, h)
    | again x goes e ↦
        let (k, (fails, open_, c), lt, n) =
          result_sound rounds (attempt + 1) (some x) a (cc (e, h)) in
        let next : attempt + 1 + k ≡ attempt + suc k = omega arith in
        (
          suc k,
          ((goes.0, (x, goes.1, goes.2), goes.3, fails), rw (← next) open_, rw (← next) c),
          omega arith,
          ap (λ (r : Run A). r.calls) e ∙ ap (λ (m : ℕ). m + 1) n ∙ omega arith,
        )
  ]

  -- An attempt that counts and returns a value within the rounds makes the run return it.
  result_complete :
      (k rounds attempt : ℕ) (last : Option Thrown) (a : A)
      → Returns w limits attempt k a
      → k < rounds
      → (retry_from w limits rounds attempt last).result ≡ ok a
  unfolding retry_from
  result_complete k zero attempt last a h lt = absurd (omega arith)
  result_complete zero (suc rounds) attempt last a (_, open_, c) lt =
      let open_here : w.aborted_before attempt ≡ false = rw add-zero at open_ in
      let call_here : w.call attempt ≡ ok a = rw add-zero at c in rw (open_here, call_here)
  result_complete (suc k) (suc rounds) attempt last a ((b, (e, c, g), s, fails), open_, done) lt =
      let next : attempt + suc k ≡ attempt + 1 + k = omega arith in
      rw (b, c, g, s)
        (result_complete k rounds (attempt + 1) (some e) a
          (fails, rw next at open_, rw next at done) (omega arith))

  -- A run of the whole loop returns a value exactly if some attempt up to the last allowed one
  -- returns it, is not aborted, and all before it failed in a way that may be retried.
  pub retry-result_iff :
      (a : A)
      → ((retry w limits).result ≡ ok a) ↔ ((k : ℕ) × Returns w limits 0 k a × (k ≤ limits.retries))
  unfolding retry
  retry-result_iff a = (
    λ h. let (k, r, lt, _) = result_sound (suc limits.retries) 0 none a h in (k, r, omega arith),
    λ (k, r, le). result_complete k (suc limits.retries) 0 none a r (omega arith),
  )
