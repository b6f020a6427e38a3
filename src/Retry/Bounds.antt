-- ===== src/Retry/Bounds.antt =====
-- How often the retry loop of reliability.ts calls a provider, and how long it waits.
use native.Mathlib.Nat.{add-zero}
use ninjacode_agent.Prelude.{
  get_or, All, ℕ, zero, suc, ◌+◌, ◌*◌, ◌%◌, ◌^◌, ◌≤◌, ◌<◌, min, ◌≡◌, sym, ◌∙◌, ◌≢◌, Bool, true,
  false, Option, none, some, arith,
}
use ninjacode_agent.Prelude.Results.{err}
use ninjacode_agent.Retry.{
  Thrown, complete_streaming, retry, complete, sleep_units, Limits, RetryOptions,
  retry_after_ms_from, emitted_by, limits_of, give_up, retry_from, World, Run,
}
use ninjacode_agent.Retry.Laws.{thrown, halted, returned, round, woken, again, GoesOn}

abbrev pub longest_sleep : ℕ
longest_sleep = 360_000_000

jitter_bound :
    (d ceiling m : ℕ)
    → ceiling ≤ 60000
    → m < 1000
    → min ceiling d * 5000 + m * min ceiling d ≤ longest_sleep
jitter_bound d ceiling m h k = scaled_bound (min ceiling d) m (omega arith) k
  where
    scaled_bound : (x n : ℕ) → x ≤ 60000 → n < 1000 → x * 5000 + n * x ≤ longest_sleep
    scaled_bound x n p q = grind arith

sleep_units-bound :
    (limits : Limits) (attempt now : ℕ) (e : Thrown)
    → limits.ceiling ≤ 60000
    → sleep_units limits attempt now (retry_after_ms_from e) ≤ longest_sleep
unfolding sleep_units retry_after_ms_from
sleep_units-bound limits attempt now e h = by_wait (retry_after_ms_from e) (requested_bound e)
  where
    requested_bound : (t : Thrown) → get_or (retry_after_ms_from t) 0 ≤ 60000
    requested_bound t = ground arith

    by_wait : (o : Option ℕ) → get_or o 0 ≤ 60000 → sleep_units limits attempt now o ≤ longest_sleep
    by_wait (some r) k = omega arith
    by_wait none k =
        jitter_bound (limits.base * 2 ^ attempt) limits.ceiling ((now + attempt * 7919) % 1000) h
          (omega arith)

-- What a run keeps to, in attempts and in sleeps.
pub record IsBounded {A : Type 0} (rounds : ℕ) (run : Run A) : Type 0 where
  pub calls : run.calls ≤ rounds
  pub sleeps : All (λ units. units ≤ longest_sleep) run.sleeps

module _ {A : Type 0} (w : World A) (limits : Limits) where
  unvetoed :
      (attempt : ℕ) (e : Thrown) → give_up w limits attempt e ≡ none → w.vetoed attempt ≡ true → ⊥
  unfolding give_up
  unvetoed attempt e g v = ground arith

  -- The last allowed attempt does not go on.
  not_last :
      (attempt : ℕ) (e : Thrown) → give_up w limits attempt e ≡ none → attempt ≢ limits.retries
  unfolding give_up
  not_last attempt e g p = ground arith

  retry_from-IsBounded :
      (rounds attempt : ℕ) (last : Option Thrown)
      → limits.ceiling ≤ 60000
      → IsBounded rounds (retry_from w limits rounds attempt last)
  unfolding retry_from
  retry_from-IsBounded zero attempt last h = record { calls = omega arith; sleeps = tt }
  retry_from-IsBounded (suc rounds) attempt last h = elim (round w limits rounds attempt last) [
    | halted e ↦ rw e (record { calls = omega arith; sleeps = tt })
    | returned a b c e ↦ rw e (record { calls = omega arith; sleeps = tt })
    | thrown x t c g e ↦ rw e (record { calls = omega arith; sleeps = tt })
    | woken x g e ↦ rw e (record {
      calls = omega arith;
      sleeps = (sleep_units-bound limits attempt (w.now attempt) x h, tt);
    })
    | again x goes e ↦
        let rest = retry_from-IsBounded rounds (attempt + 1) (some x) h in
        rw e (record {
          calls = omega (arith, rest.calls);
          sleeps = (sleep_units-bound limits attempt (w.now attempt) x h, rest.sleeps);
        })
  ]

  -- An attempt that is vetoed is the last one.
  retry_from-vetoed :
      (rounds attempt d k : ℕ) (last : Option Thrown)
      → attempt + d ≡ k
      → w.vetoed k ≡ true
      → (retry_from w limits rounds attempt last).calls ≤ suc d
  unfolding retry_from
  retry_from-vetoed zero attempt d k last e v = omega arith
  retry_from-vetoed (suc rounds) attempt d k last e v = elim (round w limits rounds attempt last) [
    | halted q ↦ rw q (omega arith)
    | returned a b c q ↦ rw q (omega arith)
    | thrown x t c g q ↦ rw q (omega arith)
    | woken x g q ↦ rw q (omega arith)
    | again x goes q ↦
        rw q (further d x goes e (λ f p. retry_from-vetoed rounds (attempt + 1) f k (some x) p v))
  ]
    where
      further :
          (f : ℕ) (x : Thrown)
          → GoesOn w limits attempt x
          → attempt + f ≡ k
          → ((g : ℕ)
              → attempt + 1 + g ≡ k
              → (retry_from w limits rounds (attempt + 1) (some x)).calls ≤ suc g)
          → (retry_from w limits rounds (attempt + 1) (some x)).calls + 1 ≤ suc f
      further zero x goes p ih =
          absurd (unvetoed attempt x goes.2 (rw (sym p ∙ add-zero attempt) at v))
      further (suc f) x goes p ih = omega (arith, ih f (omega arith))

  -- With all rounds at hand the loop ends by itself: it never throws `undefined`.
  retry_from-throws :
      (rounds attempt : ℕ) (last : Option Thrown)
      → attempt + rounds ≡ limits.retries
      → (retry_from w limits (suc rounds) attempt last).result ≢ err none
  unfolding retry_from
  retry_from-throws zero attempt last p h = elim (round w limits zero attempt last) [
    | halted e ↦ cc (e, h)
    | returned a b c e ↦ cc (e, h)
    | thrown x t c g e ↦ cc (e, h)
    | woken x g e ↦ cc (e, h)
    | again x goes e ↦ absurd (not_last attempt x goes.2 (sym (add-zero attempt) ∙ p))
  ]
  retry_from-throws (suc rounds) attempt last p h =
      elim (round w limits (suc rounds) attempt last) [
        | halted e ↦ cc (e, h)
        | returned a b c e ↦ cc (e, h)
        | thrown x t c g e ↦ cc (e, h)
        | woken x g e ↦ cc (e, h)
        | again x goes e ↦
            absurd (retry_from-throws rounds (attempt + 1) (some x) (omega arith) (cc (e, h)))
      ]

limits_of-bounds :
    (o : RetryOptions) → ((limits_of o).retries ≤ 5) × ((limits_of o).ceiling ≤ 60000)
unfolding limits_of
limits_of-bounds o = (ground arith, ground arith)

-- With any options at all, a completion makes at most six attempts, sleeps at most 72 seconds
-- between two of them, and never ends by throwing `undefined`.
pub complete-IsBounded :
    {A : Type 0} (opts : RetryOptions) (w : World A)
    → IsBounded 6 (complete opts w) × ((complete opts w).result ≢ err none)
unfolding complete retry
complete-IsBounded opts w =
    let (few, low) = limits_of-bounds opts in
    let calm : World _ = record w { vetoed = λ _. false } in
    let run =
      retry_from-IsBounded calm (limits_of opts) (suc (limits_of opts).retries) 0 none low in
    (
      record { calls = omega (arith, run.calls); sleeps = run.sleeps },
      retry_from-throws calm (limits_of opts) (limits_of opts).retries 0 none (omega arith),
    )

emitted_by_self : (emits : ℕ → Bool) (k : ℕ) → emits k ≡ true → emitted_by emits k ≡ true
unfolding emitted_by
emitted_by_self emits zero e = e
emitted_by_self emits (suc k) e = rw e

-- Once attempt k (the first is 0) has passed an event to the sink, a streaming completion makes no
-- further attempt, so no output is sent twice.
pub complete_streaming-calls :
    {A : Type 0} (opts : RetryOptions) (emits : ℕ → Bool) (w : World A) (k : ℕ)
    → emits k ≡ true
    → (complete_streaming opts emits w).calls ≤ suc k
unfolding complete_streaming retry
complete_streaming-calls opts emits w k e =
    retry_from-vetoed (record w { vetoed = emitted_by emits }) (limits_of opts)
      (suc (limits_of opts).retries) 0 k k none (omega arith) (emitted_by_self emits k e)
