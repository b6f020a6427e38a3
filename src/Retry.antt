-- ===== src/Retry.antt =====
-- packages/core/src/reliability.ts, `withRetry` and its loop `retry`, with the codes of
-- packages/providers/src/gatewayErrors.ts. What an attempt does, the state of the abort signal and
-- the clock come from outside. Waits are counted in 1/5000 of a millisecond, the unit in which the
-- jitter is a whole number; other times are whole milliseconds.
pub mod Laws
pub mod Bounds
mod Tests
use ninjacode_agent.Prelude.{
  ◌==◌, leb, if◌then◌else◌, ℕ, zero, suc, ◌+◌, ◌*◌, ◌%◌, ◌^◌, min, max, Bool, true, false, not,
  ◌&&◌, ◌||◌, Option, none, some, List, [], ◌∷◌,
}
use ninjacode_agent.Prelude.Numbers.{negative, not_finite, Number, natural}
use ninjacode_agent.Prelude.Results.{err, Result, ok}
use ninjacode_agent.Prelude.Texts.{Text, to_lower, codes, includes}

pub data GatewayErrorCode : Type 0 where
  insufficient_credits rate_limited model_not_priced model_not_in_catalog : GatewayErrorCode
  account_suspended unauthorized upstream_timeout : GatewayErrorCode

unfoldable pub is_terminal_gateway_code : GatewayErrorCode → Bool
is_terminal_gateway_code insufficient_credits = true
is_terminal_gateway_code model_not_priced = true
is_terminal_gateway_code model_not_in_catalog = true
is_terminal_gateway_code account_suspended = true
is_terminal_gateway_code unauthorized = true
is_terminal_gateway_code rate_limited = false
is_terminal_gateway_code upstream_timeout = false

-- What a provider may throw: an abort, a `GatewayError` with its code and whether output has
-- reached the user, an `LlmError` with status, retry-after and message, or anything else by its text.
pub data Thrown : Type 0 where
  aborted : Thrown
  gateway : GatewayErrorCode → Bool → Thrown
  llm : Option ℕ → Option Number → Text → Thrown
  other : Text → Thrown

unfoldable pub is_retryable_message : Text → Bool
unfolding includes to_lower
is_retryable_message message =
    let msg = to_lower message in
    includes msg (codes "timeout")
    || includes msg (codes "econnreset")
    || includes msg (codes "fetch failed")
    || includes msg (codes "socket")
    || includes msg (codes "429")
    || includes msg (codes "rate limit")

-- An abort is told apart before this is asked.
unfoldable pub is_retryable_llm_error : Thrown → Bool
unfolding is_terminal_gateway_code
is_retryable_llm_error (gateway code partial) = not partial && not (is_terminal_gateway_code code)
is_retryable_llm_error (llm (some status) after message) = status == 429 || leb 500 status
is_retryable_llm_error (llm none after message) = is_retryable_message message
is_retryable_llm_error (other message) = is_retryable_message message
is_retryable_llm_error aborted = false

unfoldable pub bounded_integer : Option Number → ℕ → ℕ → ℕ → ℕ
bounded_integer none fallback lo hi = fallback
bounded_integer (some not_finite) fallback lo hi = fallback
bounded_integer (some (negative n)) fallback lo hi = min hi lo
bounded_integer (some (natural n)) fallback lo hi = min hi (max lo n)

abbrev pub max_retry_after_ms : ℕ
max_retry_after_ms = 60000

unfoldable pub retry_after_ms_from : Thrown → Option ℕ
retry_after_ms_from (llm status (some (natural ms)) message) = some (min ms max_retry_after_ms)
retry_after_ms_from _ = none

pub record RetryOptions : Type 0 where
  pub max_retries : Option Number
  pub base_delay_ms : Option Number
  pub max_delay_ms : Option Number

-- The three numbers as `withRetry` bounds them.
pub record Limits : Type 0 where
  pub retries : ℕ
  pub base : ℕ
  pub ceiling : ℕ

unfoldable pub limits_of : RetryOptions → Limits
unfolding bounded_integer
limits_of o =
    let base = bounded_integer o.base_delay_ms 500 0 60000 in
    record {
      retries = bounded_integer o.max_retries 4 0 5;
      base = base;
      ceiling = bounded_integer o.max_delay_ms 16000 base 60000;
    }

-- The world of one call, by the number of the attempt: its result, whether the signal is aborted
-- before it and after its failure, whether `canRetry` is false then, the clock, and whether the
-- sleep after it is aborted.
pub record World (A : Type 0) : Type 0 where
  pub call : ℕ → Result Thrown A
  pub aborted_before : ℕ → Bool
  pub aborted_after : ℕ → Bool
  pub vetoed : ℕ → Bool
  pub now : ℕ → ℕ
  pub sleep_aborted : ℕ → Bool

-- What a run has done: its result (`none` is a thrown `undefined`), how many attempts it made, and
-- how long it slept between them.
pub record Run (A : Type 0) : Type 0 where
  pub result : Result (Option Thrown) A
  pub calls : ℕ
  pub sleeps : List ℕ

-- `delay + jitter`: a wait that the server has stated is kept, our own is spread by up to a fifth.
unfoldable pub sleep_units : Limits → ℕ → ℕ → Option ℕ → ℕ
sleep_units limits attempt now (some requested) = requested * 5000
sleep_units limits attempt now none =
    let delay = min limits.ceiling (limits.base * 2 ^ attempt) in
    delay * 5000 + (now + attempt * 7919) % 1000 * delay

unfoldable pub is_abort : Thrown → Bool
is_abort aborted = true
is_abort _ = false

-- Whether an attempt up to this one has passed an event to the sink.
unfoldable pub emitted_by : (ℕ → Bool) → ℕ → Bool
emitted_by emits zero = emits zero
emitted_by emits (suc n) = emits (suc n) || emitted_by emits n

module _ {A : Type 0} where
  abbrev pub stop : Result (Option Thrown) A → Run A
  stop result = record { result = result; calls = 0; sleeps = [] }

  abbrev pub counted : Run A → Run A
  counted run = record run { calls = run.calls + 1 }

  abbrev pub slept : ℕ → Run A → Run A
  slept units run = record run { sleeps = units ∷ run.sleeps }

  -- What the `catch` decides on a thrown error: the error to throw, or none to go on.
  unfoldable pub give_up : World A → Limits → ℕ → Thrown → Option Thrown
  unfolding is_abort
  give_up w limits attempt e =
      if is_abort e
      then some e
      else if w.aborted_after attempt
      then some aborted
      else if w.vetoed attempt
      then some e
      else if not (is_retryable_llm_error e) || attempt == limits.retries
      then some e
      else none

  -- The loop of `retry`, on the rounds left; `last` is `lastError`.
  unfoldable pub retry_from : World A → Limits → ℕ → ℕ → Option Thrown → Run A
  unfolding give_up
  retry_from w limits zero attempt last = stop (err last)
  retry_from w limits (suc rounds) attempt last =
      if w.aborted_before attempt
      then stop (err (some aborted))
      else counted (elim (w.call attempt) [
        | ok a ↦ stop (ok a)
        | err e ↦ elim (give_up w limits attempt e) [
          | some thrown ↦ stop (err (some thrown))
          | none ↦
              slept (sleep_units limits attempt (w.now attempt) (retry_after_ms_from e))
                (elim (w.sleep_aborted attempt) [
                  | true ↦ stop (err (some aborted))
                  | false ↦ retry_from w limits rounds (attempt + 1) (some e)
                ])
        ]
      ])

  unfoldable pub retry : World A → Limits → Run A
  unfolding retry_from
  retry w limits = retry_from w limits (suc limits.retries) 0 none

  -- `withRetry(provider, opts).complete`: there is no `canRetry`.
  unfoldable pub complete : RetryOptions → World A → Run A
  unfolding retry limits_of
  complete opts w = retry (record w { vetoed = λ _. false }) (limits_of opts)

  -- `withRetry(provider, opts).completeStreaming`, where attempt n passes events on if `emits n`.
  unfoldable pub complete_streaming : RetryOptions → (ℕ → Bool) → World A → Run A
  unfolding retry limits_of emitted_by
  complete_streaming opts emits w = retry (record w { vetoed = emitted_by emits }) (limits_of opts)
