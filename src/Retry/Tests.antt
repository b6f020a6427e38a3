-- ===== src/Retry/Tests.antt =====
-- The retry loop of reliability.ts on concrete inputs, and its theorems there.
use ninjacode_agent.Prelude.{
  ◌==◌, if◌then◌else◌, ℕ, ◌≤◌, ◌≡◌, refl, ◌≢◌, ◌↔◌, false, none, some, [], ◌∷◌,
}
use ninjacode_agent.Prelude.Results.{err, ok}
use ninjacode_agent.Prelude.Texts.{codes}
use ninjacode_agent.Retry.{
  Thrown, complete_streaming, retry, complete, sleep_units, Limits, RetryOptions,
  retry_after_ms_from, llm, is_retryable_llm_error, World,
}
use ninjacode_agent.Retry.Bounds.{complete_streaming-calls, complete-IsBounded, IsBounded}
use ninjacode_agent.Retry.Laws.{retry-result_iff, Returns}

abbrev overloaded : Thrown
overloaded = llm (some 503) none (codes "overloaded")

-- Attempts 0 and 1 fail with status 503, attempt 2 returns 7.
abbrev third_time : World ℕ
third_time = record {
  call = λ n. if n == 2 then ok 7 else err overloaded;
  aborted_before = λ _. false;
  aborted_after = λ _. false;
  vetoed = λ _. false;
  now = λ _. 0;
  sleep_aborted = λ _. false;
}

abbrev defaults : RetryOptions
defaults = record { max_retries = none; base_delay_ms = none; max_delay_ms = none }

abbrev four : Limits
four = record { retries = 4; base = 500; ceiling = 16000 }

third_time_run :
    complete defaults third_time
    ≡ record { result = ok 7; calls = 3; sleeps = 2_500_000 ∷ 5_919_000 ∷ [] }
unfolding complete is_retryable_llm_error retry_after_ms_from sleep_units
third_time_run = refl

-- The message of a final status is not looked at.
status_decides : is_retryable_llm_error (llm (some 400) none (codes "socket hang up")) ≡ false
unfolding is_retryable_llm_error
status_decides = refl

retry-result_iff_example :
    ((retry third_time four).result ≡ ok 7)
    ↔ ((k : ℕ) × Returns third_time four 0 k 7 × (k ≤ four.retries))
retry-result_iff_example = retry-result_iff third_time four 7

complete-IsBounded_example :
    IsBounded 6 (complete defaults third_time) × ((complete defaults third_time).result ≢ err none)
complete-IsBounded_example = complete-IsBounded defaults third_time

complete_streaming-calls_example : (complete_streaming defaults (λ n. n == 1) third_time).calls ≤ 2
complete_streaming-calls_example = complete_streaming-calls defaults (λ n. n == 1) third_time 1 refl
