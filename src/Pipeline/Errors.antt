-- ===== src/Pipeline/Errors.antt =====
-- packages/core/src/toolErrors.ts: `classifyToolFailure` and `toolMaxAttempts`.
use ninjacode_agent.Permissions.{RiskClass, read_only}
use ninjacode_agent.Pipeline.{
  Thrown, aborted, circuit_open, provider_error, blocked_by_hook, ToolErrorCategory,
  unexpected_environment, invalid_arguments, not_found, unknown, user_aborted, permission_denied,
  timeout, ToolErrorCode, other_error, Tool, Blame, tool_error, ambiguous, timed_out, runtime,
  tool_blame, missing, model_blame, harness_blame, ambiguous_edit, environment_blame, RetryPolicy,
  invalid_args, permission, abort_error, provider_blame, user_blame, ClassifiedToolError,
  stale_patch, stale,
}
use ninjacode_agent.Prelude.{
  get_or, if◌then◌else◌, ℕ, min, max, String, Bool, true, false, not, ◌&&◌, ◌||◌, Option, none,
  some, ◌++◌,
}
use ninjacode_agent.Prelude.Numbers.{negative, not_finite, Number, natural}
use ninjacode_agent.Prelude.Texts.{Text, to_lower, codes, includes}
use ninjacode_agent.Shell.Parse.{words}

-- `Omit<ClassifiedToolError, "message">`, with the message put in.
abbrev classified : ToolErrorCategory → Bool → Blame → String → Text → ClassifiedToolError
classified category retryable blame hint message = record {
  category = category;
  message = message;
  retryable = retryable;
  blame = blame;
  recovery_hint = codes hint;
}

-- `BY_TOOL_ERROR_CODE[code]`
unfoldable pub by_tool_error_code : ToolErrorCode → Option (Text → ClassifiedToolError)
by_tool_error_code invalid_args = some (
    classified invalid_arguments true model_blame
      "Correct the arguments before issuing a new tool call.")
by_tool_error_code not_found = some (
    classified missing false model_blame "Verify the target exists before trying a different call.")
by_tool_error_code permission = some (
    classified permission_denied false user_blame
      "Request the required permission or choose an allowed operation.")
by_tool_error_code timeout = some (
    classified timed_out true environment_blame
      "Retry only when the operation is explicitly safe and idempotent.")
by_tool_error_code aborted =
    some
      (classified user_aborted false user_blame "Stop unless the user explicitly asks to continue.")
by_tool_error_code stale_patch = some (
    classified stale true model_blame
      "Re-read the target and regenerate the edit from current content.")
by_tool_error_code ambiguous_edit = some (
    classified ambiguous true model_blame
      "Add offsets or more unchanged context to identify one occurrence.")
by_tool_error_code runtime = none

abbrev says : Text → String → Bool
says lower words = includes lower (codes words)

-- `MESSAGE_RULES` in their order, and what is returned when none applies. `truncated` is
-- `args?._truncated === true`.
unfoldable pub classify_message : Text → Bool → Text → ClassifiedToolError
classify_message tool truncated msg =
    let lower = to_lower msg in
    if says lower "aborted"
    then classified user_aborted false user_blame "Stop unless the user asks to continue." msg
    else if says lower "user denied"
    then classified permission_denied false user_blame "Do not repeat a denied operation." msg
    else if says lower "timeout"
    then classified timed_out true environment_blame
        "Retry only if the call is safe and idempotent." msg
    else if says lower "circuit-open" || says lower "circuit open"
    then classified circuit_open false harness_blame "Use another tool or wait for the cooldown."
        msg
    else if says lower "blocked by" && says lower "hook"
    then classified blocked_by_hook false user_blame
        "Respect the hook feedback; do not repeat unchanged." msg
    else if says lower "denied" || says lower "permission"
    then classified permission_denied false user_blame
        "Request permission or choose an allowed action." msg
    else if truncated || says lower "truncated json"
    then classified invalid_arguments true model_blame "Send a smaller, complete argument object."
        msg
    else if says lower "invalid"
        || says lower "old_string not found"
        || says lower "hunk context not found"
        || says lower "empty patch"
    then classified invalid_arguments true model_blame "Correct the arguments before a new call."
        msg
    else if says lower "not found" || says lower "cannot read"
    then classified missing false model_blame "Verify the target before trying another call." msg
    else if says lower "provider" || says lower "rate limit" || says lower "503"
    then classified provider_error true provider_blame
        "Retry with bounded backoff if the call is safe." msg
    else if says lower "econnreset"
        || says lower "eai_again"
        || says lower "temporarily unavailable"
    then classified unexpected_environment true environment_blame
        "Retry with bounded backoff if safe." msg
    else if says lower "unknown tool"
    then classified unexpected_environment false harness_blame "Refresh the available tool list."
        msg
    else classified unknown false tool_blame "Inspect the error before choosing a different action."
        (tool ++ codes ": " ++ msg)

unfoldable pub message_of : Thrown → Text
message_of (tool_error code msg) = msg
message_of (abort_error msg) = msg
message_of (other_error msg) = msg

unfoldable pub classify_tool_failure : Text → Thrown → Bool → ClassifiedToolError
unfolding by_tool_error_code classify_message message_of
classify_tool_failure tool (tool_error code msg) truncated = elim (by_tool_error_code code) [
  | some by_code ↦ by_code msg
  | none ↦ classify_message tool truncated msg
]
classify_tool_failure tool thrown truncated = classify_message tool truncated (message_of thrown)

unfoldable pub is_read_only : RiskClass → Bool
is_read_only read_only = true
is_read_only _ = false

-- `Math.min(3, Math.max(1, Math.floor(requested)))`
unfoldable pub bounded_attempts : Number → ℕ
bounded_attempts not_finite = 1
bounded_attempts (negative n) = 1
bounded_attempts (natural n) = min 3 (max 1 n)

-- Whether `riskFor` leaves the call read-only.
unfoldable pub stays_read_only : {A : Type 0} → Option (A → Option RiskClass) → A → Bool
unfolding is_read_only
stays_read_only none args = true
stays_read_only (some risk_for) args = elim (risk_for args) [
  | some risk ↦ is_read_only risk
  | none ↦ false
]

unfoldable pub attempts_of : {A : Type 0} → Option RetryPolicy → Tool A → A → ℕ
unfolding is_read_only stays_read_only bounded_attempts
attempts_of none tool args = 1
attempts_of (some policy) tool args =
    if not policy.idempotent || not (is_read_only tool.risk)
    then 1
    else if stays_read_only tool.risk_for args
    then bounded_attempts (get_or policy.max_attempts (natural 2))
    else 1

-- `tool.retryPolicy ?? schemaPolicy`
unfoldable pub tool_max_attempts : {A : Type 0} → Tool A → A → ℕ
unfolding attempts_of
tool_max_attempts tool args = elim tool.retry_policy [
  | some policy ↦ attempts_of (some policy) tool args
  | none ↦ attempts_of tool.schema_retry tool args
]

unfoldable pub category_text : ToolErrorCategory → Text
category_text unknown = codes "Unknown"
category_text invalid_arguments = codes "InvalidArguments"
category_text unexpected_environment = codes "UnexpectedEnvironment"
category_text provider_error = codes "ProviderError"
category_text user_aborted = codes "UserAborted"
category_text timed_out = codes "Timeout"
category_text permission_denied = codes "PermissionDenied"
category_text missing = codes "NotFound"
category_text circuit_open = codes "CircuitOpen"
category_text blocked_by_hook = codes "BlockedByHook"
category_text stale = codes "StalePatch"
category_text ambiguous = codes "AmbiguousEdit"
