-- ===== src/Pipeline.antt =====
-- packages/core/src/toolPipeline.ts and toolPipelineHelpers.ts: the data of the tool pipeline. `W`
-- is the type of the world outside, `A` that of the arguments of a call.
pub mod Errors
pub mod Batches
pub mod Approval
pub mod Execution
pub mod Calls
pub mod Events
pub mod Safety
pub mod Attempts
pub mod Order
pub mod Turn
pub mod Grants
pub mod Arguments
pub mod ShellTool
mod Tests
use ninjacode_agent.Breaker.{ToolCircuitBreaker}
use ninjacode_agent.Permissions.{GrantPolicy, RiskClass, PermissionPolicy}
use ninjacode_agent.Prelude.{ℕ, Bool, Option, List, ◌∷◌}
use ninjacode_agent.Prelude.Numbers.{Number}
use ninjacode_agent.Prelude.Results.{Result}
use ninjacode_agent.Prelude.Texts.{Text}

pub data ToolErrorCode : Type 0 where
  invalid_args not_found permission runtime timeout aborted stale_patch : ToolErrorCode
  ambiguous_edit : ToolErrorCode

-- What may be thrown, with its message: a `ToolError`, a DOMException AbortError, anything else.
pub data Thrown : Type 0 where
  tool_error : ToolErrorCode → Text → Thrown
  abort_error other_error : Text → Thrown

-- `idempotent` is whether the field is true, `max_attempts` the field if it is a number.
pub record RetryPolicy : Type 0 where
  pub idempotent : Bool
  pub max_attempts : Option Number

pub record ToolCall (A : Type 0) : Type 0 where
  pub id : Text
  pub name : Text
  pub arguments : A

-- `Tool`, but for `execute`. A method that throws gives `none`; an absent one is `none` itself. The
-- two retry policies are that of the tool and that of its input schema.
pub record Tool (A : Type 0) : Type 0 where
  pub name : Text
  pub risk : RiskClass
  pub target : A → Option Text
  pub risk_for : Option (A → Option RiskClass)
  pub grant_scopes : Option (A → Option (List Text))
  pub grant_policy : Option (A → Option GrantPolicy)
  pub retry_policy : Option RetryPolicy
  pub schema_retry : Option RetryPolicy

-- `ToolRegistry`: the map of tools by name.
abbrev pub Registry : Type 0 → Type 0
Registry A = List (Text × Tool A)

pub data ToolErrorCategory : Type 0 where
  unknown invalid_arguments unexpected_environment provider_error : ToolErrorCategory
  user_aborted timed_out permission_denied missing circuit_open : ToolErrorCategory
  blocked_by_hook stale ambiguous : ToolErrorCategory

pub data Blame : Type 0 where
  model_blame user_blame tool_blame environment_blame : Blame
  provider_blame harness_blame : Blame

pub record ClassifiedToolError : Type 0 where
  pub category : ToolErrorCategory
  pub message : Text
  pub retryable : Bool
  pub blame : Blame
  pub recovery_hint : Text

-- `ToolInvocation` without the times it took. `error` is none where the call succeeded, and
-- `classified` is `meta.error`.
pub record ToolInvocation (A : Type 0) : Type 0 where
  pub tool_call : ToolCall A
  pub output : Text
  pub approved : Bool
  pub error : Option Text
  pub artifact_id : Option Text
  pub classified : Option ClassifiedToolError

pub record ApprovalRequest (A : Type 0) : Type 0 where
  pub tool_name : Text
  pub target : Text
  pub arguments : A
  pub reason : Text
  pub grant_scopes : List Text
  pub can_remember : Bool
  pub danger : Bool

pub record ApprovalAnswer : Type 0 where
  pub approved : Bool
  pub remember : Bool

pub data RunState : Type 0 where
  idle running waiting stopping stopped completed failed : RunState

pub record HookRunResult : Type 0 where
  pub blocked : Bool
  pub stderr : Text
  pub stdout : Text
  pub reason : Text

pub data HookEvent : Type 0 where
  pre_tool_use post_tool_use : HookEvent

-- What the pipeline is given. Each operation on the world gives the world after it; `execute` is
-- the method of the tool, `ask` the approval handler inside `waitOrAbort`, `sleep` the wait inside it
-- with what it throws, `archive` the store of the session's artifacts.
pub record Deps (W A : Type 0) : Type 0 where
  pub now : W → ℕ
  pub is_aborted : W → Bool
  pub is_abort_error : Thrown → Bool
  pub is_truncated : A → Bool
  pub validate : Tool A → A → Option Thrown
  pub has_handler : Bool
  pub parallel_tool_reads : Bool
  pub get_state : W → RunState
  pub set_state : RunState → W → W
  pub ask : ApprovalRequest A → W → W × Result Thrown ApprovalAnswer
  pub run_hooks : HookEvent → ToolCall A → W → W × Result Thrown (List HookRunResult)
  pub execute : Tool A → A → W → W × Result Thrown Text
  pub sleep : ℕ → W → W × Option Thrown
  pub archive : Text → W → W × Result Thrown (Option Text)
  pub on_modified_files : Text → W → W
  pub post_edit_diagnostics : Text → W → W × Option Text

-- What the pipeline tells its host, and the executions themselves.
pub data Event (A : Type 0) : Type 0 where
  approval_required : ApprovalRequest A → Event A
  tool_start : ToolCall A → Text → Event A
  tool_end : ToolCall A → Option ClassifiedToolError → Event A
  tool_aborted : ToolCall A → Event A
  executed : Text → A → Event A

-- The state a call works on; the latest event comes first.
pub record Session (W A : Type 0) : Type 0 where
  pub world : W
  pub permissions : PermissionPolicy
  pub breaker : ToolCircuitBreaker
  pub events : List (Event A)

-- A part of the pipeline: the session after it, with a value or what it throws.
abbrev pub Run : Type 0 → Type 0 → Type 0 → Type 0
Run W A X = Session W A × Result Thrown X

module _ {W A : Type 0} where
  unfoldable pub emit : Event A → Session W A → Session W A
  emit e s = record s { events = e ∷ s.events }

  abbrev pub with_world : W → Session W A → Session W A
  with_world w s = record s { world = w }
