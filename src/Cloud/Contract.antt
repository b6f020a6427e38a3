-- ===== src/Cloud/Contract.antt =====
-- apps/cloud-worker/src/contract.ts: the checks on a job description.
pub mod Print
pub mod Laws
use ninjacode_agent.Cloud.Json.{
  Fields, num, no_elements, obj, Elements, element, field_of, undefined, text, arr, Value,
}
use ninjacode_agent.Prelude.{
  ltb, ◌==◌, leb, if◌then◌else◌, all, length, ℕ, max, Bool, true, false, not, ◌&&◌, ◌||◌, Option,
  none, some, List, [], ◌∷◌, ◌++◌,
}
use ninjacode_agent.Prelude.Results.{require, err, Result, ◌>>◌, ok, ◌>>=◌}
use ninjacode_agent.Prelude.Texts.{Text, text_eq, trim, codes}

pub record Retry : Type 0 where
  pub base_delay_ms : ℕ
  pub max_delay_ms : ℕ

pub record Execution : Type 0 where
  pub max_attempts : ℕ
  pub lease_ms : ℕ
  pub heartbeat_ms : ℕ
  pub timeout_ms : ℕ
  pub retry : Retry

pub record Task : Type 0 where
  pub prompt : Text
  pub model : Option Text
  pub max_turns : Option ℕ

pub record JobPolicy : Type 0 where
  pub secrets : Option (List Text)
  pub egress : Option (List Text)

-- The version and the kind of workspace have one value each.
pub record CloudJob : Type 0 where
  pub id : Text
  pub created_at : Text
  pub task : Task
  pub execution : Execution
  pub policy : Option JobPolicy
  pub artifacts : Option (Option (List Text))

abbrev pub Parsed : Type 0 → Type 0
Parsed A = Result Text A

unfoldable pub object : Value → Text → Parsed Fields
object (obj fields) name = ok fields
object _ name = err (name ++ codes " must be an object")

-- The message spells the bound in digits, which is left out.
unfoldable pub positive_integer : Value → Text → ℕ → Parsed ℕ
positive_integer (num n) name max =
    if ltb 0 n && leb n max
    then ok n
    else err (name ++ codes " must be an integer between 1 and its maximum")
positive_integer _ name max = err (name ++ codes " must be an integer between 1 and its maximum")

unfoldable pub texts_of : Elements → Option (List Text)
texts_of no_elements = some []
texts_of (element (text t) rest) = elim (texts_of rest) [ none ↦ none | some ts ↦ some (t ∷ ts) ]
texts_of (element _ rest) = none

unfoldable pub string_array : Value → Text → Parsed (Option (List Text))
unfolding texts_of
string_array undefined name = ok none
string_array (arr items) name = elim (texts_of items) [
  | none ↦ err (name ++ codes " must be an array of strings")
  | some ts ↦ ok (some ts)
]
string_array _ name = err (name ++ codes " must be an array of strings")

unfoldable pub is_alnum : ℕ → Bool
is_alnum c = (leb b'a' c && leb c b'z') || (leb b'A' c && leb c b'Z') || (leb b'0' c && leb c b'9')

unfoldable pub is_id_unit : ℕ → Bool
unfolding is_alnum
is_id_unit c = is_alnum c || c == b'.' || c == b'_' || c == b'-'

-- `JOB_ID.test(id)`
unfoldable pub is_job_id : Text → Bool
unfolding is_alnum is_id_unit
is_job_id [] = false
is_job_id (c ∷ rest) = is_alnum c && (all is_id_unit rest && leb (length rest) 127)

unfoldable pub required_text : Value → Text → Parsed Text
required_text (text t) message = ok t
required_text _ message = err message

unfoldable pub optional_text : Value → Text → Parsed (Option Text)
optional_text undefined message = ok none
optional_text (text t) message = ok (some t)
optional_text _ message = err message

unfoldable pub optional_turns : Value → Parsed (Option ℕ)
unfolding positive_integer
optional_turns undefined = ok none
optional_turns v = do n ← positive_integer v (codes "task.maxTurns") 256; ok (some n)

unfoldable pub is_blank : Text → Bool
unfolding trim
is_blank s = elim (trim s) [ [] ↦ true | c ∷ r ↦ false ]

unfoldable pub parse_task : Value → Parsed Task
unfolding object required_text is_blank optional_text optional_turns field_of
parse_task value = do
  task ← object value (codes "task")
  prompt ←
      required_text (field_of (codes "prompt") task)
        (codes "task.prompt must be a non-empty string")
  require (not (is_blank prompt)) (codes "task.prompt must be a non-empty string")
  model ← optional_text (field_of (codes "model") task) (codes "task.model must be a string")
  max_turns ← optional_turns (field_of (codes "maxTurns") task)
  ok (record { prompt = prompt; model = model; max_turns = max_turns })

unfoldable pub parse_execution : Value → Parsed Execution
unfolding object positive_integer field_of
parse_execution value = do
  execution ← object value (codes "execution")
  retry ← object (field_of (codes "retry") execution) (codes "execution.retry")
  max_attempts ←
      positive_integer (field_of (codes "maxAttempts") execution) (codes "execution.maxAttempts") 10
  lease_ms ←
      positive_integer (field_of (codes "leaseMs") execution) (codes "execution.leaseMs") 86_400_000
  heartbeat_ms ←
      positive_integer (field_of (codes "heartbeatMs") execution) (codes "execution.heartbeatMs")
        3_600_000
  timeout_ms ←
      positive_integer (field_of (codes "timeoutMs") execution) (codes "execution.timeoutMs")
        86_400_000
  base_delay_ms ←
      positive_integer (field_of (codes "baseDelayMs") retry) (codes "execution.retry.baseDelayMs")
        3_600_000
  max_delay_ms ←
      positive_integer (field_of (codes "maxDelayMs") retry) (codes "execution.retry.maxDelayMs")
        86_400_000
  require (ltb heartbeat_ms lease_ms)
      (codes "execution.heartbeatMs must be shorter than execution.leaseMs")
  require (leb base_delay_ms max_delay_ms)
      (codes "execution.retry.baseDelayMs must not exceed maxDelayMs")
  ok (record {
    max_attempts = max_attempts;
    lease_ms = lease_ms;
    heartbeat_ms = heartbeat_ms;
    timeout_ms = timeout_ms;
    retry = record { base_delay_ms = base_delay_ms; max_delay_ms = max_delay_ms };
  })

unfoldable pub optional_object : Value → Text → Parsed (Option Fields)
unfolding object
optional_object undefined name = ok none
optional_object v name = do fields ← object v name; ok (some fields)

unfoldable pub parse_policy : Option Fields → Parsed (Option JobPolicy)
unfolding string_array field_of
parse_policy none = ok none
parse_policy (some fields) = do
  secrets ← string_array (field_of (codes "secrets") fields) (codes "policy.secrets")
  egress ← string_array (field_of (codes "egress") fields) (codes "policy.egress")
  ok (some (record { secrets = secrets; egress = egress }))

unfoldable pub parse_artifacts : Option Fields → Parsed (Option (Option (List Text)))
unfolding string_array field_of
parse_artifacts none = ok none
parse_artifacts (some fields) = do
  paths ← string_array (field_of (codes "paths") fields) (codes "artifacts.paths")
  ok (some paths)

unfoldable pub is_version : Value → Bool
is_version (num n) = n == 1
is_version _ = false

unfoldable pub is_empty_kind : Value → Bool
is_empty_kind (text t) = text_eq t (codes "empty")
is_empty_kind _ = false

-- `is_date t` stands for `!Number.isNaN(Date.parse(t))`.
module _ (is_date : Text → Bool) where
  unfoldable pub parse_cloud_job : Value → Parsed CloudJob
  unfolding object required_text is_version is_job_id is_empty_kind optional_object field_of
  parse_cloud_job value = do
    job ← object value (codes "job")
    require (is_version (field_of (codes "version") job)) (codes "unsupported job version")
    id ← required_text (field_of (codes "id") job) (codes "invalid job id")
    require (is_job_id id) (codes "invalid job id")
    created_at ←
        required_text (field_of (codes "createdAt") job) (codes "createdAt must be an ISO date")
    require (is_date created_at) (codes "createdAt must be an ISO date")
    workspace ← object (field_of (codes "workspace") job) (codes "workspace")
    require (is_empty_kind (field_of (codes "kind") workspace)) (codes "unsupported workspace kind")
    policy ← optional_object (field_of (codes "policy") job) (codes "policy")
    artifacts ← optional_object (field_of (codes "artifacts") job) (codes "artifacts")
    task ← parse_task (field_of (codes "task") job)
    execution ← parse_execution (field_of (codes "execution") job)
    parsed_policy ← parse_policy policy
    parsed_artifacts ← parse_artifacts artifacts
    ok (record {
      id = id;
      created_at = created_at;
      task = task;
      execution = execution;
      policy = parsed_policy;
      artifacts = parsed_artifacts;
    })
