-- ===== src/Cloud/Contract/Laws.antt =====
-- The jobs that contract.ts accepts, and those that it reads back.
use ninjacode_agent.Cloud.Contract.{
  is_blank, is_job_id, CloudJob, Task, parse_policy, parse_execution, parse_cloud_job,
  positive_integer, JobPolicy, string_array, parse_artifacts, parse_task, texts_of, Execution,
}
use ninjacode_agent.Cloud.Contract.Print.{
  job_value, policy_fields, task_value, texts_value, execution_value, artifacts_fields,
}
use ninjacode_agent.Cloud.Json.{of_texts, of_option, obj, field_of, Value}
use ninjacode_agent.Prelude.{
  get_or, ℕ, ◌≤◌, ◌<◌, max, ◌≡◌, refl, Bool, true, false, Option, none, some, List, [], ◌∷◌, arith,
}
use ninjacode_agent.Prelude.Results.{ok}
use ninjacode_agent.Prelude.Texts.{Text, text_eq, codes}

pub record IsSoundExecution (x : Execution) : Type 0 where
  pub attempts : (0 < x.max_attempts) × (x.max_attempts ≤ 10)
  pub lease : x.lease_ms ≤ 86_400_000
  pub heartbeat : (0 < x.heartbeat_ms) × (x.heartbeat_ms ≤ 3_600_000)
  pub timeout : (0 < x.timeout_ms) × (x.timeout_ms ≤ 86_400_000)
  pub base : (0 < x.retry.base_delay_ms) × (x.retry.base_delay_ms ≤ 3_600_000)
  pub longest : x.retry.max_delay_ms ≤ 86_400_000
  pub beats : x.heartbeat_ms < x.lease_ms
  pub delays : x.retry.base_delay_ms ≤ x.retry.max_delay_ms

abbrev IsSoundTurns : Option ℕ → Type 0
IsSoundTurns none = Unit
IsSoundTurns (some n) = (0 < n) × (n ≤ 256)

pub record IsSoundJob (is_date : Text → Bool) (j : CloudJob) : Type 0 where
  pub id : is_job_id j.id ≡ true
  pub date : is_date j.created_at ≡ true
  pub prompt : is_blank j.task.prompt ≡ false
  pub turns : IsSoundTurns j.task.max_turns
  pub execution : IsSoundExecution j.execution

texts_of-of_texts : (ts : List Text) → texts_of (of_texts ts) ≡ some ts
unfolding texts_of of_texts
texts_of-of_texts [] = refl
texts_of-of_texts (t ∷ ts) = rw (texts_of-of_texts ts)

string_array_value :
    (ts : Option (List Text)) (name : Text) → string_array (of_option texts_value ts) name ≡ ok ts
unfolding string_array of_option
string_array_value none name = refl
string_array_value (some ts) name = rw (string_array, texts_of-of_texts ts)

parse_execution_value :
    (x : Execution) → IsSoundExecution x → parse_execution (execution_value x) ≡ ok x
unfolding parse_execution execution_value text_eq
parse_execution_value x h = ground arith

parse_task_value :
    (t : Task)
    → is_blank t.prompt ≡ false
    → IsSoundTurns t.max_turns
    → parse_task (task_value t) ≡ ok t
unfolding parse_task task_value text_eq of_option
parse_task_value t b h = ground arith

parse_policy_fields : (p : JobPolicy) → parse_policy (some (policy_fields p)) ≡ ok (some p)
unfolding parse_policy policy_fields text_eq
parse_policy_fields p = ground (
  arith,
  string_array_value p.secrets (codes "policy.secrets"),
  string_array_value p.egress (codes "policy.egress"),
)

parse_artifacts_fields :
    (paths : Option (List Text)) → parse_artifacts (some (artifacts_fields paths)) ≡ ok (some paths)
unfolding parse_artifacts artifacts_fields text_eq
parse_artifacts_fields paths = ground (arith, string_array_value paths (codes "artifacts.paths"))

-- The integers that `positive_integer` lets through.
positive_integer-eq-ok :
    (v : Value) (name : Text) (max n : ℕ) → positive_integer v name max ≡ ok n → (0 < n) × (n ≤ max)
unfolding positive_integer
positive_integer-eq-ok v name max n h = ground arith

parse_execution-IsSound :
    (v : Value) (x : Execution) → parse_execution v ≡ ok x → IsSoundExecution x
unfolding parse_execution
parse_execution-IsSound v x h = ground arith

parse_task-IsSound :
    (v : Value) (t : Task)
    → parse_task v ≡ ok t
    → (is_blank t.prompt ≡ false) × IsSoundTurns t.max_turns
unfolding parse_task
parse_task-IsSound v t h = ground arith

-- Every job that the parser accepts, from any value, has a safe identifier, a date, a prompt that
-- is not blank, and limits in range; its heartbeat is shorter than its lease.
pub parse_cloud_job-IsSoundJob :
    (is_date : Text → Bool) (v : Value) (j : CloudJob)
    → parse_cloud_job is_date v ≡ ok j
    → IsSoundJob is_date j
unfolding parse_cloud_job
parse_cloud_job-IsSoundJob is_date (obj job) j h = ground (
  arith,
  parse_task-IsSound (field_of (codes "task") job) j.task,
  parse_execution-IsSound (field_of (codes "execution") job) j.execution,
)
parse_cloud_job-IsSoundJob is_date _ j h = cc

abbrev no_policy : JobPolicy
no_policy = record { secrets = none; egress = none }

parse_none : (parse_policy none ≡ ok none) × (parse_artifacts none ≡ ok none)
unfolding parse_policy parse_artifacts
parse_none = (refl, refl)

-- A sound job that has been written as JSON is read back as it was.
pub parse_cloud_job-job_value :
    (is_date : Text → Bool) (j : CloudJob)
    → IsSoundJob is_date j
    → parse_cloud_job is_date (job_value j) ≡ ok j
unfolding parse_cloud_job job_value text_eq of_option
parse_cloud_job-job_value is_date j h = ground (
  arith,
  parse_task_value j.task h.prompt h.turns,
  parse_execution_value j.execution h.execution,
  parse_policy_fields (get_or j.policy no_policy),
  parse_artifacts_fields (get_or j.artifacts none),
  parse_none,
)
