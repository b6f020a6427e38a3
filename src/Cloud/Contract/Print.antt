-- ===== src/Cloud/Contract/Print.antt =====
-- A job of contract.ts as the queue writes it to disk, before `JSON.stringify` prints it.
use ninjacode_agent.Cloud.Contract.{CloudJob, Task, JobPolicy, Execution}
use ninjacode_agent.Cloud.Json.{
  entry, of_texts, of_option, Fields, num, no_fields, obj, text, arr, Value,
}
use ninjacode_agent.Prelude.{Option, List}
use ninjacode_agent.Prelude.Texts.{Text, codes}

-- What `JSON.stringify` writes for a job: absent fields are left undefined.
unfoldable pub execution_value : Execution → Value
execution_value x = obj (
    entry (codes "maxAttempts") (num x.max_attempts) (
      entry (codes "leaseMs") (num x.lease_ms) (
        entry (codes "heartbeatMs") (num x.heartbeat_ms) (
          entry (codes "timeoutMs") (num x.timeout_ms) (
            entry (codes "retry")
              (obj (
                entry (codes "baseDelayMs") (num x.retry.base_delay_ms)
                  (entry (codes "maxDelayMs") (num x.retry.max_delay_ms) no_fields)))
              no_fields)))))

unfoldable pub task_value : Task → Value
unfolding of_option
task_value t = obj (
    entry (codes "prompt") (text t.prompt) (
      entry (codes "model") (of_option text t.model)
        (entry (codes "maxTurns") (of_option num t.max_turns) no_fields)))

abbrev pub texts_value : List Text → Value
texts_value ts = arr (of_texts ts)

unfoldable pub policy_fields : JobPolicy → Fields
unfolding of_option
policy_fields p =
    entry (codes "secrets") (of_option texts_value p.secrets)
      (entry (codes "egress") (of_option texts_value p.egress) no_fields)

unfoldable pub artifacts_fields : Option (List Text) → Fields
unfolding of_option
artifacts_fields paths = entry (codes "paths") (of_option texts_value paths) no_fields

unfoldable pub job_value : CloudJob → Value
unfolding execution_value task_value policy_fields artifacts_fields of_option
job_value j = obj (
    entry (codes "version") (num 1) (
      entry (codes "id") (text j.id) (
        entry (codes "createdAt") (text j.created_at) (
          entry (codes "task") (task_value j.task) (
            entry (codes "workspace") (obj (entry (codes "kind") (text (codes "empty")) no_fields))
              (entry (codes "execution") (execution_value j.execution) (
                entry (codes "policy") (of_option (λ p. obj (policy_fields p)) j.policy) (
                  entry (codes "artifacts") (of_option (λ a. obj (artifacts_fields a)) j.artifacts)
                    no_fields))))))))
