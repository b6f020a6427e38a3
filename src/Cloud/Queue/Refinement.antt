-- ===== src/Cloud/Queue/Refinement.antt =====
-- The queue of filesystemQueue.ts, seen through one job id, under any sequence of operations.
use ninjacode_agent.Cloud.Contract.{CloudJob, parse_cloud_job}
use ninjacode_agent.Cloud.Contract.Laws.{IsSoundJob, parse_cloud_job-IsSoundJob}
use ninjacode_agent.Cloud.Json.{Value}
use ninjacode_agent.Cloud.Locks.{Moment}
use ninjacode_agent.Cloud.Queue.{
  fail, succeed, record_files, succeeded_record, of_parsed, could_not_lock, Store, failed_record,
  mark_running, running_record, renewed_record, enqueue_job, enqueue, with_lock, claim, heartbeat,
}
use ninjacode_agent.Cloud.Queue.Effects.{
  Effect, mutate-Effect, claim_from-Effect, enqueue_body-Effect, handed,
}
use ninjacode_agent.Cloud.Queue.Invariant.{IsSoundStore}
use ninjacode_agent.Cloud.Queue.Machine.{give_up, renew, Moves-trans, run, Moves, finish, still}
use ninjacode_agent.Cloud.Queue.Operations.{
  apply, apply_all, running_op, fail_op, Op, heartbeat_op, apply-IsSound, enqueue_op, claim_op,
  with_lock-cases, succeed_op,
}
use ninjacode_agent.Prelude.{ℕ, ◌+◌, ◌≡◌, refl, inl, inr, Bool, true, List, [], ◌∷◌}
use ninjacode_agent.Prelude.Maps.{get}
use ninjacode_agent.Prelude.Results.{err, Result, ok}
use ninjacode_agent.Prelude.Texts.{Text}

module _ (is_date : Text → Bool) (id : Text) where
  enqueue-Effect :
      (value : Value) (now : ℕ) (moments : List Moment) (s : Store)
      → IsSoundStore is_date s
      → Effect is_date id s (enqueue is_date value now moments s).0 0
  unfolding enqueue
  enqueue-Effect value now moments s h = go (parse_cloud_job is_date value) refl
    where
      under_lock :
          (job : CloudJob)
          → IsSoundJob is_date job
          → Effect is_date id s
              (with_lock job.id true moments
                (err (could_not_lock job.id))
                (enqueue_job is_date job now)
                s).0
              0
      under_lock job k =
          elim (with_lock-cases job.id true moments (err (could_not_lock job.id))
            (enqueue_job is_date job now) s) [
              | inl (same, _) ↦ rw same still
              | inr (locks, same, _) ↦
                  rw same (enqueue_body-Effect is_date id job now (record s { locks = locks }) k h)
            ]

      go :
          (p : Result Text CloudJob)
          → parse_cloud_job is_date value ≡ p
          → Effect is_date id s (enqueue is_date value now moments s).0 0
      go (err e) q = rw (enqueue, q) (unfold of_parsed in still)
      go (ok job) q =
          rw (enqueue, q)
            (unfold of_parsed in under_lock job (parse_cloud_job-IsSoundJob is_date value job q))

  -- How often an operation hands out the job of the id.
  unfoldable pub handed_by : Op → Store → ℕ
  handed_by (claim_op token worker now moments) s =
      handed id (claim is_date token worker now moments s).1
  handed_by (enqueue_op value now moments) s = 0
  handed_by (running_op name token now moments) s = 0
  handed_by (heartbeat_op name token lease_ms now moments) s = 0
  handed_by (succeed_op name token manifest now moments) s = 0
  handed_by (fail_op name token d moments) s = 0

  unfoldable pub handed_by_all : List Op → Store → ℕ
  unfolding handed_by
  handed_by_all [] s = 0
  handed_by_all (o ∷ os) s = handed_by o s + handed_by_all os (apply is_date o s)

  apply-Effect :
      (o : Op) (s : Store)
      → IsSoundStore is_date s
      → Effect is_date id s (apply is_date o s) (handed_by o s)
  unfolding apply handed_by claim mark_running heartbeat succeed fail
  apply-Effect (enqueue_op value now moments) s h = enqueue-Effect value now moments s h
  apply-Effect (claim_op token worker now moments) s h =
      claim_from-Effect is_date id (record_files s) token worker now moments s h
  apply-Effect (running_op name token now moments) s h =
      mutate-Effect is_date id name token (running_record now) moments s h (λ r a. run token now a)
  apply-Effect (heartbeat_op name token lease_ms now moments) s h =
      mutate-Effect is_date id name token (renewed_record lease_ms now) moments s h
        (λ r a. renew token lease_ms now a)
  apply-Effect (succeed_op name token manifest now moments) s h =
      mutate-Effect is_date id name token (succeeded_record manifest now) moments s h
        (λ r a. finish token manifest now a)
  apply-Effect (fail_op name token d moments) s h =
      mutate-Effect is_date id name token (failed_record d) moments s h (λ r a. give_up token d a)

  -- Whatever operations run, the record under an id goes through moves of the state machine of one
  -- job, in which the job is handed out as often as `claim` has returned it.
  pub apply_all-Moves :
      (os : List Op) (s : Store)
      → IsSoundStore is_date s
      → Moves is_date
          (get id s.records)
          (get id (apply_all is_date os s).records)
          (handed_by_all os s)
  unfolding apply_all handed_by_all
  apply_all-Moves [] s h = still
  apply_all-Moves (o ∷ os) s h =
      Moves-trans is_date (apply-Effect o s h)
        (apply_all-Moves os (apply is_date o s) (apply-IsSound is_date o s h)) refl
