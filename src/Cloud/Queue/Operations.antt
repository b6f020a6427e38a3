-- ===== src/Cloud/Queue/Operations.antt =====
-- The operations of the queue in filesystemQueue.ts, their sequences, and the soundness of records.
use ninjacode_agent.Cloud.Contract.{CloudJob, parse_cloud_job}
use ninjacode_agent.Cloud.Contract.Laws.{IsSoundJob, parse_cloud_job-IsSoundJob}
use ninjacode_agent.Cloud.Json.{Value}
use ninjacode_agent.Cloud.Locks.{Moment, Locks, acquire_lock}
use ninjacode_agent.Cloud.Queue.{
  fail, succeed, is_waiting, QueueError, try_claim, claimed_record, record_files, has_token,
  succeeded_record, claim_from, could_not_lock, Store, lease_lost, queued_record, failed_record,
  job_id_of, JobLease, mark_running, JobRecord, write_record, mutate_leased, mutate_body,
  running_record, next_claim, renewed_record, enqueue_job, expire_record, FailureDisposition,
  is_stale, enqueue, with_lock, try_claim_body, claim, ClaimedJob, heartbeat, Outcome,
  already_exists, claim_record,
}
use ninjacode_agent.Cloud.Queue.Invariant.{
  failed_record-IsSound, renewed_record-IsSound, read_record-eq-get, IsSoundRecord, IsSoundStore,
  queued_record-IsSound, claimed_record-IsSound, write_record-IsSound, claimable-attempts,
  expire_record-IsSound, running_record-IsSound, succeeded_record-IsSound,
}
use ninjacode_agent.Prelude.{
  Option-cases, Bool-cases, is_some, leb, if◌then◌else◌, ℕ, ◌≡◌, refl, ◌⊎◌, inl, inr, Bool, true,
  false, ◌&&◌, ◌||◌, Option, none, some, List, [], ◌∷◌, arith,
}
use ninjacode_agent.Prelude.Maps.{get}
use ninjacode_agent.Prelude.Results.{err, Result, ok}
use ninjacode_agent.Prelude.Texts.{Text}

-- Under a lock an operation does what it says for lack of the lock and leaves the records alone, or
-- it runs its body on the same records.
pub with_lock-cases :
    {A : Type 0} (id : Text) (wait : Bool) (moments : List Moment) (busy : Result QueueError A)
    (body : Store → Outcome A) (s : Store)
    → let done = with_lock id wait moments busy body s in
      ((done.0.records ≡ s.records) × (done.1 ≡ busy))
      ⊎ ((locks : Locks) × (done.0.records ≡ (body (record s { locks = locks })).0.records)
          × (done.1 ≡ (body (record s { locks = locks })).1))
unfolding with_lock
with_lock-cases id wait moments busy body s =
    elim (Bool-cases (acquire_lock id wait moments s.locks).0) [
      | inl held ↦ inr ((acquire_lock id wait moments s.locks).1, ground arith, ground arith)
      | inr kept ↦ inl (ground arith, ground arith)
    ]

-- The operations of the queue that other code calls, with what each takes from outside.
pub data Op : Type 0 where
  enqueue_op : Value → ℕ → List Moment → Op
  claim_op : Text → Text → ℕ → List Moment → Op
  running_op : Text → Text → ℕ → List Moment → Op
  heartbeat_op : Text → Text → ℕ → ℕ → List Moment → Op
  succeed_op : Text → Text → Text → ℕ → List Moment → Op
  fail_op : Text → Text → FailureDisposition → List Moment → Op

pub is_some-has_token :
    (token : Text) (l : Option JobLease) → has_token token l ≡ true → is_some l ≡ true
unfolding has_token
is_some-has_token token l h = ground arith

module _ (is_date : Text → Bool) where
  unfoldable pub apply : Op → Store → Store
  apply (enqueue_op value now moments) s = (enqueue is_date value now moments s).0
  apply (claim_op token worker now moments) s = (claim is_date token worker now moments s).0
  apply (running_op id token now moments) s = (mark_running is_date id token now moments s).0
  apply (heartbeat_op id token lease_ms now moments) s =
      (heartbeat is_date id token lease_ms now moments s).0
  apply (succeed_op id token manifest now moments) s =
      (succeed is_date id token manifest now moments s).0
  apply (fail_op id token d moments) s = (fail is_date id token d moments s).0

  unfoldable pub apply_all : List Op → Store → Store
  unfolding apply
  apply_all [] s = s
  apply_all (o ∷ os) s = apply_all os (apply o s)

  with_lock-IsSound :
      {A : Type 0} (id : Text) (wait : Bool) (moments : List Moment) (busy : Result QueueError A)
      (body : Store → Outcome A) (s : Store)
      → IsSoundStore is_date s
      → ((t : Store) → IsSoundStore is_date t → IsSoundStore is_date (body t).0)
      → IsSoundStore is_date (with_lock id wait moments busy body s).0
  with_lock-IsSound id wait moments busy body s h k j r e =
      elim (with_lock-cases id wait moments busy body s) [
        | inl (same, _) ↦ h j r (rw same at e)
        | inr (locks, same, _) ↦ k (record s { locks = locks }) h j r (rw same at e)
      ]

  module _ (s : Store) (h : IsSoundStore is_date s) where
    -- The bodies on a sound store, where no record is there and where one is.
    pub enqueue_job_new :
        (job : CloudJob) (now : ℕ)
        → get job.id s.records ≡ none
        → enqueue_job is_date job now s
          ≡ (write_record (queued_record job now) s, ok (queued_record job now))
    unfolding enqueue_job
    enqueue_job_new job now e = ground (arith, read_record-eq-get is_date job.id s h)

    pub enqueue_job_again :
        (job : CloudJob) (now : ℕ) {r : JobRecord}
        → get job.id s.records ≡ some r
        → enqueue_job is_date job now s ≡ (s, err (already_exists job.id))
    unfolding enqueue_job
    enqueue_job_again job now e = ground (arith, read_record-eq-get is_date job.id s h)

    pub try_claim_body_missing :
        (token worker : Text) (now : ℕ) (id : Text)
        → get id s.records ≡ none
        → try_claim_body is_date token worker now id s ≡ (s, ok none)
    unfolding try_claim_body
    try_claim_body_missing token worker now id e = ground (arith, read_record-eq-get is_date id s h)

    pub try_claim_body_found :
        (token worker : Text) (now : ℕ) (id : Text) {r : JobRecord}
        → get id s.records ≡ some r
        → try_claim_body is_date token worker now id s ≡ claim_record token worker now r s
    unfolding try_claim_body
    try_claim_body_found token worker now id e =
        rw (try_claim_body, read_record-eq-get is_date id s h, e)

    pub mutate_body_missing :
        (id token : Text) (mutate : JobRecord → JobRecord)
        → get id s.records ≡ none
        → mutate_body is_date id token mutate s ≡ (s, err (lease_lost id))
    unfolding mutate_body
    mutate_body_missing id token mutate e = rw (mutate_body, read_record-eq-get is_date id s h, e)

    pub mutate_body_found :
        (id token : Text) (mutate : JobRecord → JobRecord) {r : JobRecord}
        → get id s.records ≡ some r
        → mutate_body is_date id token mutate s ≡ (
            if has_token token r.lease
            then (write_record (mutate r) s, ok tt)
            else (s, err (lease_lost id)))
    unfolding mutate_body
    mutate_body_found id token mutate e = rw (mutate_body, read_record-eq-get is_date id s h, e)

    enqueue_job-IsSound :
        (job : CloudJob) (now : ℕ)
        → IsSoundJob is_date job
        → IsSoundStore is_date (enqueue_job is_date job now s).0
    enqueue_job-IsSound job now k = elim (Option-cases (get job.id s.records)) [
      | inl e ↦ rw (enqueue_job_new job now e) (
          write_record-IsSound is_date (queued_record job now) s h
            (queued_record-IsSound is_date job now k))
      | inr (r, e) ↦ rw (enqueue_job_again job now e) h
    ]

    claim_record-IsSound :
        (token worker : Text) (now : ℕ) (r : JobRecord)
        → IsSoundRecord is_date r
        → IsSoundStore is_date (claim_record token worker now r s).0
    unfolding claim_record
    claim_record-IsSound token worker now r k =
        elim (Bool-cases (is_stale now r && leb r.job.execution.max_attempts r.attempt)) [
          | inl spent ↦ rw spent (
              write_record-IsSound is_date (expire_record r now) s h
                (expire_record-IsSound is_date r k now))
          | inr live ↦
              elim (Bool-cases (is_waiting now r.status r.available_at || is_stale now r)) [
                | inl ready ↦
                    rw (live, ready)
                      (write_record-IsSound is_date (claimed_record token worker now r) s h (
                        claimed_record-IsSound is_date r k token worker now
                          (claimable-attempts is_date r k now live ready)))
                | inr not_ready ↦ rw (live, not_ready) h
              ]
        ]

    try_claim_body-IsSound :
        (token worker : Text) (now : ℕ) (id : Text)
        → IsSoundStore is_date (try_claim_body is_date token worker now id s).0
    try_claim_body-IsSound token worker now id = elim (Option-cases (get id s.records)) [
      | inl e ↦ rw (try_claim_body_missing token worker now id e) h
      | inr (r, e) ↦
          rw (try_claim_body_found token worker now id e)
            (claim_record-IsSound token worker now r (h id r e).1)
    ]

    mutate_body-IsSound :
        (id token : Text) (mutate : JobRecord → JobRecord)
        → ((r : JobRecord)
            → IsSoundRecord is_date r
            → is_some r.lease ≡ true
            → IsSoundRecord is_date (mutate r))
        → IsSoundStore is_date (mutate_body is_date id token mutate s).0
    mutate_body-IsSound id token mutate k = elim (Option-cases (get id s.records)) [
      | inl e ↦ rw (mutate_body_missing id token mutate e) h
      | inr (r, e) ↦ elim (Bool-cases (has_token token r.lease)) [
        | inl ours ↦
            rw (mutate_body_found id token mutate e, ours)
              (write_record-IsSound is_date (mutate r) s h
                (k r (h id r e).1 (is_some-has_token token r.lease ours)))
        | inr lost ↦ rw (mutate_body_found id token mutate e, lost) h
      ]
    ]

  mutate_leased-IsSound :
      (s : Store) (id token : Text) (mutate : JobRecord → JobRecord) (moments : List Moment)
      → IsSoundStore is_date s
      → ((r : JobRecord)
          → IsSoundRecord is_date r
          → is_some r.lease ≡ true
          → IsSoundRecord is_date (mutate r))
      → IsSoundStore is_date (mutate_leased is_date id token mutate moments s).0
  unfolding mutate_leased
  mutate_leased-IsSound s id token mutate moments h k =
      with_lock-IsSound id true moments (err (could_not_lock id))
        (mutate_body is_date id token mutate) s h (λ t l. mutate_body-IsSound t l id token mutate k)

  pub try_claim-IsSound :
      (s : Store) (token worker : Text) (now : ℕ) (moments : List Moment) (id : Text)
      → IsSoundStore is_date s
      → IsSoundStore is_date (try_claim is_date token worker now moments id s).0
  unfolding try_claim
  try_claim-IsSound s token worker now moments id h =
      with_lock-IsSound id false moments (ok none) (try_claim_body is_date token worker now id) s h
        (λ t l. try_claim_body-IsSound t l token worker now id)

  next_claim-IsSound :
      (result : Result QueueError (Option ClaimedJob)) (after : Store)
      (rest : Outcome (Option ClaimedJob))
      → IsSoundStore is_date after
      → IsSoundStore is_date rest.0
      → IsSoundStore is_date (next_claim result after rest).0
  unfolding next_claim
  next_claim-IsSound (ok none) after rest h k = k
  next_claim-IsSound (ok (some c)) after rest h k = h
  next_claim-IsSound (err e) after rest h k = h

  claim_from-IsSound :
      (files : List Text) (s : Store) (token worker : Text) (now : ℕ) (moments : List Moment)
      → IsSoundStore is_date s
      → IsSoundStore is_date (claim_from is_date token worker now moments files s).0
  unfolding claim_from
  claim_from-IsSound [] s token worker now moments h = h
  claim_from-IsSound (file ∷ files) s token worker now moments h =
      let tried = try_claim is_date token worker now moments (job_id_of file) s in
      let sound = try_claim-IsSound s token worker now moments (job_id_of file) h in
      next_claim-IsSound tried.1 tried.0 (claim_from is_date token worker now moments files tried.0)
        sound (claim_from-IsSound files tried.0 token worker now moments sound)

  enqueue-IsSound :
      (s : Store) (value : Value) (now : ℕ) (moments : List Moment)
      → IsSoundStore is_date s
      → IsSoundStore is_date (enqueue is_date value now moments s).0
  unfolding enqueue
  enqueue-IsSound s value now moments h = go (parse_cloud_job is_date value) refl
    where
      go :
          (p : Result Text CloudJob)
          → parse_cloud_job is_date value ≡ p
          → IsSoundStore is_date (enqueue is_date value now moments s).0
      go (err e) q = rw (enqueue, q) h
      go (ok job) q =
          rw (enqueue, q)
            (with_lock-IsSound job.id true moments (err (could_not_lock job.id))
              (enqueue_job is_date job now) s h
              (λ t l.
                enqueue_job-IsSound t l job now (parse_cloud_job-IsSoundJob is_date value job q)))

  -- Every operation keeps every record sound.
  pub apply-IsSound :
      (o : Op) (s : Store) → IsSoundStore is_date s → IsSoundStore is_date (apply o s)
  unfolding apply claim mark_running heartbeat succeed fail
  apply-IsSound (enqueue_op value now moments) s h = enqueue-IsSound s value now moments h
  apply-IsSound (claim_op token worker now moments) s h =
      claim_from-IsSound (record_files s) s token worker now moments h
  apply-IsSound (running_op id token now moments) s h =
      mutate_leased-IsSound s id token (running_record now) moments h
        (λ r k l. running_record-IsSound is_date r k now l)
  apply-IsSound (heartbeat_op id token lease_ms now moments) s h =
      mutate_leased-IsSound s id token (renewed_record lease_ms now) moments h
        (λ r k l. renewed_record-IsSound is_date r k lease_ms now)
  apply-IsSound (succeed_op id token manifest now moments) s h =
      mutate_leased-IsSound s id token (succeeded_record manifest now) moments h
        (λ r k l. succeeded_record-IsSound is_date r k manifest now)
  apply-IsSound (fail_op id token d moments) s h =
      mutate_leased-IsSound s id token (failed_record d) moments h
        (λ r k l. failed_record-IsSound is_date r k d)

  -- Every sequence of operations keeps every record under the id of its job and sound: its job in
  -- range, no more attempts than the job allows, none yet while it is queued, a lease exactly while
  -- it is leased or running, and an attempt left while it waits for a retry.
  pub apply_all-IsSound :
      (os : List Op) (s : Store) → IsSoundStore is_date s → IsSoundStore is_date (apply_all os s)
  unfolding apply_all
  apply_all-IsSound [] s h = h
  apply_all-IsSound (o ∷ os) s h = apply_all-IsSound os (apply o s) (apply-IsSound o s h)
