-- ===== src/Cloud/Queue/Invariant.antt =====
-- What holds of every record of the queue in filesystemQueue.ts between two operations.
use ninjacode_agent.Cloud.Contract.{CloudJob}
use ninjacode_agent.Cloud.Contract.Laws.{IsSoundJob, parse_cloud_job-job_value}
use ninjacode_agent.Cloud.Queue.{
  is_waiting, queued, retry_wait, claimed_record, is_active, succeeded_record, Store, queued_record,
  failed_record, JobRecord, write_record, running_record, renewed_record, expire_record,
  FailureDisposition, is_stale, read_record,
}
use ninjacode_agent.Prelude.{
  Option-cases, Bool-cases, is_some, leb, ℕ, ◌≤◌, ◌<◌, ◌≡◌, refl, inl, inr, Bool, true, false, ◌&&◌,
  ◌||◌, some, arith,
}
use ninjacode_agent.Prelude.Maps.{get-insert, get}
use ninjacode_agent.Prelude.Results.{ok}
use ninjacode_agent.Prelude.Texts.{Text, text_eq, text_eq→≡}

pub record IsSoundRecord (is_date : Text → Bool) (r : JobRecord) : Type 0 where
  pub job : IsSoundJob is_date r.job
  pub attempts : r.attempt ≤ r.job.execution.max_attempts
  pub leased_iff : is_some r.lease ≡ is_active r.status
  pub fresh : r.status ≡ queued → r.attempt ≡ 0
  pub retries_left : r.status ≡ retry_wait → r.attempt < r.job.execution.max_attempts

module _ (is_date : Text → Bool) where
  -- Every record stands under the id of its job, and is sound.
  abbrev pub IsSoundStore : Store → Type 0
  IsSoundStore s =
      (id : Text) (r : JobRecord)
      → get id s.records ≡ some r
      → (r.job.id ≡ id) × IsSoundRecord is_date r

  pub queued_record-IsSound :
      (j : CloudJob) (now : ℕ) → IsSoundJob is_date j → IsSoundRecord is_date (queued_record j now)
  unfolding queued_record is_active
  queued_record-IsSound j now h = record {
    job = h;
    attempts = omega arith;
    leased_iff = refl;
    fresh = λ _. refl;
    retries_left = λ e. cc;
  }

  module _ (r : JobRecord) (h : IsSoundRecord is_date r) where
    pub expire_record-IsSound : (now : ℕ) → IsSoundRecord is_date (expire_record r now)
    unfolding expire_record is_active
    expire_record-IsSound now = record {
      job = h.job;
      attempts = h.attempts;
      leased_iff = refl;
      fresh = λ e. cc;
      retries_left = λ e. cc;
    }

    -- A record that can be claimed has an attempt left.
    pub claimable-attempts :
        (now : ℕ)
        → (is_stale now r && leb r.job.execution.max_attempts r.attempt) ≡ false
        → (is_waiting now r.status r.available_at || is_stale now r) ≡ true
        → r.attempt < r.job.execution.max_attempts
    unfolding is_waiting is_stale
    claimable-attempts now live ready = ground (arith, h.fresh, h.retries_left, h.job.execution)

    pub claimed_record-IsSound :
        (token worker : Text) (now : ℕ)
        → r.attempt < r.job.execution.max_attempts
        → IsSoundRecord is_date (claimed_record token worker now r)
    unfolding claimed_record is_active
    claimed_record-IsSound token worker now lt = record {
      job = h.job;
      attempts = omega arith;
      leased_iff = refl;
      fresh = λ e. cc;
      retries_left = λ e. cc;
    }

    pub running_record-IsSound :
        (now : ℕ) → is_some r.lease ≡ true → IsSoundRecord is_date (running_record now r)
    unfolding running_record is_active
    running_record-IsSound now l = record {
      job = h.job;
      attempts = h.attempts;
      leased_iff = l;
      fresh = λ e. cc;
      retries_left = λ e. cc;
    }

    pub renewed_record-IsSound :
        (lease_ms now : ℕ) → IsSoundRecord is_date (renewed_record lease_ms now r)
    unfolding renewed_record
    renewed_record-IsSound lease_ms now = record {
      job = h.job;
      attempts = h.attempts;
      leased_iff = ground (arith, h.leased_iff);
      fresh = h.fresh;
      retries_left = h.retries_left;
    }

    pub succeeded_record-IsSound :
        (manifest : Text) (now : ℕ) → IsSoundRecord is_date (succeeded_record manifest now r)
    unfolding succeeded_record is_active
    succeeded_record-IsSound manifest now = record {
      job = h.job;
      attempts = h.attempts;
      leased_iff = refl;
      fresh = λ e. cc;
      retries_left = λ e. cc;
    }

    pub failed_record-IsSound : (d : FailureDisposition) → IsSoundRecord is_date (failed_record d r)
    unfolding failed_record is_active
    failed_record-IsSound d = record {
      job = h.job;
      attempts = h.attempts;
      leased_iff = ground arith;
      fresh = ground arith;
      retries_left = ground arith;
    }

  -- Reading gives the record that is there, if it is sound.
  pub read_record-eq-get :
      (id : Text) (s : Store) → IsSoundStore s → read_record is_date id s ≡ ok (get id s.records)
  unfolding read_record
  read_record-eq-get id s h = elim (Option-cases (get id s.records)) [
    | inl e ↦ ground arith
    | inr (r, e) ↦ ground (arith, parse_cloud_job-job_value is_date r.job (h id r e).1.job)
  ]

  pub write_record-IsSound :
      (r : JobRecord) (s : Store)
      → IsSoundStore s
      → IsSoundRecord is_date r
      → IsSoundStore (write_record r s)
  unfolding write_record
  write_record-IsSound r s h k id x e = elim (Bool-cases (text_eq r.job.id id)) [
    | inl here ↦
        let same : r ≡ x = ground (arith, get-insert r.job.id id r s.records) in
        rw (← same) (text_eq→≡ r.job.id id here, k)
    | inr there ↦ h id x (ground (arith, get-insert r.job.id id r s.records))
  ]
