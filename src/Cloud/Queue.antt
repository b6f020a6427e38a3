-- ===== src/Cloud/Queue.antt =====
-- apps/cloud-worker/src/queue.ts and filesystemQueue.ts: `FileSystemJobQueue`. The directories of
-- records and of locks are two maps by job id. An operation is atomic but for the lock files, which
-- others may change between two attempts. Time stamps are the milliseconds that they print.
-- A record is written and read back as JSON: reading parses its job again.
pub mod Invariant
pub mod Operations
pub mod Machine
pub mod Effects
pub mod Refinement
pub mod Leases
pub mod Exclusion
use ninjacode_agent.Cloud.Contract.{CloudJob, parse_cloud_job}
use ninjacode_agent.Cloud.Contract.Print.{job_value}
use ninjacode_agent.Cloud.Json.{Value}
use ninjacode_agent.Cloud.Locks.{release_lock, Moment, Locks, acquire_lock}
use ninjacode_agent.Prelude.{
  ltb, get_or, ◌==◌, is_some, leb, if◌then◌else◌, take, length, ℕ, ◌+◌, ◌-◌, Bool, true, false,
  ◌&&◌, ◌||◌, Option, none, some, List, [], ◌∷◌, ◌++◌, map,
}
use ninjacode_agent.Prelude.Maps.{keys, get, insert}
use ninjacode_agent.Prelude.Results.{err, Result, ok, ◌>>=◌}
use ninjacode_agent.Prelude.Texts.{Text, text_eq, codes}

pub data JobStatus : Type 0 where
  queued leased running retry_wait succeeded timed_out failed : JobStatus

pub data FailureCode : Type 0 where
  execution lease_expired policy timeout : FailureCode

pub record JobFailure : Type 0 where
  pub code : FailureCode
  pub message : Text
  pub at : ℕ

pub record JobLease : Type 0 where
  pub token : Text
  pub worker_id : Text
  pub expires_at : ℕ

pub record JobRecord : Type 0 where
  pub job : CloudJob
  pub status : JobStatus
  pub attempt : ℕ
  pub updated_at : ℕ
  pub available_at : ℕ
  pub lease : Option JobLease
  pub failure : Option JobFailure
  pub artifact_manifest : Option Text

pub record ClaimedJob : Type 0 where
  pub record_of : JobRecord
  pub lease : JobLease

-- `now` stands for `disposition.now ?? Date.now()`.
pub record FailureDisposition : Type 0 where
  pub failure : JobFailure
  pub retry_at : Option ℕ
  pub artifact_manifest : Option Text
  pub now : ℕ

pub record Store : Type 0 where
  pub records : List (Text × JobRecord)
  pub locks : Locks

pub data QueueError : Type 0 where
  could_not_lock already_exists lease_lost : Text → QueueError
  bad_record : Text → QueueError

abbrev pub Outcome : Type 0 → Type 0
Outcome A = Store × Result QueueError A

unfoldable pub of_parsed {ℓ} : {A : Type ℓ} → Result Text A → Result QueueError A
of_parsed (ok a) = ok a
of_parsed (err message) = err (bad_record message)

unfoldable pub write_record : JobRecord → Store → Store
write_record r s = record s { records = insert r.job.id r s.records }

-- The lock is taken before the body and removed after it, whether the body throws or not. `busy` is
-- what the operation does when the lock is not to be had.
unfoldable pub with_lock :
    {A : Type 0}
    → Text
    → Bool
    → List Moment
    → Result QueueError A
    → (Store → Outcome A)
    → Store
    → Outcome A
unfolding acquire_lock release_lock
with_lock id wait moments busy body s =
    let (held, locks) = acquire_lock id wait moments s.locks in
    let (after, result) = body (record s { locks = locks }) in
    if held
    then (record after { locks = release_lock id after.locks }, result)
    else (record s { locks = locks }, busy)

-- `record.status` is "leased" or "running".
unfoldable pub is_active : JobStatus → Bool
is_active leased = true
is_active running = true
is_active _ = false

-- The lease is there and has expired.
unfoldable pub lease_over : ℕ → Option JobLease → Bool
lease_over now none = false
lease_over now (some l) = leb l.expires_at now

unfoldable pub is_stale : ℕ → JobRecord → Bool
unfolding is_active lease_over
is_stale now r = is_active r.status && lease_over now r.lease

-- Queued, or waiting for a retry that is due.
unfoldable pub is_waiting : ℕ → JobStatus → ℕ → Bool
is_waiting now queued available = true
is_waiting now retry_wait available = leb available now
is_waiting now _ available = false

unfoldable pub expire_record : JobRecord → ℕ → JobRecord
expire_record r now = record r {
  status = failed;
  updated_at = now;
  lease = none;
  failure = some (record {
    code = lease_expired;
    message = codes "worker lease expired after final attempt";
    at = now;
  });
}

unfoldable pub new_lease : Text → Text → ℕ → JobRecord → JobLease
new_lease token worker now r = record {
  token = token;
  worker_id = worker;
  expires_at = now + r.job.execution.lease_ms;
}

unfoldable pub claimed_record : Text → Text → ℕ → JobRecord → JobRecord
unfolding is_stale new_lease
claimed_record token worker now r = record r {
  status = leased;
  attempt = r.attempt + 1;
  updated_at = now;
  lease = some (new_lease token worker now r);
  failure =
      if is_stale now r
      then some (record {
        code = lease_expired;
        message = codes "previous worker lease expired";
        at = now;
      })
      else r.failure;
}

-- The body of `tryClaim` for a record that is there; `token` stands for `randomUUID()`.
unfoldable pub claim_record : Text → Text → ℕ → JobRecord → Store → Outcome (Option ClaimedJob)
unfolding is_stale is_waiting expire_record claimed_record write_record
claim_record token worker now r s =
    if is_stale now r && leb r.job.execution.max_attempts r.attempt
    then (write_record (expire_record r now) s, ok none)
    else if is_waiting now r.status r.available_at || is_stale now r
    then (
      write_record (claimed_record token worker now r) s,
      ok (
          some (record {
            record_of = claimed_record token worker now r;
            lease = new_lease token worker now r;
          })),
    )
    else (s, ok none)

unfoldable pub has_token : Text → Option JobLease → Bool
has_token token none = false
has_token token (some l) = text_eq l.token token

unfoldable pub running_record : ℕ → JobRecord → JobRecord
running_record now r = record r { status = running; updated_at = now }

-- `{ ...record.lease!, expiresAt }`, for a record that has a lease.
unfoldable pub renewed_lease : ℕ → Option JobLease → Option JobLease
renewed_lease expires none = none
renewed_lease expires (some l) = some (record l { expires_at = expires })

unfoldable pub renewed_record : ℕ → ℕ → JobRecord → JobRecord
unfolding renewed_lease
renewed_record lease_ms now r = record r {
  updated_at = now;
  lease = renewed_lease (now + lease_ms) r.lease;
}

unfoldable pub succeeded_record : Text → ℕ → JobRecord → JobRecord
succeeded_record manifest now r = record r {
  status = succeeded;
  updated_at = now;
  lease = none;
  failure = none;
  artifact_manifest = some manifest;
}

unfoldable pub is_timeout : FailureCode → Bool
is_timeout timeout = true
is_timeout _ = false

unfoldable pub can_retry : FailureDisposition → JobRecord → Bool
can_retry d r = is_some d.retry_at && ltb r.attempt r.job.execution.max_attempts

unfoldable pub failed_record : FailureDisposition → JobRecord → JobRecord
unfolding is_timeout can_retry
failed_record d r = record r {
  status =
      if can_retry d r then retry_wait else if is_timeout d.failure.code then timed_out else failed;
  updated_at = d.now;
  available_at = if can_retry d r then get_or d.retry_at r.available_at else r.available_at;
  lease = none;
  failure = some d.failure;
  artifact_manifest = d.artifact_manifest;
}

-- `a < b` on texts by code units, as `sort()` compares.
unfoldable pub text_leb : Text → Text → Bool
text_leb [] t = true
text_leb (c ∷ s) [] = false
text_leb (c ∷ s) (d ∷ t) = ltb c d || (c == d && text_leb s t)

unfoldable pub sort_insert : Text → List Text → List Text
unfolding text_leb
sort_insert t [] = t ∷ []
sort_insert t (u ∷ us) = if text_leb t u then t ∷ u ∷ us else u ∷ sort_insert t us

unfoldable pub sort_texts : List Text → List Text
unfolding sort_insert
sort_texts [] = []
sort_texts (t ∷ ts) = sort_insert t (sort_texts ts)

unfoldable pub file_name : Text → Text
file_name id = id ++ codes ".json"

-- `file.slice(0, -5)`
unfoldable pub job_id_of : Text → Text
job_id_of file = take (length file - 5) file

-- The names in the directory of records that end in ".json", sorted.
unfoldable pub record_files : Store → List Text
unfolding sort_texts file_name
record_files s = sort_texts (map file_name (keys s.records))

-- The new record of `enqueue`.
unfoldable pub queued_record : CloudJob → ℕ → JobRecord
queued_record job now = record {
  job = job;
  status = queued;
  attempt = 0;
  updated_at = now;
  available_at = now;
  lease = none;
  failure = none;
  artifact_manifest = none;
}

-- What `claim` does after one attempt: it goes on only where nothing was claimed.
unfoldable pub next_claim :
    Result QueueError (Option ClaimedJob)
    → Store
    → Outcome (Option ClaimedJob)
    → Outcome (Option ClaimedJob)
next_claim (ok none) after rest = rest
next_claim (ok (some c)) after rest = (after, ok (some c))
next_claim (err e) after rest = (after, err e)

module _ (is_date : Text → Bool) where
  unfoldable pub read_record : Text → Store → Result QueueError (Option JobRecord)
  unfolding of_parsed
  read_record id s = elim (get id s.records) [
    | none ↦ ok none
    | some r ↦ do
      job ← of_parsed (parse_cloud_job is_date (job_value r.job))
      ok (some (record r { job = job }))
  ]

  unfoldable pub enqueue_job : CloudJob → ℕ → Store → Outcome JobRecord
  unfolding queued_record write_record
  enqueue_job job now s = elim (read_record job.id s) [
    | err e ↦ (s, err e)
    | ok (some r) ↦ (s, err (already_exists job.id))
    | ok none ↦ (write_record (queued_record job now) s, ok (queued_record job now))
  ]

  unfoldable pub enqueue : Value → ℕ → List Moment → Store → Outcome JobRecord
  unfolding enqueue_job with_lock of_parsed
  enqueue value now moments s = elim (of_parsed (parse_cloud_job is_date value)) [
    | err e ↦ (s, err e)
    | ok job ↦ with_lock job.id true moments (err (could_not_lock job.id)) (enqueue_job job now) s
  ]

  unfoldable pub try_claim_body : Text → Text → ℕ → Text → Store → Outcome (Option ClaimedJob)
  unfolding claim_record
  try_claim_body token worker now id s = elim (read_record id s) [
    | err e ↦ (s, err e)
    | ok none ↦ (s, ok none)
    | ok (some r) ↦ claim_record token worker now r s
  ]

  unfoldable pub try_claim :
      Text → Text → ℕ → List Moment → Text → Store → Outcome (Option ClaimedJob)
  unfolding try_claim_body with_lock
  try_claim token worker now moments id s =
      with_lock id false moments (ok none) (try_claim_body token worker now id) s

  -- The loop of `claim` over the files; it ends at the first job claimed, or where one throws.
  unfoldable pub claim_from :
      Text → Text → ℕ → List Moment → List Text → Store → Outcome (Option ClaimedJob)
  unfolding try_claim next_claim
  claim_from token worker now moments [] s = (s, ok none)
  claim_from token worker now moments (file ∷ files) s =
      let (after, result) = try_claim token worker now moments (job_id_of file) s in
      let rest = claim_from token worker now moments files after in next_claim result after rest

  unfoldable pub claim : Text → Text → ℕ → List Moment → Store → Outcome (Option ClaimedJob)
  unfolding claim_from record_files
  claim token worker now moments s = claim_from token worker now moments (record_files s) s

  unfoldable pub mutate_body : Text → Text → (JobRecord → JobRecord) → Store → Outcome (Unit {0})
  unfolding has_token write_record
  mutate_body id token mutate s = elim (read_record id s) [
    | err e ↦ (s, err e)
    | ok none ↦ (s, err (lease_lost id))
    | ok (some r) ↦
        if has_token token r.lease
        then (write_record (mutate r) s, ok tt)
        else (s, err (lease_lost id))
  ]

  unfoldable pub mutate_leased :
      Text → Text → (JobRecord → JobRecord) → List Moment → Store → Outcome (Unit {0})
  unfolding mutate_body with_lock
  mutate_leased id token mutate moments s =
      with_lock id true moments (err (could_not_lock id)) (mutate_body id token mutate) s

  unfoldable pub mark_running : Text → Text → ℕ → List Moment → Store → Outcome (Unit {0})
  unfolding mutate_leased running_record
  mark_running id token now = mutate_leased id token (running_record now)

  unfoldable pub heartbeat : Text → Text → ℕ → ℕ → List Moment → Store → Outcome (Unit {0})
  unfolding mutate_leased renewed_record
  heartbeat id token lease_ms now = mutate_leased id token (renewed_record lease_ms now)

  unfoldable pub succeed : Text → Text → Text → ℕ → List Moment → Store → Outcome (Unit {0})
  unfolding mutate_leased succeeded_record
  succeed id token manifest now = mutate_leased id token (succeeded_record manifest now)

  unfoldable pub fail : Text → Text → FailureDisposition → List Moment → Store → Outcome (Unit {0})
  unfolding mutate_leased failed_record
  fail id token d = mutate_leased id token (failed_record d)
