-- ===== src/Cloud/Tests.antt =====
-- The job queue of apps/cloud-worker on concrete inputs, and its theorems there.
use ninjacode_agent.Cloud.Contract.{
  is_blank, is_job_id, CloudJob, parse_policy, parse_execution, parse_cloud_job, parse_artifacts,
  parse_task,
}
use ninjacode_agent.Cloud.Contract.Laws.{
  IsSoundJob, parse_cloud_job-IsSoundJob, parse_cloud_job-job_value,
}
use ninjacode_agent.Cloud.Contract.Print.{job_value}
use ninjacode_agent.Cloud.Json.{of_texts, of_option}
use ninjacode_agent.Cloud.Locks.{Moment}
use ninjacode_agent.Cloud.Queue.{
  succeed, succeeded, lease_over, leased, try_claim, is_active, Store, queued_record, JobRecord,
  read_record, ClaimedJob,
}
use ninjacode_agent.Cloud.Queue.Exclusion.{try_claim_fences, try_claim_excluded}
use ninjacode_agent.Cloud.Queue.Invariant.{IsSoundRecord, IsSoundStore, queued_record-IsSound}
use ninjacode_agent.Cloud.Queue.Leases.{apply_all-IsOver, handed_by_all_bound, empty}
use ninjacode_agent.Cloud.Queue.Machine.{Moves, attempt_of}
use ninjacode_agent.Cloud.Queue.Operations.{apply_all, Op, enqueue_op, claim_op, apply_all-IsSound}
use ninjacode_agent.Cloud.Queue.Refinement.{handed_by_all, apply_all-Moves}
use ninjacode_agent.Prelude.{
  Bool-cases, ℕ, ◌≤◌, ◌≡◌, refl, ◌∙◌, ◌≢◌, inl, inr, Bool, true, false, none, some, [], ◌∷◌, arith,
}
use ninjacode_agent.Prelude.Maps.{get, insert}
use ninjacode_agent.Prelude.Results.{ok}
use ninjacode_agent.Prelude.Texts.{Text, text_eq, codes, text_eq→≡}

abbrev any_date : Text → Bool
any_date t = true

abbrev sample_job : CloudJob
sample_job = record {
  id = codes "job-1";
  created_at = codes "2026-01-01";
  task = record { prompt = codes "hi"; model = none; max_turns = some 5 };
  execution = record {
    max_attempts = 2;
    lease_ms = 1000;
    heartbeat_ms = 100;
    timeout_ms = 5000;
    retry = record { base_delay_ms = 10; max_delay_ms = 1000 };
  };
  policy = none;
  artifacts = some (some (codes "out" ∷ []));
}

sample_job-IsSound : IsSoundJob any_date sample_job
unfolding is_job_id is_blank
sample_job-IsSound = record {
  id = refl;
  date = refl;
  prompt = refl;
  turns = omega arith;
  execution = omega arith;
}

parse_cloud_job-job_value_example : parse_cloud_job any_date (job_value sample_job) ≡ ok sample_job
parse_cloud_job-job_value_example = parse_cloud_job-job_value any_date sample_job sample_job-IsSound

parse_cloud_job-IsSoundJob_example : IsSoundJob any_date sample_job
parse_cloud_job-IsSoundJob_example =
    parse_cloud_job-IsSoundJob any_date (job_value sample_job) sample_job
      parse_cloud_job-job_value_example

-- A slash would leave the directory of records.
slash_refused : is_job_id (codes "../job") ≡ false
unfolding is_job_id
slash_refused = refl

abbrev worker_token : Text
worker_token = codes "t1"

-- No other process touches the lock files.
abbrev calm : ℕ → Moment
calm now = record { now = now; others = λ locks. locks }

abbrev single : JobRecord → Store
single r = record { records = (codes "job-1", r) ∷ []; locks = [] }

single-IsSound :
    (r : JobRecord)
    → r.job.id ≡ codes "job-1"
    → IsSoundRecord any_date r
    → IsSoundStore any_date (single r)
unfolding get
single-IsSound r named h id x e = elim (Bool-cases (text_eq (codes "job-1") id)) [
  | inl here ↦
      let same : r ≡ x = ground arith in rw (← same) (named ∙ text_eq→≡ (codes "job-1") id here, h)
  | inr there ↦ ground arith
]

abbrev one_queued : Store
one_queued = single (queued_record sample_job 0)

one_queued-IsSound : IsSoundStore any_date one_queued
unfolding queued_record
one_queued-IsSound =
    single-IsSound (queued_record sample_job 0) refl
      (queued_record-IsSound any_date sample_job 0 sample_job-IsSound)

apply_all-Moves_example :
    Moves any_date
      (get (codes "job-1") one_queued.records)
      (get
        (codes "job-1")
        (apply_all any_date
          (claim_op worker_token (codes "w") 5 (calm 5 ∷ []) ∷ [])
          one_queued).records)
      (handed_by_all any_date
        (codes "job-1")
        (claim_op worker_token (codes "w") 5 (calm 5 ∷ []) ∷ [])
        one_queued)
apply_all-Moves_example =
    apply_all-Moves any_date (codes "job-1")
      (claim_op worker_token (codes "w") 5 (calm 5 ∷ []) ∷ []) one_queued one_queued-IsSound

abbrev first_claim : Op
first_claim = claim_op worker_token (codes "w") 5 (calm 5 ∷ [])

abbrev first_enqueue : Op
first_enqueue = enqueue_op (job_value sample_job) 0 (calm 0 ∷ [])

handed_by_all_bound_example :
    (handed_by_all any_date (codes "job-1") (first_enqueue ∷ first_claim ∷ []) empty ≤ 10)
    × (attempt_of any_date (
          get (codes "job-1") (apply_all any_date (first_enqueue ∷ first_claim ∷ []) empty).records)
        ≡ handed_by_all any_date (codes "job-1") (first_enqueue ∷ first_claim ∷ []) empty)
handed_by_all_bound_example =
    handed_by_all_bound any_date (codes "job-1") (first_enqueue ∷ first_claim ∷ [])

abbrev done_record : JobRecord
done_record = record {
  job = sample_job;
  status = succeeded;
  attempt = 1;
  updated_at = 9;
  available_at = 0;
  lease = none;
  failure = none;
  artifact_manifest = some (codes "m");
}

done_record-IsSound : IsSoundRecord any_date done_record
unfolding is_active
done_record-IsSound = record {
  job = sample_job-IsSound;
  attempts = omega arith;
  leased_iff = refl;
  fresh = λ e. cc;
  retries_left = λ e. cc;
}

apply_all-IsOver_example :
    (get (codes "job-1") (apply_all any_date (first_claim ∷ []) (single done_record)).records
      ≡ some done_record)
    × (handed_by_all any_date (codes "job-1") (first_claim ∷ []) (single done_record) ≡ 0)
unfolding get text_eq
apply_all-IsOver_example =
    apply_all-IsOver any_date (first_claim ∷ []) (single done_record) (codes "job-1") done_record
      (single-IsSound done_record refl done_record-IsSound) refl (inl refl)

-- A record that is leased until time 1005.
abbrev leased_record : JobRecord
leased_record = record {
  job = sample_job;
  status = leased;
  attempt = 1;
  updated_at = 5;
  available_at = 0;
  lease = some (record { token = worker_token; worker_id = codes "w"; expires_at = 1005 });
  failure = none;
  artifact_manifest = none;
}

leased_record-IsSound : IsSoundRecord any_date leased_record
unfolding is_active
leased_record-IsSound = record {
  job = sample_job-IsSound;
  attempts = omega arith;
  leased_iff = refl;
  fresh = λ e. cc;
  retries_left = λ e. cc;
}

try_claim_excluded_example :
    let done =
      try_claim any_date
        (codes "t2")
        (codes "w2")
        900
        (calm 900 ∷ [])
        (codes "job-1")
        (single leased_record) in
    (done.0.records ≡ (single leased_record).records) × (done.1 ≡ ok none)
unfolding get text_eq is_active lease_over
try_claim_excluded_example =
    try_claim_excluded any_date (codes "t2") (codes "w2") 900 (calm 900 ∷ []) (codes "job-1")
      (single leased_record) leased_record (single-IsSound leased_record refl leased_record-IsSound)
      refl refl refl

abbrev claimed : ClaimedJob
claimed = record {
  record_of = leased_record;
  lease = record { token = worker_token; worker_id = codes "w"; expires_at = 1005 };
}

claim_gives :
    (try_claim any_date worker_token (codes "w") 5 (calm 5 ∷ []) (codes "job-1") one_queued).1
    ≡ ok (some claimed)
unfolding try_claim read_record queued_record get text_eq parse_cloud_job job_value of_option
    of_texts insert parse_task parse_execution parse_policy parse_artifacts
claim_gives = refl

try_claim_fences_example :
    let after =
      (try_claim any_date worker_token (codes "w") 5 (calm 5 ∷ []) (codes "job-1") one_queued).0 in
    let late = succeed any_date (codes "job-1") (codes "t0") (codes "m") 7 (calm 7 ∷ []) after in
    (late.0.records ≡ after.records) × (late.1 ≢ ok tt)
unfolding text_eq
try_claim_fences_example =
    try_claim_fences any_date worker_token (codes "t0") (codes "w") (codes "m") 5 7 (calm 5 ∷ [])
      (calm 7 ∷ []) (codes "job-1") one_queued claimed one_queued-IsSound claim_gives refl

apply_all-IsSound_example :
    IsSoundStore any_date (apply_all any_date (first_enqueue ∷ first_claim ∷ []) one_queued)
apply_all-IsSound_example =
    apply_all-IsSound any_date (first_enqueue ∷ first_claim ∷ []) one_queued one_queued-IsSound
