-- ===== src/Cloud/Queue/Machine.antt =====
-- The life of one job in the queue of filesystemQueue.ts, as a state machine on its record.
use ninjacode_agent.Cloud.Contract.{CloudJob}
use ninjacode_agent.Cloud.Contract.Laws.{IsSoundJob}
use ninjacode_agent.Cloud.Queue.{
  is_waiting, claimed_record, has_token, succeeded_record, queued_record, failed_record, JobRecord,
  running_record, renewed_record, expire_record, FailureDisposition, is_stale,
}
use ninjacode_agent.Cloud.Queue.Invariant.{
  failed_record-IsSound, renewed_record-IsSound, IsSoundRecord, claimed_record-IsSound,
  claimable-attempts, expire_record-IsSound, running_record-IsSound, succeeded_record-IsSound,
}
use ninjacode_agent.Cloud.Queue.Operations.{is_some-has_token}
use ninjacode_agent.Prelude.{
  leb, ℕ, ◌+◌, ◌≡◌, refl, subst, Bool, true, false, ◌&&◌, ◌||◌, Option, none, some, arith,
}
use ninjacode_agent.Prelude.Texts.{Text}

-- A move of a record; its number is 1 where the job is handed to a worker, else 0. An update by a
-- worker needs the token of the lease in the record.
pub data Move : JobRecord → JobRecord → ℕ → Type 0 where
  expire :
      {r : JobRecord} (now : ℕ)
      → is_stale now r ≡ true
      → leb r.job.execution.max_attempts r.attempt ≡ true
      → Move r (expire_record r now) 0
  hand_out :
      {r : JobRecord} (token worker : Text) (now : ℕ)
      → (is_stale now r && leb r.job.execution.max_attempts r.attempt) ≡ false
      → (is_waiting now r.status r.available_at || is_stale now r) ≡ true
      → Move r (claimed_record token worker now r) 1
  run :
      {r : JobRecord} (token : Text) (now : ℕ)
      → has_token token r.lease ≡ true
      → Move r (running_record now r) 0
  renew :
      {r : JobRecord} (token : Text) (lease_ms now : ℕ)
      → has_token token r.lease ≡ true
      → Move r (renewed_record lease_ms now r) 0
  finish :
      {r : JobRecord} (token manifest : Text) (now : ℕ)
      → has_token token r.lease ≡ true
      → Move r (succeeded_record manifest now r) 0
  give_up :
      {r : JobRecord} (token : Text) (d : FailureDisposition)
      → has_token token r.lease ≡ true
      → Move r (failed_record d r) 0

-- A sequence of moves of what stands under one id, with the number of times the job is handed out.
pub data Moves (is_date : Text → Bool) : Option JobRecord → Option JobRecord → ℕ → Type 0 where
  still : {x : Option JobRecord} → Moves is_date x x 0
  born :
      {y : Option JobRecord} {n : ℕ} (j : CloudJob) (now : ℕ)
      → IsSoundJob is_date j
      → Moves is_date (some (queued_record j now)) y n
      → Moves is_date none y n
  moved :
      {r r' : JobRecord} {y : Option JobRecord} {k n m : ℕ}
      → Move r r' k
      → Moves is_date (some r') y n
      → m ≡ k + n
      → Moves is_date (some r) y m

pub Move-job : {r r' : JobRecord} {k : ℕ} → Move r r' k → r'.job ≡ r.job
unfolding expire_record claimed_record running_record renewed_record succeeded_record failed_record
Move-job (expire now a b) = refl
Move-job (hand_out token worker now a b) = refl
Move-job (run token now a) = refl
Move-job (renew token lease_ms now a) = refl
Move-job (finish token manifest now a) = refl
Move-job (give_up token d a) = refl

pub Move-attempt : {r r' : JobRecord} {k : ℕ} → Move r r' k → r'.attempt ≡ r.attempt + k
unfolding expire_record claimed_record running_record renewed_record succeeded_record failed_record
Move-attempt (expire now a b) = omega arith
Move-attempt (hand_out token worker now a b) = omega arith
Move-attempt (run token now a) = omega arith
Move-attempt (renew token lease_ms now a) = omega arith
Move-attempt (finish token manifest now a) = omega arith
Move-attempt (give_up token d a) = omega arith

module _ (is_date : Text → Bool) where
  pub Move-IsSound :
      {r r' : JobRecord} {k : ℕ} → Move r r' k → IsSoundRecord is_date r → IsSoundRecord is_date r'
  Move-IsSound {r} (expire now a b) h = expire_record-IsSound is_date r h now
  Move-IsSound {r} (hand_out token worker now a b) h =
      claimed_record-IsSound is_date r h token worker now (claimable-attempts is_date r h now a b)
  Move-IsSound {r} (run token now a) h =
      running_record-IsSound is_date r h now (is_some-has_token token r.lease a)
  Move-IsSound {r} (renew token lease_ms now a) h = renewed_record-IsSound is_date r h lease_ms now
  Move-IsSound {r} (finish token manifest now a) h =
      succeeded_record-IsSound is_date r h manifest now
  Move-IsSound {r} (give_up token d a) h = failed_record-IsSound is_date r h d

  pub Moves-count :
      {x y : Option JobRecord} {n m : ℕ} → n ≡ m → Moves is_date x y n → Moves is_date x y m
  Moves-count {x} {y} e p = subst (λ (a : ℕ). Moves is_date x y a) e p

  pub Moves-trans :
      {x y z : Option JobRecord} {n m k : ℕ}
      → Moves is_date x y n
      → Moves is_date y z m
      → k ≡ n + m
      → Moves is_date x z k
  Moves-trans still q e = Moves-count (omega arith) q
  Moves-trans (born j now s p) q e = born j now s (Moves-trans p q e)
  Moves-trans (moved {k} {n} a p f) q e = moved a (Moves-trans p q refl) (omega arith)

  -- The attempts recorded under an id; none if there is no record.
  abbrev pub attempt_of : Option JobRecord → ℕ
  attempt_of none = 0
  attempt_of (some r) = r.attempt

  pub Moves-attempt :
      {x y : Option JobRecord} {n : ℕ} → Moves is_date x y n → attempt_of y ≡ attempt_of x + n
  unfolding queued_record
  Moves-attempt still = omega arith
  Moves-attempt (born j now s p) = omega (arith, Moves-attempt p)
  Moves-attempt (moved a p e) = omega (arith, Moves-attempt p, Move-attempt a)
