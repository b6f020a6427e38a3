-- ===== src/Cloud/Queue/Leases.antt =====
-- What the queue of filesystemQueue.ts does with a job over its whole life: how often it is
-- handed out, and what happens once it is over.
use ninjacode_agent.Cloud.Queue.{
  failed, timed_out, succeeded, is_waiting, has_token, Store, JobRecord, is_stale, JobStatus,
}
use ninjacode_agent.Cloud.Queue.Invariant.{IsSoundRecord, IsSoundStore}
use ninjacode_agent.Cloud.Queue.Machine.{
  give_up, Move, renew, run, Moves, finish, moved, hand_out, still, attempt_of, Moves-attempt, born,
  expire,
}
use ninjacode_agent.Cloud.Queue.Operations.{apply_all, is_some-has_token, Op, apply_all-IsSound}
use ninjacode_agent.Cloud.Queue.Refinement.{handed_by_all, apply_all-Moves}
use ninjacode_agent.Prelude.{
  Option-cases, ℕ, ◌≤◌, ◌≡◌, refl, ◌⊎◌, inl, inr, Bool, Option, some, List, [], arith,
}
use ninjacode_agent.Prelude.Maps.{get}
use ninjacode_agent.Prelude.Texts.{Text}

abbrev pub empty : Store
empty = record { records = []; locks = [] }

pub empty-IsSound : (is_date : Text → Bool) → IsSoundStore is_date empty
unfolding get
empty-IsSound is_date id r e = cc

attempt_bound :
    (is_date : Text → Bool) (id : Text) (s : Store)
    → IsSoundStore is_date s
    → attempt_of is_date (get id s.records) ≤ 10
attempt_bound is_date id s h = elim (Option-cases (get id s.records)) [
  | inl e ↦ rw e (omega arith)
  | inr (r, e) ↦ rw e (omega (arith, (h id r e).1, (h id r e).1.job.execution))
]

-- From an empty queue, `claim` returns a job at most ten times, whatever operations come in
-- whatever order, and the record under its id counts exactly how often that was.
pub handed_by_all_bound :
    (is_date : Text → Bool) (id : Text) (os : List Op)
    → (handed_by_all is_date id os empty ≤ 10)
      × (attempt_of is_date (get id (apply_all is_date os empty).records)
          ≡ handed_by_all is_date id os empty)
unfolding get
handed_by_all_bound is_date id os =
    let count =
      Moves-attempt is_date (apply_all-Moves is_date id os empty (empty-IsSound is_date)) in
    let sound = apply_all-IsSound is_date os empty (empty-IsSound is_date) in
    let bound = attempt_bound is_date id (apply_all is_date os empty) sound in
    (omega (arith, count, bound), omega (arith, count))

-- A job that has succeeded, failed or timed out.
abbrev pub IsOver : JobStatus → Type 0
IsOver status = (status ≡ succeeded) ⊎ (status ≡ failed) ⊎ (status ≡ timed_out)

Move-IsOver :
    (is_date : Text → Bool) {r r' : JobRecord} {k : ℕ}
    → IsSoundRecord is_date r
    → IsOver r.status
    → Move r r' k
    → ⊥
unfolding is_stale is_waiting has_token
Move-IsOver is_date h o (expire now a b) = ground (arith, h.leased_iff)
Move-IsOver is_date h o (hand_out token worker now a b) = ground (arith, h.leased_iff)
Move-IsOver is_date {r} h o (run token now a) =
    ground (arith, h.leased_iff, is_some-has_token token r.lease a)
Move-IsOver is_date {r} h o (renew token lease_ms now a) =
    ground (arith, h.leased_iff, is_some-has_token token r.lease a)
Move-IsOver is_date {r} h o (finish token manifest now a) =
    ground (arith, h.leased_iff, is_some-has_token token r.lease a)
Move-IsOver is_date {r} h o (give_up token d a) =
    ground (arith, h.leased_iff, is_some-has_token token r.lease a)

Moves-IsOver :
    (is_date : Text → Bool) {x y : Option JobRecord} {n : ℕ} (r : JobRecord)
    → Moves is_date x y n
    → x ≡ some r
    → IsSoundRecord is_date r
    → IsOver r.status
    → (y ≡ some r) × (n ≡ 0)
Moves-IsOver is_date r still e h o = (e, refl)
Moves-IsOver is_date r (born j now s p) e h o = cc
Moves-IsOver is_date r (moved {r = q} a p f) e h o =
    let same : q ≡ r = cc in absurd (Move-IsOver is_date (rw same h) (rw same o) a)

-- A job that has succeeded, failed or timed out is never handed out again, and no operation changes
-- its record.
pub apply_all-IsOver :
    (is_date : Text → Bool) (os : List Op) (s : Store) (id : Text) (r : JobRecord)
    → IsSoundStore is_date s
    → get id s.records ≡ some r
    → IsOver r.status
    → (get id (apply_all is_date os s).records ≡ some r) × (handed_by_all is_date id os s ≡ 0)
apply_all-IsOver is_date os s id r h e o =
    Moves-IsOver is_date r (apply_all-Moves is_date id os s h) e (h id r e).1 o
