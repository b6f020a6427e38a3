-- ===== src/Cloud/Queue/Effects.antt =====
-- What each operation of the queue in filesystemQueue.ts does to the job under one id, in the terms
-- of Machine.
use ninjacode_agent.Cloud.Contract.{CloudJob}
use ninjacode_agent.Cloud.Contract.Laws.{IsSoundJob}
use ninjacode_agent.Cloud.Locks.{Moment}
use ninjacode_agent.Cloud.Queue.{
  is_waiting, QueueError, try_claim, has_token, claim_from, could_not_lock, Store, queued_record,
  job_id_of, JobRecord, write_record, mutate_leased, mutate_body, next_claim, enqueue_job, is_stale,
  try_claim_body, ClaimedJob, Outcome, claim_record,
}
use ninjacode_agent.Cloud.Queue.Invariant.{IsSoundStore}
use ninjacode_agent.Cloud.Queue.Machine.{
  Move, Moves-count, Moves-trans, Moves, moved, hand_out, still, born, Move-job, expire,
}
use ninjacode_agent.Cloud.Queue.Operations.{
  try_claim_body_found, try_claim_body_missing, try_claim-IsSound, enqueue_job_again,
  mutate_body_found, enqueue_job_new, mutate_body_missing, with_lock-cases,
}
use ninjacode_agent.Prelude.{
  &&_both, Option-cases, Bool-cases, leb, if◌then◌else◌, ℕ, ◌≡◌, sym, subst, inl, inr, Bool, true,
  false, ◌&&◌, ◌||◌, Option, none, some, List, [], ◌∷◌, arith,
}
use ninjacode_agent.Prelude.Maps.{get-insert, get, insert}
use ninjacode_agent.Prelude.Results.{err, Result, ok}
use ninjacode_agent.Prelude.Texts.{Text, text_eq, text_eq→≡}

-- How often an outcome hands out the job of an id: once or not at all.
unfoldable pub handed : Text → Result QueueError (Option ClaimedJob) → ℕ
handed id (ok (some c)) = if text_eq c.record_of.job.id id then 1 else 0
handed id (ok none) = 0
handed id (err e) = 0

module _ (is_date : Text → Bool) where
  module _ (id : Text) where
    -- What an operation does to the record of the id, handing the job out n times.
    abbrev pub Effect : Store → Store → ℕ → Type 0
    Effect s t n = Moves is_date (get id s.records) (get id t.records) n

    write-Effect :
        {r r' : JobRecord} {k n : ℕ} (s : Store)
        → get r.job.id s.records ≡ some r
        → Move r r' k
        → n ≡ (if text_eq r.job.id id then k else 0)
        → Effect s (write_record r' s) n
    unfolding write_record
    write-Effect {r} {r'} {k} {n} s e mv q = elim (Bool-cases (text_eq r.job.id id)) [
      | inl here ↦
          let at : get id s.records ≡ some r =
            subst (λ (j : Text). get j s.records ≡ some r) (text_eq→≡ r.job.id id here) e in
          let to : get id (insert r'.job.id r' s.records) ≡ some r' =
            ground (arith, get-insert r'.job.id id r' s.records, Move-job mv) in
          rw (at, to) (moved mv still (ground arith))
      | inr there ↦
          let to : get id (insert r'.job.id r' s.records) ≡ get id s.records =
            ground (arith, get-insert r'.job.id id r' s.records, Move-job mv) in
          rw to (Moves-count is_date (ground arith) still)
    ]

    claim_record-Effect :
        (token worker : Text) (now : ℕ) (r : JobRecord) (s : Store)
        → get r.job.id s.records ≡ some r
        → let done = claim_record token worker now r s in Effect s done.0 (handed id done.1)
    unfolding claim_record handed
    claim_record-Effect token worker now r s e =
        elim (Bool-cases (is_stale now r && leb r.job.execution.max_attempts r.attempt)) [
          | inl spent ↦
              let (stale, over) = &&_both _ _ spent in
              rw spent (write-Effect s e (expire now stale over) (ground arith))
          | inr live ↦
              elim (Bool-cases (is_waiting now r.status r.available_at || is_stale now r)) [
                | inl ready ↦
                    rw (live, ready)
                      (write-Effect s e (hand_out token worker now live ready)
                        (ground (arith, Move-job (hand_out token worker now live ready))))
                | inr not_ready ↦ rw (live, not_ready) still
              ]
        ]

    try_claim-Effect :
        (token worker : Text) (now : ℕ) (moments : List Moment) (name : Text) (s : Store)
        → IsSoundStore is_date s
        → let done = try_claim is_date token worker now moments name s in
          Effect s done.0 (handed id done.1)
    unfolding try_claim
    try_claim-Effect token worker now moments name s h =
        elim (with_lock-cases name false moments (ok none)
          (try_claim_body is_date token worker now name) s) [
            | inl (same, busy) ↦ rw (busy, same) (unfold handed in still)
            | inr (locks, same, result) ↦
                rw (same, result) (body_effect (record s { locks = locks }) h)
          ]
      where
        body_effect :
            (t : Store)
            → IsSoundStore is_date t
            → let done = try_claim_body is_date token worker now name t in
              Effect t done.0 (handed id done.1)
        body_effect t k = elim (Option-cases (get name t.records)) [
          | inl e ↦
              rw (try_claim_body_missing is_date t k token worker now name e)
                (unfold handed in still)
          | inr (r, e) ↦ rw (try_claim_body_found is_date t k token worker now name e) (
              claim_record-Effect token worker now r t
                (subst (λ (j : Text). get j t.records ≡ some r) (sym (k name r e).0) e))
        ]

    next_claim-Effect :
        (s t : Store) (result : Result QueueError (Option ClaimedJob))
        (rest : Outcome (Option ClaimedJob))
        → Effect s t (handed id result)
        → Effect t rest.0 (handed id rest.1)
        → let done = next_claim result t rest in Effect s done.0 (handed id done.1)
    unfolding next_claim handed
    next_claim-Effect s t (ok none) rest p q = Moves-trans is_date p q (omega arith)
    next_claim-Effect s t (ok (some c)) rest p q = p
    next_claim-Effect s t (err e) rest p q = p

    pub claim_from-Effect :
        (files : List Text) (token worker : Text) (now : ℕ) (moments : List Moment) (s : Store)
        → IsSoundStore is_date s
        → let done = claim_from is_date token worker now moments files s in
          Effect s done.0 (handed id done.1)
    unfolding claim_from
    claim_from-Effect [] token worker now moments s h = unfold handed in still
    claim_from-Effect (file ∷ files) token worker now moments s h =
        let tried = try_claim is_date token worker now moments (job_id_of file) s in
        next_claim-Effect s tried.0 tried.1
          (claim_from is_date token worker now moments files tried.0)
          (try_claim-Effect token worker now moments (job_id_of file) s h)
          (claim_from-Effect files token worker now moments tried.0
            (try_claim-IsSound is_date s token worker now moments (job_id_of file) h))

    pub mutate-Effect :
        (name token : Text) (mutate : JobRecord → JobRecord) (moments : List Moment) (s : Store)
        → IsSoundStore is_date s
        → ((r : JobRecord) → has_token token r.lease ≡ true → Move r (mutate r) 0)
        → Effect s (mutate_leased is_date name token mutate moments s).0 0
    unfolding mutate_leased
    mutate-Effect name token mutate moments s h mv =
        elim (with_lock-cases name true moments (err (could_not_lock name))
          (mutate_body is_date name token mutate) s) [
            | inl (same, _) ↦ rw same still
            | inr (locks, same, _) ↦ rw same (body_effect (record s { locks = locks }) h)
          ]
      where
        body_effect :
            (t : Store)
            → IsSoundStore is_date t
            → Effect t (mutate_body is_date name token mutate t).0 0
        body_effect t k = elim (Option-cases (get name t.records)) [
          | inl e ↦ rw (mutate_body_missing is_date t k name token mutate e) still
          | inr (r, e) ↦ elim (Bool-cases (has_token token r.lease)) [
            | inl ours ↦
                rw (mutate_body_found is_date t k name token mutate e, ours)
                  (write-Effect t
                    (subst (λ (j : Text). get j t.records ≡ some r) (sym (k name r e).0) e)
                    (mv r ours) (ground arith))
            | inr lost ↦ rw (mutate_body_found is_date t k name token mutate e, lost) still
          ]
        ]

    pub enqueue_body-Effect :
        (job : CloudJob) (now : ℕ) (s : Store)
        → IsSoundJob is_date job
        → IsSoundStore is_date s
        → Effect s (enqueue_job is_date job now s).0 0
    unfolding write_record
    enqueue_body-Effect job now s k h = elim (Option-cases (get job.id s.records)) [
      | inr (r, e) ↦ rw (enqueue_job_again is_date s h job now e) still
      | inl e ↦ elim (Bool-cases (text_eq job.id id)) [
        | inl here ↦
            let at : get id s.records ≡ none =
              subst (λ (j : Text). get j s.records ≡ none) (text_eq→≡ job.id id here) e in
            let to : get id (insert job.id (queued_record job now) s.records)
                ≡ some (queued_record job now) =
              ground (arith, get-insert job.id id (queued_record job now) s.records) in
            rw (enqueue_job_new is_date s h job now e)
              (unfold queued_record in rw (at, to) (born job now k still))
        | inr there ↦
            let to : get id (insert job.id (queued_record job now) s.records) ≡ get id s.records =
              ground (arith, get-insert job.id id (queued_record job now) s.records) in
            rw (enqueue_job_new is_date s h job now e) (unfold queued_record in rw to still)
      ]
    ]
