-- ===== src/Cloud/Queue/Exclusion.antt =====
-- Leases of filesystemQueue.ts: who holds one, and what a worker that has lost
-- its lease can still do.
use ninjacode_agent.Cloud.Locks.{Moment}
use ninjacode_agent.Cloud.Queue.{
  succeed, lease_over, leased, try_claim, claimed_record, has_token, is_active, succeeded_record,
  could_not_lock, Store, JobRecord, write_record, mutate_leased, mutate_body, new_lease,
  try_claim_body, ClaimedJob, Outcome, claim_record,
}
use ninjacode_agent.Cloud.Queue.Invariant.{IsSoundStore}
use ninjacode_agent.Cloud.Queue.Operations.{
  try_claim_body_found, try_claim_body_missing, try_claim-IsSound, mutate_body_found,
  with_lock-cases,
}
use ninjacode_agent.Prelude.{
  Option-cases, ℕ, ◌+◌, ◌≡◌, sym, ap, ◌∙◌, ◌≢◌, inl, inr, Bool, true, false, Option, none, some,
  List, arith,
}
use ninjacode_agent.Prelude.Maps.{get-insert, get}
use ninjacode_agent.Prelude.Results.{err, ok}
use ninjacode_agent.Prelude.Texts.{Text, text_eq_refl, text_eq}

-- A claim of a record that returns it has written the record that it returns, with a new lease.
claim_record_writes :
    (token worker : Text) (now : ℕ) (r : JobRecord) (s : Store) (c : ClaimedJob)
    → (claim_record token worker now r s).1 ≡ ok (some c)
    → ((claim_record token worker now r s).0 ≡ write_record (claimed_record token worker now r) s)
      × (c.record_of ≡ claimed_record token worker now r)
      × (c.lease ≡ new_lease token worker now r)
unfolding claim_record
claim_record_writes token worker now r s c e = ground arith

-- What a successful claim of the job of an id has established.
pub record Holds (token worker : Text) (now : ℕ) (id : Text) (records : List (Text × JobRecord))
    (c : ClaimedJob) : Type 0 where
  pub stored : get id records ≡ some c.record_of
  pub leased_now : c.record_of.lease ≡ some c.lease
  pub status : c.record_of.status ≡ leased
  pub token_given : c.lease.token ≡ token
  pub worker_given : c.lease.worker_id ≡ worker
  pub expiry : c.lease.expires_at ≡ now + c.record_of.job.execution.lease_ms

claimed-Holds :
    (token worker : Text) (now : ℕ) (id : Text) (r : JobRecord) (s : Store) (c : ClaimedJob)
    → r.job.id ≡ id
    → (claim_record token worker now r s).1 ≡ ok (some c)
    → Holds token worker now id (claim_record token worker now r s).0.records c
unfolding claimed_record new_lease write_record
claimed-Holds token worker now id r s c same e =
    let (wrote, rec, lse) = claim_record_writes token worker now r s c e in
    record {
      stored =
          rw (wrote, rec)
            (ground (
              arith,
              same,
              text_eq_refl id,
              get-insert id id (claimed_record token worker now r) s.records,
            ));
      leased_now = cc (rec, lse);
      status = cc rec;
      token_given = cc lse;
      worker_given = cc lse;
      expiry = cc (rec, lse);
    }

claim_record_idle :
    (token worker : Text) (now : ℕ) (r : JobRecord) (s : Store)
    → is_active r.status ≡ true
    → lease_over now r.lease ≡ false
    → claim_record token worker now r s ≡ (s, ok none)
unfolding claim_record
claim_record_idle token worker now r s active alive = ground arith

module _ (is_date : Text → Bool) where
  -- When an attempt at a job returns it, the record on disk is the one returned: leased, with a
  -- lease for this token and worker that runs from now for the job's lease time.
  pub try_claim-Holds :
      (token worker : Text) (now : ℕ) (moments : List Moment) (id : Text) (s : Store)
      (c : ClaimedJob)
      → IsSoundStore is_date s
      → (try_claim is_date token worker now moments id s).1 ≡ ok (some c)
      → Holds token worker now id (try_claim is_date token worker now moments id s).0.records c
  unfolding try_claim
  try_claim-Holds token worker now moments id s c h e =
      elim (with_lock-cases id false moments (ok none) (try_claim_body is_date token worker now id)
        s) [
          | inl (same, busy) ↦ cc (e, busy)
          | inr (locks, same, result) ↦
              rw same (body_holds (record s { locks = locks }) h (sym result ∙ e))
        ]
    where
      body_holds :
          (t : Store)
          → IsSoundStore is_date t
          → (try_claim_body is_date token worker now id t).1 ≡ ok (some c)
          → Holds token worker now id (try_claim_body is_date token worker now id t).0.records c
      body_holds t k q = elim (Option-cases (get id t.records)) [
        | inl none_there ↦ cc (q, try_claim_body_missing is_date t k token worker now id none_there)
        | inr (r, there) ↦
            let found = try_claim_body_found is_date t k token worker now id there in
            rw found (claimed-Holds token worker now id r t c (k id r there).0 (rw found at q))
      ]

  -- While a lease is running, no attempt at its job, by whatever worker, claims it or changes a
  -- record.
  pub try_claim_excluded :
      (token worker : Text) (now : ℕ) (moments : List Moment) (id : Text) (s : Store)
      (r : JobRecord)
      → IsSoundStore is_date s
      → get id s.records ≡ some r
      → is_active r.status ≡ true
      → lease_over now r.lease ≡ false
      → ((try_claim is_date token worker now moments id s).0.records ≡ s.records)
        × ((try_claim is_date token worker now moments id s).1 ≡ ok none)
  unfolding try_claim
  try_claim_excluded token worker now moments id s r h e active alive =
      elim (with_lock-cases id false moments (ok none) (try_claim_body is_date token worker now id)
        s) [
          | inl (same, busy) ↦ (same, busy)
          | inr (locks, same, result) ↦
              let t : Store = record s { locks = locks } in
              let body = try_claim_body_found is_date t h token worker now id e in
              let idle = claim_record_idle token worker now r t active alive in
              (
                same ∙ ap (λ (o : Outcome (Option ClaimedJob)). o.0.records) (body ∙ idle),
                result ∙ ap (λ (o : Outcome (Option ClaimedJob)). o.1) (body ∙ idle),
              )
        ]

  -- An update with a token that is not the one of the current lease changes no record and throws,
  -- so a worker whose lease has been given away can neither renew it nor report a result.
  pub mutate_leased_fenced :
      (id token : Text) (mutate : JobRecord → JobRecord) (moments : List Moment) (s : Store)
      (r : JobRecord)
      → IsSoundStore is_date s
      → get id s.records ≡ some r
      → has_token token r.lease ≡ false
      → ((mutate_leased is_date id token mutate moments s).0.records ≡ s.records)
        × ((mutate_leased is_date id token mutate moments s).1 ≢ ok tt)
  unfolding mutate_leased
  mutate_leased_fenced id token mutate moments s r h e lost =
      elim (with_lock-cases id true moments (err (could_not_lock id))
        (mutate_body is_date id token mutate) s) [
          | inl (same, busy) ↦ (same, λ k. cc)
          | inr (locks, same, result) ↦
              let t : Store = record s { locks = locks } in
              let body = mutate_body_found is_date t h id token mutate e in
              (ground arith, λ k. ground arith)
        ]

  -- Once a job is handed out under a new token, a worker that holds another token cannot report
  -- success for it, whatever its manifest and however long it tries for the lock.
  pub try_claim_fences :
      (token old worker manifest : Text) (now later : ℕ) (moments tries : List Moment) (id : Text)
      (s : Store) (c : ClaimedJob)
      → IsSoundStore is_date s
      → (try_claim is_date token worker now moments id s).1 ≡ ok (some c)
      → text_eq token old ≡ false
      → let after = (try_claim is_date token worker now moments id s).0 in
        ((succeed is_date id old manifest later tries after).0.records ≡ after.records)
        × ((succeed is_date id old manifest later tries after).1 ≢ ok tt)
  unfolding succeed has_token
  try_claim_fences token old worker manifest now later moments tries id s c h e other =
      let held = try_claim-Holds token worker now moments id s c h e in
      mutate_leased_fenced id old (succeeded_record manifest later) tries
        (try_claim is_date token worker now moments id s).0 c.record_of
        (try_claim-IsSound is_date s token worker now moments id h) held.stored
        (rw (held.leased_now, held.token_given) other)
