-- ===== src/Jobs/Laws.antt =====
-- How often a job is given out, and what becomes of one that is given up.
use settlement_ops.Base.{
  All, Bool, Bool-cases, List, Option-cases, String, any, arith, inl, inr, leb, map, none, refl,
  some, subst, true, ℕ, ◌≡◌, ◌≤◌,
}
use settlement_ops.Jobs.{
  Job, JobRow, at_id, beaten, claim_job, claimed, complete_job, completed, enqueue_job, fail_job,
  failed, given_up, has_job_id, heartbeat, is_claimable, is_given_up, is_requeued, max_attempts,
  oldest, reclaim_abandoned, requeued,
}
use settlement_ops.Jobs.Rows.{
  AllDistinct, IsSoundJob, beaten-IsSoundJob, claimed-IsSoundJob, completed-IsSoundJob,
  failed-IsSoundJob, given_up-IsSoundJob, map-AllDistinct, map-AllSoundJob, map-IsSoundJob,
  oldest-only, requeued-IsSoundJob,
}

-- One statement of a worker or of a producer. A failure is reported with at least the attempts
-- that the job has had.
pub data QueueStep : List JobRow → List JobRow → Type 0 where
  claim_step :
      {rows : List JobRow} (now : ℕ) (job_types : List String) (locked : String → Bool)
      → QueueStep rows (claim_job now job_types locked rows).0
  complete_step :
      {rows : List JobRow} (now : ℕ) (id : String) → QueueStep rows (complete_job now id rows)
  fail_step :
      {rows : List JobRow} (now : ℕ) (id : String) (attempts : ℕ) (code : String)
      → All (λ row. has_job_id id row ≡ true → row.attempts ≤ attempts) rows
      → QueueStep rows (fail_job now id attempts code rows)
  heartbeat_step :
      {rows : List JobRow} (now : ℕ) (id : String) → QueueStep rows (heartbeat now id rows)
  reclaim_step :
      {rows : List JobRow} (now later stale_seconds : ℕ)
      → QueueStep rows (reclaim_abandoned now later stale_seconds rows).0
  enqueue_step :
      {rows more : List JobRow} (now : ℕ) (job : Job)
      → enqueue_job now job rows ≡ some more
      → QueueStep rows more

pub data QueueRun : List JobRow → List JobRow → Type 0 where
  halted : {rows : List JobRow} → QueueRun rows rows
  stepped : {a b c : List JobRow} → QueueStep a b → QueueRun b c → QueueRun a c

-- The queue: sound jobs of different ids.
pub record IsSoundQueue (rows : List JobRow) : Type 0 where
  pub sound : All IsSoundJob rows
  pub apart : AllDistinct rows

at_id-id :
    (id : String) (f : JobRow → JobRow)
    → ((row : JobRow) → (f row).id ≡ row.id)
    → (row : JobRow) → (at_id id f row).id ≡ row.id
at_id-id id f same row = elim (Bool-cases (has_job_id id row)) [
  | inl hit ↦ rw hit (same row)
  | inr miss ↦ rw miss refl
]

claim_job-IsSoundQueue :
    (now : ℕ) (job_types : List String) (locked : String → Bool) (rows : List JobRow)
    → IsSoundQueue rows
    → IsSoundQueue (claim_job now job_types locked rows).0
unfolding claim_job
claim_job-IsSoundQueue now job_types locked rows h =
    let p = is_claimable now job_types locked in
    elim (Option-cases (oldest p rows)) [
      | inl empty ↦ rw (empty, claim_job) h
      | inr (row, found) ↦
          rw (found, claim_job)
            (record {
              sound =
                  map-AllSoundJob (λ r. has_job_id row.id r ≡ true → p r ≡ true)
                    (at_id row.id (claimed now)) rows
                    (claimed-IsSoundJob now job_types locked row.id) h.sound
                    (oldest-only p rows row h.apart found);
              apart = map-AllDistinct _ rows (at_id-id row.id (claimed now) (λ r. refl)) h.apart;
            })
    ]

updated-IsSoundQueue :
    (f : JobRow → JobRow) (rows : List JobRow)
    → ((row : JobRow) → (f row).id ≡ row.id)
    → ((row : JobRow) → IsSoundJob row → IsSoundJob (f row))
    → IsSoundQueue rows
    → IsSoundQueue (map f rows)
updated-IsSoundQueue f rows same each h = record {
  sound = map-IsSoundJob f rows each h.sound;
  apart = map-AllDistinct f rows same h.apart;
}

failed-id :
    (now attempts : ℕ) (code : String) (row : JobRow) → (failed now attempts code row).id ≡ row.id
failed-id now attempts code row = elim (Bool-cases (leb max_attempts attempts)) [
  | inl last ↦ rw last refl
  | inr more ↦ rw more refl
]

requeued-id : (now stale : ℕ) (row : JobRow) → (requeued now stale row).id ≡ row.id
requeued-id now stale row = elim (Bool-cases (is_requeued now stale row)) [
  | inl hit ↦ rw hit refl
  | inr miss ↦ rw miss refl
]

given_up-id : (now stale : ℕ) (row : JobRow) → (given_up now stale row).id ≡ row.id
given_up-id now stale row = elim (Bool-cases (is_given_up now stale row)) [
  | inl hit ↦ rw hit refl
  | inr miss ↦ rw miss refl
]

enqueue_job-IsSoundQueue :
    (now : ℕ) (job : Job) (rows more : List JobRow)
    → IsSoundQueue rows
    → enqueue_job now job rows ≡ some more
    → IsSoundQueue more
unfolding enqueue_job
enqueue_job-IsSoundQueue now job rows more h e = elim (Bool-cases (any (has_job_id job.id) rows)) [
  | inl taken ↦ absurd (none-ne-some (rw (taken, enqueue_job) at e))
  | inr free ↦ subst IsSoundQueue (some-injective (rw (free, enqueue_job) at e)) (record {
    sound = (record { counted = omega arith; coded = refl }, h.sound);
    apart = (free, h.apart);
  })
]
  where
    none-ne-some : none ≡ some more → ⊥
    none-ne-some e = cc

    some-injective : {a b : List JobRow} → some a ≡ some b → a ≡ b
    some-injective e = cc

step-IsSoundQueue : {a b : List JobRow} → QueueStep a b → IsSoundQueue a → IsSoundQueue b
unfolding complete_job fail_job heartbeat reclaim_abandoned
step-IsSoundQueue {a} (claim_step now job_types locked) h =
    claim_job-IsSoundQueue now job_types locked a h
step-IsSoundQueue {a} (complete_step now id) h =
    updated-IsSoundQueue (at_id id (completed now)) a (at_id-id id (completed now) (λ r. refl))
      (completed-IsSoundJob now id) h
step-IsSoundQueue {a} (fail_step now id attempts code given) h = record {
  sound =
      map-AllSoundJob (λ r. has_job_id id r ≡ true → r.attempts ≤ attempts)
        (at_id id (failed now attempts code)) a (failed-IsSoundJob now id attempts code) h.sound
        given;
  apart =
      map-AllDistinct _ a (at_id-id id (failed now attempts code) (failed-id now attempts code))
        h.apart;
}
step-IsSoundQueue {a} (heartbeat_step now id) h =
    updated-IsSoundQueue (at_id id (beaten now)) a (at_id-id id (beaten now) (λ r. refl))
      (beaten-IsSoundJob now id) h
step-IsSoundQueue {a} (reclaim_step now later stale_seconds) h =
    updated-IsSoundQueue (given_up later stale_seconds) (map (requeued now stale_seconds) a)
      (given_up-id later stale_seconds) (given_up-IsSoundJob later stale_seconds)
      (updated-IsSoundQueue (requeued now stale_seconds) a (requeued-id now stale_seconds)
        (requeued-IsSoundJob now stale_seconds) h)
step-IsSoundQueue {a} {b} (enqueue_step now job e) h = enqueue_job-IsSoundQueue now job a b h e

-- Whatever producers, workers and the reclaiming of lost jobs do, in any order and at any times, to
-- a queue that was sound: no two jobs share an id, no job counts more than three attempts, a
-- job that waits has an attempt left, and a job that was given up has a failure code. The failures
-- are to be reported with no fewer attempts than the job has had.
pub queue-IsSoundQueue : {a b : List JobRow} → QueueRun a b → IsSoundQueue a → IsSoundQueue b
queue-IsSoundQueue halted h = h
queue-IsSoundQueue (stepped one rest) h = queue-IsSoundQueue rest (step-IsSoundQueue one h)
