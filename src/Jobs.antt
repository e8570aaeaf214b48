-- ===== src/Jobs.antt =====
-- The durable queue of jobs (apps/worker/src/jobs/job-runner.ts) over the table `jobs`.
pub mod Rows
pub mod Claims
pub mod Laws
use settlement_ops.Base.{
  Bool, List, Option, String, [], any, false, if◌then◌else◌, keep, leb, length, ltb, map, none, not,
  some, str_eq, suc, true, zero, ℕ, ◌&&◌, ◌*◌, ◌+◌, ◌∷◌,
}

pub data JobStatus : Type 0 where
  job_pending job_claimed job_succeeded job_failed job_abandoned : JobStatus

abbrev pub is_pending : JobStatus → Bool
is_pending job_pending = true
is_pending _ = false

abbrev pub is_claimed : JobStatus → Bool
is_claimed job_claimed = true
is_claimed _ = false

-- A row of `jobs`. A time is its number of milliseconds; the payload is the text of its JSON.
pub record JobRow : Type 0 where
  pub id : String
  pub merchant_id : Option String
  pub job_type : String
  pub status : JobStatus
  pub attempts : ℕ
  pub payload : String
  pub correlation_id : String
  pub claimed_at : Option ℕ
  pub heartbeat_at : Option ℕ
  pub completed_at : Option ℕ
  pub available_at : ℕ
  pub failure_code : Option String
  pub created_at : ℕ

pub record Job : Type 0 where
  pub id : String
  pub merchant_id : Option String
  pub job_type : String
  pub payload : String
  pub correlation_id : String
  pub attempts : ℕ

abbrev pub max_attempts : ℕ
max_attempts = 3

abbrev pub backoff_seconds : List ℕ
backoff_seconds = 5 ∷ 30 ∷ 120 ∷ []

-- An element of a list, or a default out of range.
abbrev pub element_or : ℕ → ℕ → List ℕ → ℕ
element_or default n [] = default
element_or default zero (x ∷ xs) = x
element_or default (suc n) (x ∷ xs) = element_or default n xs

unfoldable pub backoff_for : ℕ → ℕ
backoff_for attempts = element_or 120 (if ltb attempts 2 then attempts else 2) backoff_seconds

-- The rows that the inner SELECT sees: `locked` are those that other transactions hold.
abbrev pub is_claimable : ℕ → List String → (String → Bool) → JobRow → Bool
is_claimable now job_types locked row =
    is_pending row.status
    && (any (str_eq row.job_type) job_types && (leb row.available_at now && not (locked row.id)))

-- The first of the rows with the least time of creation.
abbrev pub earlier : JobRow → Option JobRow → JobRow
earlier row none = row
earlier row (some other) = if ltb other.created_at row.created_at then other else row

unfoldable pub oldest : (JobRow → Bool) → List JobRow → Option JobRow
oldest p [] = none
oldest p (row ∷ rows) = let rest = oldest p rows in if p row then some (earlier row rest) else rest

abbrev pub has_job_id : String → JobRow → Bool
has_job_id id row = str_eq row.id id

abbrev pub claimed : ℕ → JobRow → JobRow
claimed now row = record row {
  status = job_claimed;
  attempts = row.attempts + 1;
  claimed_at = some now;
  heartbeat_at = some now;
}

-- An UPDATE of the row with an id.
abbrev pub at_id : String → (JobRow → JobRow) → JobRow → JobRow
at_id id f row = if has_job_id id row then f row else row

abbrev pub to_job : JobRow → Job
to_job row = record {
  id = row.id;
  merchant_id = row.merchant_id;
  job_type = row.job_type;
  payload = row.payload;
  correlation_id = row.correlation_id;
  attempts = row.attempts;
}

unfoldable pub claim_job :
    ℕ → List String → (String → Bool) → List JobRow → List JobRow × Option Job
claim_job now job_types locked rows = elim (oldest (is_claimable now job_types locked) rows) [
  | none ↦ (rows, none)
  | some row ↦ (map (at_id row.id (claimed now)) rows, some (to_job (claimed now row)))
]

abbrev pub completed : ℕ → JobRow → JobRow
completed now row = record row { status = job_succeeded; completed_at = some now }

unfoldable pub complete_job : ℕ → String → List JobRow → List JobRow
complete_job now id rows = map (at_id id (completed now)) rows

abbrev pub failed : ℕ → ℕ → String → JobRow → JobRow
failed now attempts failure_code row =
    if leb max_attempts attempts
    then record row {
      status = job_abandoned;
      failure_code = some failure_code;
      completed_at = some now;
    }
    else record row {
      status = job_pending;
      failure_code = some failure_code;
      completed_at = none;
      available_at = now + 1000 * backoff_for attempts;
    }

unfoldable pub fail_job : ℕ → String → ℕ → String → List JobRow → List JobRow
fail_job now id attempts failure_code rows = map (at_id id (failed now attempts failure_code)) rows

abbrev pub beaten : ℕ → JobRow → JobRow
beaten now row = record row { heartbeat_at = some now }

unfoldable pub heartbeat : ℕ → String → List JobRow → List JobRow
heartbeat now id rows = map (at_id id (beaten now)) rows

-- A heartbeat that is absent is not stale.
abbrev pub is_stale_beat : ℕ → ℕ → Option ℕ → Bool
is_stale_beat now stale_seconds none = false
is_stale_beat now stale_seconds (some at) = ltb (at + 1000 * stale_seconds) now

abbrev pub is_lost : ℕ → ℕ → JobRow → Bool
is_lost now stale_seconds row =
    is_claimed row.status && is_stale_beat now stale_seconds row.heartbeat_at

abbrev pub is_requeued : ℕ → ℕ → JobRow → Bool
is_requeued now stale_seconds row = is_lost now stale_seconds row && ltb row.attempts max_attempts

abbrev pub is_given_up : ℕ → ℕ → JobRow → Bool
is_given_up now stale_seconds row = is_lost now stale_seconds row && leb max_attempts row.attempts

abbrev pub requeued : ℕ → ℕ → JobRow → JobRow
requeued now stale_seconds row =
    if is_requeued now stale_seconds row
    then record row {
      status = job_pending;
      available_at = now + 1000 * element_or 5 0 backoff_seconds;
    }
    else row

-- COALESCE
abbrev pub code_or : Option String → String → String
code_or none code = code
code_or (some code) other = code

abbrev pub given_up : ℕ → ℕ → JobRow → JobRow
given_up now stale_seconds row =
    if is_given_up now stale_seconds row
    then record row {
      status = job_abandoned;
      failure_code = some (code_or row.failure_code "WORKER_LOST_AFTER_MAX_ATTEMPTS");
      completed_at = some now;
    }
    else row

-- The two UPDATEs, each with its time, and how many rows each changed.
unfoldable pub reclaim_abandoned : ℕ → ℕ → ℕ → List JobRow → List JobRow × (ℕ × ℕ)
reclaim_abandoned now later stale_seconds rows =
    let queued = map (requeued now stale_seconds) rows in
    (
      map (given_up later stale_seconds) queued,
      (
        length (keep (is_requeued now stale_seconds) rows),
        length (keep (is_given_up later stale_seconds) queued),
      ),
    )

-- The INSERT; nothing where the id is taken, which is thrown.
unfoldable pub enqueue_job : ℕ → Job → List JobRow → Option (List JobRow)
enqueue_job now job rows =
    if any (has_job_id job.id) rows
    then none
    else some (
        record {
          id = job.id;
          merchant_id = job.merchant_id;
          job_type = job.job_type;
          status = job_pending;
          attempts = 0;
          payload = job.payload;
          correlation_id = job.correlation_id;
          claimed_at = none;
          heartbeat_at = none;
          completed_at = none;
          available_at = now;
          failure_code = none;
          created_at = now;
        }
        ∷ rows)
