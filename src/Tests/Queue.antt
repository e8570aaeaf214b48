-- ===== src/Tests/Queue.antt =====
-- A queue of two sample jobs.
use settlement_ops.Base.{Bool, List, String, [], any, arith, false, none, refl, some, ◌∷◌, ◌≡◌}
use settlement_ops.Jobs.{Job, JobRow, claim_job, claimed, fail_job, job_pending, oldest, to_job}
use settlement_ops.Jobs.Claims.{IsGiven, claim_job-IsGiven, claim_job-apart}
use settlement_ops.Jobs.Laws.{
  IsSoundQueue, QueueRun, claim_step, fail_step, halted, queue-IsSoundQueue, stepped,
}

abbrev sample_job : String → JobRow
sample_job id = record {
  id = id;
  merchant_id = some "m1";
  job_type = "reconcile";
  status = job_pending;
  attempts = 2;
  payload = "{}";
  correlation_id = "c1";
  claimed_at = none;
  heartbeat_at = none;
  completed_at = none;
  available_at = 10;
  failure_code = none;
  created_at = 5;
}

abbrev queue : List JobRow
queue = sample_job "job_1" ∷ sample_job "job_2" ∷ []

abbrev types : List String
types = "reconcile" ∷ []

abbrev unlocked : String → Bool
unlocked id = false

abbrev after_claim : List JobRow
after_claim = (claim_job 20 types unlocked queue).0

queue_ready : IsSoundQueue queue
unfolding any
queue_ready = record {
  sound = (
    record { counted = omega arith; coded = refl },
    (record { counted = omega arith; coded = refl }, tt),
  );
  apart = (refl, (refl, tt));
}

-- A job is claimed for the third time and its failure is reported.
third_attempt : QueueRun queue (fail_job 30 "job_1" 3 "TIMEOUT" after_claim)
unfolding claim_job oldest any
third_attempt = stepped (claim_step 20 types unlocked) (
    stepped (fail_step 30 "job_1" 3 "TIMEOUT" ((λ h. omega arith), ((λ h. omega arith), tt)))
      halted)

queue-IsSoundQueue_example : IsSoundQueue (fail_job 30 "job_1" 3 "TIMEOUT" after_claim)
queue-IsSoundQueue_example = queue-IsSoundQueue third_attempt queue_ready

claim_job-IsGiven_example : IsGiven 20 types unlocked queue (claim_job 20 types unlocked queue).1
claim_job-IsGiven_example = claim_job-IsGiven 20 types unlocked queue

abbrev job_given : String → Job
job_given id = to_job (claimed 20 (sample_job id))

claim_job-apart_example : ¬ ((job_given "job_1").id ≡ (job_given "job_2").id)
unfolding claim_job oldest any
claim_job-apart_example =
    claim_job-apart 20 20 types types unlocked unlocked queue (job_given "job_1")
      (job_given "job_2") refl refl
