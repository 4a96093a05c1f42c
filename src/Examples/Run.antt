-- ===== src/Examples/Run.antt =====
-- A short life of the queue: a job is created, a worker registers and claims it, a minute-long lease
-- runs out and the attempt is reclaimed.
use task_harbor.Base.{ℕ, ◌*◌, ◌≡◌, refl, Bool, false, some, [], ◌∷◌, ok}
use task_harbor.Clock.{Time, checked_add}
use task_harbor.Core.{JobName, trim, trim_start, is_whitespace}
use task_harbor.Tables.{JobEntry, WorkerEntry}
use task_harbor.Sql.{count_rows, update_rows, insert_row, find_row, first_row}
use task_harbor.Queue.{ClaimedJob, commit, demo_work}
use task_harbor.Queue.Create.{create, fresh_job}
use task_harbor.Queue.Workers.{
  WorkerRegistration, register_worker_at, new_worker, online, validate, validate_duration,
  duration_seconds, get_worker, worker_status,
}
use task_harbor.Queue.Claim.{
  claim_next, claim_job, claimed_work, is_candidate, is_live, claimed_before, last_number,
}
use task_harbor.Queue.Reclaim.{
  reclaim_next, reclaim_attempt, reclaim_job, is_expired, expired_before, expires, retry_scheduled,
}
use task_harbor.Queue.Failure.{retry_backoff_seconds}
use task_harbor.System.{
  World, with_db, Reach, initial, creates, registers, claims_job, reclaims, here, next,
}

abbrev pub at : ℕ → Time
at seconds = seconds * 1000000000

abbrev pub no_lock : ℕ → Bool
no_lock _ = false

abbrev pub job_name : JobName
job_name = record { as_str = 0x61 ∷ 0x62 ∷ [] }

abbrev pub registration : WorkerRegistration
registration = record {
  id = 7;
  name = 0x77 ∷ [];
  concurrency_limit = 1;
  lease_duration = at 60;
  heartbeat_ttl = at 300;
}

abbrev pub job : JobEntry
job = fresh_job 1 (0x61 ∷ 0x62 ∷ []) (at 10)

abbrev pub created : World
created = with_db initial (commit initial.db (create initial.db job_name (at 10)))

abbrev pub worker : WorkerEntry
worker = new_worker registration (at 20) 60 300

abbrev pub ready : World
ready = with_db created (record created.db { workers = worker ∷ [] })

abbrev pub claim : ClaimedJob
claim = record {
  job_id = 1;
  attempt_id = 1;
  attempt_number = 1;
  max_attempts = 3;
  worker_id = 7;
  claim_token = 99;
  lease_expires_at = at 90;
  queue_wait = 20000;
  work = demo_work 500;
}

abbrev pub claimed : World
claimed = record {
  db = commit ready.db (claim_next ready.db no_lock 7 (at 30) 99);
  claims = claim ∷ [];
}

-- The second attempt, with another token.
abbrev pub again : ClaimedJob
again = record claim {
  attempt_id = 2;
  attempt_number = 2;
  claim_token = 100;
  lease_expires_at = at 157;
  queue_wait = 1000;
}

abbrev pub reclaimed : World
reclaimed = with_db claimed (commit claimed.db (reclaim_next claimed.db no_lock (at 95)))

pub ready_run : Reach initial ready
unfolding create register_worker_at validate validate_duration duration_seconds get_worker
    worker_status trim trim_start is_whitespace count_rows insert_row find_row
ready_run = next (next here (creates created.db job_name (at 10) job refl)) (
    registers ready.db registration (at 20) (at 20)
      (record { worker = worker; status = online; active_attempts = 0 }) refl)

-- The claim of the only job is the one above.
pub claimed_lem : claim_next ready.db no_lock 7 (at 30) 99 ≡ ok (some claim, claimed.db)
unfolding create claim_next claim_job claimed_work first_row is_candidate is_live claimed_before
    find_row count_rows update_rows insert_row last_number
claimed_lem = refl

pub claimed_run : Reach initial claimed
claimed_run = next ready_run (claims_job claimed.db no_lock 7 (at 30) 99 claim claimed_lem)

pub reclaimed_run : Reach initial reclaimed
unfolding create claim_next claim_job claimed_work first_row is_candidate is_live claimed_before
    find_row count_rows update_rows insert_row last_number reclaim_next reclaim_attempt reclaim_job
    is_expired expired_before expires checked_add retry_backoff_seconds
reclaimed_run = next claimed_run (
    reclaims reclaimed.db no_lock (at 95)
      (some (record {
        job_id = 1;
        attempt_id = 1;
        worker_id = 7;
        disposition = retry_scheduled (at 96);
      }))
      refl)

abbrev pub claimed_again : World
claimed_again = record {
  db = commit reclaimed.db (claim_next reclaimed.db no_lock 7 (at 97) 100);
  claims = again ∷ claim ∷ [];
}

pub again_run : Reach reclaimed claimed_again
unfolding create claim_next claim_job claimed_work first_row is_candidate is_live claimed_before
    find_row count_rows update_rows insert_row last_number reclaim_next reclaim_attempt reclaim_job
    is_expired expired_before expires checked_add retry_backoff_seconds
again_run = next here (claims_job claimed_again.db no_lock 7 (at 97) 100 again refl)
