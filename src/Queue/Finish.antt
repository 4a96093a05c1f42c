-- ===== src/Queue/Finish.antt =====
-- The writes of a worker on the attempt that it holds: progress, encoding time, completion of a
-- demo job (crates/adapters/src/postgres.rs), the check for a cancellation and its end
-- (crates/adapters/src/lifecycle_repository.rs, image_repository.rs). Durations are milliseconds.
use task_harbor.Base.{
  ℕ, ◌+◌, Bool, true, false, ◌&&◌, not, none, some, Result, ok, err, invalid_data, database,
  claim_lost, guard, ok_or, ensure_one_row, ensure_claim_row, ◌>>=◌, ◌>>◌, leb, ◌==◌,
}
use task_harbor.Clock.{Time}
use task_harbor.Core.{i32_max, i64_max, JobStatus}
use task_harbor.Sql.{count_rows, update_rows, find_row}
use task_harbor.Tables.{
  Db, JobEntry, AttemptEntry, AttemptStatus, ErrorKind, Message, plain, is_running,
  is_cancel_requested, is_demo,
}
use task_harbor.Queue.{Tx, ClaimedJob, ClaimedWork, demo_work, image_work, owns}

abbrev pub is_demo_work : ClaimedWork → Bool
is_demo_work (demo_work _) = true
is_demo_work (image_work _ _ _) = false

-- SET of the attempt that succeeds.
abbrev pub succeed_attempt : Time → ℕ → AttemptEntry → AttemptEntry
succeed_attempt now duration_ms a = record a {
  state = AttemptStatus.succeeded;
  progress_completed = a.progress_total;
  finished_at = some now;
  duration_ms = some duration_ms;
}

-- SET of the job that succeeds.
abbrev pub succeed_job : Time → ℕ → Message → JobEntry → JobEntry
succeed_job now duration_ms message j = record j {
  state = JobStatus.succeeded;
  progress_completed = j.progress_total;
  result_message = some message;
  result_duration_ms = some duration_ms;
  failure_message = none;
  finished_at = some now;
}

-- WHERE id = $1 AND state = 'running'.
abbrev pub running_job : ℕ → JobEntry → Bool
running_job job_id j = j.id == job_id && is_running j.state

-- WHERE id = $1 AND state = 'cancel_requested'.
abbrev pub cancelling_job : ℕ → JobEntry → Bool
cancelling_job job_id j = j.id == job_id && is_cancel_requested j.state

unfoldable pub complete : Db → ClaimedJob → (now : Time) (duration_ms : ℕ) → Tx (Unit {0})
complete db claimed now duration_ms = do
  guard (is_demo_work claimed.work) (invalid_data "image job cannot use demo completion")
  guard (leb duration_ms i64_max) (invalid_data "worker duration exceeds BIGINT range")
  ensure_claim_row (count_rows (owns claimed now) db.attempts)
  let selected = λ (j : JobEntry). running_job claimed.job_id j && is_demo j.job_type
  ensure_one_row (count_rows selected db.jobs) "complete job"
  ok (
    tt,
    record db {
      attempts = update_rows (owns claimed now) (succeed_attempt now duration_ms) db.attempts;
      jobs =
          update_rows selected (succeed_job now duration_ms (plain "demo delay completed")) db.jobs;
    },
  )

-- $n BETWEEN progress_completed AND progress_total.
abbrev pub fits : ℕ → (completed total : ℕ) → Bool
fits n completed total = leb completed n && leb n total

unfoldable pub update_progress : Db → ClaimedJob → (now : Time) (completed : ℕ) → Tx (Unit {0})
update_progress db claimed now completed = do
  guard (leb completed i32_max) (invalid_data "progress exceeds INTEGER")
  let owned = λ (a : AttemptEntry).
      owns claimed now a && fits completed a.progress_completed a.progress_total
  ensure_claim_row (count_rows owned db.attempts)
  let selected = λ (j : JobEntry).
      running_job claimed.job_id j && fits completed j.progress_completed j.progress_total
  ensure_one_row (count_rows selected db.jobs) "update job progress"
  ok (
    tt,
    record db {
      attempts = update_rows owned (λ a. record a { progress_completed = completed }) db.attempts;
      jobs = update_rows selected (λ j. record j { progress_completed = completed }) db.jobs;
    },
  )

-- The sum has to stay in the range of BIGINT.
unfoldable pub record_encoding_duration :
    Db → ClaimedJob → (now : Time) (duration_ms : ℕ) → Tx (Unit {0})
record_encoding_duration db claimed now duration_ms = do
  guard (leb duration_ms i64_max) (invalid_data "encoding duration exceeds BIGINT")
  let overflows = λ (a : AttemptEntry).
      owns claimed now a && not (leb (a.encoding_duration_ms + duration_ms) i64_max)
  guard (count_rows overflows db.attempts == 0) database
  ensure_claim_row (count_rows (owns claimed now) db.attempts)
  ok (
    tt,
    record db {
      attempts =
          update_rows (owns claimed now)
            (λ a. record a { encoding_duration_ms = a.encoding_duration_ms + duration_ms })
            db.attempts;
    },
  )

unfoldable pub cancellation_state : JobStatus → Result Bool
cancellation_state JobStatus.running = ok false
cancellation_state JobStatus.cancel_requested = ok true
cancellation_state _ = err claim_lost

-- The SELECT joins the attempt that the worker holds with its job.
unfoldable pub cancellation_requested : Db → ClaimedJob → (now : Time) → Result Bool
cancellation_requested db claimed now = do
  _ ← ok_or (find_row (owns claimed now) db.attempts) claim_lost
  job ← ok_or (find_row (λ j. j.id == claimed.job_id) db.jobs) claim_lost
  cancellation_state job.state

-- SET of the attempt that is cancelled.
abbrev pub cancel_attempt : Time → ℕ → AttemptEntry → AttemptEntry
cancel_attempt now duration_ms a = record a {
  state = AttemptStatus.cancelled;
  finished_at = some now;
  duration_ms = some duration_ms;
  error_kind = some ErrorKind.cancelled;
  error_message = some "cancelled by user";
}

-- SET of the job whose cancellation is finished.
abbrev pub cancel_job : Time → JobEntry → JobEntry
cancel_job now j = record j {
  state = JobStatus.cancelled;
  result_message = none;
  result_duration_ms = none;
  failure_message = none;
  finished_at = some now;
}

unfoldable pub finish_cancelled : Db → ClaimedJob → (now : Time) (duration_ms : ℕ) → Tx (Unit {0})
finish_cancelled db claimed now duration_ms = do
  guard (leb duration_ms i64_max) (invalid_data "worker duration exceeds BIGINT")
  ensure_claim_row (count_rows (owns claimed now) db.attempts)
  ensure_one_row (count_rows (cancelling_job claimed.job_id) db.jobs) "cancel job"
  ok (
    tt,
    record db {
      attempts = update_rows (owns claimed now) (cancel_attempt now duration_ms) db.attempts;
      jobs = update_rows (cancelling_job claimed.job_id) (cancel_job now) db.jobs;
    },
  )
