-- ===== src/Queue/Failure.antt =====
-- `record_failure` and the backoff (crates/adapters/src/lifecycle_repository.rs).
use task_harbor.Base.{
  ℕ, ◌-◌, ◌*◌, ◌%◌, ◌^◌, Bool, true, false, ◌&&◌, not, none, some, ok, invalid_data, state_conflict,
  String, guard, ensure_one_row, ensure_claim_row, ◌>>◌, ltb, leb, ◌==◌, if◌then◌else◌, min,
}
use task_harbor.Clock.{Time, plus_seconds}
use task_harbor.Core.{i32_max, i64_max, JobStatus}
use task_harbor.Sql.{count_rows, update_rows}
use task_harbor.Tables.{Db, JobEntry, AttemptEntry, AttemptStatus, ErrorKind}
use task_harbor.Queue.{Tx, ClaimedJob, owns}
use task_harbor.Queue.Finish.{running_job}

abbrev pub max_backoff_seconds : ℕ
max_backoff_seconds = 60

-- u32: the shift is at most 31, so `checked_shl` gives a value; the product keeps 32 bits.
unfoldable pub retry_backoff_seconds : ℕ → ℕ
retry_backoff_seconds attempt_number =
    let shift = min (attempt_number - 1) 31 in min (1 * 2 ^ shift % 2 ^ 32) max_backoff_seconds

pub data FailureKind : Type 0 where
  transient permanent : FailureKind

pub data FailureDisposition : Type 0 where
  retry_scheduled : Time → FailureDisposition
  failed : FailureDisposition

abbrev pub error_kind_of : FailureKind → ErrorKind
error_kind_of transient = ErrorKind.transient
error_kind_of permanent = ErrorKind.permanent

abbrev pub is_transient : FailureKind → Bool
is_transient transient = true
is_transient permanent = false

-- SET of the attempt that fails.
abbrev pub fail_attempt : Time → ℕ → ErrorKind → String → AttemptEntry → AttemptEntry
fail_attempt now duration_ms kind message a = record a {
  state = AttemptStatus.failed;
  finished_at = some now;
  duration_ms = some duration_ms;
  error_kind = some kind;
  error_message = some message;
}

-- SET of the job that waits for its next attempt.
abbrev pub retry_job : Time → String → JobEntry → JobEntry
retry_job available_at message j = record j {
  state = JobStatus.retry_waiting;
  available_at = available_at;
  progress_completed = 0;
  failure_message = some message;
  result_message = none;
  result_duration_ms = none;
  finished_at = none;
}

-- SET of the job that has failed.
abbrev pub fail_job : Time → String → JobEntry → JobEntry
fail_job now message j = record j {
  state = JobStatus.failed;
  failure_message = some message;
  result_message = none;
  result_duration_ms = none;
  finished_at = some now;
}

unfoldable pub record_failure :
    Db → ClaimedJob → (now : Time) (duration_ms : ℕ) → FailureKind → String → Tx FailureDisposition
record_failure db claimed now duration_ms kind message = do
  guard (leb duration_ms i64_max) (invalid_data "worker duration exceeds BIGINT")
  ensure_claim_row (count_rows (owns claimed now) db.attempts)
  let attempts' =
      update_rows (owns claimed now) (fail_attempt now duration_ms (error_kind_of kind) message)
        db.attempts
  let rows = count_rows (running_job claimed.job_id) db.jobs
  let backoff = retry_backoff_seconds claimed.attempt_number
  let available_at = plus_seconds now backoff
  let retry : Tx FailureDisposition =
      (guard (leb backoff i32_max) (invalid_data "retry backoff exceeds INTEGER")
        >> (guard (not (rows == 0)) (state_conflict "schedule retry")
            >> ok (
              retry_scheduled available_at,
              record db {
                attempts = attempts';
                jobs =
                    update_rows (running_job claimed.job_id) (retry_job available_at message)
                      db.jobs;
              },
            )))
  let fail : Tx FailureDisposition =
      (ensure_one_row rows "fail job"
        >> ok (
          failed,
          record db {
            attempts = attempts';
            jobs = update_rows (running_job claimed.job_id) (fail_job now message) db.jobs;
          },
        ))
  if is_transient kind && ltb claimed.attempt_number claimed.max_attempts then retry else fail
