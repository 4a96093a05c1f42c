-- ===== src/Queue/Reclaim.antt =====
-- `reclaim_next_expired_attempt_at` (crates/adapters/src/worker_repository.rs): any worker closes
-- an attempt whose lease has run out. `locked` says which attempts a concurrent transaction holds.
use task_harbor.Base.{
  ℕ, ◌*◌, Bool, true, false, ◌&&◌, ◌||◌, not, Option, none, some, Result, ok, invalid_data,
  state_conflict, String, guard, ok_or, ensure_one_row, ◌>>=◌, ◌>>◌, ltb, leb, ◌==◌, if◌then◌else◌,
  is_at_most, List,
}
use task_harbor.Clock.{Time, second, checked_add, whole_milliseconds}
use task_harbor.Core.{i64_max}
use task_harbor.Sql.{count_rows, update_rows, find_row, first_row}
use task_harbor.Tables.{
  Db, JobEntry, AttemptEntry, AttemptStatus, ErrorKind, in_progress, is_active, is_cancel_requested,
}
use task_harbor.Queue.{Tx}
use task_harbor.Queue.Finish.{running_job, cancelling_job, cancel_job}
use task_harbor.Queue.Failure.{retry_backoff_seconds, retry_job, fail_job}

pub data ReclaimDisposition : Type 0 where
  retry_scheduled : Time → ReclaimDisposition
  failed cancelled : ReclaimDisposition

pub record ReclaimedAttempt : Type 0 where
  pub job_id : ℕ
  pub attempt_id : ℕ
  pub worker_id : ℕ
  pub disposition : ReclaimDisposition

-- state = 'running' AND lease_expires_at <= $1, joined with an active job, of the rows not locked.
unfoldable pub is_expired : (ℕ → Bool) → List JobEntry → Time → AttemptEntry → Bool
is_expired locked jobs as_of a =
    in_progress a.state
    && (is_at_most a.lease_expires_at as_of
        && (not (count_rows (λ j. j.id == a.job_id && is_active j.state) jobs == 0)
            && not (locked a.id)))

-- A lease that is there goes before one that is not (NULLS LAST).
abbrev lease_before : Option Time → Option Time → Bool
lease_before none _ = false
lease_before (some a) none = true
lease_before (some a) (some b) = ltb a b

abbrev lease_same : Option Time → Option Time → Bool
lease_same none none = true
lease_same none (some b) = false
lease_same (some a) none = false
lease_same (some a) (some b) = a == b

-- ORDER BY lease_expires_at, id.
unfoldable pub expired_before : AttemptEntry → AttemptEntry → Bool
expired_before a b =
    lease_before a.lease_expires_at b.lease_expires_at
    || (lease_same a.lease_expires_at b.lease_expires_at && ltb a.id b.id)

abbrev pub lease_expired_message : String
lease_expired_message = "worker lease expired before completion"

-- The UPDATE of the attempt: WHERE and SET.
unfoldable pub expires : AttemptEntry → Time → AttemptEntry → Bool
expires candidate as_of a =
    a.id == candidate.id
    && (a.job_id == candidate.job_id
        && (in_progress a.state && is_at_most a.lease_expires_at as_of))

abbrev pub expire_attempt : Bool → Time → ℕ → AttemptEntry → AttemptEntry
expire_attempt cancelling as_of duration_ms a = record a {
  state = if cancelling then AttemptStatus.cancelled else AttemptStatus.failed;
  finished_at = some as_of;
  duration_ms = some duration_ms;
  error_kind = some (if cancelling then ErrorKind.cancelled else ErrorKind.transient);
  error_message =
      some (if cancelling then "cancelled after worker lease expired" else lease_expired_message);
}

-- What becomes of the job: the disposition and the new jobs.
unfoldable pub reclaim_job :
    Db → AttemptEntry → JobEntry → Time → Result (ReclaimDisposition × List JobEntry)
reclaim_job db candidate job as_of =
    let backoff = retry_backoff_seconds candidate.attempt_number in
    let running_row = running_job candidate.job_id in
    let cancel : Result (ReclaimDisposition × List JobEntry) =
      ensure_one_row (count_rows (cancelling_job candidate.job_id) db.jobs) "cancel expired job"
      >> ok (cancelled, update_rows (cancelling_job candidate.job_id) (cancel_job as_of) db.jobs) in
    let retry : Result (ReclaimDisposition × List JobEntry) = (do
      available_at ←
          ok_or (checked_add as_of (backoff * second)) (invalid_data "retry time overflowed")
      let selected = λ (j : JobEntry). running_row j && leb as_of available_at
      ensure_one_row (count_rows selected db.jobs) "retry expired job"
      ok (
        retry_scheduled available_at,
        update_rows selected (retry_job available_at lease_expired_message) db.jobs,
      )) in
    let fail : Result (ReclaimDisposition × List JobEntry) =
      ensure_one_row (count_rows running_row db.jobs) "fail expired job"
      >> ok (failed, update_rows running_row (fail_job as_of lease_expired_message) db.jobs) in
    if is_cancel_requested job.state
    then cancel
    else if ltb candidate.attempt_number job.max_attempts
    then retry
    else fail

-- The part of the transaction behind the choice of the attempt.
unfoldable pub reclaim_attempt : Db → AttemptEntry → Time → Tx (Option ReclaimedAttempt)
reclaim_attempt db candidate as_of = do
  job ←
      ok_or (find_row (λ j. j.id == candidate.job_id && is_active j.state) db.jobs)
        (state_conflict "joined job")
  worker_id ← ok_or candidate.worker_id (invalid_data "running attempt has no worker owner")
  let duration_ms = whole_milliseconds as_of candidate.started_at
  guard (leb duration_ms i64_max) (invalid_data "attempt duration exceeds BIGINT")
  ensure_one_row (count_rows (expires candidate as_of) db.attempts) "expire worker attempt"
  (disposition, jobs') ← reclaim_job db candidate job as_of
  guard (leb 1 candidate.job_id && leb candidate.job_id i64_max)
      (invalid_data "job ID must be a positive signed 64-bit integer")
  ok (
    some (record {
      job_id = candidate.job_id;
      attempt_id = candidate.id;
      worker_id = worker_id;
      disposition = disposition;
    }),
    record db {
      attempts =
          update_rows (expires candidate as_of)
            (expire_attempt (is_cancel_requested job.state) as_of duration_ms) db.attempts;
      jobs = jobs';
    },
  )

unfoldable pub reclaim_next : Db → (locked : ℕ → Bool) (as_of : Time) → Tx (Option ReclaimedAttempt)
reclaim_next db locked as_of =
    elim (first_row (is_expired locked db.jobs as_of) expired_before db.attempts) [
      | none ↦ ok (none, db)
      | some candidate ↦ reclaim_attempt db candidate as_of
    ]
