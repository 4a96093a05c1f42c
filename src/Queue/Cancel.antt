-- ===== src/Queue/Cancel.antt =====
-- `request_cancel` and `manual_retry` (crates/adapters/src/lifecycle_repository.rs), with the read
-- `get_with_owner` that they end with (crates/adapters/src/postgres.rs). `owner` is none where the
-- caller asks for no owner.
use task_harbor.Base.{
  ℕ, ◌+◌, Bool, true, false, ◌&&◌, Option, none, some, List, [], ◌∷◌, ok, err, database,
  state_conflict, guard, ◌>>◌, leb, ◌==◌, if◌then◌else◌, is_some, coalesce, matches_owner, length,
  ◌++◌,
}
use task_harbor.Clock.{Time}
use task_harbor.Core.{i64_max, JobStatus}
use task_harbor.Sql.{count_rows, update_rows, select_rows, find_row, insert_row}
use task_harbor.Tables.{Db, JobEntry, ArtifactEntry, is_claimable, is_input}
use task_harbor.Queue.{Tx}

-- WHERE id = $1 AND ($2 IS NULL OR owner_user_id = $2).
abbrev pub owned_job : ℕ → Option ℕ → JobEntry → Bool
owned_job job_id owner j = j.id == job_id && matches_owner owner j.owner_user_id

-- The row that `get_with_owner` reads.
unfoldable pub get_job : Db → ℕ → Option ℕ → Option JobEntry
get_job db job_id owner = find_row (owned_job job_id owner) db.jobs

-- The states that a request for cancellation may meet.
abbrev pub is_cancellable : JobStatus → Bool
is_cancellable JobStatus.succeeded = false
is_cancellable JobStatus.failed = false
is_cancellable _ = true

abbrev pub state_after_request : JobStatus → JobStatus
state_after_request JobStatus.queued = JobStatus.cancelled
state_after_request JobStatus.retry_waiting = JobStatus.cancelled
state_after_request JobStatus.running = JobStatus.cancel_requested
state_after_request s = s

-- SET of `request_cancel_with_owner`.
abbrev pub request_cancel_row : Time → JobEntry → JobEntry
request_cancel_row now j = record j {
  state = state_after_request j.state;
  cancel_requested_at = some (coalesce j.cancel_requested_at now);
  finished_at = if is_claimable j.state then some now else j.finished_at;
  failure_message = if is_claimable j.state then none else j.failure_message;
}

unfoldable pub request_cancel :
    Db → (job_id : ℕ) (owner : Option ℕ) (now : Time) → Tx (Option JobEntry)
unfolding get_job
request_cancel db job_id owner now =
    let selected = λ (j : JobEntry). owned_job job_id owner j && is_cancellable j.state in
    let db' = record db { jobs = update_rows selected (request_cancel_row now) db.jobs } in
    if count_rows selected db.jobs == 0
    then (if is_some (get_job db job_id owner)
        then err (state_conflict "cancel terminal job")
        else ok (none, db))
    else ok (get_job db' job_id owner, db')

abbrev pub is_retryable : JobStatus → Bool
is_retryable JobStatus.failed = true
is_retryable JobStatus.cancelled = true
is_retryable _ = false

-- The row that `manual_retry_with_owner` inserts; a column that it leaves out has its default.
abbrev pub retried_job : ℕ → Time → JobEntry → JobEntry
retried_job new_id now source = record {
  id = new_id;
  name = source.name;
  job_type = source.job_type;
  state = JobStatus.queued;
  available_at = now;
  progress_completed = 0;
  progress_total = source.progress_total;
  delay_ms = source.delay_ms;
  max_width = source.max_width;
  jpeg_quality = source.jpeg_quality;
  result_message = none;
  result_duration_ms = none;
  failure_message = none;
  max_attempts = source.max_attempts;
  retry_of_job_id = some source.id;
  cancel_requested_at = none;
  priority = source.priority;
  schedule_id = none;
  scheduled_for = none;
  created_at = now;
  started_at = none;
  finished_at = none;
  owner_user_id = source.owner_user_id;
  idempotency_key = none;
  request_fingerprint = none;
}

-- INSERT ... SELECT of the source's inputs, each with the next identifier. The statement leaves the
-- checksum out.
unfoldable pub copy_inputs :
    (new_job next : ℕ) (now : Time) → List ArtifactEntry → List ArtifactEntry
copy_inputs new_job next now [] = []
copy_inputs new_job next now (a ∷ more) =
    record a {
      id = next;
      job_id = new_job;
      attempt_id = none;
      source_artifact_id = none;
      checksum_sha256 = none;
      created_at = now;
    }
    ∷ copy_inputs new_job (next + 1) now more

unfoldable pub manual_retry :
    Db → (job_id : ℕ) (owner : Option ℕ) (now : Time) → Tx (Option JobEntry)
unfolding get_job
manual_retry db job_id owner now = elim (get_job db job_id owner) [
  | none ↦ ok (none, db)
  | some source ↦ do
    guard (is_retryable source.state) (state_conflict "manually retry job")
    guard (leb db.next_job_id i64_max) database
    let inputs = select_rows (λ a. a.job_id == job_id && is_input a.kind) db.artifacts
    let db' = record db {
      jobs = insert_row (retried_job db.next_job_id now source) db.jobs;
      next_job_id = db.next_job_id + 1;
      artifacts = db.artifacts ++ copy_inputs db.next_job_id db.next_artifact_id now inputs;
      next_artifact_id = db.next_artifact_id + length inputs;
    }
    ok (get_job db' db.next_job_id owner, db')
]
