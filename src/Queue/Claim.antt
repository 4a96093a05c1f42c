-- ===== src/Queue/Claim.antt =====
-- `claim_next_with_time` (crates/adapters/src/postgres.rs): which job a worker gets, and what the
-- claim writes. `locked` says which job rows a concurrent transaction holds: SKIP LOCKED.
use task_harbor.Base.{
  ℕ, ◌+◌, Bool, ◌&&◌, ◌||◌, not, Option, none, some, List, [], ◌∷◌, Result, ok, database,
  invalid_data, state_conflict, String, guard, ok_or, ensure_one_row, ◌>>=◌, ◌>>◌, ltb, leb, ◌==◌,
  if◌then◌else◌, is_none, is_just, coalesce, length, max,
}
use task_harbor.Clock.{Time, whole_milliseconds, plus_seconds}
use task_harbor.Core.{i64_max, JobStatus, demo_delay, image_resize}
use task_harbor.Sql.{
  count_rows, update_rows, select_rows, find_row, first_row, insert_row, order_rows,
}
use task_harbor.Tables.{
  Db, JobEntry, AttemptEntry, WorkerEntry, ArtifactEntry, is_claimable, is_input, priority_rank,
  AttemptStatus,
}
use task_harbor.Queue.{Tx, ClaimedJob, ClaimedWork, demo_work, image_work}
use text.Mathlib.Text.{◌==◌ as str_eq}

-- MAX(attempt_number), 0 where there is none.
unfoldable pub last_number : ℕ → List AttemptEntry → ℕ
last_number j [] = 0
last_number j (a ∷ rest) = max (if a.job_id == j then a.attempt_number else 0) (last_number j rest)

-- `decode_job_id`: the identifiers that `JobId::new` accepts.
abbrev pub valid_id : ℕ → Bool
valid_id n = leb 1 n && leb n i64_max

-- ORDER BY priority, available_at, id.
unfoldable pub claimed_before : JobEntry → JobEntry → Bool
claimed_before a b =
    ltb (priority_rank a.priority) (priority_rank b.priority)
    || (priority_rank a.priority == priority_rank b.priority
        && (ltb a.available_at b.available_at
            || (a.available_at == b.available_at && ltb a.id b.id)))

-- state IN ('queued', 'retry_waiting') AND available_at <= $1, of the rows not locked.
unfoldable pub is_candidate : (ℕ → Bool) → Time → JobEntry → Bool
is_candidate locked claim_time j =
    is_claimable j.state && (leb j.available_at claim_time && not (locked j.id))

-- A worker that is neither stopped nor silent.
unfoldable pub is_live : ℕ → Time → WorkerEntry → Bool
is_live worker_id t w = w.id == worker_id && (is_none w.stopped_at && ltb t w.heartbeat_expires_at)

unfoldable pub is_image_type : String → Bool
is_image_type m = str_eq m "image/jpeg" || str_eq m "image/png"

-- `ArtifactRow` to `ArtifactRecord`, for each row: the media type has to be known.
decode_artifacts : List ArtifactEntry → Result (List ArtifactEntry)
unfolding is_image_type
decode_artifacts [] = ok []
decode_artifacts (a ∷ more) = do
  guard (is_image_type a.media_type) (invalid_data "artifact media type is not recognized")
  rest ← decode_artifacts more
  ok (a ∷ rest)

-- `load_input_artifacts`.
load_input_artifacts : List ArtifactEntry → ℕ → Result (List ArtifactEntry)
unfolding decode_artifacts
load_input_artifacts artifacts job_id = decode_artifacts (
    order_rows (λ a b. ltb a.item_index b.item_index)
      (select_rows (λ a. a.job_id == job_id && is_input a.kind) artifacts))

image_job_work : JobEntry → List ArtifactEntry → Result ClaimedWork
unfolding load_input_artifacts
image_job_work j artifacts = do
  max_width ← ok_or j.max_width (invalid_data "image job has no max width")
  jpeg_quality ← ok_or j.jpeg_quality (invalid_data "image job has no JPEG quality")
  inputs ← load_input_artifacts artifacts j.id
  guard (length inputs == j.progress_total)
      (invalid_data "image input count does not match progress total")
  guard (leb jpeg_quality 255) (invalid_data "invalid JPEG quality")
  ok (image_work max_width jpeg_quality inputs)

unfoldable pub claimed_work : JobEntry → List ArtifactEntry → Result ClaimedWork
unfolding image_job_work
claimed_work j artifacts = elim j.job_type [
  | demo_delay ↦ ok (demo_work j.delay_ms)
  | image_resize ↦ image_job_work j artifacts
]

-- UPDATE jobs SET state = 'running', ...
abbrev pub start_job : Time → JobEntry → JobEntry
start_job claim_time j = record j {
  state = JobStatus.running;
  started_at = some (coalesce j.started_at claim_time);
  progress_completed = 0;
  result_message = none;
  result_duration_ms = none;
  failure_message = none;
  finished_at = none;
}

-- INSERT INTO job_attempts ...
abbrev pub new_attempt :
    (id job_id number progress_total : ℕ) (claim_time : Time) (worker : WorkerEntry)
    (token wait : ℕ)
    → AttemptEntry
new_attempt i job_id number progress_total claim_time worker token wait = record {
  id = i;
  job_id = job_id;
  attempt_number = number;
  state = AttemptStatus.running;
  progress_completed = 0;
  progress_total = progress_total;
  started_at = claim_time;
  finished_at = none;
  duration_ms = none;
  error_kind = none;
  error_message = none;
  worker_id = some worker.id;
  claim_token = some token;
  lease_expires_at = some (plus_seconds claim_time worker.lease_duration_seconds);
  queue_wait_ms = wait;
  encoding_duration_ms = 0;
}

-- The part of the transaction behind the choice of the candidate `j`.
unfoldable pub claim_job :
    Db → JobEntry → (worker_id : ℕ) (claim_time : Time) (claim_token : ℕ) → Tx (Option ClaimedJob)
claim_job db j worker_id claim_time claim_token = do
  guard (valid_id j.id) (invalid_data "job ID must be a positive signed 64-bit integer")
  let attempt_number = last_number j.id db.attempts + 1
  guard (leb attempt_number j.max_attempts) (invalid_data "job has no remaining attempts")
  let queue_wait_ms = whole_milliseconds claim_time j.available_at
  guard (leb queue_wait_ms i64_max) (invalid_data "queue wait exceeds BIGINT")
  let selected = λ (x : JobEntry). x.id == j.id && is_claimable x.state
  ensure_one_row (count_rows selected db.jobs) "claim job"
  worker ←
      ok_or (find_row (is_live worker_id claim_time) db.workers)
        (state_conflict "claim job for inactive worker")
  -- job_attempts_claim_token_unique, and the range of the identity column
  guard (count_rows (λ a. is_just a.claim_token claim_token) db.attempts == 0) database
  guard (leb db.next_attempt_id i64_max) database
  work ← claimed_work j db.artifacts
  let attempt =
      new_attempt db.next_attempt_id j.id attempt_number j.progress_total claim_time worker
        claim_token queue_wait_ms
  ok (
    some (record {
      job_id = j.id;
      attempt_id = db.next_attempt_id;
      attempt_number = attempt_number;
      max_attempts = j.max_attempts;
      worker_id = worker_id;
      claim_token = claim_token;
      lease_expires_at = plus_seconds claim_time worker.lease_duration_seconds;
      queue_wait = queue_wait_ms;
      work = work;
    }),
    record db {
      jobs = update_rows selected (start_job claim_time) db.jobs;
      attempts = insert_row attempt db.attempts;
      next_attempt_id = db.next_attempt_id + 1;
    },
  )

unfoldable pub claim_next :
    Db
    → (locked : ℕ → Bool) (worker_id : ℕ) (claim_time : Time) (claim_token : ℕ)
    → Tx (Option ClaimedJob)
claim_next db locked worker_id claim_time claim_token =
    elim (first_row (is_candidate locked claim_time) claimed_before db.jobs) [
      | none ↦ ok (none, db)
      | some j ↦ claim_job db j worker_id claim_time claim_token
    ]
