-- ===== src/Queue/Workers.antt =====
-- Workers and their leases (crates/adapters/src/worker_repository.rs): registration, heartbeat,
-- stopping, the status of a worker and the renewal of a lease. A `Duration` is a number of
-- nanoseconds.
use task_harbor.Base.{
  ℕ, ◌*◌, ◌/◌, ◌%◌, ◌&&◌, ◌||◌, not, Option, none, some, Result, ok, err, database, invalid_data,
  state_conflict, claim_lost, guard, ok_or, ensure_one_row, ◌>>=◌, ◌>>◌, ltb, leb, ◌==◌, is_some,
  is_just, coalesce, length, if◌then◌else◌,
}
use task_harbor.Clock.{Time, second, plus_seconds}
use task_harbor.Core.{Text, trim, i32_max}
use task_harbor.Sql.{count_rows, update_rows, find_row, insert_row}
use task_harbor.Tables.{Db, WorkerEntry, is_active, in_progress}
use task_harbor.Queue.{Tx, ClaimedJob, owns}
use task_harbor.Queue.Claim.{is_live}

abbrev pub max_worker_concurrency : ℕ
max_worker_concurrency = 64

abbrev pub min_lease_duration : ℕ
min_lease_duration = 2 * second

abbrev pub max_lease_duration : ℕ
max_lease_duration = 3600 * second

pub record WorkerRegistration : Type 0 where
  pub id : ℕ
  pub name : Text
  pub concurrency_limit : ℕ
  pub lease_duration : ℕ
  pub heartbeat_ttl : ℕ

unfoldable pub validate_duration : ℕ → Result (Unit {0})
validate_duration value =
    guard
      (not (
        ltb value min_lease_duration
        || (ltb max_lease_duration value || not (value % second == 0))))
      (invalid_data "duration must be a whole number of seconds between 2 and 3600")

-- `WorkerRegistration::validate`.
unfoldable pub validate : WorkerRegistration → Result (Unit {0})
unfolding validate_duration
validate r = do
  guard (leb 1 (length (trim r.name)) && leb (length (trim r.name)) 100)
      (invalid_data "worker name must contain between 1 and 100 characters")
  guard (leb 1 r.concurrency_limit && leb r.concurrency_limit max_worker_concurrency)
      (invalid_data "worker concurrency must be between 1 and 64")
  validate_duration r.lease_duration
  validate_duration r.heartbeat_ttl

unfoldable pub duration_seconds : ℕ → Result ℕ
duration_seconds value =
    if leb (value / second) i32_max
    then ok (value / second)
    else err (invalid_data "duration exceeds INTEGER")

pub data WorkerStatus : Type 0 where
  online offline stopped : WorkerStatus

pub record WorkerRecord : Type 0 where
  pub worker : WorkerEntry
  pub status : WorkerStatus
  pub active_attempts : ℕ

-- The CASE of `get_worker`.
unfoldable pub worker_status : Time → WorkerEntry → WorkerStatus
worker_status now w =
    if is_some w.stopped_at
    then stopped
    else if ltb now w.heartbeat_expires_at
    then online
    else offline

unfoldable pub get_worker : Db → ℕ → Time → Result (Option WorkerRecord)
unfolding worker_status
get_worker db worker_id now = elim (find_row (λ w. w.id == worker_id) db.workers) [
  | none ↦ ok none
  | some w ↦
      let active = count_rows (λ a. is_just a.worker_id w.id && in_progress a.state) db.attempts in
      guard (leb active i32_max) (invalid_data "worker active attempt count exceeds INTEGER")
      >> ok (some (record { worker = w; status = worker_status now w; active_attempts = active }))
]

-- The row that `register_worker_at` inserts.
abbrev pub new_worker :
    WorkerRegistration → Time → (lease_seconds heartbeat_seconds : ℕ) → WorkerEntry
new_worker r as_of lease_seconds heartbeat_seconds = record {
  id = r.id;
  name = trim r.name;
  concurrency_limit = r.concurrency_limit;
  lease_duration_seconds = lease_seconds;
  started_at = as_of;
  last_heartbeat_at = as_of;
  heartbeat_expires_at = plus_seconds as_of heartbeat_seconds;
  stopped_at = none;
}

-- `now` is the clock of the SELECT that reads the new row back.
unfoldable pub register_worker_at : Db → WorkerRegistration → (as_of now : Time) → Tx WorkerRecord
unfolding validate duration_seconds
register_worker_at db r as_of now = do
  validate r
  lease_seconds ← duration_seconds r.lease_duration
  heartbeat_seconds ← duration_seconds r.heartbeat_ttl
  -- the primary key
  guard (count_rows (λ w. w.id == r.id) db.workers == 0) database
  let db' = record db {
    workers = insert_row (new_worker r as_of lease_seconds heartbeat_seconds) db.workers;
  }
  found ← get_worker db' r.id now
  worker ← ok_or found (state_conflict "read registered worker")
  ok (worker, db')

unfoldable pub heartbeat_worker_at : Db → (worker_id heartbeat_ttl : ℕ) (as_of : Time) → Tx Time
unfolding validate_duration duration_seconds
heartbeat_worker_at db worker_id heartbeat_ttl as_of = do
  validate_duration heartbeat_ttl
  heartbeat_seconds ← duration_seconds heartbeat_ttl
  let expires = plus_seconds as_of heartbeat_seconds
  let selected = λ (w : WorkerEntry). w.id == worker_id && not (is_some w.stopped_at)
  guard (not (count_rows selected db.workers == 0)) (state_conflict "heartbeat worker")
  ok (
    expires,
    record db {
      workers =
          update_rows selected
            (λ w. record w { last_heartbeat_at = as_of; heartbeat_expires_at = expires })
            db.workers;
    },
  )

unfoldable pub stop_worker : Db → (worker_id : ℕ) (now : Time) → Tx (Unit {0})
stop_worker db worker_id now = do
  let selected = λ (w : WorkerEntry). w.id == worker_id
  ensure_one_row (count_rows selected db.workers) "stop worker"
  ok (
    tt,
    record db {
      workers =
          update_rows selected (λ w. record w { stopped_at = some (coalesce w.stopped_at now) })
            db.workers;
    },
  )

-- `renew_lease_with_time`: the UPDATE joins the attempt with its live worker and its active job.
unfoldable pub renew_lease : Db → ClaimedJob → (as_of : Time) → Tx Time
renew_lease db claimed as_of = do
  worker ← ok_or (find_row (is_live claimed.worker_id as_of) db.workers) claim_lost
  guard (not (count_rows (λ j. j.id == claimed.job_id && is_active j.state) db.jobs == 0))
      claim_lost
  guard (not (count_rows (owns claimed as_of) db.attempts == 0)) claim_lost
  let expires = plus_seconds as_of worker.lease_duration_seconds
  ok (
    expires,
    record db {
      attempts =
          update_rows (owns claimed as_of) (λ a. record a { lease_expires_at = some expires })
            db.attempts;
    },
  )
