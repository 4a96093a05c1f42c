-- ===== src/Maintenance.antt =====
-- The queries of the maintenance (crates/adapters/src/maintenance_repository.rs) and its order of
-- work (`run_maintenance`, apps/worker/src/lib.rs). The column `outputs_expired_at`, which no
-- operation of the queue reads, is a function of the job's identifier.
pub mod Protection
use task_harbor.Base.{
  ℕ, ◌+◌, ◌-◌, ◌*◌, ◌/◌, Bool, true, false, ◌&&◌, ◌||◌, not, Option, none, some, List, [], ◌∷◌,
  ◌++◌, map, Result, ok, err, invalid_data, guard, ◌>>=◌, ◌>>◌, leb, ltb, ◌==◌, if◌then◌else◌,
  is_some, is_none, min,
}
use task_harbor.Clock.{Time, second, millisecond, plus_seconds}
use task_harbor.Core.{Text, Checked, accepted, rejected, i64_max, JobStatus}
use task_harbor.Sql.{count_rows, update_rows, select_rows}
use task_harbor.Tables.{
  Db, JobEntry, AttemptEntry, ArtifactEntry, is_claimable, is_active, in_progress, is_input,
}
use task_harbor.Schedule.Store.{Store, ScheduleInput}
use task_harbor.Storage.{StorageError, attempt_output_prefix}

-- WHERE owner_user_id = $1 AND state IN (...).
abbrev pub is_open_job : ℕ → JobEntry → Bool
is_open_job owner_user_id j =
    j.owner_user_id == owner_user_id && (is_claimable j.state || is_active j.state)

unfoldable pub active_job_count_for_owner : Db → (owner_user_id : ℕ) → ℕ
active_job_count_for_owner db owner_user_id = count_rows (is_open_job owner_user_id) db.jobs

pub record QueueMetrics : Type 0 where
  pub depth : ℕ
  pub oldest_wait_ms : ℕ

-- WHERE state IN ('queued', 'retry_waiting') AND available_at <= CURRENT_TIMESTAMP.
abbrev pub waits_at : Time → JobEntry → Bool
waits_at now j = is_claimable j.state && leb j.available_at now

-- MIN(available_at).
unfoldable pub earliest : List JobEntry → Option Time
earliest [] = none
earliest (j ∷ js) = elim (earliest js) [
  | none ↦ some j.available_at
  | some t ↦ some (min j.available_at t)
]

-- The cast to BIGINT rounds the milliseconds to the nearest.
abbrev pub wait_ms : Option Time → Time → ℕ
wait_ms none now = 0
wait_ms (some t) now = (now - t + millisecond / 2) / millisecond

unfoldable pub queue_metrics : Db → (now : Time) → QueueMetrics
unfolding earliest
queue_metrics db now = record {
  depth = count_rows (waits_at now) db.jobs;
  oldest_wait_ms = wait_ms (earliest (select_rows (waits_at now) db.jobs)) now;
}

-- The set of keys, as a list.
unfoldable pub storage_references : Store → List Text
storage_references s =
    map (λ (a : ArtifactEntry). a.storage_key) s.queue.artifacts
    ++ map (λ (i : ScheduleInput). i.artifact.storage_key) s.inputs

unfoldable pub active_attempt_output_prefixes : Db → List Text
active_attempt_output_prefixes db =
    map (λ (a : AttemptEntry). attempt_output_prefix a.job_id a.id)
      (select_rows (λ a. in_progress a.state) db.attempts)

pub record Retained : Type 0 where
  pub queue : Db
  pub outputs_expired_at : ℕ → Option Time

abbrev pub is_over : JobStatus → Bool
is_over JobStatus.succeeded = true
is_over JobStatus.failed = true
is_over JobStatus.cancelled = true
is_over _ = false

-- finished_at <= CURRENT_TIMESTAMP - ($1 * INTERVAL '1 second').
abbrev pub finished_before : Option Time → Time → (seconds : ℕ) → Bool
finished_before none now seconds = false
finished_before (some t) now seconds = leb (plus_seconds t seconds) now

-- The jobs whose outputs expire.
abbrev pub is_past_retention : Time → ℕ → JobEntry → Bool
is_past_retention now seconds j = is_over j.state && finished_before j.finished_at now seconds

-- The rows that the DELETE takes.
unfoldable pub is_expired_output : List JobEntry → Time → ℕ → ArtifactEntry → Bool
is_expired_output jobs now seconds a =
    not (is_input a.kind)
    && not (count_rows (λ j. j.id == a.job_id && is_past_retention now seconds j) jobs == 0)

-- The retention is in nanoseconds.
unfoldable pub expire_output_artifacts :
    Retained → (retention : ℕ) (now : Time) → Result (List Text × Retained)
unfolding is_expired_output
expire_output_artifacts m retention now = do
  let seconds = retention / second
  guard (leb seconds i64_max) (invalid_data "output retention exceeds BIGINT")
  let gone = is_expired_output m.queue.jobs now seconds
  ok (
    map (λ (a : ArtifactEntry). a.storage_key) (select_rows gone m.queue.artifacts),
    record {
      queue = record m.queue { artifacts = select_rows (λ a. not (gone a)) m.queue.artifacts };
      outputs_expired_at = λ id.
          (if count_rows (λ j. j.id == id && is_past_retention now seconds j) m.queue.jobs == 0
            then m.outputs_expired_at id
            else if is_none (m.outputs_expired_at id)
            then some now
            else m.outputs_expired_at id);
    },
  )
