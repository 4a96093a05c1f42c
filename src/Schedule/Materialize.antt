-- ===== src/Schedule/Materialize.antt =====
-- `materialize_next_schedule_at` (crates/adapters/src/schedule_repository.rs): the schedule that is due
-- first makes the job of its latest slot, or skips it while an earlier job of it is not over.
use task_harbor.Base.{
  ℕ, ◌+◌, Bool, ◌&&◌, ◌||◌, not, Option, none, some, List, [], ◌∷◌, ◌++◌, Result, ok, database,
  invalid_data, state_conflict, String, guard, ensure_one_row, ◌>>=◌, ◌>>◌, ltb, leb, ◌==◌,
  if◌then◌else◌, is_just, length,
}
use task_harbor.Clock.{Time}
use task_harbor.Core.{i64_max, image_resize}
use task_harbor.Schedule.{latest_due_slot, max_files_per_job}
use task_harbor.Schedule.Store.{
  Store, ScheduleEntry, ScheduleInput, Occurrence, Outcome, created, skipped_overlap,
}
use task_harbor.Sql.{count_rows, update_rows, select_rows, first_row, insert_row, order_rows}
use task_harbor.Tables.{Db, JobEntry, ArtifactEntry, input, is_claimable, is_active}
use task_harbor.Queue.Create.{fresh_job, artifact_check}

pub record ScheduleTick : Type 0 where
  pub schedule_id : ℕ
  pub scheduled_for : Time
  pub outcome : Outcome
  pub job_id : Option ℕ
  pub coalesced_slots : ℕ

-- WHERE enabled AND next_run_at <= $1, of the rows not locked.
unfoldable pub is_due : (ℕ → Bool) → Time → ScheduleEntry → Bool
is_due locked as_of e = e.enabled && (leb e.next_run_at as_of && not (locked e.id))

-- ORDER BY next_run_at, id.
unfoldable pub due_before : ScheduleEntry → ScheduleEntry → Bool
due_before a b =
    ltb a.next_run_at b.next_run_at || (a.next_run_at == b.next_run_at && ltb a.id b.id)

-- A job of the schedule that is not over.
abbrev pub occupies : ℕ → JobEntry → Bool
occupies schedule_id j =
    is_just j.schedule_id schedule_id && (is_claimable j.state || is_active j.state)

-- The job of an occurrence.
abbrev pub scheduled_job :
    ℕ → ScheduleEntry → (scheduled_for : Time) (input_count : ℕ) (now : Time) → JobEntry
scheduled_job new_id e scheduled_for input_count now =
    let base = fresh_job new_id e.name now in
    record base {
      job_type = image_resize;
      available_at = scheduled_for;
      progress_total = input_count;
      max_width = some e.max_width;
      jpeg_quality = some e.jpeg_quality;
      priority = e.priority;
      schedule_id = some e.id;
      scheduled_for = some scheduled_for;
      owner_user_id = e.owner_user_id;
    }

-- INSERT INTO artifacts ... SELECT ... FROM schedule_inputs, with the constraints of `artifacts`.
unfoldable pub copy_schedule_inputs :
    (job_id next : ℕ) (now : Time) → List ScheduleInput → Result (List ArtifactEntry)
copy_schedule_inputs job_id next now [] = ok []
copy_schedule_inputs job_id next now (i ∷ more) = do
  guard (artifact_check i.item_index i.artifact) database
  rest ← copy_schedule_inputs job_id (next + 1) now more
  ok (
      record {
        id = next;
        job_id = job_id;
        attempt_id = none;
        source_artifact_id = none;
        kind = input;
        item_index = i.item_index;
        storage_key = i.artifact.storage_key;
        display_name = i.artifact.display_name;
        media_type = i.artifact.media_type;
        byte_size = i.artifact.byte_size;
        width = i.artifact.width;
        height = i.artifact.height;
        checksum_sha256 = some i.artifact.checksum_sha256;
        created_at = now;
      }
      ∷ rest)

-- The rows of `schedule_inputs` of a schedule.
abbrev pub of_schedule : ℕ → ScheduleInput → Bool
of_schedule schedule_id i = i.schedule_id == schedule_id

-- The branch without overlap: the job and its inputs.
unfoldable pub create_occurrence :
    Store → ScheduleEntry → (scheduled_for : Time) (input_count : ℕ) (now : Time) → Result (ℕ × Db)
unfolding copy_schedule_inputs
create_occurrence s e scheduled_for input_count now = do
  guard (leb s.queue.next_job_id i64_max) database
  let rows =
      order_rows (λ (a b : ScheduleInput). ltb a.item_index b.item_index)
        (select_rows (of_schedule e.id) s.inputs)
  copies ← copy_schedule_inputs s.queue.next_job_id s.queue.next_artifact_id now rows
  guard (length copies == input_count) (state_conflict "copy schedule inputs into occurrence")
  let queue = s.queue
  ok (
    queue.next_job_id,
    record queue {
      jobs =
          insert_row (scheduled_job queue.next_job_id e scheduled_for input_count now) queue.jobs;
      next_job_id = queue.next_job_id + 1;
      artifacts = queue.artifacts ++ copies;
      next_artifact_id = queue.next_artifact_id + length copies;
    },
  )

abbrev pub overlap_reason : String
overlap_reason = "previous occurrence is still active"

-- schedule_occurrences_slot_unique.
abbrev pub same_slot : ℕ → Time → Occurrence → Bool
same_slot schedule_id scheduled_for o =
    o.schedule_id == schedule_id && o.scheduled_for == scheduled_for

-- The rest of the transaction: the occurrence is recorded and the cursor is advanced.
unfoldable pub record_occurrence :
    Store
    → Db
    → (schedule_id : ℕ) (scheduled_for next_run_at : Time) (coalesced_slots : ℕ) → Outcome
    → (job_id : Option ℕ) (reason : Option String) (now : Time)
    → Result (Option ScheduleTick × Store)
record_occurrence s queue' schedule_id scheduled_for next_run_at coalesced_slots outcome job_id
      reason now =
    do
      guard (leb coalesced_slots i64_max) (invalid_data "coalesced slots exceeds BIGINT")
      guard (count_rows (same_slot schedule_id scheduled_for) s.occurrences == 0) database
      let selected = λ (e : ScheduleEntry). e.id == schedule_id
      ensure_one_row (count_rows selected s.schedules) "advance schedule cursor"
      ok (
        some (record {
          schedule_id = schedule_id;
          scheduled_for = scheduled_for;
          outcome = outcome;
          job_id = job_id;
          coalesced_slots = coalesced_slots;
        }),
        record s {
          queue = queue';
          occurrences =
              insert_row
                (record {
                  schedule_id = schedule_id;
                  scheduled_for = scheduled_for;
                  outcome = outcome;
                  job_id = job_id;
                  reason = reason;
                  coalesced_slots = coalesced_slots;
                  created_at = now;
                })
                s.occurrences;
          schedules =
              update_rows selected (λ e. record e { next_run_at = next_run_at; updated_at = now })
                s.schedules;
        },
      )

-- The part of the transaction behind the choice of the schedule.
unfoldable pub materialize_schedule :
    Store → ScheduleEntry → (as_of now : Time) → Result (Option ScheduleTick × Store)
materialize_schedule s e as_of now = do
  (scheduled_for, next_run_at, coalesced_slots) ←
      latest_due_slot e.next_run_at e.interval_seconds as_of
  let input_count = count_rows (of_schedule e.id) s.inputs
  guard (not (input_count == 0 || ltb max_files_per_job input_count))
      (invalid_data "schedule input count violates its invariant")
  let skip : Result (Option ScheduleTick × Store) =
      record_occurrence s s.queue e.id scheduled_for next_run_at coalesced_slots skipped_overlap
        none (some overlap_reason) now
  let make : Result (Option ScheduleTick × Store) = (do
    (job_id, queue') ← create_occurrence s e scheduled_for input_count now
    record_occurrence s queue' e.id scheduled_for next_run_at coalesced_slots created (some job_id)
        none now)
  if count_rows (occupies e.id) s.queue.jobs == 0 then make else skip

unfoldable pub materialize_next_schedule :
    Store → (locked : ℕ → Bool) (as_of now : Time) → Result (Option ScheduleTick × Store)
materialize_next_schedule s locked as_of now =
    elim (first_row (is_due locked as_of) due_before s.schedules) [
      | none ↦ ok (none, s)
      | some e ↦ materialize_schedule s e as_of now
    ]
