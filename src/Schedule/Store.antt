-- ===== src/Schedule/Store.antt =====
-- Schedules and their occurrences: `create_schedule`, `update_schedule` and
-- `materialize_next_schedule_at` (crates/adapters/src/schedule_repository.rs), over the tables of the
-- queue and those of the schedules.
use task_harbor.Base.{
  ℕ, ◌+◌, Bool, true, ◌&&◌, Option, none, List, [], ◌∷◌, ◌++◌, Result, ok, database, invalid_data,
  String, guard, ◌>>=◌, ◌>>◌, leb, ◌==◌, if◌then◌else◌, matches_owner, length,
}
use task_harbor.Clock.{Time}
use task_harbor.Core.{Text, JobName, JobPriority, i32_max, i64_max}
use task_harbor.Schedule.{validate_schedule_fields, next_slot_after}
use task_harbor.Sql.{count_rows, update_rows, find_row, insert_row}
use task_harbor.Tables.{Db}
use task_harbor.Queue.Claim.{is_image_type}
use task_harbor.Queue.Create.{NewInputArtifact}

pub record ScheduleEntry : Type 0 where
  pub id : ℕ
  pub name : Text
  pub enabled : Bool
  pub interval_seconds : ℕ
  pub anchor_at : Time
  pub next_run_at : Time
  pub priority : JobPriority
  pub max_width : ℕ
  pub jpeg_quality : ℕ
  pub owner_user_id : ℕ
  pub created_at : Time
  pub updated_at : Time

pub record ScheduleInput : Type 0 where
  pub schedule_id : ℕ
  pub item_index : ℕ
  pub artifact : NewInputArtifact

pub data Outcome : Type 0 where
  created skipped_overlap : Outcome

pub record Occurrence : Type 0 where
  pub schedule_id : ℕ
  pub scheduled_for : Time
  pub outcome : Outcome
  pub job_id : Option ℕ
  pub reason : Option String
  pub coalesced_slots : ℕ
  pub created_at : Time

pub record Store : Type 0 where
  pub queue : Db
  pub schedules : List ScheduleEntry
  pub inputs : List ScheduleInput
  pub occurrences : List Occurrence
  pub next_schedule_id : ℕ

pub record NewSchedule : Type 0 where
  pub owner_user_id : ℕ
  pub name : JobName
  pub interval_seconds : ℕ
  pub anchor_at : Time
  pub priority : JobPriority
  pub max_width : ℕ
  pub jpeg_quality : ℕ
  pub inputs : List NewInputArtifact

pub record UpdateSchedule : Type 0 where
  pub name : JobName
  pub enabled : Bool
  pub interval_seconds : ℕ
  pub anchor_at : Time
  pub priority : JobPriority
  pub max_width : ℕ
  pub jpeg_quality : ℕ

-- The CHECK constraints of a row of `schedule_inputs`, and the width of its columns.
schedule_input_check : NewInputArtifact → Bool
schedule_input_check a =
    is_image_type a.media_type
    && (leb 1 a.byte_size
        && (leb 1 a.width
            && (leb 1 a.height
                && (leb (length a.display_name) 255 && length a.checksum_sha256 == 32))))

-- The loop over the inputs with `insert_schedule_input`.
unfoldable pub schedule_inputs :
    (schedule_id item_index : ℕ) → List NewInputArtifact → Result (List ScheduleInput)
unfolding schedule_input_check
schedule_inputs schedule_id item_index [] = ok []
schedule_inputs schedule_id item_index (a ∷ more) = do
  guard (leb item_index 32767) (invalid_data "schedule item index exceeds SMALLINT")
  guard (leb a.byte_size i64_max) (invalid_data "schedule input byte size exceeds BIGINT")
  guard (leb a.width i32_max) (invalid_data "schedule input width exceeds INTEGER")
  guard (leb a.height i32_max) (invalid_data "schedule input height exceeds INTEGER")
  guard (schedule_input_check a) database
  rest ← schedule_inputs schedule_id (item_index + 1) more
  ok (record { schedule_id = schedule_id; item_index = item_index; artifact = a } ∷ rest)

-- The row that `create_schedule` inserts: the cursor starts at the anchor.
abbrev pub new_schedule : ℕ → NewSchedule → Time → ScheduleEntry
new_schedule new_id r now = record {
  id = new_id;
  name = r.name.as_str;
  enabled = true;
  interval_seconds = r.interval_seconds;
  anchor_at = r.anchor_at;
  next_run_at = r.anchor_at;
  priority = r.priority;
  max_width = r.max_width;
  jpeg_quality = r.jpeg_quality;
  owner_user_id = r.owner_user_id;
  created_at = now;
  updated_at = now;
}

unfoldable pub create_schedule : Store → NewSchedule → (now : Time) → Result (ScheduleEntry × Store)
unfolding schedule_inputs
create_schedule s r now = do
  validate_schedule_fields r.interval_seconds r.max_width r.jpeg_quality (length r.inputs)
  guard (leb s.next_schedule_id i64_max) database
  rows ← schedule_inputs s.next_schedule_id 0 r.inputs
  let row = new_schedule s.next_schedule_id r now
  ok (
    row,
    record s {
      schedules = insert_row row s.schedules;
      inputs = s.inputs ++ rows;
      next_schedule_id = s.next_schedule_id + 1;
    },
  )

-- WHERE id = $1 AND ($n IS NULL OR owner_user_id = $n).
abbrev pub owned_schedule : ℕ → Option ℕ → ScheduleEntry → Bool
owned_schedule schedule_id owner e = e.id == schedule_id && matches_owner owner e.owner_user_id

-- SET of `update_schedule_at_with_owner`.
abbrev pub update_schedule_row :
    UpdateSchedule → (next_run_at now : Time) → ScheduleEntry → ScheduleEntry
update_schedule_row r next_run_at now e = record e {
  name = r.name.as_str;
  enabled = r.enabled;
  interval_seconds = r.interval_seconds;
  anchor_at = r.anchor_at;
  next_run_at = next_run_at;
  priority = r.priority;
  max_width = r.max_width;
  jpeg_quality = r.jpeg_quality;
  updated_at = now;
}

unfoldable pub update_schedule :
    Store
    → (schedule_id : ℕ) (request : UpdateSchedule) (as_of : Time) (owner : Option ℕ) (now : Time)
    → Result (Option ScheduleEntry × Store)
update_schedule s schedule_id r as_of owner now = do
  validate_schedule_fields r.interval_seconds r.max_width r.jpeg_quality 1
  next_run_at ← next_slot_after r.anchor_at r.interval_seconds as_of
  let selected = owned_schedule schedule_id owner
  let schedules' = update_rows selected (update_schedule_row r next_run_at now) s.schedules
  if count_rows selected s.schedules == 0
      then ok (none, s)
      else ok (find_row selected schedules', record s { schedules = schedules' })
