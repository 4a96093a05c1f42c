-- ===== src/Examples/Scheduling.antt =====
-- The theorems on schedules: one is created, edited and ticks.
use task_harbor.Base.{
  ◌≡◌, ◌≤◌, ◌++◌, length, refl, true, ◌&&◌, some, [], ◌∷◌, All, arith, leb, ok, err, Result, Option,
}
use task_harbor.Clock.{checked_add}
use task_harbor.Core.{normal}
use task_harbor.Sql.{
  count_rows, update_rows, insert_row, select_rows, find_row, first_row, order_rows,
}
use task_harbor.Queue.Claim.{is_image_type}
use task_harbor.Queue.Create.{NewInputArtifact, artifact_check}
use task_harbor.Schedule.{validate_schedule_fields, latest_due_slot, next_slot_after}
use task_harbor.Schedule.Store.{
  Store, ScheduleEntry, NewSchedule, UpdateSchedule, create_schedule, update_schedule, new_schedule,
  owned_schedule, update_schedule_row, created, schedule_inputs,
}
use task_harbor.Schedule.Materialize.{
  ScheduleTick, materialize_next_schedule, materialize_schedule, record_occurrence,
  create_occurrence, copy_schedule_inputs, is_due, due_before,
}
use task_harbor.Schedule.Overlap.{Ticked, materialize_next_schedule-ticks}
use task_harbor.Schedule.Cursor.{
  ValidSchedule, AsRequested, InputsAdded, create_schedule-ValidSchedule, update_schedule-not_due,
}
use task_harbor.System.{initial}
use task_harbor.Examples.Run.{at, no_lock, job_name}

abbrev pub picture : NewInputArtifact
picture = record {
  storage_key = 0x73 ∷ [];
  display_name = 0x64 ∷ [];
  media_type = "image/png";
  byte_size = 10;
  width = 4;
  height = 3;
  checksum_sha256 =
      0 ∷ 0 ∷ 0 ∷ 0 ∷ 0 ∷ 0 ∷ 0 ∷ 0 ∷ 0 ∷ 0 ∷ 0 ∷ 0 ∷ 0 ∷ 0 ∷ 0 ∷ 0 ∷ 0 ∷ 0 ∷ 0 ∷ 0 ∷ 0 ∷ 0 ∷ 0 ∷ 0
      ∷ 0 ∷ 0 ∷ 0 ∷ 0 ∷ 0 ∷ 0 ∷ 0 ∷ 0 ∷ [];
}

abbrev no_schedules : Store
no_schedules = record {
  queue = initial.db;
  schedules = [];
  inputs = [];
  occurrences = [];
  next_schedule_id = 1;
}

abbrev hourly : NewSchedule
hourly = record {
  owner_user_id = 1;
  name = job_name;
  interval_seconds = 3600;
  anchor_at = at 100;
  priority = normal;
  max_width = 800;
  jpeg_quality = 80;
  inputs = picture ∷ [];
}

abbrev entry : ScheduleEntry
entry = new_schedule 1 hourly (at 50)

abbrev pub one_schedule : Store
one_schedule = record no_schedules {
  schedules = entry ∷ [];
  inputs = record { schedule_id = 1; item_index = 0; artifact = picture } ∷ [];
  next_schedule_id = 2;
}

create_schedule-ValidSchedule_example :
    All ValidSchedule one_schedule.schedules
    × ValidSchedule entry
    × AsRequested entry hourly
    × (one_schedule.schedules ≡ no_schedules.schedules ++ entry ∷ [])
    × InputsAdded no_schedules entry hourly one_schedule
    × ((1 ≤ length hourly.inputs) × (length hourly.inputs ≤ 10))
    × (one_schedule.queue ≡ no_schedules.queue)
    × (one_schedule.occurrences ≡ no_schedules.occurrences)
unfolding create_schedule validate_schedule_fields insert_row is_image_type schedule_inputs
create_schedule-ValidSchedule_example =
    create_schedule-ValidSchedule no_schedules one_schedule hourly (at 50) entry tt refl

valid_entry : ValidSchedule entry
valid_entry = record {
  interval = (omega arith, omega arith);
  width = (omega arith, omega arith);
  quality = (omega arith, omega arith);
}

abbrev edit : UpdateSchedule
edit = record {
  name = job_name;
  enabled = true;
  interval_seconds = 60;
  anchor_at = at 100;
  priority = normal;
  max_width = 800;
  jpeg_quality = 80;
}

abbrev edited : Store
edited = record one_schedule { schedules = update_schedule_row edit (at 280) (at 251) entry ∷ [] }

update_schedule-not_due_example :
    All ValidSchedule edited.schedules
    × (count_rows (λ e. owned_schedule 1 (some 1) e && leb e.next_run_at (at 250)) edited.schedules
        ≡ 0)
unfolding update_schedule validate_schedule_fields next_slot_after checked_add update_rows
    count_rows find_row
update_schedule-not_due_example =
    update_schedule-not_due one_schedule edited 1 edit (at 250) (some 1) (at 251)
      (update_schedule_row edit (at 280) (at 251) entry) (valid_entry, tt) refl

abbrev tick : ScheduleTick
tick = record {
  schedule_id = 1;
  scheduled_for = at 3700;
  outcome = created;
  job_id = some 1;
  coalesced_slots = 1;
}

abbrev store_of : Result (Option ScheduleTick × Store) → Store
store_of (ok (r, s)) = s
store_of (err e) = no_schedules

materialize_next_schedule-ticks_example :
    Ticked one_schedule
      (at 4000)
      tick
      (store_of (materialize_next_schedule one_schedule no_lock (at 4000) (at 4001)))
unfolding materialize_next_schedule materialize_schedule record_occurrence create_occurrence
    copy_schedule_inputs is_due due_before latest_due_slot checked_add first_row count_rows
    select_rows order_rows insert_row update_rows artifact_check is_image_type
materialize_next_schedule-ticks_example =
    materialize_next_schedule-ticks one_schedule
      (store_of (materialize_next_schedule one_schedule no_lock (at 4000) (at 4001))) no_lock
      (at 4000) (at 4001) tick (omega arith, tt) refl
