-- ===== src/Schedule.antt =====
-- The recurrence arithmetic of schedules and the validation of their settings
-- (crates/adapters/src/schedule_repository.rs).
pub mod Recurrence
pub mod Store
pub mod Materialize
pub mod Overlap
pub mod Cursor
use task_harbor.Base.{
  ℕ, ◌+◌, ◌-◌, ◌*◌, ◌/◌, Bool, ◌&&◌, ◌||◌, not, Option, none, some, Result, ok, err, invalid_data,
  guard, ok_or, ◌>>=◌, ◌>>◌, ltb, leb, ◌==◌, if◌then◌else◌,
}
use task_harbor.Clock.{Time, second, checked_add, whole_seconds}
use task_harbor.Core.{i64_max}

abbrev pub min_schedule_interval_seconds : ℕ
min_schedule_interval_seconds = 60

abbrev pub max_schedule_interval_seconds : ℕ
max_schedule_interval_seconds = 31536000

-- MAX_OUTPUT_WIDTH and MAX_FILES_PER_JOB of image_processing.rs.
abbrev pub max_output_width : ℕ
max_output_width = 8192

abbrev pub max_files_per_job : ℕ
max_files_per_job = 10

unfoldable pub validate_schedule_fields :
    (interval_seconds max_width jpeg_quality input_count : ℕ) → Result (Unit {0})
validate_schedule_fields interval_seconds max_width jpeg_quality input_count = do
  guard
      (leb min_schedule_interval_seconds interval_seconds
        && leb interval_seconds max_schedule_interval_seconds)
      (invalid_data "schedule interval must be between 60 and 31536000 seconds")
  guard
      (not (
        max_width == 0
        || (ltb max_output_width max_width || not (leb 1 jpeg_quality && leb jpeg_quality 100))))
      (invalid_data "schedule image settings are outside the supported range")
  guard (not (input_count == 0 || ltb max_files_per_job input_count))
      (invalid_data "schedule must contain between 1 and 10 inputs")

-- `checked_mul` of u64 and the conversion to i64.
abbrev checked_offset : ℕ → ℕ → Option ℕ
checked_offset k interval_seconds =
    if leb (k * interval_seconds) i64_max then some (k * interval_seconds) else none

-- The latest slot that is due, the slot after it, and how many older ones are coalesced into it.
-- The interval is not 0: `validate_schedule_fields` and the table's CHECK see to that.
unfoldable pub latest_due_slot :
    (next_run_at : Time) (interval_seconds : ℕ) (as_of : Time) → Result (Time × Time × ℕ)
latest_due_slot next_run_at interval_seconds as_of = do
  guard (leb next_run_at as_of) (invalid_data "schedule is not due at the supplied clock time")
  let coalesced_slots = whole_seconds as_of next_run_at / interval_seconds
  offset_seconds ←
      ok_or (checked_offset coalesced_slots interval_seconds)
        (invalid_data "schedule offset is too large")
  scheduled_for ←
      ok_or (checked_add next_run_at (offset_seconds * second))
        (invalid_data "scheduled time overflowed")
  next ←
      ok_or (checked_add scheduled_for (interval_seconds * second))
        (invalid_data "next schedule time overflowed")
  ok (scheduled_for, next, coalesced_slots)

-- The first slot of a schedule that is after `as_of`, when its settings change. `checked_div` fails
-- for an interval of 0; the other operations on `i128` cannot overflow.
unfoldable pub next_slot_after :
    (anchor_at : Time) (interval_seconds : ℕ) (as_of : Time) → Result Time
next_slot_after anchor_at interval_seconds as_of = if ltb as_of anchor_at then ok anchor_at else do
  let elapsed_nanos = as_of - anchor_at
  let interval_nanos = interval_seconds * second
  guard (not (interval_nanos == 0)) (invalid_data "schedule interval overflowed")
  let steps = elapsed_nanos / interval_nanos + 1
  seconds ←
      ok_or (checked_offset steps interval_seconds) (invalid_data "schedule cursor is too large")
  ok_or (checked_add anchor_at (seconds * second)) (invalid_data "schedule cursor overflowed")
