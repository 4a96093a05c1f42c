-- ===== src/Core.antt =====
-- The domain types and their validation (crates/core/src/job.rs and schedule.rs). A text that a
-- user supplies is the list of its characters' code points; a label of an enumeration is a String.
-- `FromStr` and constructors whose error carries nothing return an Option.
pub mod Ids
pub mod Labels
pub mod Names
use Prim.Native.String
use Prim.Native.Char.{code}
use text.Mathlib.Text.{◌==◌ as str_eq}
use task_harbor.Base.{
  ℕ, ◌+◌, ◌-◌, ◌^◌, Bool, true, false, ◌&&◌, ◌||◌, Option, none, some, List, [], ◌∷◌, reverse,
  String, ltb, leb, ◌==◌, if◌then◌else◌, length,
}

abbrev pub Text : Type 0
Text = List ℕ

-- The code points of a text of the source.
abbrev pub codes : String → Text
codes String.[] = []
codes (String.◌∷◌ c s) = code c ∷ codes s

-- `str::len`: the bytes of a text in UTF-8.
unfoldable pub byte_length : Text → ℕ
byte_length [] = 0
byte_length (c ∷ cs) =
    (if ltb c 0x80 then 1 else if ltb c 0x800 then 2 else if ltb c 0x10000 then 3 else 4)
    + byte_length cs

-- `usize` and `u64` bounds that the code names.
abbrev pub max_job_name_length : ℕ
max_job_name_length = 100

abbrev pub i64_max : ℕ
i64_max = 9223372036854775807

abbrev pub i32_max : ℕ
i32_max = 2147483647

pub record JobId : Type 0 where
  pub get : ℕ

pub record ScheduleId : Type 0 where
  pub get : ℕ

-- `JobId::new`.
unfoldable pub new_job_id : ℕ → Option JobId
new_job_id value = if value == 0 || ltb i64_max value then none else some (record { get = value })

-- `ScheduleId::new`.
unfoldable pub new_schedule_id : ℕ → Option ScheduleId
new_schedule_id value =
    if value == 0 || ltb i64_max value then none else some (record { get = value })

-- `char::is_whitespace`: the code points of White_Space.
unfoldable pub is_whitespace : ℕ → Bool
is_whitespace c =
    leb 9 c && leb c 13
    || (c == 0x20
        || (c == 0x85
            || (c == 0xa0
                || (c == 0x1680
                    || (leb 0x2000 c && leb c 0x200a
                        || (c == 0x2028
                            || (c == 0x2029 || (c == 0x202f || (c == 0x205f || c == 0x3000)))))))))

-- `str::trim_start`, `str::trim_end` and `str::trim`.
unfoldable pub trim_start : Text → Text
trim_start [] = []
trim_start (c ∷ cs) = let rest = trim_start cs in if is_whitespace c then rest else c ∷ cs

unfoldable pub trim : Text → Text
unfolding trim_start
trim cs = reverse (trim_start (reverse (trim_start cs)))

abbrev pub is_empty {ℓ} : {A : Type ℓ} → List A → Bool
is_empty [] = true
is_empty (_ ∷ _) = false

pub record JobName : Type 0 where
  pub as_str : Text

pub data JobNameError : Type 0 where
  empty : JobNameError
  too_long : (max actual : ℕ) → JobNameError

-- `Result<T, E>` where the error is one of the domain's own.
pub data Checked (E A : Type 0) : Type 0 where
  accepted : A → Checked E A
  rejected : E → Checked E A

-- `JobName::new`.
unfoldable pub new_job_name : Text → Checked JobNameError JobName
new_job_name value =
    if is_empty (trim value)
    then rejected empty
    else let actual = length value in
      if ltb max_job_name_length actual
      then rejected (too_long max_job_name_length actual)
      else accepted (record { as_str = value })

pub data JobStatus : Type 0 where
  queued running retry_waiting cancel_requested succeeded failed cancelled : JobStatus

pub data JobType : Type 0 where
  demo_delay image_resize : JobType

pub data JobPriority : Type 0 where
  high normal low : JobPriority

-- `JobPriority::as_str`.
unfoldable pub priority_as_str : JobPriority → String
priority_as_str high = "high"
priority_as_str normal = "normal"
priority_as_str low = "low"

-- `JobPriority::from_str`.
unfoldable pub parse_priority : String → Option JobPriority
parse_priority s =
    if str_eq s "high"
    then some high
    else if str_eq s "normal"
    then some normal
    else if str_eq s "low"
    then some low
    else none

-- `JobType::as_str`.
unfoldable pub type_as_str : JobType → String
type_as_str demo_delay = "demo_delay"
type_as_str image_resize = "image_resize"

-- `JobType::from_str`.
unfoldable pub parse_type : String → Option JobType
parse_type s =
    if str_eq s "demo_delay"
    then some demo_delay
    else if str_eq s "image_resize"
    then some image_resize
    else none

-- `JobStatus::as_str`.
unfoldable pub status_as_str : JobStatus → String
status_as_str queued = "queued"
status_as_str running = "running"
status_as_str retry_waiting = "retry_waiting"
status_as_str cancel_requested = "cancel_requested"
status_as_str succeeded = "succeeded"
status_as_str failed = "failed"
status_as_str cancelled = "cancelled"

-- `JobStatus::from_str`.
unfoldable pub parse_status : String → Option JobStatus
parse_status s =
    if str_eq s "queued"
    then some queued
    else if str_eq s "running"
    then some running
    else if str_eq s "retry_waiting"
    then some retry_waiting
    else if str_eq s "cancel_requested"
    then some cancel_requested
    else if str_eq s "succeeded"
    then some succeeded
    else if str_eq s "failed"
    then some failed
    else if str_eq s "cancelled"
    then some cancelled
    else none

pub record Job : Type 0 where
  pub id : JobId
  pub name : JobName
  pub job_type : JobType
  pub status : JobStatus

-- `Job::new_queued`.
unfoldable pub new_queued : JobId → JobName → JobType → Job
new_queued i n t = record { id = i; name = n; job_type = t; status = queued }

-- `Job::restore`.
unfoldable pub restore : JobId → JobName → JobType → JobStatus → Job
restore i n t s = record { id = i; name = n; job_type = t; status = s }
