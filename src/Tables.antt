-- ===== src/Tables.antt =====
-- The tables of the job queue (migrations/*.sql), as the repositories see them: a record for each
-- table's row and the database as the lists of rows. A column whose CHECK admits a few words is an
-- enumeration, a counter or identifier is a number, a nullable column an Option. A UUID is a number.
-- An identity column gives the numbers from 1 on.
use task_harbor.Base.{ℕ, Bool, true, false, Option, List, String}
use task_harbor.Clock.{Time}
use task_harbor.Core.{
  Text, JobStatus, JobType, JobPriority, demo_delay, image_resize, high, normal, low,
}

-- `AttemptStatus` of lifecycle_repository.rs.
pub data AttemptStatus : Type 0 where
  running succeeded failed cancelled : AttemptStatus

-- The words of `job_attempts.error_kind`.
pub data ErrorKind : Type 0 where
  transient permanent cancelled : ErrorKind

-- `ArtifactKind` of image_repository.rs.
pub data ArtifactKind : Type 0 where
  input output : ArtifactKind

-- A text for the user. `resized n` is "{n} image resized" or "{n} images resized".
pub data Message : Type 0 where
  plain : String → Message
  resized : ℕ → Message

pub record JobEntry : Type 0 where
  pub id : ℕ
  pub name : Text
  pub job_type : JobType
  pub state : JobStatus
  pub available_at : Time
  pub progress_completed : ℕ
  pub progress_total : ℕ
  pub delay_ms : ℕ
  pub max_width : Option ℕ
  pub jpeg_quality : Option ℕ
  pub result_message : Option Message
  pub result_duration_ms : Option ℕ
  pub failure_message : Option String
  pub max_attempts : ℕ
  pub retry_of_job_id : Option ℕ
  pub cancel_requested_at : Option Time
  pub priority : JobPriority
  pub schedule_id : Option ℕ
  pub scheduled_for : Option Time
  pub created_at : Time
  pub started_at : Option Time
  pub finished_at : Option Time
  pub owner_user_id : ℕ
  pub idempotency_key : Option Text
  pub request_fingerprint : Option Text

pub record AttemptEntry : Type 0 where
  pub id : ℕ
  pub job_id : ℕ
  pub attempt_number : ℕ
  pub state : AttemptStatus
  pub progress_completed : ℕ
  pub progress_total : ℕ
  pub started_at : Time
  pub finished_at : Option Time
  pub duration_ms : Option ℕ
  pub error_kind : Option ErrorKind
  pub error_message : Option String
  pub worker_id : Option ℕ
  pub claim_token : Option ℕ
  pub lease_expires_at : Option Time
  pub queue_wait_ms : ℕ
  pub encoding_duration_ms : ℕ

pub record WorkerEntry : Type 0 where
  pub id : ℕ
  pub name : Text
  pub concurrency_limit : ℕ
  pub lease_duration_seconds : ℕ
  pub started_at : Time
  pub last_heartbeat_at : Time
  pub heartbeat_expires_at : Time
  pub stopped_at : Option Time

pub record ArtifactEntry : Type 0 where
  pub id : ℕ
  pub job_id : ℕ
  pub attempt_id : Option ℕ
  pub source_artifact_id : Option ℕ
  pub kind : ArtifactKind
  pub item_index : ℕ
  pub storage_key : Text
  pub display_name : Text
  pub media_type : String
  pub byte_size : ℕ
  pub width : ℕ
  pub height : ℕ
  pub checksum_sha256 : Option Text
  pub created_at : Time

pub record Db : Type 0 where
  pub jobs : List JobEntry
  pub attempts : List AttemptEntry
  pub workers : List WorkerEntry
  pub artifacts : List ArtifactEntry
  pub next_job_id : ℕ
  pub next_attempt_id : ℕ
  pub next_artifact_id : ℕ

-- `state IN ('queued', 'retry_waiting')`.
abbrev pub is_claimable : JobStatus → Bool
is_claimable JobStatus.queued = true
is_claimable JobStatus.retry_waiting = true
is_claimable _ = false

-- `state IN ('running', 'cancel_requested')`.
abbrev pub is_active : JobStatus → Bool
is_active JobStatus.running = true
is_active JobStatus.cancel_requested = true
is_active _ = false

-- `state = 'running'` and `state = 'cancel_requested'` of a job.
abbrev pub is_running : JobStatus → Bool
is_running JobStatus.running = true
is_running _ = false

abbrev pub is_cancel_requested : JobStatus → Bool
is_cancel_requested JobStatus.cancel_requested = true
is_cancel_requested _ = false

abbrev pub is_demo : JobType → Bool
is_demo demo_delay = true
is_demo image_resize = false

abbrev pub is_image : JobType → Bool
is_image image_resize = true
is_image demo_delay = false

-- `state = 'running'` of an attempt.
abbrev pub in_progress : AttemptStatus → Bool
in_progress AttemptStatus.running = true
in_progress _ = false

abbrev pub is_input : ArtifactKind → Bool
is_input input = true
is_input output = false

-- CASE priority WHEN 'high' THEN 0 WHEN 'normal' THEN 1 ELSE 2 END.
abbrev pub priority_rank : JobPriority → ℕ
priority_rank high = 0
priority_rank normal = 1
priority_rank low = 2
