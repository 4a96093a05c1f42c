-- ===== src/Queue/Create.antt =====
-- How jobs come into the queue: `create` (crates/adapters/src/postgres.rs), `create_image_job` and
-- `find_idempotent_image_job` with the idempotency key of a request
-- (crates/adapters/src/image_repository.rs). Keys, fingerprints and checksums are lists of bytes.
use task_harbor.Base.{
  ℕ, ◌+◌, Bool, true, false, ◌&&◌, ◌||◌, not, Option, none, some, List, [], ◌∷◌, ◌++◌, Result, ok,
  database, invalid_data, state_conflict, idempotency_conflict, String, guard, ok_or, ◌>>=◌, ◌>>◌,
  ltb, leb, ◌==◌, coalesce, length, all, list_eq,
}
use task_harbor.Clock.{Time}
use task_harbor.Core.{
  Text, JobName, JobPriority, JobStatus, i32_max, i64_max, is_empty, demo_delay, image_resize,
  normal,
}
use task_harbor.Schedule.{max_output_width, max_files_per_job}
use task_harbor.Sql.{find_row, insert_row}
use task_harbor.Tables.{Db, JobEntry, ArtifactEntry, input}
use task_harbor.Queue.{Tx}
use task_harbor.Queue.Claim.{is_image_type}
use task_harbor.Queue.Cancel.{get_job}

abbrev pub demo_delay_ms : ℕ
demo_delay_ms = 500

-- A row of `jobs` as an INSERT makes it, with the defaults of the columns that it leaves out.
abbrev pub fresh_job : ℕ → Text → Time → JobEntry
fresh_job new_id name now = record {
  id = new_id;
  name = name;
  job_type = demo_delay;
  state = JobStatus.queued;
  available_at = now;
  progress_completed = 0;
  progress_total = 1;
  delay_ms = demo_delay_ms;
  max_width = none;
  jpeg_quality = none;
  result_message = none;
  result_duration_ms = none;
  failure_message = none;
  max_attempts = 3;
  retry_of_job_id = none;
  cancel_requested_at = none;
  priority = normal;
  schedule_id = none;
  scheduled_for = none;
  created_at = now;
  started_at = none;
  finished_at = none;
  owner_user_id = 1;
  idempotency_key = none;
  request_fingerprint = none;
}

unfoldable pub create : Db → JobName → (now : Time) → Tx JobEntry
create db name now = do
  guard (leb db.next_job_id i64_max) database
  let row = fresh_job db.next_job_id name.as_str now
  ok (row, record db { jobs = insert_row row db.jobs; next_job_id = db.next_job_id + 1 })

pub record IdempotencyRequest : Type 0 where
  pub key : Text
  pub fingerprint : Text

pub record NewInputArtifact : Type 0 where
  pub storage_key : Text
  pub display_name : Text
  pub media_type : String
  pub byte_size : ℕ
  pub width : ℕ
  pub height : ℕ
  pub checksum_sha256 : Text

pub record NewImageJob : Type 0 where
  pub owner_user_id : ℕ
  pub name : JobName
  pub max_width : ℕ
  pub jpeg_quality : ℕ
  pub available_at : Option Time
  pub priority : JobPriority
  pub inputs : List NewInputArtifact
  pub idempotency : Option IdempotencyRequest

-- The range of the idempotency data.
unfoldable pub valid_idempotency : IdempotencyRequest → Bool
valid_idempotency r =
    not (is_empty r.key || (ltb 128 (length r.key) || not (length r.fingerprint == 32)))

abbrev pub valid_request_key : Option IdempotencyRequest → Bool
valid_request_key none = true
valid_request_key (some r) = valid_idempotency r

-- `NewImageJob::validate`.
unfoldable pub validate_image_job : NewImageJob → Result (Unit {0})
validate_image_job r = do
  guard (not (is_empty r.inputs || ltb max_files_per_job (length r.inputs)))
      (invalid_data "image job must contain between 1 and 10 inputs")
  guard
      (not (
        r.max_width == 0
        || (ltb max_output_width r.max_width
            || not (leb 1 r.jpeg_quality && leb r.jpeg_quality 100))))
      (invalid_data "image settings are outside the supported range")
  guard (valid_request_key r.idempotency)
      (invalid_data "idempotency data is outside the supported range")

-- The CHECK constraints of a row of `artifacts`.
unfoldable pub artifact_check : ℕ → NewInputArtifact → Bool
artifact_check item_index a =
    is_image_type a.media_type
    && (leb 1 a.byte_size
        && (leb 1 a.width
            && (leb 1 a.height
                && (leb item_index 9
                    && (not (all (λ c. c == 0x20) a.display_name)
                        && (leb (length a.display_name) 255 && length a.checksum_sha256 == 32))))))

-- The loop over the inputs with `insert_input_artifact`.
unfoldable pub input_rows :
    (job_id next item_index : ℕ) (now : Time) → List NewInputArtifact → Result (List ArtifactEntry)
input_rows job_id next item_index now [] = ok []
input_rows job_id next item_index now (a ∷ more) = do
  guard (leb item_index 32767) (invalid_data "item index exceeds SMALLINT")
  guard (leb a.byte_size i64_max) (invalid_data "input byte size exceeds BIGINT")
  guard (leb a.width i32_max) (invalid_data "input width exceeds INTEGER")
  guard (leb a.height i32_max) (invalid_data "input height exceeds INTEGER")
  guard (artifact_check item_index a) database
  rest ← input_rows job_id (next + 1) (item_index + 1) now more
  ok (
      record {
        id = next;
        job_id = job_id;
        attempt_id = none;
        source_artifact_id = none;
        kind = input;
        item_index = item_index;
        storage_key = a.storage_key;
        display_name = a.display_name;
        media_type = a.media_type;
        byte_size = a.byte_size;
        width = a.width;
        height = a.height;
        checksum_sha256 = some a.checksum_sha256;
        created_at = now;
      }
      ∷ rest)

abbrev pub has_text : Option Text → Text → Bool
has_text none t = false
has_text (some s) t = list_eq s t

-- WHERE owner_user_id = $1 AND idempotency_key = $2.
unfoldable pub same_request : ℕ → Text → JobEntry → Bool
same_request owner key j = j.owner_user_id == owner && has_text j.idempotency_key key

-- The job that an earlier request with the same key made; a different request is a conflict.
unfoldable pub find_request : Db → ℕ → IdempotencyRequest → Result (Option JobEntry)
unfolding same_request
find_request db owner r = elim (find_row (same_request owner r.key) db.jobs) [
  | none ↦ ok none
  | some j ↦ do
    guard (has_text j.request_fingerprint r.fingerprint) idempotency_conflict
    found ← ok_or (get_job db j.id (some owner)) (state_conflict "read idempotent image job")
    ok (some found)
]

unfoldable pub find_idempotent_image_job : Db → ℕ → IdempotencyRequest → Result (Option JobEntry)
find_idempotent_image_job db owner r = do
  guard (valid_idempotency r) (invalid_data "idempotency data is outside the supported range")
  find_request db owner r

abbrev pub earlier_request : Db → ℕ → Option IdempotencyRequest → Result (Option JobEntry)
earlier_request db owner none = ok none
earlier_request db owner (some r) = find_request db owner r

abbrev pub key_of : Option IdempotencyRequest → Option Text
key_of none = none
key_of (some r) = some r.key

abbrev pub fingerprint_of : Option IdempotencyRequest → Option Text
fingerprint_of none = none
fingerprint_of (some r) = some r.fingerprint

-- The row that `create_image_job` inserts.
abbrev pub image_job : ℕ → NewImageJob → Time → JobEntry
image_job new_id r now =
    let base = fresh_job new_id r.name.as_str now in
    record base {
      job_type = image_resize;
      available_at = coalesce r.available_at now;
      priority = r.priority;
      progress_total = length r.inputs;
      max_width = some r.max_width;
      jpeg_quality = some r.jpeg_quality;
      owner_user_id = r.owner_user_id;
      idempotency_key = key_of r.idempotency;
      request_fingerprint = fingerprint_of r.idempotency;
    }

-- The part of the transaction for a request that no earlier one stands for.
unfoldable pub insert_image_job : Db → NewImageJob → (now : Time) → Tx JobEntry
unfolding get_job
insert_image_job db r now = do
  guard (leb db.next_job_id i64_max) database
  rows ← input_rows db.next_job_id db.next_artifact_id 0 now r.inputs
  let db' = record db {
    jobs = insert_row (image_job db.next_job_id r now) db.jobs;
    next_job_id = db.next_job_id + 1;
    artifacts = db.artifacts ++ rows;
    next_artifact_id = db.next_artifact_id + length rows;
  }
  created ← ok_or (get_job db' db.next_job_id none) (state_conflict "read created image job")
  ok (created, db')

-- The default of `jobs.delay_ms` is 500 as well, so `fresh_job` serves both kinds of job.
unfoldable pub create_image_job : Db → NewImageJob → (now : Time) → Tx JobEntry
create_image_job db r now = do
  validate_image_job r
  earlier ← earlier_request db r.owner_user_id r.idempotency
  elim earlier [ some j ↦ ok (j, db) | none ↦ insert_image_job db r now ]
