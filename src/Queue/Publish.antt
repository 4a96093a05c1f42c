-- ===== src/Queue/Publish.antt =====
-- `complete_image_job` (crates/adapters/src/image_repository.rs): the outputs of an attempt become
-- visible in one transaction, behind the fence.
use task_harbor.Base.{
  ℕ, ◌+◌, Bool, ◌&&◌, not, Option, none, some, List, [], ◌∷◌, Result, ok, err, database,
  invalid_data, claim_lost, String, guard, ensure_one_row, ensure_claim_row, ◌>>=◌, ◌>>◌, leb, ◌==◌,
  length, all,
}
use task_harbor.Clock.{Time}
use task_harbor.Core.{Text, i32_max, i64_max}
use task_harbor.Sql.{count_rows, update_rows, insert_row}
use task_harbor.Tables.{Db, JobEntry, ArtifactEntry, output, resized, is_input, is_image}
use task_harbor.Queue.{Tx, ClaimedJob, ClaimedWork, demo_work, image_work, owns}
use task_harbor.Queue.Finish.{running_job, succeed_attempt, succeed_job}
use text.Mathlib.Text.{◌==◌ as str_eq}

pub record PendingOutputArtifact : Type 0 where
  pub source_artifact_id : ℕ
  pub item_index : ℕ
  pub storage_key : Text
  pub display_name : Text
  pub media_type : String
  pub byte_size : ℕ
  pub width : ℕ
  pub height : ℕ

-- `lock_active_claim`: the attempt is held and its job is running.
unfoldable pub lock_active_claim : Db → ClaimedJob → (now : Time) → Result (Unit {0})
lock_active_claim db claimed now = do
  guard (not (count_rows (owns claimed now) db.attempts == 0)) claim_lost
  guard (not (count_rows (running_job claimed.job_id) db.jobs == 0)) claim_lost

-- WHERE of the source of an output.
abbrev pub is_source : ℕ → PendingOutputArtifact → ArtifactEntry → Bool
is_source job_id o a =
    a.id == o.source_artifact_id
    && (a.job_id == job_id && (is_input a.kind && a.item_index == o.item_index))

-- The CHECK constraints of an output's row.
unfoldable pub output_check : PendingOutputArtifact → Bool
output_check o =
    str_eq o.media_type "image/jpeg"
    && (leb 1 o.byte_size
        && (leb 1 o.width
            && (leb 1 o.height
                && (leb o.item_index 9
                    && (not (all (λ c. c == 0x20) o.display_name)
                        && leb (length o.display_name) 255)))))

abbrev pub output_row :
    (job_id attempt_id next : ℕ) (now : Time) → PendingOutputArtifact → ArtifactEntry
output_row job_id attempt_id next now o = record {
  id = next;
  job_id = job_id;
  attempt_id = some attempt_id;
  source_artifact_id = some o.source_artifact_id;
  kind = output;
  item_index = o.item_index;
  storage_key = o.storage_key;
  display_name = o.display_name;
  media_type = o.media_type;
  byte_size = o.byte_size;
  width = o.width;
  height = o.height;
  checksum_sha256 = none;
  created_at = now;
}

-- artifacts_job_kind_item_unique.
abbrev pub same_output : ℕ → ℕ → ArtifactEntry → Bool
same_output job_id item_index a =
    a.job_id == job_id && (not (is_input a.kind) && a.item_index == item_index)

-- The loop over the outputs with `insert_output_artifact`.
unfoldable pub insert_outputs :
    (job_id attempt_id next : ℕ) (now : Time)
    → List ArtifactEntry
    → List PendingOutputArtifact
    → Result (List ArtifactEntry)
insert_outputs job_id attempt_id next now artifacts [] = ok artifacts
insert_outputs job_id attempt_id next now artifacts (o ∷ more) = do
  guard (leb o.item_index 32767) (invalid_data "output item index exceeds SMALLINT")
  guard (leb o.byte_size i64_max) (invalid_data "output byte size exceeds BIGINT")
  guard (leb o.width i32_max) (invalid_data "output width exceeds INTEGER")
  guard (leb o.height i32_max) (invalid_data "output height exceeds INTEGER")
  guard (leb o.source_artifact_id i64_max) (invalid_data "source artifact ID exceeds BIGINT")
  ensure_one_row (count_rows (is_source job_id o) artifacts) "publish output artifact"
  guard (output_check o) database
  guard (count_rows (same_output job_id o.item_index) artifacts == 0) database
  insert_outputs job_id attempt_id (next + 1) now
      (insert_row (output_row job_id attempt_id next now o) artifacts) more

abbrev pub image_inputs : ClaimedWork → Option (List ArtifactEntry)
image_inputs (demo_work _) = none
image_inputs (image_work _ _ inputs) = some inputs

unfoldable pub complete_image_job :
    Db → ClaimedJob → (now : Time) (duration_ms : ℕ) → List PendingOutputArtifact → Tx (Unit {0})
complete_image_job db claimed now duration_ms outputs = elim (image_inputs claimed.work) [
  | none ↦ err (invalid_data "demo job cannot publish image outputs")
  | some inputs ↦ do
    guard (length outputs == length inputs) (invalid_data "output count does not match input count")
    guard (leb duration_ms i64_max) (invalid_data "worker duration exceeds BIGINT")
    lock_active_claim db claimed now
    artifacts' ←
        insert_outputs claimed.job_id claimed.attempt_id db.next_artifact_id now db.artifacts
          outputs
    -- complete_attempt
    ensure_claim_row (count_rows (owns claimed now) db.attempts)
    let selected = λ (j : JobEntry). running_job claimed.job_id j && is_image j.job_type
    ensure_one_row (count_rows selected db.jobs) "complete image job"
    ok (
      tt,
      record db {
        artifacts = artifacts';
        next_artifact_id = db.next_artifact_id + length outputs;
        attempts = update_rows (owns claimed now) (succeed_attempt now duration_ms) db.attempts;
        jobs = update_rows selected (succeed_job now duration_ms (resized (length inputs))) db.jobs;
      },
    )
]
