-- ===== src/Examples/Working.antt =====
-- The theorems on the worker, for the claim of Examples/Run and for an image job.
use task_harbor.Base.{
  ◌≤◌, ◌≡◌, ◌≢◌, refl, inl, false, some, none, [], ◌∷◌, All, all, map, length, ok, err, claim_lost,
  ◌==◌,
}
use task_harbor.Core.{accepted, trim, trim_start, is_whitespace, codes}
use task_harbor.Sql.{count_rows, update_rows, find_row}
use task_harbor.Tables.{ArtifactEntry, input}
use task_harbor.Queue.{ClaimedJob, commit, owns, image_work}
use task_harbor.Queue.Finish.{complete, cancellation_requested, cancellation_state}
use task_harbor.Queue.Publish.{PendingOutputArtifact}
use task_harbor.Image.{ProcessedImage}
use task_harbor.Queue.Create.{create}
use task_harbor.Queue.Claim.{
  claim_next, claim_job, claimed_work, is_candidate, is_live, claimed_before, last_number,
}
use task_harbor.Sql.{first_row, insert_row}
use task_harbor.System.{World, with_db, here}
use task_harbor.Worker.Process.{
  process_claimed_inner, after_error, process_with_lease_renewal, output_name, before_last,
}
use task_harbor.Worker.Run.{Run}
use task_harbor.Worker.Later.{Later}
use task_harbor.Worker.{returns, publishes}
use task_harbor.Worker.Settled.{processing_ends_attempt}
use task_harbor.Worker.Outputs.{published_outputs, described, asked}
use task_harbor.Worker.Survives.{task_keeps_worker, handle_task_result, finished}
use task_harbor.Examples.Run.{at, claim, claimed, claimed_run}

-- The worker completes the demo job at 40 seconds.
abbrev completed : World
completed = with_db claimed (commit claimed.db (complete claimed.db claim (at 40) 1000))

worked : Run claim (process_claimed_inner claim 1000) claimed (ok tt) completed
unfolding process_claimed_inner complete cancellation_requested cancellation_state create claim_next
    claim_job claimed_work first_row is_candidate is_live claimed_before find_row count_rows
    update_rows insert_row last_number
worked = Run.slept (
    Run.checked (at 40) (ok false) (inl refl)
      (Run.completed (at 40) 1000 (ok tt) (inl (refl, refl)) Run.done))

processing_ends_attempt_example : count_rows (owns claim (at 41)) completed.db.attempts ≡ 0
processing_ends_attempt_example =
    processing_ends_attempt 1000 (at 41) claimed_run (inl refl) worked here

-- An image job with one input.
abbrev pub photo : ArtifactEntry
photo = record {
  id = 5;
  job_id = 1;
  attempt_id = none;
  source_artifact_id = none;
  kind = input;
  item_index = 0;
  storage_key = codes "inputs/a/b";
  display_name = codes "cat.png";
  media_type = "image/png";
  byte_size = 10;
  width = 4;
  height = 2;
  checksum_sha256 = none;
  created_at = at 10;
}

abbrev image_claim : ClaimedJob
image_claim = record claim { work = image_work 2 90 (photo ∷ []) }

abbrev resized_photo : PendingOutputArtifact
resized_photo = record {
  source_artifact_id = 5;
  item_index = 0;
  storage_key = codes "out";
  display_name = codes "cat.jpg";
  media_type = "image/jpeg";
  byte_size = 7;
  width = 2;
  height = 1;
}

abbrev processed_photo : ProcessedImage
processed_photo = record {
  storage_key = codes "out";
  media_type = "image/jpeg";
  byte_size = 7;
  width = 2;
  height = 1;
}

handed_over :
    Later
      (publishes
        (resized_photo ∷ [])
        (λ published. elim published [ ok _ ↦ returns (ok tt) | err e ↦ after_error e ]))
      (process_claimed_inner image_claim 1000)
unfolding process_claimed_inner output_name before_last trim trim_start is_whitespace
handed_over = Later.checked (ok false) (
    Later.resized (accepted processed_photo) (
      Later.encoded (ok tt) (
        Later.measured (accepted 10) (
          Later.checked (ok false)
            (Later.progressed (ok tt) (Later.checked (ok false) Later.now))))))

published_outputs_example :
    (map described (resized_photo ∷ []) ≡ map asked (photo ∷ []))
    × All
        (λ o.
          (1 ≤ length o.display_name)
          × (length o.display_name ≤ 255)
          × (all (λ c. c == 0x20) o.display_name ≡ false))
        (resized_photo ∷ [])
published_outputs_example = published_outputs image_claim 1000 (resized_photo ∷ []) refl handed_over

-- A renewal loses the claim while the demo job is worked on; the task ends with success.
lost : Later (returns (ok tt)) (process_with_lease_renewal claim 1000 (err claim_lost ∷ []))
unfolding process_with_lease_renewal
lost = Later.slept (Later.checked (ok false) (Later.completed (ok tt) (Later.removed Later.now)))

task_keeps_worker_example : handle_task_result (some (finished (ok tt))) ≢ err claim_lost
task_keeps_worker_example = task_keeps_worker claim 1000 (err claim_lost ∷ []) (ok tt) lost
