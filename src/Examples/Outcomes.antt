-- ===== src/Examples/Outcomes.antt =====
-- The theorems on the end of an attempt, on cancellation and on requests that are sent again, along
-- the run of Examples/Run.
use task_harbor.Base.{
  ◌+◌, ◌≡◌, ◌≢◌, refl, true, false, none, some, [], ◌∷◌, arith, ok, err, claim_lost, ◌⊎◌, ◌&&◌, ltb,
  idempotency_conflict,
}
use task_harbor.Clock.{plus_seconds}
use task_harbor.Core.{Text, normal}
use task_harbor.Sql.{count_rows, update_rows, insert_row, find_row, first_row}
use task_harbor.Tables.{Db, JobEntry}
use task_harbor.Queue.{owns, commit}
use task_harbor.Queue.Create.{
  create, NewImageJob, IdempotencyRequest, create_image_job, insert_image_job, validate_image_job,
  valid_idempotency, artifact_check, input_rows, find_request, same_request, image_job,
}
use task_harbor.Queue.Cancel.{get_job, request_cancel, request_cancel_row}
use task_harbor.Queue.Claim.{
  claim_next, claim_job, claimed_work, is_candidate, is_live, claimed_before, last_number,
  is_image_type,
}
use task_harbor.Queue.Finish.{complete}
use task_harbor.Queue.Failure.{
  transient, record_failure, retry_backoff_seconds, FailureDisposition, retry_scheduled, failed,
  is_transient,
}
use task_harbor.Queue.Outcomes.{
  record_failure-decides, complete-once, has_state, is_retry_waiting, is_failed, is_succeeded,
}
use task_harbor.Queue.Cancellation.{CancelOutcome, request_cancel-outcome}
use task_harbor.Queue.Retry.{RetryOutcome, manual_retry-outcome}
use task_harbor.System.Replay.{create_image_job-replay}
use task_harbor.Examples.Run.{at, created, job, job_name, claim, claimed}
use task_harbor.System.{World, initial, with_db, here, next, requests_cancel}

record_failure-decides_example :
    (r : FailureDisposition) × (db' : Db) × (record_failure claimed.db claim
        (at 40)
        5
        transient
        "decode"
      ≡ ok (r, db'))
    × (count_rows (owns claim (at 40)) db'.attempts ≡ 0)
    × (((is_transient transient && ltb claim.attempt_number claim.max_attempts) ≡ true)
          × (r ≡ retry_scheduled (plus_seconds (at 40) (retry_backoff_seconds 1)))
          × (count_rows (has_state 1 is_retry_waiting) db'.jobs
              ≡ count_rows (has_state 1 is_retry_waiting) claimed.db.jobs + 1)
        ⊎ ((is_transient transient && ltb claim.attempt_number claim.max_attempts) ≡ false)
          × (r ≡ failed)
          × (count_rows (has_state 1 is_failed) db'.jobs
              ≡ count_rows (has_state 1 is_failed) claimed.db.jobs + 1))
unfolding create claim_next claim_job claimed_work first_row is_candidate is_live claimed_before
    find_row count_rows update_rows insert_row last_number
record_failure-decides_example =
    record_failure-decides claimed.db claim (at 40) 5 transient "decode" refl refl (omega arith)

complete-once_example :
    (db' : Db) × (complete claimed.db claim (at 40) 500 ≡ ok (tt, db'))
    × (count_rows (has_state 1 is_succeeded) db'.jobs
        ≡ count_rows (has_state 1 is_succeeded) claimed.db.jobs + 1)
    × (count_rows (owns claim (at 40)) db'.attempts ≡ 0)
    × (complete db' claim (at 40) 500 ≡ err claim_lost)
unfolding create claim_next claim_job claimed_work first_row is_candidate is_live claimed_before
    find_row count_rows update_rows insert_row last_number
complete-once_example = complete-once claimed.db claim (at 40) 500 refl refl refl (omega arith)

-- The job that waits is cancelled at once.
request_cancel-outcome_example : CancelOutcome created.db 1 (some 1) (at 15) job
unfolding create count_rows insert_row get_job find_row
request_cancel-outcome_example =
    request_cancel-outcome created.db 1 (some 1) (at 15) job (omega arith) refl

abbrev zeros : Text
zeros =
    0 ∷ 0 ∷ 0 ∷ 0 ∷ 0 ∷ 0 ∷ 0 ∷ 0 ∷ 0 ∷ 0 ∷ 0 ∷ 0 ∷ 0 ∷ 0 ∷ 0 ∷ 0 ∷ 0 ∷ 0 ∷ 0 ∷ 0 ∷ 0 ∷ 0 ∷ 0 ∷ 0
    ∷ 0 ∷ 0 ∷ 0 ∷ 0 ∷ 0 ∷ 0 ∷ 0 ∷ 0 ∷ []

abbrev key : IdempotencyRequest
key = record { key = 0x6b ∷ []; fingerprint = zeros }

abbrev request : NewImageJob
request = record {
  owner_user_id = 1;
  name = job_name;
  max_width = 800;
  jpeg_quality = 80;
  available_at = none;
  priority = normal;
  inputs =
      record {
        storage_key = 0x73 ∷ [];
        display_name = 0x64 ∷ [];
        media_type = "image/png";
        byte_size = 10;
        width = 4;
        height = 3;
        checksum_sha256 = zeros;
      }
      ∷ [];
  idempotency = some key;
}

-- The second request asks for another width.
abbrev wider : NewImageJob
wider = record request { max_width = 900 }

abbrev uploaded : Db
uploaded = commit initial.db (create_image_job initial.db request (at 10))

-- The job of the upload is cancelled before the request is sent again.
abbrev withdrawn : World
withdrawn = with_db initial (commit uploaded (request_cancel uploaded 1 (some 1) (at 30)))

withdrawn_row : JobEntry
withdrawn_row = request_cancel_row (at 30) (image_job 1 request (at 10))

create_image_job-replay_example :
    (zeros ≡ zeros)
      × ((j' : JobEntry) × (j'.id ≡ (image_job 1 request (at 10)).id)
          × (get_job withdrawn.db 1 (some 1) ≡ some j')
          × (create_image_job withdrawn.db wider (at 70) ≡ ok (j', withdrawn.db)))
    ⊎ (zeros ≢ zeros) × (create_image_job withdrawn.db wider (at 70) ≡ err idempotency_conflict)
unfolding create_image_job insert_image_job validate_image_job valid_idempotency artifact_check
    input_rows find_request same_request find_row insert_row get_job is_image_type count_rows
    request_cancel update_rows withdrawn_row
create_image_job-replay_example =
    create_image_job-replay uploaded request wider key key (at 10) (at 70)
      (image_job 1 request (at 10)) here refl refl
      (next here (requests_cancel withdrawn.db 1 (some 1) (at 30) (some withdrawn_row) refl)) refl
      refl refl refl

-- The cancelled job is queued again.
abbrev cancelled : Db
cancelled = commit created.db (request_cancel created.db 1 (some 1) (at 15))

manual_retry-outcome_example :
    RetryOutcome cancelled 1 (some 1) (at 16) (request_cancel_row (at 15) job)
unfolding create request_cancel get_job find_row update_rows count_rows insert_row
manual_retry-outcome_example =
    manual_retry-outcome cancelled 1 (some 1) (at 16) (request_cancel_row (at 15) job) refl
      (omega arith) refl
