-- ===== src/Worker/Process.antt =====
-- What the worker does with a claimed job: `process_claimed_inner`, `process_images` and the
-- functions that they call (apps/worker/src/lib.rs).
use task_harbor.Base.{
  ℕ, ◌+◌, Bool, true, false, Option, none, some, List, [], ◌∷◌, ◌++◌, Result, ok, err,
  RepositoryError, claim_lost, state_conflict, invalid_data, database, migration,
  idempotency_conflict, String, ltb, ◌==◌, if◌then◌else◌, take, ◌>>◌,
}
use task_harbor.Core.{Text, Checked, accepted, rejected, trim, is_empty, codes}
use task_harbor.Clock.{Time}
use task_harbor.Tables.{ArtifactEntry}
use task_harbor.Queue.{ClaimedJob, ClaimedWork, demo_work, image_work}
use task_harbor.Queue.Failure.{FailureKind, transient, permanent}
use task_harbor.Queue.Publish.{PendingOutputArtifact}
use task_harbor.Image.{ImageError, ProcessedImage, failure_kind, safe_message, u32_max}
use task_harbor.Storage.{output_key}
use task_harbor.Worker.{
  Program, returns, sleeps, removes_outputs, checks_cancellation, finishes_cancelled, completes,
  resizes, records_encoding, measures_usage, updates_progress, publishes, records_failure,
}

-- `rsplit_once` at a character: what stands before its last occurrence.
unfoldable pub before_last : ℕ → Text → Option Text
before_last separator [] = none
before_last separator (c ∷ cs) = elim (before_last separator cs) [
  | some stem ↦ some (c ∷ stem)
  | none ↦ if c == separator then some [] else none
]

abbrev pub or_else : Option Text → Text → Text
or_else none t = t
or_else (some s) t = s

unfoldable pub output_name : Text → Text
unfolding before_last
output_name input_name =
    let trimmed = trim (or_else (before_last b'.' input_name) input_name) in
    let stem = if is_empty trimmed then codes "image" else trimmed in take 251 stem ++ codes ".jpg"

-- `finish_if_cancel_requested(...).await?`, with what follows on its answer.
unfoldable pub finish_if_cancel_requested : (Bool → Program) → Program
finish_if_cancel_requested rest = checks_cancellation λ answer. elim answer [
  | err e ↦ returns (err e)
  | ok false ↦ rest false
  | ok true ↦
      removes_outputs (
        finishes_cancelled λ finished. elim finished [ err e ↦ returns (err e) | ok _ ↦ rest true ])
]

-- `if finish_if_cancel_requested(...).await? { return Ok(()) }`.
unfoldable pub unless_cancelled : Program → Program
unfolding finish_if_cancel_requested
unless_cancelled rest =
    finish_if_cancel_requested λ cancelled. if cancelled then returns (ok tt) else rest

-- An ending call has failed: a state conflict is left to a cancellation, if there is one.
unfoldable pub after_error : RepositoryError → Program
unfolding unless_cancelled
after_error (state_conflict operation) = unless_cancelled (returns (err (state_conflict operation)))
after_error database = returns (err database)
after_error migration = returns (err migration)
after_error (invalid_data message) = returns (err (invalid_data message))
after_error idempotency_conflict = returns (err idempotency_conflict)
after_error claim_lost = returns (err claim_lost)

-- `record_image_failure`.
unfoldable pub record_image_failure : FailureKind → String → Program
unfolding after_error
record_image_failure kind message = removes_outputs (
    records_failure kind message
      λ failure. elim failure [ ok _ ↦ returns (ok tt) | err e ↦ after_error e ])

abbrev pub pending_output : ArtifactEntry → ProcessedImage → PendingOutputArtifact
pending_output input processed = record {
  source_artifact_id = input.id;
  item_index = input.item_index;
  storage_key = processed.storage_key;
  display_name = output_name input.display_name;
  media_type = processed.media_type;
  byte_size = processed.byte_size;
  width = processed.width;
  height = processed.height;
}

-- The end of `process_images`, behind its loop.
unfoldable pub publish_outputs : List PendingOutputArtifact → Program
unfolding unless_cancelled after_error
publish_outputs outputs = unless_cancelled (
    publishes outputs
      λ published. elim published [ ok _ ↦ returns (ok tt) | err e ↦ after_error e ])

-- The part of a round behind the measurement: a cancellation, the output and the progress.
unfoldable pub report_progress : (completed : ℕ) → Program → Program
unfolding after_error
report_progress completed rest =
    if ltb u32_max completed
    then returns (err (invalid_data "image progress exceeds u32"))
    else updates_progress completed
        λ progress. elim progress [ ok _ ↦ rest | err e ↦ after_error e ]

abbrev pub over_budget : String
over_budget = "storage budget exceeded while writing output"

abbrev pub unmeasured : String
unmeasured = "storage usage could not be measured"

-- The part of a round behind the encoding.
unfoldable pub check_usage : (storage_budget_bytes : ℕ) → Program → Program
unfolding record_image_failure
check_usage storage_budget_bytes rest = measures_usage λ usage. elim usage [
  | accepted bytes ↦
      if ltb storage_budget_bytes bytes then record_image_failure permanent over_budget else rest
  | rejected _ ↦ record_image_failure transient unmeasured
]

-- A round behind `resize_to_jpeg`: the answer to the encoding time first, then its result.
unfoldable pub after_encoding :
    (storage_budget_bytes : ℕ)
    → Checked ImageError ProcessedImage
    → (ProcessedImage → Program)
    → Result (Unit {0})
    → Program
unfolding unless_cancelled record_image_failure check_usage
after_encoding storage_budget_bytes result rest (err e) = returns (err e)
after_encoding storage_budget_bytes (rejected e) rest (ok _) =
    record_image_failure (failure_kind e) (safe_message e)
after_encoding storage_budget_bytes (accepted processed) rest (ok _) =
    check_usage storage_budget_bytes (unless_cancelled (rest processed))

module _ (claimed : ClaimedJob) (max_width jpeg_quality storage_budget_bytes : ℕ) where
  -- The loop of `process_images` over the inputs that are left, behind `completed` rounds.
  unfoldable pub process_inputs :
      (completed : ℕ) → List PendingOutputArtifact → List ArtifactEntry → Program
  unfolding unless_cancelled after_encoding report_progress publish_outputs
  process_inputs completed outputs [] = publish_outputs outputs
  process_inputs completed outputs (input ∷ inputs) = unless_cancelled (
      resizes input.storage_key (output_key claimed.job_id claimed.attempt_id input.id) max_width
        jpeg_quality
        λ result. records_encoding (
          after_encoding storage_budget_bytes result λ processed. report_progress (completed + 1) (
            process_inputs (completed + 1) (outputs ++ pending_output input processed ∷ [])
              inputs)))

-- `process_claimed_inner`, by the kind of work.
unfoldable pub process_work : ClaimedJob → (storage_budget_bytes : ℕ) → ClaimedWork → Program
unfolding unless_cancelled after_error process_inputs
process_work claimed storage_budget_bytes (demo_work delay) = sleeps delay (
    unless_cancelled
      (completes λ completed. elim completed [ ok _ ↦ returns (ok tt) | err e ↦ after_error e ]))
process_work claimed storage_budget_bytes (image_work max_width jpeg_quality inputs) =
    process_inputs claimed max_width jpeg_quality storage_budget_bytes 0 [] inputs

unfoldable pub process_claimed_inner : ClaimedJob → (storage_budget_bytes : ℕ) → Program
unfolding process_work
process_claimed_inner claimed storage_budget_bytes =
    process_work claimed storage_budget_bytes claimed.work

-- `finish_claimed_result`.
unfoldable pub finish_claimed_result : Result (Unit {0}) → Program
finish_claimed_result (ok _) = returns (ok tt)
finish_claimed_result (err claim_lost) = removes_outputs (returns (ok tt))
finish_claimed_result (err database) = returns (err database)
finish_claimed_result (err migration) = returns (err migration)
finish_claimed_result (err (invalid_data message)) = returns (err (invalid_data message))
finish_claimed_result (err (state_conflict operation)) = returns (err (state_conflict operation))
finish_claimed_result (err idempotency_conflict) = returns (err idempotency_conflict)

-- A program whose result another one takes up.
unfoldable pub and_then : Program → (Result (Unit {0}) → Program) → Program
and_then (returns r) k = k r
and_then (sleeps d p) k = sleeps d (and_then p k)
and_then (removes_outputs p) k = removes_outputs (and_then p k)
and_then (checks_cancellation f) k = checks_cancellation λ a. and_then (f a) k
and_then (finishes_cancelled f) k = finishes_cancelled λ a. and_then (f a) k
and_then (completes f) k = completes λ a. and_then (f a) k
and_then (resizes i o w q f) k = resizes i o w q λ a. and_then (f a) k
and_then (records_encoding f) k = records_encoding λ a. and_then (f a) k
and_then (measures_usage f) k = measures_usage λ a. and_then (f a) k
and_then (updates_progress n f) k = updates_progress n λ a. and_then (f a) k
and_then (publishes o f) k = publishes o λ a. and_then (f a) k
and_then (records_failure x m f) k = records_failure x m λ a. and_then (f a) k

-- `process_claimed`: the budget is `u64::MAX`.
unfoldable pub process_claimed : ClaimedJob → Program
unfolding process_claimed_inner finish_claimed_result and_then
process_claimed claimed =
    and_then (process_claimed_inner claimed 18446744073709551615) finish_claimed_result

-- The answers of `renew_lease` beside the processing: the first lost claim ends the renewals.
unfoldable pub renewal_lost : List (Result Time) → Bool
renewal_lost [] = false
renewal_lost (ok _ ∷ more) = renewal_lost more
renewal_lost (err claim_lost ∷ more) = true
renewal_lost (err database ∷ more) = renewal_lost more
renewal_lost (err migration ∷ more) = renewal_lost more
renewal_lost (err (invalid_data _) ∷ more) = renewal_lost more
renewal_lost (err (state_conflict _) ∷ more) = renewal_lost more
renewal_lost (err idempotency_conflict ∷ more) = renewal_lost more

-- `result.and(Err(ClaimLost))` where a renewal has lost the claim.
unfoldable pub joined_result : Bool → Result (Unit {0}) → Result (Unit {0})
joined_result lost result = if lost then result >> err claim_lost else result

-- `process_with_lease_renewal`, with the answers of the renewals up to the end of the processing.
unfoldable pub process_with_lease_renewal :
    ClaimedJob → (storage_budget_bytes : ℕ) → List (Result Time) → Program
unfolding process_claimed_inner finish_claimed_result and_then renewal_lost joined_result
process_with_lease_renewal claimed storage_budget_bytes renewals =
    and_then (process_claimed_inner claimed storage_budget_bytes)
      λ result. finish_claimed_result (joined_result (renewal_lost renewals) result)
