-- ===== src/Worker.antt =====
-- The worker process (apps/worker/src/lib.rs): its settings, and what it does with a claimed job. A
-- `Program` is what is left of the processing: a result, or a call of the repository, of the storage
-- or of the image service with what the code does on each of its answers. Whatever else happens in
-- the system happens between two calls.
pub mod Config
pub mod Process
pub mod Names
pub mod Outputs
pub mod Run
pub mod Ends
pub mod Accounts
pub mod Settled
pub mod Later
pub mod Survives
use task_harbor.Base.{ℕ, Bool, true, false, List, [], ◌∷◌, Result, ok, err, RepositoryError, String}
use task_harbor.Core.{Text, Checked}
use task_harbor.Clock.{Time}
use task_harbor.Queue.Failure.{FailureKind, FailureDisposition}
use task_harbor.Queue.Publish.{PendingOutputArtifact}
use task_harbor.Image.{ImageError, ProcessedImage}
use task_harbor.Storage.{StorageError}

-- The calls are about the claimed job and its attempt. `started_at.elapsed()` and the encoding time
-- are read when a call is made; the results of a removal of files are only logged.
pub data Program : Type 0 where
  returns : Result (Unit {0}) → Program
  sleeps : (delay : ℕ) → Program → Program
  removes_outputs : Program → Program
  checks_cancellation : (Result Bool → Program) → Program
  finishes_cancelled : (Result (Unit {0}) → Program) → Program
  completes : (Result (Unit {0}) → Program) → Program
  resizes :
      (input_key output_key : Text) (max_width jpeg_quality : ℕ)
      → (Checked ImageError ProcessedImage → Program)
      → Program
  records_encoding : (Result (Unit {0}) → Program) → Program
  measures_usage : (Checked StorageError ℕ → Program) → Program
  updates_progress : (completed : ℕ) → (Result (Unit {0}) → Program) → Program
  publishes : List PendingOutputArtifact → (Result (Unit {0}) → Program) → Program
  records_failure : FailureKind → String → (Result FailureDisposition → Program) → Program
