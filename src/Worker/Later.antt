-- ===== src/Worker/Later.antt =====
-- What a program can come to: one that is left behind some answers to its calls.
use task_harbor.Base.{ℕ, Bool, List, Result, String}
use task_harbor.Core.{Checked}
use task_harbor.Queue.Failure.{FailureKind, FailureDisposition}
use task_harbor.Queue.Publish.{PendingOutputArtifact}
use task_harbor.Image.{ImageError, ProcessedImage}
use task_harbor.Storage.{StorageError}
use task_harbor.Worker.{
  Program, returns, sleeps, removes_outputs, checks_cancellation, finishes_cancelled, completes,
  resizes, records_encoding, measures_usage, updates_progress, publishes, records_failure,
}

pub data Later (q : Program) : Program → Type 0 where
  now : Later q q
  slept : {p : Program} {delay : ℕ} → Later q p → Later q (sleeps delay p)
  removed : {p : Program} → Later q p → Later q (removes_outputs p)
  checked :
      {f : Result Bool → Program} (a : Result Bool)
      → Later q (f a)
      → Later q (checks_cancellation f)
  cancelled :
      {f : Result (Unit {0}) → Program} (a : Result (Unit {0}))
      → Later q (f a)
      → Later q (finishes_cancelled f)
  completed :
      {f : Result (Unit {0}) → Program} (a : Result (Unit {0}))
      → Later q (f a)
      → Later q (completes f)
  resized :
      {f : Checked ImageError ProcessedImage → Program} {i o : List ℕ} {width quality : ℕ}
      (a : Checked ImageError ProcessedImage)
      → Later q (f a)
      → Later q (resizes i o width quality f)
  encoded :
      {f : Result (Unit {0}) → Program} (a : Result (Unit {0}))
      → Later q (f a)
      → Later q (records_encoding f)
  measured :
      {f : Checked StorageError ℕ → Program} (a : Checked StorageError ℕ)
      → Later q (f a)
      → Later q (measures_usage f)
  progressed :
      {f : Result (Unit {0}) → Program} {n : ℕ} (a : Result (Unit {0}))
      → Later q (f a)
      → Later q (updates_progress n f)
  published :
      {f : Result (Unit {0}) → Program} {outputs : List PendingOutputArtifact}
      (a : Result (Unit {0}))
      → Later q (f a)
      → Later q (publishes outputs f)
  failed :
      {f : Result FailureDisposition → Program} {kind : FailureKind} {message : String}
      (a : Result FailureDisposition)
      → Later q (f a)
      → Later q (records_failure kind message f)

-- What holds of the results, of the outputs handed over and of the progress told, on every path.
module _ (R : Result (Unit {0}) → Type 0) (P : List PendingOutputArtifact → Type 0)
    (N : ℕ → Type 0) where
  abbrev pub Always : Program → Type 0
  Always (returns r) = R r
  Always (sleeps _ p) = Always p
  Always (removes_outputs p) = Always p
  Always (checks_cancellation f) = (a : Result Bool) → Always (f a)
  Always (finishes_cancelled f) = (a : Result (Unit {0})) → Always (f a)
  Always (completes f) = (a : Result (Unit {0})) → Always (f a)
  Always (resizes _ _ _ _ f) = (a : Checked _ _) → Always (f a)
  Always (records_encoding f) = (a : Result (Unit {0})) → Always (f a)
  Always (measures_usage f) = (a : Checked _ ℕ) → Always (f a)
  Always (updates_progress n f) = N n × ((a : Result (Unit {0})) → Always (f a))
  Always (publishes outputs f) = P outputs × ((a : Result (Unit {0})) → Always (f a))
  Always (records_failure _ _ f) = (a : Result _) → Always (f a)

  pub Later-Always : {q p : Program} → Later q p → Always p → Always q
  Later-Always now h = h
  Later-Always (slept l) h = Later-Always l h
  Later-Always (removed l) h = Later-Always l h
  Later-Always (checked a l) h = Later-Always l (h a)
  Later-Always (cancelled a l) h = Later-Always l (h a)
  Later-Always (completed a l) h = Later-Always l (h a)
  Later-Always (resized a l) h = Later-Always l (h a)
  Later-Always (encoded a l) h = Later-Always l (h a)
  Later-Always (measured a l) h = Later-Always l (h a)
  Later-Always (progressed a l) h = Later-Always l (h.1 a)
  Later-Always (published a l) h = Later-Always l (h.1 a)
  Later-Always (failed a l) h = Later-Always l (h a)
