-- ===== src/Worker/Accounts.antt =====
-- The worker is done with a job only when its attempt has ended.
use task_harbor.Base.{
  ℕ, ◌+◌, ◌≢◌, inl, inr, Bool, true, false, Result, ok, err, database, List, [], ◌∷◌, ◌++◌, String,
  RepositoryError, claim_lost, state_conflict, migration, invalid_data, idempotency_conflict, ltb,
  Bool-cases,
}
use task_harbor.Core.{Checked, accepted, rejected}
use task_harbor.Tables.{ArtifactEntry}
use task_harbor.Queue.{ClaimedJob, ClaimedWork, demo_work, image_work}
use task_harbor.Queue.Failure.{FailureKind, transient, permanent}
use task_harbor.Queue.Publish.{PendingOutputArtifact}
use task_harbor.Image.{u32_max, ImageError, ProcessedImage, failure_kind, safe_message}
use task_harbor.Safety.{Issued}
use task_harbor.System.{
  World, Reach, next, progresses, encodes, completes, publishes, cancels, fails,
}
use task_harbor.Worker
use task_harbor.Worker.{
  Program, returns, sleeps, removes_outputs, checks_cancellation, finishes_cancelled, resizes,
  records_encoding, measures_usage, updates_progress, records_failure,
}
use task_harbor.Worker.Process.{
  unless_cancelled, after_error, record_image_failure, publish_outputs, report_progress,
  check_usage, after_encoding, process_inputs, pending_output, process_work, over_budget,
  unmeasured,
}
use task_harbor.Worker.Run.{
  Run, Reply-Reach, Reply-Issued, Step-Issued, done, other, slept, removed, checked, cancelled,
  completed, resized, encoded, measured, progressed, published, failed,
}

-- Where no ending call has succeeded, the program does not return success, whatever the answers.
abbrev pub Accounts : Program → Type 0
Accounts (returns r) = r ≢ ok tt
Accounts (sleeps _ p) = Accounts p
Accounts (removes_outputs p) = Accounts p
Accounts (checks_cancellation f) = (a : Result Bool) → Accounts (f a)
Accounts (finishes_cancelled f) = (e : RepositoryError) → Accounts (f (err e))
Accounts (Worker.completes f) = (e : RepositoryError) → Accounts (f (err e))
Accounts (resizes _ _ _ _ f) = (a : Checked _ _) → Accounts (f a)
Accounts (records_encoding f) = (a : Result (Unit {0})) → Accounts (f a)
Accounts (measures_usage f) = (a : Checked _ ℕ) → Accounts (f a)
Accounts (updates_progress _ f) = (a : Result (Unit {0})) → Accounts (f a)
Accounts (Worker.publishes _ f) = (e : RepositoryError) → Accounts (f (err e))
Accounts (records_failure _ _ f) = (e : RepositoryError) → Accounts (f (err e))

unless_cancelled-Accounts : (p : Program) → Accounts p → Accounts (unless_cancelled p)
unfolding unless_cancelled
unless_cancelled-Accounts p h (err e) = cc
unless_cancelled-Accounts p h (ok false) = h
unless_cancelled-Accounts p h (ok true) = λ e. cc

after_error-Accounts : (e : RepositoryError) → Accounts (after_error e)
unfolding after_error
after_error-Accounts (state_conflict operation) = unless_cancelled-Accounts _ (cc)
after_error-Accounts database = cc
after_error-Accounts migration = cc
after_error-Accounts (invalid_data message) = cc
after_error-Accounts idempotency_conflict = cc
after_error-Accounts claim_lost = cc

record_image_failure-Accounts :
    (kind : FailureKind) (message : String) → Accounts (record_image_failure kind message)
unfolding record_image_failure
record_image_failure-Accounts kind message = after_error-Accounts

publish_outputs-Accounts :
    (outputs : List PendingOutputArtifact) → Accounts (publish_outputs outputs)
unfolding publish_outputs
publish_outputs-Accounts outputs = unless_cancelled-Accounts _ after_error-Accounts

check_usage-Accounts : (budget : ℕ) (p : Program) → Accounts p → Accounts (check_usage budget p)
unfolding check_usage
check_usage-Accounts budget p h (accepted bytes) = elim (Bool-cases (ltb budget bytes)) [
  | inl e ↦ rw e (record_image_failure-Accounts permanent over_budget)
  | inr e ↦ rw e h
]
check_usage-Accounts budget p h (rejected _) = record_image_failure-Accounts transient unmeasured

report_progress-Accounts : (n : ℕ) (p : Program) → Accounts p → Accounts (report_progress n p)
unfolding report_progress
report_progress-Accounts n p h = elim (Bool-cases (ltb u32_max n)) [
  | inl e ↦ rw e (cc)
  | inr e ↦ rw e (λ a. elim a as (λ a. Accounts (elim a [ ok _ ↦ p | err e ↦ after_error e ])) [
    | ok _ ↦ h
    | err e ↦ after_error-Accounts e
  ])
]

after_encoding-Accounts :
    (budget : ℕ) (result : Checked ImageError ProcessedImage) (rest : ProcessedImage → Program)
    → ((processed : ProcessedImage) → Accounts (rest processed))
    → (recorded : Result (Unit {0})) → Accounts (after_encoding budget result rest recorded)
unfolding after_encoding
after_encoding-Accounts budget result rest h (err e) = cc
after_encoding-Accounts budget (rejected e) rest h (ok _) =
    record_image_failure-Accounts (failure_kind e) (safe_message e)
after_encoding-Accounts budget (accepted processed) rest h (ok _) =
    check_usage-Accounts budget (unless_cancelled (rest processed))
      (unless_cancelled-Accounts (rest processed) (h processed))

process_inputs-Accounts :
    (c : ClaimedJob) (width quality budget completed : ℕ) (outputs : List PendingOutputArtifact)
    (inputs : List ArtifactEntry)
    → Accounts (process_inputs c width quality budget completed outputs inputs)
unfolding process_inputs
process_inputs-Accounts c width quality budget n outputs [] = publish_outputs-Accounts outputs
process_inputs-Accounts c width quality budget n outputs (input ∷ inputs) =
    unless_cancelled-Accounts _ λ result. after_encoding-Accounts budget result _ λ processed.
      report_progress-Accounts (n + 1) _ (
        process_inputs-Accounts c width quality budget (n + 1)
          (outputs ++ pending_output input processed ∷ []) inputs)

pub process_work-Accounts :
    (c : ClaimedJob) (budget : ℕ) (work : ClaimedWork) → Accounts (process_work c budget work)
unfolding process_work
process_work-Accounts c budget (demo_work delay) = unless_cancelled-Accounts _ after_error-Accounts
process_work-Accounts c budget (image_work width quality inputs) =
    process_inputs-Accounts c width quality budget 0 [] inputs

-- A run of a program is itself a sequence of steps of the whole queue.
pub Run-Reach :
    {c : ClaimedJob} {p : Program} {w u : World} {r : Result (Unit {0})} {start : World}
    → Run c p w r u
    → Issued c w.claims
    → Reach start w
    → Reach start u
Run-Reach done i r = r
Run-Reach {c} (other s run) i r = Run-Reach run (Step-Issued c s i) (next r s)
Run-Reach (slept run) i r = Run-Reach run i r
Run-Reach (removed run) i r = Run-Reach run i r
Run-Reach (checked now a _ run) i r = Run-Reach run i r
Run-Reach {c} {w = w} (cancelled {v = v} now d a reply run) i r =
    Run-Reach run (Reply-Issued c w v _ a reply i)
      (Reply-Reach w v _ a (λ x db' e. cancels db' c now d i e) reply r)
Run-Reach {c} {w = w} (completed {v = v} now d a reply run) i r =
    Run-Reach run (Reply-Issued c w v _ a reply i)
      (Reply-Reach w v _ a (λ x db' e. completes db' c now d i e) reply r)
Run-Reach (resized a run) i r = Run-Reach run i r
Run-Reach {c} {w = w} (encoded {v = v} now d a reply run) i r =
    Run-Reach run (Reply-Issued c w v _ a reply i)
      (Reply-Reach w v _ a (λ x db' e. encodes db' c now d i e) reply r)
Run-Reach (measured a run) i r = Run-Reach run i r
Run-Reach {c} {w = w} (progressed {v = v} {n = n} now a reply run) i r =
    Run-Reach run (Reply-Issued c w v _ a reply i)
      (Reply-Reach w v _ a (λ x db' e. progresses db' c now n i e) reply r)
Run-Reach {c} {w = w} (published {v = v} {outputs = o} now d a reply run) i r =
    Run-Reach run (Reply-Issued c w v _ a reply i)
      (Reply-Reach w v _ a (λ x db' e. publishes db' c now d o i e) reply r)
Run-Reach {c} {w = w} (failed {v = v} {kind = k} {message = m} now d a reply run) i r =
    Run-Reach run (Reply-Issued c w v _ a reply i)
      (Reply-Reach w v _ a (λ x db' e. fails db' c now d k m x i e) reply r)
