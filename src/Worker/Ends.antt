-- ===== src/Worker/Ends.antt =====
-- When the worker's processing of a job is over, so is its attempt.
use task_harbor.Base.{ℕ, ◌≤◌, ◌≡◌, inl, inr, refl, subst, true, false, ok, List, arith, String}
use task_harbor.Clock.{Time}
use task_harbor.Sql.{count_rows, update_rows}
use task_harbor.Sql.Counts.{count_rows-update, count_rows_mono}
use task_harbor.Tables.{Db, AttemptEntry, in_progress}
use task_harbor.Queue.{ClaimedJob, owns}
use task_harbor.Queue.Finish.{complete, finish_cancelled}
use task_harbor.Queue.Failure.{record_failure, FailureKind, FailureDisposition}
use task_harbor.Queue.Publish.{complete_image_job, PendingOutputArtifact}
use task_harbor.Safety.{Inv, running_id, has_attempt_id}
use task_harbor.Safety.Ending.{complete_effect, complete_image_job_effect, finish_cancelled_effect}
use task_harbor.Safety.Failing.{record_failure_effect}

-- No attempt of the claim's identifier runs.
abbrev pub Over : ClaimedJob → Db → Type 0
Over c db = count_rows (running_id c.attempt_id) db.attempts ≡ 0

ended :
    (c : ClaimedJob) (now : Time) (f : AttemptEntry → AttemptEntry) (attempts : List AttemptEntry)
    → ((a : AttemptEntry) → in_progress (f a).state ≡ false)
    → count_rows (has_attempt_id c.attempt_id) attempts ≤ 1
    → count_rows (owns c now) attempts ≡ 1
    → count_rows (running_id c.attempt_id) (update_rows (owns c now) f attempts) ≡ 0
ended c now f attempts stops unique one = omega (
  arith,
  count_rows-update (owns c now) (running_id c.attempt_id) f true false
      (λ a h. (ground arith, ground (arith, stops a))) attempts,
  count_rows_mono (running_id c.attempt_id) (has_attempt_id c.attempt_id) (λ a h. ground arith)
      attempts,
  unique,
  one,
)

module _ {closed : List ℕ} {claims : List ClaimedJob} (db db' : Db) (c : ClaimedJob) (now : Time)
    (d : ℕ) (v : Inv closed claims db) where
  pub complete-Over : complete db c now d ≡ ok (tt, db') → Over c db'
  complete-Over e =
      let effect = complete_effect db db' c now d e in
      subst (Over c) effect.2
        (ended c now _ db.attempts (λ a. refl) (v.attempt_ids c.attempt_id) effect.0)

  pub finish_cancelled-Over : finish_cancelled db c now d ≡ ok (tt, db') → Over c db'
  finish_cancelled-Over e =
      let effect = finish_cancelled_effect db db' c now d e in
      subst (Over c) effect.2
        (ended c now _ db.attempts (λ a. refl) (v.attempt_ids c.attempt_id) effect.0)

  pub complete_image_job-Over :
      (outputs : List PendingOutputArtifact)
      → complete_image_job db c now d outputs ≡ ok (tt, db')
      → Over c db'
  complete_image_job-Over outputs e =
      let (_, _, _, one, _, effect) = complete_image_job_effect db db' c now d outputs e in
      subst (Over c) effect (ended c now _ db.attempts (λ a. refl) (v.attempt_ids c.attempt_id) one)

  pub record_failure-Over :
      (kind : FailureKind) (message : String) (result : FailureDisposition)
      → record_failure db c now d kind message ≡ ok (result, db')
      → Over c db'
  record_failure-Over kind message result e =
      let effect = record_failure_effect db db' c now d kind message result e in
      let over = ended c now _ db.attempts (λ a. refl) (v.attempt_ids c.attempt_id) effect.0 in
      elim effect.1 [
        | inl retried ↦ subst (Over c) retried.2 over
        | inr given_up ↦ subst (Over c) given_up.1 over
      ]
