-- ===== src/Queue/Outcomes.antt =====
-- What becomes of a job that fails or is completed, and that the claim is used up by the end of the
-- attempt.
use task_harbor.Base.{
  ℕ, ◌+◌, ◌≤◌, ◌≡◌, refl, Bool, true, false, ◌&&◌, ◌==◌, ◌⊎◌, inl, inr, List, arith, ok, err,
  claim_lost, String, Bool-cases, ltb,
}
use task_harbor.Clock.{Time, plus_seconds}
use task_harbor.Core.{JobStatus, i32_max, i64_max}
use task_harbor.Sql.{count_rows, update_rows}
use task_harbor.Sql.Counts.{count_rows-update}
use task_harbor.Tables.{Db, JobEntry, is_demo, plain}
use task_harbor.Queue.{ClaimedJob, owns}
use task_harbor.Queue.Finish.{complete, succeed_attempt, succeed_job, running_job, is_demo_work}
use task_harbor.Queue.Failure.{
  FailureKind, FailureDisposition, record_failure, retry_scheduled, failed, retry_backoff_seconds,
  is_transient, fail_attempt, retry_job, fail_job, error_kind_of,
}

abbrev pub has_state : ℕ → (JobStatus → Bool) → JobEntry → Bool
has_state job_id p j = j.id == job_id && p j.state

abbrev pub is_retry_waiting : JobStatus → Bool
is_retry_waiting JobStatus.retry_waiting = true
is_retry_waiting _ = false

abbrev pub is_failed : JobStatus → Bool
is_failed JobStatus.failed = true
is_failed _ = false

abbrev pub is_succeeded : JobStatus → Bool
is_succeeded JobStatus.succeeded = true
is_succeeded _ = false

-- Each row that is updated was selected and is not any more.
used_up {ℓ} :
    {A : Type ℓ} (p : A → Bool) (f : A → A)
    → ((x : A) → p x ≡ true → p (f x) ≡ false)
    → (xs : List A) → count_rows p (update_rows p f xs) ≡ 0
used_up p f h xs = omega (arith, count_rows-update p p f true false (λ x e. (e, h x e)) xs)

moved {ℓ} :
    {A : Type ℓ} (p q : A → Bool) (f : A → A)
    → ((x : A) → p x ≡ true → (q x ≡ false) × (q (f x) ≡ true))
    → (xs : List A) → count_rows q (update_rows p f xs) ≡ count_rows q xs + count_rows p xs
moved p q f h xs = omega (arith, count_rows-update p q f false true h xs)

backoff_fits : (n : ℕ) → retry_backoff_seconds n ≤ i32_max
unfolding retry_backoff_seconds
backoff_fits n = omega arith

-- A worker that holds its attempt of a running job, and reports a failure with a duration in the
-- range of BIGINT, is always answered. For a transient failure with attempts left the answer is a
-- retry at the end of the backoff, and one more row of the job waits for a retry; for any other
-- failure the answer is that the job has failed, and one more row of it has. In both cases the
-- claim holds no attempt at that time any more.
pub record_failure-decides :
    (db : Db) (c : ClaimedJob) (now : Time) (duration_ms : ℕ) (kind : FailureKind)
    (message : String)
    → count_rows (owns c now) db.attempts ≡ 1
    → count_rows (running_job c.job_id) db.jobs ≡ 1
    → duration_ms ≤ i64_max
    → (r : FailureDisposition) × (db' : Db) × (record_failure db c now duration_ms kind message
        ≡ ok (r, db'))
      × (count_rows (owns c now) db'.attempts ≡ 0)
      × (((is_transient kind && ltb c.attempt_number c.max_attempts) ≡ true)
            × (r ≡ retry_scheduled (plus_seconds now (retry_backoff_seconds c.attempt_number)))
            × (count_rows (has_state c.job_id is_retry_waiting) db'.jobs
                ≡ count_rows (has_state c.job_id is_retry_waiting) db.jobs + 1)
          ⊎ ((is_transient kind && ltb c.attempt_number c.max_attempts) ≡ false)
            × (r ≡ failed)
            × (count_rows (has_state c.job_id is_failed) db'.jobs
                ≡ count_rows (has_state c.job_id is_failed) db.jobs + 1))
unfolding record_failure
record_failure-decides db c now d kind m held runs fits =
    let at = plus_seconds now (retry_backoff_seconds c.attempt_number) in
    let attempts' =
      update_rows (owns c now) (fail_attempt now d (error_kind_of kind) m) db.attempts in
    let over =
      used_up (owns c now) (fail_attempt now d (error_kind_of kind) m) (λ a h. ground arith)
        db.attempts in
    elim (Bool-cases (is_transient kind && ltb c.attempt_number c.max_attempts)) [
      | inl again ↦ (
        retry_scheduled at,
        record db {
          attempts = attempts';
          jobs = update_rows (running_job c.job_id) (retry_job at m) db.jobs;
        },
        ground (arith, backoff_fits c.attempt_number),
        over,
        inl (
          again,
          refl,
          omega (
            arith,
            runs,
            moved (running_job c.job_id) (has_state c.job_id is_retry_waiting) (retry_job at m)
                (λ j h. ground arith) db.jobs,
          ),
        ),
      )
      | inr ends ↦ (
        failed,
        record db {
          attempts = attempts';
          jobs = update_rows (running_job c.job_id) (fail_job now m) db.jobs;
        },
        ground arith,
        over,
        inr (
          ends,
          refl,
          omega (
            arith,
            runs,
            moved (running_job c.job_id) (has_state c.job_id is_failed) (fail_job now m)
                (λ j h. ground arith) db.jobs,
          ),
        ),
      )
    ]

-- A worker that holds its attempt of a running demo job, and completes it with a duration in the
-- range of BIGINT, succeeds: one more row of the job has succeeded, the claim holds no attempt at
-- that time any more, and a second completion at that time loses the claim.
pub complete-once :
    (db : Db) (c : ClaimedJob) (now : Time) (duration_ms : ℕ)
    → is_demo_work c.work ≡ true
    → count_rows (owns c now) db.attempts ≡ 1
    → count_rows (λ j. running_job c.job_id j && is_demo j.job_type) db.jobs ≡ 1
    → duration_ms ≤ i64_max
    → (db' : Db) × (complete db c now duration_ms ≡ ok (tt, db'))
      × (count_rows (has_state c.job_id is_succeeded) db'.jobs
          ≡ count_rows (has_state c.job_id is_succeeded) db.jobs + 1)
      × (count_rows (owns c now) db'.attempts ≡ 0)
      × (complete db' c now duration_ms ≡ err claim_lost)
unfolding complete
complete-once db c now d work held runs fits =
    let over = used_up (owns c now) (succeed_attempt now d) (λ a h. ground arith) db.attempts in
    (
      record db {
        attempts = update_rows (owns c now) (succeed_attempt now d) db.attempts;
        jobs =
            update_rows (λ j. running_job c.job_id j && is_demo j.job_type)
              (succeed_job now d (plain "demo delay completed")) db.jobs;
      },
      ground arith,
      omega (
        arith,
        runs,
        moved (λ j. running_job c.job_id j && is_demo j.job_type) (has_state c.job_id is_succeeded)
            (succeed_job now d (plain "demo delay completed")) (λ j h. ground arith) db.jobs,
      ),
      over,
      ground (arith, over),
    )
