-- ===== src/Safety/Failing.antt =====
-- The invariant under the operations after which a job may wait for a further attempt.
use task_harbor.Base.{
  ℕ, ◌+◌, ◌≤◌, ◌<◌, ◌≡◌, refl, subst, true, false, some, List, All, arith, bit, ok, String, inl,
  inr, ◌⊎◌, ◌≢◌,
}
use task_harbor.Clock.{Time, plus_seconds}
use task_harbor.Sql.{count_rows, update_rows}
use task_harbor.Sql.Counts.{All-map, All-both, count_rows_mono}
use task_harbor.Tables.{Db, JobEntry, is_active, is_claimable, in_progress}
use task_harbor.Queue.{ClaimedJob, owns}
use task_harbor.Queue.Claim.{last_number}
use task_harbor.Queue.Finish.{running_job}
use task_harbor.Queue.Failure.{
  record_failure, retry_backoff_seconds, FailureKind, FailureDisposition, error_kind_of,
  fail_attempt, retry_job, fail_job,
}
use task_harbor.Safety.{QueueInv, Inv, ClaimRows, Issued, All-Issued, has_id}
use task_harbor.Safety.Rows.{SameJob}
use task_harbor.Safety.Ending.{end_held-Inv, room_without_wait}
use task_harbor.Safety.Witness.{count_rows_witness}

-- The attempt that the claim names is the last of its job.
claim-last_number :
    {closed : List ℕ} {claims : List ClaimedJob} (db : Db) (c : ClaimedJob) (now : Time)
    → Inv closed claims db
    → ClaimRows c db.jobs db.attempts db.next_job_id db.next_attempt_id
    → count_rows (owns c now) db.attempts ≡ 1
    → last_number c.job_id db.attempts ≡ c.attempt_number
claim-last_number {closed} {claims} db c now v h one =
    let (a, held, rules) =
      count_rows_witness
        (λ a.
          (in_progress a.state ≡ true → a.attempt_number ≡ last_number a.job_id db.attempts)
          × (a.id ≡ c.attempt_id
              → (a.job_id ≡ c.job_id)
                × (a.attempt_number ≡ c.attempt_number)
                × (a.claim_token ≡ some c.claim_token)))
        (owns c now) db.attempts (All-both _ _ db.attempts v.current h.attempt_rows) one in
    ground (arith, held, rules.0, rules.1)

-- What a successful call has found and written, when the job is to be tried again and when not.
abbrev pub Retried : Db → ClaimedJob → Time → ℕ → FailureKind → String → Db → Type 0
Retried db c now d kind message db' =
    (c.attempt_number < c.max_attempts)
    × (count_rows (running_job c.job_id) db.jobs ≢ 0)
    × (record db {
      attempts =
          update_rows (owns c now) (fail_attempt now d (error_kind_of kind) message) db.attempts;
      jobs =
          update_rows (running_job c.job_id)
            (retry_job (plus_seconds now (retry_backoff_seconds c.attempt_number)) message) db.jobs;
    }
        ≡ db')

abbrev pub GivenUp : Db → ClaimedJob → Time → ℕ → FailureKind → String → Db → Type 0
GivenUp db c now d kind message db' =
    (count_rows (running_job c.job_id) db.jobs ≡ 1)
    × (record db {
      attempts =
          update_rows (owns c now) (fail_attempt now d (error_kind_of kind) message) db.attempts;
      jobs = update_rows (running_job c.job_id) (fail_job now message) db.jobs;
    }
        ≡ db')

pub record_failure_effect :
    (db db' : Db) (c : ClaimedJob) (now : Time) (d : ℕ) (kind : FailureKind) (message : String)
    (result : FailureDisposition)
    → record_failure db c now d kind message ≡ ok (result, db')
    → (count_rows (owns c now) db.attempts ≡ 1)
      × (Retried db c now d kind message db' ⊎ GivenUp db c now d kind message db')
unfolding record_failure
record_failure_effect db db' c now d kind message result e = ground arith

one_running_job :
    {closed : List ℕ} {claims : List ClaimedJob} (db : Db) (J : ℕ)
    → Inv closed claims db
    → count_rows (running_job J) db.jobs ≢ 0
    → count_rows (running_job J) db.jobs ≡ 1
one_running_job {closed} {claims} db J v some_row =
    omega
      (arith, v.job_ids J, count_rows_mono (running_job J) (has_id J) (λ j h. ground arith) db.jobs)

-- An attempt is left to a job whose last attempt is not the last that it may have.
pub room_for_retry :
    (db : Db) (J limit : ℕ) (g : JobEntry → JobEntry)
    → last_number J db.attempts < limit
    → All (λ j. j.id ≡ J → j.max_attempts ≡ limit) db.jobs
    → All
        (λ j.
          running_job J j ≡ true
          → last_number j.id db.attempts + bit (is_claimable (g j).state) ≤ j.max_attempts)
        db.jobs
room_for_retry db J limit g left limits =
    All-map (λ j. j.id ≡ J → j.max_attempts ≡ limit)
      (λ j.
        running_job J j ≡ true
        → last_number j.id db.attempts + bit (is_claimable (g j).state) ≤ j.max_attempts)
      (λ j h r. room j (ground arith) (h (ground arith))) db.jobs limits
  where
    room :
        (j : JobEntry)
        → j.id ≡ J
        → j.max_attempts ≡ limit
        → last_number j.id db.attempts + bit (is_claimable (g j).state) ≤ j.max_attempts
    room j same most = ground (arith, same, most, left)

pub record_failure-Inv :
    {closed : List ℕ} {claims : List ClaimedJob} (db db' : Db) (claimed : ClaimedJob) (now : Time)
    (duration_ms : ℕ) (kind : FailureKind) (message : String) (result : FailureDisposition)
    → Inv closed claims db
    → Issued claimed claims
    → record_failure db claimed now duration_ms kind message ≡ ok (result, db')
    → Inv closed claims db'
record_failure-Inv {closed} {claims} db db' c now d kind message result v i e =
    let h =
      All-Issued (λ x. ClaimRows x db.jobs db.attempts db.next_job_id db.next_attempt_id) c claims
        v.issued i in
    let effect = record_failure_effect db db' c now d kind message result e in
    elim effect.1 [
      | inl (left, some_job, same) ↦
          let g = retry_job (plus_seconds now (retry_backoff_seconds c.attempt_number)) message in
          subst (Inv closed claims) same (
            ended g (λ j. (refl, refl)) (λ j. refl) effect.0
              (one_running_job db c.job_id v some_job)
              (room_for_retry db c.job_id c.max_attempts g
                (omega (arith, claim-last_number db c now v h effect.0)) h.job_rows))
      | inr (one_job, same) ↦
          let g = fail_job now message in
          subst (Inv closed claims) same (
            ended g (λ j. (refl, refl)) (λ j. refl) effect.0 one_job
              (room_without_wait db (running_job c.job_id) g (λ j. refl) v))
    ]
  where
    ended :
        (g : JobEntry → JobEntry)
        → ((j : JobEntry) → SameJob j (g j))
        → ((j : JobEntry) → is_active (g j).state ≡ false)
        → count_rows (owns c now) db.attempts ≡ 1
        → count_rows (running_job c.job_id) db.jobs ≡ 1
        → All
            (λ j.
              running_job c.job_id j ≡ true
              → last_number j.id db.attempts + bit (is_claimable (g j).state) ≤ j.max_attempts)
            db.jobs
        → QueueInv closed claims
            (update_rows (running_job c.job_id) g db.jobs)
            (update_rows (owns c now) (fail_attempt now d (error_kind_of kind) message) db.attempts)
            db.next_job_id
            db.next_attempt_id
    ended g same inactive a j left =
        end_held-Inv db c now (fail_attempt now d (error_kind_of kind) message)
          (running_job c.job_id) g (λ j h. ground arith) (λ a. (refl, refl, refl, refl)) same
          (λ a. refl) inactive a j left v
