-- ===== src/Safety/Reclaiming.antt =====
-- The invariant under the reclaim of an expired attempt.
use task_harbor.Base.{
  ℕ, ◌+◌, ◌*◌, ◌≤◌, ◌<◌, ◌≡◌, refl, subst, ap, Bool, true, false, Option, some, List, All, arith,
  bit, ◌&&◌, ok, leb, ltb, inl, inr, ◌⊎◌, Option-cases, Result-cases, Bool-cases,
}
use task_harbor.Clock.{Time, second, checked_add, whole_milliseconds}
use task_harbor.Sql.{count_rows, update_rows, find_row, first_row}
use task_harbor.Sql.Counts.{All-map}
use task_harbor.Sql.Order.{first_row_lem}
use task_harbor.Tables.{
  Db, JobEntry, AttemptEntry, is_active, is_claimable, in_progress, is_cancel_requested,
}
use task_harbor.Queue.{ClaimedJob}
use task_harbor.Queue.Claim.{last_number}
use task_harbor.Queue.Finish.{running_job, cancelling_job, cancel_job}
use task_harbor.Queue.Failure.{retry_job, fail_job, retry_backoff_seconds}
use task_harbor.Queue.Order.{expired_before-IsRowOrder}
use task_harbor.Queue.Reclaim.{
  ReclaimedAttempt, is_expired, expired_before, expires, expire_attempt, lease_expired_message,
  reclaim_job, reclaim_attempt, reclaim_next, ReclaimDisposition,
}
use task_harbor.Safety.{QueueInv, Inv, has_id, active_job}
use task_harbor.Safety.Rows.{SameJob}
use task_harbor.Safety.Updates.{end_attempt-Inv}
use task_harbor.Safety.Ending.{room_without_wait}
use task_harbor.Safety.Failing.{room_for_retry}
use task_harbor.Safety.Witness.{find_row_unique}

-- The jobs that a retry takes up.
abbrev pub retried : ℕ → Time → Time → JobEntry → Bool
retried J as_of available_at j = running_job J j && leb as_of available_at

-- What becomes of the jobs `jobs` when the attempt `a` of `job` has expired.
abbrev pub Disposed : List JobEntry → AttemptEntry → JobEntry → Time → List JobEntry → Type 0
Disposed jobs a job as_of jobs' =
    ((count_rows (cancelling_job a.job_id) jobs ≡ 1)
      × (update_rows (cancelling_job a.job_id) (cancel_job as_of) jobs ≡ jobs'))
    ⊎ ((available_at : Time) × (a.attempt_number < job.max_attempts)
        × (count_rows (retried a.job_id as_of available_at) jobs ≡ 1)
        × (update_rows (retried a.job_id as_of available_at)
              (retry_job available_at lease_expired_message) jobs
            ≡ jobs'))
    ⊎ ((count_rows (running_job a.job_id) jobs ≡ 1)
        × (update_rows (running_job a.job_id) (fail_job as_of lease_expired_message) jobs ≡ jobs'))

reclaim_job_effect :
    (db : Db) (a : AttemptEntry) (job : JobEntry) (as_of : Time) (d : ReclaimDisposition)
    (jobs' : List JobEntry)
    → reclaim_job db a job as_of ≡ ok (d, jobs')
    → Disposed db.jobs a job as_of jobs'
unfolding reclaim_job checked_add
reclaim_job_effect db a job t d jobs' e = elim (Bool-cases (is_cancel_requested job.state)) [
  | inl c ↦ inl (ground arith, ground arith)
  | inr c ↦ elim (Bool-cases (ltb a.attempt_number job.max_attempts)) [
    | inl left ↦ inr (
        inl (
          t + retry_backoff_seconds a.attempt_number * second,
          ground arith,
          ground arith,
          ground arith,
        ))
    | inr used ↦ inr (inr (ground arith, ground arith))
  ]
]

pub reclaim_attempt_effect :
    (db db' : Db) (a : AttemptEntry) (as_of : Time) (r : Option ReclaimedAttempt)
    → reclaim_attempt db a as_of ≡ ok (r, db')
    → (job : JobEntry) × (find_row (active_job a.job_id) db.jobs ≡ some job)
      × (count_rows (expires a as_of) db.attempts ≡ 1)
      × Disposed db.jobs a job as_of db'.jobs
      × (record db {
        attempts =
            update_rows
              (expires a as_of)
              (expire_attempt
                (is_cancel_requested job.state)
                as_of
                (whole_milliseconds as_of a.started_at))
              db.attempts;
        jobs = db'.jobs;
      }
          ≡ db')
unfolding reclaim_attempt
reclaim_attempt_effect db db' a t r e =
    elim (Option-cases (find_row (active_job a.job_id) db.jobs)) [
      | inl miss ↦ absurd (ground arith)
      | inr (job, hit) ↦ elim (Result-cases (reclaim_job db a job t)) [
        | inl (x, bad) ↦ absurd (ground arith)
        | inr ((d, jobs'), good) ↦
            let same : jobs' ≡ db'.jobs = ground arith in
            (
              job,
              hit,
              ground arith,
              subst (Disposed db.jobs a job t) same (reclaim_job_effect db a job t d jobs' good),
              ground arith,
            )
      ]
    ]

-- No other row has the identifier of the job that was found, so its limit is the job's.
limits :
    {closed : List ℕ} {claims : List ClaimedJob} (db : Db) (J : ℕ) (job : JobEntry)
    → Inv closed claims db
    → find_row (active_job J) db.jobs ≡ some job
    → All (λ j. j.id ≡ J → j.max_attempts ≡ job.max_attempts) db.jobs
limits {closed} {claims} db J job v hit =
    All-map (λ j. has_id J j ≡ true → j ≡ job) (λ j. j.id ≡ J → j.max_attempts ≡ job.max_attempts)
      (λ j h e. ap (λ (x : JobEntry). x.max_attempts) (h (ground arith))) db.jobs
      (find_row_unique (active_job J) (has_id J) (λ j h. ground arith) db.jobs job (v.job_ids J)
        hit)

in_progress-is_expired :
    (locked : ℕ → Bool) (jobs : List JobEntry) (as_of : Time) (a : AttemptEntry)
    → is_expired locked jobs as_of a ≡ true
    → in_progress a.state ≡ true
unfolding is_expired
in_progress-is_expired locked jobs t a h = ground arith

module _ {closed : List ℕ} {claims : List ClaimedJob} (db : Db) (a : AttemptEntry) (job : JobEntry)
    (as_of : Time) (v : Inv closed claims db)
    (hit : find_row (active_job a.job_id) db.jobs ≡ some job)
    (one_attempt : count_rows (expires a as_of) db.attempts ≡ 1)
    (last : a.attempt_number ≡ last_number a.job_id db.attempts) where
  expired : AttemptEntry → AttemptEntry
  expired =
      expire_attempt (is_cancel_requested job.state) as_of (whole_milliseconds as_of a.started_at)

  ended :
      (q : JobEntry → Bool) (g : JobEntry → JobEntry)
      → ((j : JobEntry) → q j ≡ true → (j.id ≡ a.job_id) × (is_active j.state ≡ true))
      → ((j : JobEntry) → SameJob j (g j))
      → ((j : JobEntry) → is_active (g j).state ≡ false)
      → count_rows q db.jobs ≡ 1
      → All
          (λ j.
            q j ≡ true
            → last_number j.id db.attempts + bit (is_claimable (g j).state) ≤ j.max_attempts)
          db.jobs
      → QueueInv closed claims
          (update_rows q g db.jobs)
          (update_rows (expires a as_of) expired db.attempts)
          db.next_job_id
          db.next_attempt_id
  unfolding expired expires
  ended q g of_job same inactive one left =
      end_attempt-Inv a.job_id (expires a as_of) expired q g (λ x h. ground arith) of_job
        (λ x. (refl, refl, refl, refl)) same (λ x. ground arith) inactive db.jobs db.attempts
        db.next_job_id db.next_attempt_id one_attempt one left v

  -- The rows of the queue with other jobs.
  Reclaimed : List JobEntry → Type 0
  Reclaimed jobs =
      QueueInv closed claims jobs (update_rows (expires a as_of) expired db.attempts) db.next_job_id
        db.next_attempt_id

  retried_room :
      (available_at : Time)
      → a.attempt_number < job.max_attempts
      → All
          (λ j.
            retried a.job_id as_of available_at j ≡ true
            → last_number j.id db.attempts
                + bit (is_claimable (retry_job available_at lease_expired_message j).state)
              ≤ j.max_attempts)
          db.jobs
  retried_room available_at left =
      let g = retry_job available_at lease_expired_message in
      All-map
        (λ j.
          running_job a.job_id j ≡ true
          → last_number j.id db.attempts + bit (is_claimable (g j).state) ≤ j.max_attempts)
        (λ j.
          retried a.job_id as_of available_at j ≡ true
          → last_number j.id db.attempts + bit (is_claimable (g j).state) ≤ j.max_attempts)
        (λ j h r. h (ground arith)) db.jobs
        (room_for_retry db a.job_id job.max_attempts g (omega arith) (limits db a.job_id job v hit))

  Disposed-Inv : (jobs' : List JobEntry) → Disposed db.jobs a job as_of jobs' → Reclaimed jobs'
  unfolding Reclaimed
  Disposed-Inv jobs' (inl (one, same)) = subst Reclaimed same (
      ended (cancelling_job a.job_id) (cancel_job as_of) (λ j h. ground arith) (λ j. (refl, refl))
        (λ j. refl) one (room_without_wait db _ (cancel_job as_of) (λ j. refl) v))
  Disposed-Inv jobs' (inr (inl (available_at, left, one, same))) = subst Reclaimed same (
      ended (retried a.job_id as_of available_at) (retry_job available_at lease_expired_message)
        (λ j h. ground arith) (λ j. (refl, refl)) (λ j. refl) one (retried_room available_at left))
  Disposed-Inv jobs' (inr (inr (one, same))) = subst Reclaimed same (
      ended (running_job a.job_id) (fail_job as_of lease_expired_message) (λ j h. ground arith)
        (λ j. (refl, refl)) (λ j. refl) one
        (room_without_wait db _ (fail_job as_of lease_expired_message) (λ j. refl) v))

pub reclaim_next-Inv :
    {closed : List ℕ} {claims : List ClaimedJob} (db db' : Db) (locked : ℕ → Bool) (as_of : Time)
    (r : Option ReclaimedAttempt)
    → Inv closed claims db
    → reclaim_next db locked as_of ≡ ok (r, db')
    → Inv closed claims db'
unfolding reclaim_next
reclaim_next-Inv {closed} {claims} db db' locked t r v e =
    elim (Option-cases (first_row (is_expired locked db.jobs t) expired_before db.attempts)) [
      | inl none_due ↦ let same : db ≡ db' = ground arith in subst (Inv closed claims) same v
      | inr (a, due) ↦ found a due (ground arith)
    ]
  where
    found :
        (a : AttemptEntry)
        → first_row (is_expired locked db.jobs t) expired_before db.attempts ≡ some a
        → reclaim_attempt db a t ≡ ok (r, db')
        → Inv closed claims db'
    found a due e' =
        let chosen =
          first_row_lem (is_expired locked db.jobs t) expired_before expired_before-IsRowOrder
            (λ x. in_progress x.state ≡ true → x.attempt_number ≡ last_number x.job_id db.attempts)
            db.attempts a v.current due in
        let (job, hit, one, disposed, same) = reclaim_attempt_effect db db' a t r e' in
        subst (Inv closed claims) same (
          unfold Reclaimed expired in
          Disposed-Inv db a job t v hit one
            (chosen.0 (in_progress-is_expired locked db.jobs t a chosen.1)) db'.jobs disposed)
