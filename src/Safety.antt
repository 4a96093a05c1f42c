-- ===== src/Safety.antt =====
-- What holds of the queue between two transactions: who runs what, and how often. The invariant is
-- about the rows of `jobs` and `job_attempts` and the two identity columns.
pub mod Rows
pub mod Issue
pub mod Witness
pub mod Updates
pub mod Inserts
pub mod Ending
pub mod Claiming
pub mod Failing
pub mod Reclaiming
pub mod Touching
pub mod Claims
pub mod Scheduling
pub mod Expiry
use task_harbor.Base.{
  ℕ, ◌+◌, ◌≤◌, ◌<◌, ◌≡◌, some, Bool, true, ◌&&◌, List, [], ◌∷◌, ◌⊎◌, inl, inr, subst, All, ◌==◌,
  is_just, bit,
}
use task_harbor.Sql.{count_rows}
use task_harbor.Tables.{Db, JobEntry, AttemptEntry, is_active, is_claimable, in_progress}
use task_harbor.Queue.{ClaimedJob}
use task_harbor.Queue.Claim.{last_number}

abbrev pub has_id : ℕ → JobEntry → Bool
has_id j x = x.id == j

abbrev pub active_job : ℕ → JobEntry → Bool
active_job j x = x.id == j && is_active x.state

abbrev pub for_job : ℕ → AttemptEntry → Bool
for_job j a = a.job_id == j

abbrev pub running_for : ℕ → AttemptEntry → Bool
running_for j a = a.job_id == j && in_progress a.state

abbrev pub has_attempt_id : ℕ → AttemptEntry → Bool
has_attempt_id i a = a.id == i

abbrev pub running_id : ℕ → AttemptEntry → Bool
running_id i a = a.id == i && in_progress a.state

abbrev pub has_token : ℕ → AttemptEntry → Bool
has_token t a = is_just a.claim_token t

-- What a claim says of the rows that it names, in columns that never change.
pub record ClaimRows (c : ClaimedJob) (jobs : List JobEntry) (attempts : List AttemptEntry)
    (next_job next_attempt : ℕ) : Type 0 where
  pub attempt_known : c.attempt_id < next_attempt
  pub job_known : c.job_id < next_job
  pub attempt_rows :
      All
        (λ a.
          a.id ≡ c.attempt_id
          → (a.job_id ≡ c.job_id)
            × (a.attempt_number ≡ c.attempt_number)
            × (a.claim_token ≡ some c.claim_token))
        attempts
  pub job_rows : All (λ j. j.id ≡ c.job_id → j.max_attempts ≡ c.max_attempts) jobs

-- `claims` are the claims that workers have been given so far, `closed` some attempts that are over.
pub record QueueInv (closed : List ℕ) (claims : List ClaimedJob) (jobs : List JobEntry)
    (attempts : List AttemptEntry) (next_job next_attempt : ℕ) : Type 0 where
  -- the identity columns
  pub job_ids : (j : ℕ) → count_rows (has_id j) jobs ≤ 1
  pub job_fresh : (j : ℕ) → next_job ≤ j → count_rows (has_id j) jobs ≡ 0
  pub attempt_ids : (i : ℕ) → count_rows (has_attempt_id i) attempts ≤ 1
  pub attempt_fresh : (i : ℕ) → next_attempt ≤ i → count_rows (has_attempt_id i) attempts ≡ 0
  -- the foreign key of an attempt
  pub known : (j : ℕ) → next_job ≤ j → count_rows (for_job j) attempts ≡ 0
  -- a fencing token belongs to one attempt
  pub tokens : (t : ℕ) → count_rows (has_token t) attempts ≤ 1
  -- a job is active exactly as long as an attempt of it runs, and then one does
  pub owned : (j : ℕ) → count_rows (running_for j) attempts ≡ count_rows (active_job j) jobs
  -- the attempts of a job are numbered 1, 2, ... and the running one is the last
  pub numbered : (j : ℕ) → count_rows (for_job j) attempts ≡ last_number j attempts
  pub current :
      All
        (λ a. in_progress a.state ≡ true → a.attempt_number ≡ last_number a.job_id attempts)
        attempts
  -- no job has more attempts than it may have, and one that waits has an attempt left
  pub room : All (λ j. last_number j.id attempts + bit (is_claimable j.state) ≤ j.max_attempts) jobs
  pub limit : All (λ j. 1 ≤ j.max_attempts) jobs
  -- what a worker was told of its attempt is still so
  pub issued : All (λ c. ClaimRows c jobs attempts next_job next_attempt) claims
  -- an attempt that is over does not run again
  pub retired : All (λ i. (i < next_attempt) × (count_rows (running_id i) attempts ≡ 0)) closed

abbrev pub Inv : List ℕ → List ClaimedJob → Db → Type 0
Inv closed claims db = QueueInv closed claims db.jobs db.attempts db.next_job_id db.next_attempt_id

-- The claim is one of those given to workers.
abbrev pub Issued : ClaimedJob → List ClaimedJob → Type 0
Issued c [] = ⊥
Issued c (d ∷ ds) = (d ≡ c) ⊎ Issued c ds

pub All-Issued :
    (P : ClaimedJob → Type 0) (c : ClaimedJob) (claims : List ClaimedJob)
    → All P claims
    → Issued c claims
    → P c
All-Issued P c [] a i = absurd i
All-Issued P c (d ∷ ds) a (inl e) = subst P e a.0
All-Issued P c (d ∷ ds) a (inr i) = All-Issued P c ds a.1 i
