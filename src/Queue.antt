-- ===== src/Queue.antt =====
-- The operations of the job queue: claims, leases, the ways an attempt ends, cancellation, retry,
-- creation. Each takes the database before its transaction and gives the database after it; an
-- error is a rollback. `now` is CURRENT_TIMESTAMP of the transaction. The values of the claim are
-- those of crates/adapters/src/postgres.rs.
pub mod Claim
pub mod Workers
pub mod Finish
pub mod Failure
pub mod Cancel
pub mod Reclaim
pub mod Create
pub mod Publish
pub mod Order
pub mod Backoff
pub mod Outcomes
pub mod Cancellation
pub mod Replay
pub mod Retry
use task_harbor.Base.{ℕ, ◌&&◌, Bool, List, Result, ok, err, ◌==◌, is_just, is_above}
use task_harbor.Clock.{Time}
use task_harbor.Tables.{Db, ArtifactEntry, AttemptEntry, in_progress}

pub data ClaimedWork : Type 0 where
  demo_work : (delay : ℕ) → ClaimedWork
  image_work : (max_width jpeg_quality : ℕ) (inputs : List ArtifactEntry) → ClaimedWork

pub record ClaimedJob : Type 0 where
  pub job_id : ℕ
  pub attempt_id : ℕ
  pub attempt_number : ℕ
  pub max_attempts : ℕ
  pub worker_id : ℕ
  pub claim_token : ℕ
  pub lease_expires_at : Time
  pub queue_wait : ℕ
  pub work : ClaimedWork

-- The outcome of a transaction.
abbrev pub Tx : Type 0 → Type 0
Tx A = Result (A × Db)

-- The database after a call: an error rolls back.
abbrev pub commit : {A : Type 0} → Db → Tx A → Db
commit db (ok (a, db')) = db'
commit db (err e) = db

-- The fence: the WHERE clause that every write of a worker on its attempt has in common.
abbrev pub owns : ClaimedJob → Time → AttemptEntry → Bool
owns claimed now a =
    a.id == claimed.attempt_id
    && (a.job_id == claimed.job_id
        && (in_progress a.state
            && (is_just a.worker_id claimed.worker_id
                && (is_just a.claim_token claimed.claim_token && is_above a.lease_expires_at now))))
