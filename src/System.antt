-- ===== src/System.antt =====
-- The whole queue: the database and the claims that workers hold, and what may happen to them. The
-- API, the workers and the clock choose the next transaction, its arguments and its time; a worker
-- writes with any claim that it was once given, stale or not.
pub mod Reachable
pub mod Fencing
pub mod Choice
pub mod Keys
pub mod Keeping
pub mod Replay
use task_harbor.Base.{ℕ, ◌≡◌, Bool, Option, none, some, List, [], ◌∷◌, ok, String}
use task_harbor.Clock.{Time}
use task_harbor.Core.{JobName, Text}
use task_harbor.Tables.{Db, JobEntry}
use task_harbor.Queue.{ClaimedJob}
use task_harbor.Queue.Claim.{claim_next}
use task_harbor.Queue.Workers.{
  WorkerRegistration, WorkerRecord, register_worker_at, heartbeat_worker_at, stop_worker,
  renew_lease,
}
use task_harbor.Queue.Finish.{complete, update_progress, record_encoding_duration, finish_cancelled}
use task_harbor.Queue.Failure.{FailureKind, FailureDisposition, record_failure}
use task_harbor.Queue.Cancel.{request_cancel, manual_retry}
use task_harbor.Queue.Reclaim.{ReclaimedAttempt, reclaim_next}
use task_harbor.Queue.Create.{create, NewImageJob, create_image_job}
use task_harbor.Queue.Publish.{PendingOutputArtifact, complete_image_job}
use task_harbor.Schedule.Store.{Store}
use task_harbor.Schedule.Materialize.{ScheduleTick, materialize_next_schedule}
use task_harbor.Maintenance.{Retained, expire_output_artifacts}
use task_harbor.Safety.{Issued}

pub record World : Type 0 where
  pub db : Db
  pub claims : List ClaimedJob

abbrev pub with_db : World → Db → World
with_db w db' = record { db = db'; claims = w.claims }

-- A committed transaction. One that fails changes nothing and is no step.
pub data Step (w : World) : World → Type 0 where
  creates :
      (db' : Db) (name : JobName) (now : Time) (j : JobEntry)
      → create w.db name now ≡ ok (j, db')
      → Step w (with_db w db')
  creates_image :
      (db' : Db) (request : NewImageJob) (now : Time) (j : JobEntry)
      → create_image_job w.db request now ≡ ok (j, db')
      → Step w (with_db w db')
  requests_cancel :
      (db' : Db) (job_id : ℕ) (owner : Option ℕ) (now : Time) (r : Option JobEntry)
      → request_cancel w.db job_id owner now ≡ ok (r, db')
      → Step w (with_db w db')
  retries :
      (db' : Db) (job_id : ℕ) (owner : Option ℕ) (now : Time) (r : Option JobEntry)
      → manual_retry w.db job_id owner now ≡ ok (r, db')
      → Step w (with_db w db')
  registers :
      (db' : Db) (registration : WorkerRegistration) (as_of now : Time) (r : WorkerRecord)
      → register_worker_at w.db registration as_of now ≡ ok (r, db')
      → Step w (with_db w db')
  beats :
      (db' : Db) (worker_id ttl : ℕ) (as_of t : Time)
      → heartbeat_worker_at w.db worker_id ttl as_of ≡ ok (t, db')
      → Step w (with_db w db')
  stops :
      (db' : Db) (worker_id : ℕ) (now : Time)
      → stop_worker w.db worker_id now ≡ ok (tt, db')
      → Step w (with_db w db')
  claims_job :
      (db' : Db) (locked : ℕ → Bool) (worker_id : ℕ) (t : Time) (token : ℕ) (c : ClaimedJob)
      → claim_next w.db locked worker_id t token ≡ ok (some c, db')
      → Step w (record { db = db'; claims = c ∷ w.claims })
  finds_no_job :
      (db' : Db) (locked : ℕ → Bool) (worker_id : ℕ) (t : Time) (token : ℕ)
      → claim_next w.db locked worker_id t token ≡ ok (none, db')
      → Step w (with_db w db')
  renews :
      (db' : Db) (c : ClaimedJob) (t expires : Time)
      → Issued c w.claims
      → renew_lease w.db c t ≡ ok (expires, db')
      → Step w (with_db w db')
  progresses :
      (db' : Db) (c : ClaimedJob) (now : Time) (completed : ℕ)
      → Issued c w.claims
      → update_progress w.db c now completed ≡ ok (tt, db')
      → Step w (with_db w db')
  encodes :
      (db' : Db) (c : ClaimedJob) (now : Time) (duration_ms : ℕ)
      → Issued c w.claims
      → record_encoding_duration w.db c now duration_ms ≡ ok (tt, db')
      → Step w (with_db w db')
  completes :
      (db' : Db) (c : ClaimedJob) (now : Time) (duration_ms : ℕ)
      → Issued c w.claims
      → complete w.db c now duration_ms ≡ ok (tt, db')
      → Step w (with_db w db')
  publishes :
      (db' : Db) (c : ClaimedJob) (now : Time) (duration_ms : ℕ)
      (outputs : List PendingOutputArtifact)
      → Issued c w.claims
      → complete_image_job w.db c now duration_ms outputs ≡ ok (tt, db')
      → Step w (with_db w db')
  cancels :
      (db' : Db) (c : ClaimedJob) (now : Time) (duration_ms : ℕ)
      → Issued c w.claims
      → finish_cancelled w.db c now duration_ms ≡ ok (tt, db')
      → Step w (with_db w db')
  fails :
      (db' : Db) (c : ClaimedJob) (now : Time) (duration_ms : ℕ) (kind : FailureKind)
      (message : String) (result : FailureDisposition)
      → Issued c w.claims
      → record_failure w.db c now duration_ms kind message ≡ ok (result, db')
      → Step w (with_db w db')
  reclaims :
      (db' : Db) (locked : ℕ → Bool) (as_of : Time) (r : Option ReclaimedAttempt)
      → reclaim_next w.db locked as_of ≡ ok (r, db')
      → Step w (with_db w db')
  materializes :
      (s s' : Store) (locked : ℕ → Bool) (as_of now : Time) (r : Option ScheduleTick)
      → s.queue ≡ w.db
      → materialize_next_schedule s locked as_of now ≡ ok (r, s')
      → Step w (with_db w s'.queue)
  expires_outputs :
      (m m' : Retained) (retention : ℕ) (now : Time) (keys : List Text)
      → m.queue ≡ w.db
      → expire_output_artifacts m retention now ≡ ok (keys, m')
      → Step w (with_db w m'.queue)

pub data Reach (start : World) : World → Type 0 where
  here : Reach start start
  next : {w u : World} → Reach start w → Step w u → Reach start u

-- The database behind the migrations: no job, no attempt, no worker, no artifact.
abbrev pub initial : World
initial = record {
  db = record {
    jobs = [];
    attempts = [];
    workers = [];
    artifacts = [];
    next_job_id = 1;
    next_attempt_id = 1;
    next_artifact_id = 1;
  };
  claims = [];
}
