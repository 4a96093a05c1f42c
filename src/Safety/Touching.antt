-- ===== src/Safety/Touching.antt =====
-- The invariant under the operations that end no attempt and start none: progress, encoding time,
-- the renewal of a lease, a request for cancellation, the workers, and new jobs.
use task_harbor.Base.{
  ℕ, ◌+◌, ◌≤◌, ◌≡◌, refl, subst, Bool, Option, some, List, arith, ◌&&◌, ok, inl, inr, ◌⊎◌,
  Option-cases,
}
use task_harbor.Clock.{Time}
use task_harbor.Sql.{update_rows, insert_row}
use task_harbor.Sql.Counts.{find_row-All}
use task_harbor.Tables.{Db, JobEntry, AttemptEntry}
use task_harbor.Core.{JobName}
use task_harbor.Queue.{ClaimedJob, owns}
use task_harbor.Queue.Finish.{running_job, fits, update_progress, record_encoding_duration}
use task_harbor.Queue.Workers.{
  WorkerRegistration, WorkerRecord, register_worker_at, heartbeat_worker_at, stop_worker,
  renew_lease,
}
use task_harbor.Queue.Cancel.{
  request_cancel, request_cancel_row, owned_job, is_cancellable, manual_retry, retried_job, get_job,
}
use task_harbor.Queue.Create.{
  create, NewImageJob, create_image_job, insert_image_job, fresh_job, image_job,
}
use task_harbor.Safety.{QueueInv, Inv}
use task_harbor.Safety.Updates.{touch_attempts-Inv, touch_jobs-Inv}
use task_harbor.Safety.Inserts.{insert_job-Inv}

pub update_progress-Inv :
    {closed : List ℕ} {claims : List ClaimedJob} (db db' : Db) (claimed : ClaimedJob) (now : Time)
    (completed : ℕ)
    → Inv closed claims db
    → update_progress db claimed now completed ≡ ok (tt, db')
    → Inv closed claims db'
unfolding update_progress
update_progress-Inv {closed} {claims} db db' c now n v e = subst (Inv closed claims) same touched
  where
    owned : AttemptEntry → Bool
    owned a = owns c now a && fits n a.progress_completed a.progress_total

    selected : JobEntry → Bool
    selected j = running_job c.job_id j && fits n j.progress_completed j.progress_total

    same :
        record db {
          attempts = update_rows owned (λ a. record a { progress_completed = n }) db.attempts;
          jobs = update_rows selected (λ j. record j { progress_completed = n }) db.jobs;
        }
        ≡ db'
    same = ground arith

    touched :
        QueueInv closed claims
          (update_rows selected (λ j. record j { progress_completed = n }) db.jobs)
          (update_rows owned (λ a. record a { progress_completed = n }) db.attempts)
          db.next_job_id
          db.next_attempt_id
    touched =
        touch_jobs-Inv selected (λ j. record j { progress_completed = n }) (λ j. (refl, refl))
          (λ j. refl) (λ j. omega arith) db.jobs _ db.next_job_id db.next_attempt_id
          (touch_attempts-Inv owned (λ a. record a { progress_completed = n })
            (λ a. (refl, refl, refl, refl)) (λ a. refl) db.jobs db.attempts db.next_job_id
            db.next_attempt_id v)

pub record_encoding_duration-Inv :
    {closed : List ℕ} {claims : List ClaimedJob} (db db' : Db) (claimed : ClaimedJob) (now : Time)
    (duration_ms : ℕ)
    → Inv closed claims db
    → record_encoding_duration db claimed now duration_ms ≡ ok (tt, db')
    → Inv closed claims db'
unfolding record_encoding_duration
record_encoding_duration-Inv {closed} {claims} db db' c now d v e = subst (Inv closed claims) same (
    touch_attempts-Inv (owns c now)
      (λ a. record a { encoding_duration_ms = a.encoding_duration_ms + d })
      (λ a. (refl, refl, refl, refl)) (λ a. refl) db.jobs db.attempts db.next_job_id
      db.next_attempt_id v)
  where
    same :
        record db {
          attempts =
              update_rows
                (owns c now)
                (λ a. record a { encoding_duration_ms = a.encoding_duration_ms + d })
                db.attempts;
        }
        ≡ db'
    same = ground arith

pub renew_lease-Inv :
    {closed : List ℕ} {claims : List ClaimedJob} (db db' : Db) (claimed : ClaimedJob)
    (as_of expires : Time)
    → Inv closed claims db
    → renew_lease db claimed as_of ≡ ok (expires, db')
    → Inv closed claims db'
unfolding renew_lease
renew_lease-Inv {closed} {claims} db db' c t expires v e = subst (Inv closed claims) same (
    touch_attempts-Inv (owns c t) (λ a. record a { lease_expires_at = some expires })
      (λ a. (refl, refl, refl, refl)) (λ a. refl) db.jobs db.attempts db.next_job_id
      db.next_attempt_id v)
  where
    same :
        record db {
          attempts =
              update_rows
                (owns c t)
                (λ a. record a { lease_expires_at = some expires })
                db.attempts;
        }
        ≡ db'
    same = ground arith

pub request_cancel-Inv :
    {closed : List ℕ} {claims : List ClaimedJob} (db db' : Db) (job_id : ℕ) (owner : Option ℕ)
    (now : Time) (r : Option JobEntry)
    → Inv closed claims db
    → request_cancel db job_id owner now ≡ ok (r, db')
    → Inv closed claims db'
unfolding request_cancel
request_cancel-Inv {closed} {claims} db db' J owner now r v e = elim outcome [
  | inl same ↦ subst (Inv closed claims) same v
  | inr same ↦ subst (Inv closed claims) same (
      touch_jobs-Inv selected (request_cancel_row now) (λ j. (refl, refl)) (λ j. ground arith)
        (λ j. ground arith) db.jobs db.attempts db.next_job_id db.next_attempt_id v)
]
  where
    selected : JobEntry → Bool
    selected j = owned_job J owner j && is_cancellable j.state

    outcome :
        (db ≡ db')
        ⊎ (record db { jobs = update_rows selected (request_cancel_row now) db.jobs } ≡ db')
    outcome = ground arith

-- The workers' own rows are no part of the invariant.
workers_apart :
    {closed : List ℕ} {claims : List ClaimedJob} (db db' : Db)
    → Inv closed claims db
    → record db { workers = db'.workers } ≡ db'
    → Inv closed claims db'
workers_apart {closed} {claims} db db' v same = subst (Inv closed claims) same v

pub register-Inv :
    {closed : List ℕ} {claims : List ClaimedJob} (db db' : Db) (registration : WorkerRegistration)
    (as_of now : Time) (r : WorkerRecord)
    → Inv closed claims db
    → register_worker_at db registration as_of now ≡ ok (r, db')
    → Inv closed claims db'
unfolding register_worker_at
register-Inv db db' registration as_of now r v e = workers_apart db db' v (ground arith)

pub heartbeat-Inv :
    {closed : List ℕ} {claims : List ClaimedJob} (db db' : Db) (worker_id ttl : ℕ) (as_of t : Time)
    → Inv closed claims db
    → heartbeat_worker_at db worker_id ttl as_of ≡ ok (t, db')
    → Inv closed claims db'
unfolding heartbeat_worker_at
heartbeat-Inv db db' w ttl as_of t v e = workers_apart db db' v (ground arith)

pub stop-Inv :
    {closed : List ℕ} {claims : List ClaimedJob} (db db' : Db) (worker_id : ℕ) (now : Time)
    → Inv closed claims db
    → stop_worker db worker_id now ≡ ok (tt, db')
    → Inv closed claims db'
unfolding stop_worker
stop-Inv db db' w now v e = workers_apart db db' v (ground arith)

pub create-Inv :
    {closed : List ℕ} {claims : List ClaimedJob} (db db' : Db) (name : JobName) (now : Time)
    (j : JobEntry)
    → Inv closed claims db
    → create db name now ≡ ok (j, db')
    → Inv closed claims db'
unfolding create
create-Inv {closed} {claims} db db' name now j v e = subst (Inv closed claims) same (
    insert_job-Inv (fresh_job db.next_job_id name.as_str now) db.jobs db.attempts db.next_job_id
      db.next_attempt_id refl refl (omega arith) v)
  where
    same :
        record db {
          jobs = insert_row (fresh_job db.next_job_id name.as_str now) db.jobs;
          next_job_id = db.next_job_id + 1;
        }
        ≡ db'
    same = ground arith

insert_image_job-Inv :
    {closed : List ℕ} {claims : List ClaimedJob} (db db' : Db) (request : NewImageJob) (now : Time)
    (j : JobEntry)
    → Inv closed claims db
    → insert_image_job db request now ≡ ok (j, db')
    → Inv closed claims db'
unfolding insert_image_job
insert_image_job-Inv {closed} {claims} db db' r now j v e = subst (Inv closed claims) same (
    insert_job-Inv (image_job db.next_job_id r now) db.jobs db.attempts db.next_job_id
      db.next_attempt_id refl refl (omega arith) v)
  where
    same :
        record db {
          jobs = insert_row (image_job db.next_job_id r now) db.jobs;
          next_job_id = db.next_job_id + 1;
          artifacts = db'.artifacts;
          next_artifact_id = db'.next_artifact_id;
        }
        ≡ db'
    same = ground arith

pub create_image_job-Inv :
    {closed : List ℕ} {claims : List ClaimedJob} (db db' : Db) (request : NewImageJob) (now : Time)
    (j : JobEntry)
    → Inv closed claims db
    → create_image_job db request now ≡ ok (j, db')
    → Inv closed claims db'
unfolding create_image_job
create_image_job-Inv {closed} {claims} db db' r now j v e = elim outcome [
  | inl same ↦ subst (Inv closed claims) same v
  | inr made ↦ insert_image_job-Inv db db' r now j v made
]
  where
    outcome : (db ≡ db') ⊎ (insert_image_job db r now ≡ ok (j, db'))
    outcome = ground arith

pub manual_retry-Inv :
    {closed : List ℕ} {claims : List ClaimedJob} (db db' : Db) (job_id : ℕ) (owner : Option ℕ)
    (now : Time) (r : Option JobEntry)
    → Inv closed claims db
    → manual_retry db job_id owner now ≡ ok (r, db')
    → Inv closed claims db'
unfolding manual_retry
manual_retry-Inv {closed} {claims} db db' J owner now r v e =
    elim (Option-cases (get_job db J owner)) [
      | inl missing ↦ let same : db ≡ db' = ground arith in subst (Inv closed claims) same v
      | inr (source, hit) ↦
          let same : record db {
            jobs = insert_row (retried_job db.next_job_id now source) db.jobs;
            next_job_id = db.next_job_id + 1;
            artifacts = db'.artifacts;
            next_artifact_id = db'.next_artifact_id;
          }
              ≡ db' =
            ground arith in
          subst (Inv closed claims) same (
            insert_job-Inv (retried_job db.next_job_id now source) db.jobs db.attempts
              db.next_job_id db.next_attempt_id refl refl
              (find_row-All (λ j. 1 ≤ j.max_attempts) (owned_job J owner) db.jobs v.limit
                (unfold get_job in hit)).0
              v)
    ]
