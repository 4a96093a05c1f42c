-- ===== src/Safety/Ending.antt =====
-- The invariant under the operations that end an attempt.
use task_harbor.Base.{
  ℕ, ◌+◌, ◌≤◌, ◌≡◌, refl, subst, Bool, true, false, Option, none, some, List, All, arith, bit, ◌&&◌,
  ok, length,
}
use task_harbor.Clock.{Time}
use task_harbor.Sql.{count_rows, update_rows}
use task_harbor.Sql.Counts.{All-map}
use task_harbor.Tables.{
  Db, JobEntry, AttemptEntry, ArtifactEntry, plain, resized, is_active, is_claimable, in_progress,
  is_demo, is_image,
}
use task_harbor.Queue.{ClaimedJob, owns}
use task_harbor.Queue.Claim.{last_number}
use task_harbor.Queue.Finish.{
  running_job, cancelling_job, complete, finish_cancelled, succeed_attempt, succeed_job,
  cancel_attempt, cancel_job,
}
use task_harbor.Queue.Publish.{PendingOutputArtifact, image_inputs, complete_image_job}
use task_harbor.Safety.{QueueInv, Inv}
use task_harbor.Safety.Rows.{SameAttempt, SameJob}
use task_harbor.Safety.Updates.{end_attempt-Inv}

-- A job that no longer waits needs no room for a further attempt.
pub room_without_wait :
    {closed : List ℕ} {claims : List ClaimedJob} (db : Db) (q : JobEntry → Bool)
    (g : JobEntry → JobEntry)
    → ((j : JobEntry) → is_claimable (g j).state ≡ false)
    → Inv closed claims db
    → All
        (λ j.
          q j ≡ true
          → last_number j.id db.attempts + bit (is_claimable (g j).state) ≤ j.max_attempts)
        db.jobs
room_without_wait {closed} {claims} db q g stays v =
    All-map (λ j. last_number j.id db.attempts + bit (is_claimable j.state) ≤ j.max_attempts)
      (λ j.
        q j ≡ true → last_number j.id db.attempts + bit (is_claimable (g j).state) ≤ j.max_attempts)
      (λ j h _. ground (arith, stays j, h)) db.jobs v.room

-- The worker that holds the claim ends its attempt together with the job.
pub end_held-Inv :
    {closed : List ℕ} {claims : List ClaimedJob} (db : Db) (c : ClaimedJob) (now : Time)
    (f : AttemptEntry → AttemptEntry) (q : JobEntry → Bool) (g : JobEntry → JobEntry)
    → ((j : JobEntry) → q j ≡ true → (j.id ≡ c.job_id) × (is_active j.state ≡ true))
    → ((a : AttemptEntry) → SameAttempt a (f a))
    → ((j : JobEntry) → SameJob j (g j))
    → ((a : AttemptEntry) → in_progress (f a).state ≡ false)
    → ((j : JobEntry) → is_active (g j).state ≡ false)
    → count_rows (owns c now) db.attempts ≡ 1
    → count_rows q db.jobs ≡ 1
    → All
        (λ j.
          q j ≡ true
          → last_number j.id db.attempts + bit (is_claimable (g j).state) ≤ j.max_attempts)
        db.jobs
    → Inv closed claims db
    → QueueInv closed claims
        (update_rows q g db.jobs)
        (update_rows (owns c now) f db.attempts)
        db.next_job_id
        db.next_attempt_id
end_held-Inv {closed} {claims} db c now f q g job_of same_attempt same_job ended inactive a j left
      v =
    end_attempt-Inv c.job_id (owns c now) f q g (λ x h. ground arith) job_of same_attempt same_job
      ended inactive db.jobs db.attempts db.next_job_id db.next_attempt_id a j left v

abbrev pub completed_job : ℕ → JobEntry → Bool
completed_job job_id j = running_job job_id j && is_demo j.job_type

abbrev pub published_job : ℕ → JobEntry → Bool
published_job job_id j = running_job job_id j && is_image j.job_type

-- What a successful call has found and written.
pub complete_effect :
    (db db' : Db) (c : ClaimedJob) (now : Time) (d : ℕ)
    → complete db c now d ≡ ok (tt, db')
    → (count_rows (owns c now) db.attempts ≡ 1)
      × (count_rows (completed_job c.job_id) db.jobs ≡ 1)
      × (record db {
        attempts = update_rows (owns c now) (succeed_attempt now d) db.attempts;
        jobs =
            update_rows
              (completed_job c.job_id)
              (succeed_job now d (plain "demo delay completed"))
              db.jobs;
      }
          ≡ db')
unfolding complete
complete_effect db db' c now d e = ground arith

pub complete-Inv :
    {closed : List ℕ} {claims : List ClaimedJob} (db db' : Db) (claimed : ClaimedJob) (now : Time)
    (duration_ms : ℕ)
    → Inv closed claims db
    → complete db claimed now duration_ms ≡ ok (tt, db')
    → Inv closed claims db'
complete-Inv {closed} {claims} db db' c now d v e =
    let effect = complete_effect db db' c now d e in
    let g = succeed_job now d (plain "demo delay completed") in
    subst (Inv closed claims) effect.2 (
      end_held-Inv db c now (succeed_attempt now d) (completed_job c.job_id) g (λ j h. ground arith)
        (λ a. (refl, refl, refl, refl)) (λ j. (refl, refl)) (λ a. refl) (λ j. refl) effect.0
        effect.1 (room_without_wait db _ g (λ j. refl) v) v)

pub complete_image_job_effect :
    (db db' : Db) (c : ClaimedJob) (now : Time) (d : ℕ) (outputs : List PendingOutputArtifact)
    → complete_image_job db c now d outputs ≡ ok (tt, db')
    → (artifacts : List ArtifactEntry) × (n : ℕ) × (inputs : ℕ) × (count_rows
          (owns c now)
          db.attempts
        ≡ 1)
      × (count_rows (published_job c.job_id) db.jobs ≡ 1)
      × (record db {
        artifacts = artifacts;
        next_artifact_id = n;
        attempts = update_rows (owns c now) (succeed_attempt now d) db.attempts;
        jobs = update_rows (published_job c.job_id) (succeed_job now d (resized inputs)) db.jobs;
      }
          ≡ db')
unfolding complete_image_job
complete_image_job_effect db db' c now d outputs e = (
  db'.artifacts,
  db'.next_artifact_id,
  published (image_inputs c.work),
  ground arith,
  ground arith,
  ground arith,
)
  where
    published : Option (List ArtifactEntry) → ℕ
    published none = 0
    published (some inputs) = length inputs

pub complete_image_job-Inv :
    {closed : List ℕ} {claims : List ClaimedJob} (db db' : Db) (claimed : ClaimedJob) (now : Time)
    (duration_ms : ℕ) (outputs : List PendingOutputArtifact)
    → Inv closed claims db
    → complete_image_job db claimed now duration_ms outputs ≡ ok (tt, db')
    → Inv closed claims db'
complete_image_job-Inv {closed} {claims} db db' c now d outputs v e =
    let (artifacts, n, inputs, a, j, effect) = complete_image_job_effect db db' c now d outputs e in
    let g = succeed_job now d (resized inputs) in
    subst (Inv closed claims) effect (
      end_held-Inv db c now (succeed_attempt now d) (published_job c.job_id) g (λ j h. ground arith)
        (λ a. (refl, refl, refl, refl)) (λ j. (refl, refl)) (λ a. refl) (λ j. refl) a j
        (room_without_wait db _ g (λ j. refl) v) v)

pub finish_cancelled_effect :
    (db db' : Db) (c : ClaimedJob) (now : Time) (d : ℕ)
    → finish_cancelled db c now d ≡ ok (tt, db')
    → (count_rows (owns c now) db.attempts ≡ 1)
      × (count_rows (cancelling_job c.job_id) db.jobs ≡ 1)
      × (record db {
        attempts = update_rows (owns c now) (cancel_attempt now d) db.attempts;
        jobs = update_rows (cancelling_job c.job_id) (cancel_job now) db.jobs;
      }
          ≡ db')
unfolding finish_cancelled
finish_cancelled_effect db db' c now d e = ground arith

pub finish_cancelled-Inv :
    {closed : List ℕ} {claims : List ClaimedJob} (db db' : Db) (claimed : ClaimedJob) (now : Time)
    (duration_ms : ℕ)
    → Inv closed claims db
    → finish_cancelled db claimed now duration_ms ≡ ok (tt, db')
    → Inv closed claims db'
finish_cancelled-Inv {closed} {claims} db db' c now d v e =
    let effect = finish_cancelled_effect db db' c now d e in
    subst (Inv closed claims) effect.2 (
      end_held-Inv db c now (cancel_attempt now d) (cancelling_job c.job_id) (cancel_job now)
        (λ j h. ground arith) (λ a. (refl, refl, refl, refl)) (λ j. (refl, refl)) (λ a. refl)
        (λ j. refl) effect.0 effect.1 (room_without_wait db _ (cancel_job now) (λ j. refl) v) v)
