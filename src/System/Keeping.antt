-- ===== src/System/Keeping.antt =====
-- Every transaction keeps the rows of the jobs with their keys.
use task_harbor.Base.{
  ℕ, ◌≡◌, refl, ap, subst, Bool, Option, some, List, [], ◌∷◌, All, arith, ok, inl, inr, ◌&&◌, ◌==◌,
  Bool-cases, Option-cases, Result-cases,
}
use task_harbor.Clock.{Time, plus_seconds}
use task_harbor.Sql.{count_rows, first_row}
use task_harbor.Tables.{Db, JobEntry}
use task_harbor.Queue.{ClaimedJob}
use task_harbor.Queue.Finish.{
  running_job, cancelling_job, succeed_job, cancel_job, fits, update_progress,
  record_encoding_duration,
}
use task_harbor.Queue.Failure.{retry_job, fail_job, retry_backoff_seconds}
use task_harbor.Queue.Claim.{claim_next, start_job}
use task_harbor.Queue.Workers.{register_worker_at, heartbeat_worker_at, stop_worker, renew_lease}
use task_harbor.Queue.Reclaim.{reclaim_next, ReclaimedAttempt}
use task_harbor.Schedule.{latest_due_slot}
use task_harbor.Schedule.Store.{Store, ScheduleEntry}
use task_harbor.Schedule.Materialize.{
  ScheduleTick, materialize_next_schedule, materialize_schedule, record_occurrence,
  create_occurrence, is_due, due_before, occupies, scheduled_job, of_schedule,
}
use task_harbor.Safety.Ending.{complete_effect, complete_image_job_effect, finish_cancelled_effect}
use task_harbor.Safety.Failing.{record_failure_effect}
use task_harbor.Safety.Reclaiming.{reclaim_attempt_effect, Disposed}
use task_harbor.Safety.Expiry.{expire_output_artifacts_effect}
use task_harbor.Safety.Claiming.{waiting_job}
use task_harbor.Safety.Claims.{claim_next_effect, claim_next-none}
use task_harbor.System.{
  World, Step, Reach, creates, creates_image, requests_cancel, retries, registers, beats, stops,
  claims_job, finds_no_job, renews, progresses, encodes, completes, publishes, cancels, fails,
  reclaims, materializes, expires_outputs, here, next,
}
use task_harbor.System.Keys.{
  Kept, Kept-refl, Kept-trans, updated, inserted, untouched, request_cancel-Kept, manual_retry-Kept,
  create_image_job-Kept, create-Kept,
}
use task_harbor.Queue.Reclaim.{is_expired, expired_before, lease_expired_message}
use task_harbor.Tables.{AttemptEntry, plain, resized}
use task_harbor.Safety.Reclaiming.{retried}
use task_harbor.Safety.Ending.{completed_job, published_job}

Disposed-Kept :
    (db db' : Db) (a : AttemptEntry) (job : JobEntry) (as_of : Time)
    → Disposed db.jobs a job as_of db'.jobs
    → Kept db.jobs db'.jobs
Disposed-Kept db db' a job t (inl (one, same)) =
    updated (cancelling_job a.job_id) (cancel_job t) db db' (λ j. (refl, refl, refl, refl)) same
Disposed-Kept db db' a job t (inr (inl (at, left, one, same))) =
    updated (retried a.job_id t at) (retry_job at lease_expired_message) db db'
      (λ j. (refl, refl, refl, refl)) same
Disposed-Kept db db' a job t (inr (inr (one, same))) =
    updated (running_job a.job_id) (fail_job t lease_expired_message) db db'
      (λ j. (refl, refl, refl, refl)) same

reclaim_next-Kept :
    (db db' : Db) (locked : ℕ → Bool) (as_of : Time) (r : Option ReclaimedAttempt)
    → reclaim_next db locked as_of ≡ ok (r, db')
    → Kept db.jobs db'.jobs
unfolding reclaim_next
reclaim_next-Kept db db' locked t r e =
    elim (Option-cases (first_row (is_expired locked db.jobs t) expired_before db.attempts)) [
      | inl none_due ↦ untouched db db' (ground arith)
      | inr (a, due) ↦
          let (job, hit, one, disposed, same) =
            reclaim_attempt_effect db db' a t r (ground (arith, due)) in
          Disposed-Kept db db' a job t disposed
    ]

create_occurrence-Kept :
    (s : Store) (e : ScheduleEntry) (slot : Time) (n : ℕ) (now : Time) (job_id : ℕ) (queue' : Db)
    → create_occurrence s e slot n now ≡ ok (job_id, queue')
    → Kept s.queue.jobs queue'.jobs
unfolding create_occurrence
create_occurrence-Kept s e slot n now job_id q h =
    inserted (scheduled_job s.queue.next_job_id e slot n now) s.queue q (ground arith)

materialize_schedule-Kept :
    (s s' : Store) (e : ScheduleEntry) (as_of now : Time) (r : Option ScheduleTick)
    → materialize_schedule s e as_of now ≡ ok (r, s')
    → Kept s.queue.jobs s'.queue.jobs
unfolding materialize_schedule record_occurrence
materialize_schedule-Kept s s' e t now r m =
    elim (Result-cases (latest_due_slot e.next_run_at e.interval_seconds t)) [
      | inl (f, failed) ↦ absurd (ground (arith, failed))
      | inr ((slot, after, k), found) ↦
          let n = count_rows (of_schedule e.id) s.inputs in
          elim (Bool-cases (count_rows (occupies e.id) s.queue.jobs == 0)) [
            | inr busy ↦
                let same : s.queue ≡ s'.queue = ground (arith, found, busy) in
                untouched s.queue s'.queue (ap (λ (d : Db). d.jobs) same)
            | inl free ↦ elim (Result-cases (create_occurrence s e slot n now)) [
              | inl (f, failed) ↦ absurd (ground (arith, found, free, failed))
              | inr ((job_id, q), made) ↦
                  let same : q ≡ s'.queue = ground (arith, found, free, made) in
                  subst (λ (d : Db). Kept s.queue.jobs d.jobs) same
                    (create_occurrence-Kept s e slot n now job_id q made)
            ]
          ]
    ]

materialize_next_schedule-Kept :
    (s s' : Store) (locked : ℕ → Bool) (as_of now : Time) (r : Option ScheduleTick)
    → materialize_next_schedule s locked as_of now ≡ ok (r, s')
    → Kept s.queue.jobs s'.queue.jobs
unfolding materialize_next_schedule
materialize_next_schedule-Kept s s' locked t now r m =
    elim (Option-cases (first_row (is_due locked t) due_before s.schedules)) [
      | inl none_due ↦
          let same : s.queue ≡ s'.queue = ground (arith, none_due) in
          untouched s.queue s'.queue (ap (λ (d : Db). d.jobs) same)
      | inr (e, first) ↦ materialize_schedule-Kept s s' e t now r (ground (arith, first))
    ]

unconditional : (xs : List JobEntry) → All (λ _. Unit {0}) xs
unconditional [] = tt
unconditional (x ∷ xs) = (tt, unconditional xs)

claim_next-Kept :
    (db db' : Db) (locked : ℕ → Bool) (worker_id : ℕ) (t : Time) (token : ℕ) (c : ClaimedJob)
    → claim_next db locked worker_id t token ≡ ok (some c, db')
    → Kept db.jobs db'.jobs
claim_next-Kept db db' locked w t token c e =
    let (j, _, _, _, done) =
      claim_next_effect db db' locked w t token c (λ _. Unit {0}) (unconditional db.jobs) e in
    updated (waiting_job j.id) (start_job t) db db' (λ k. (refl, refl, refl, refl))
      (ap (λ (d : Db). d.jobs) done.written)

jobs_of : {db db' : Db} → db ≡ db' → db.jobs ≡ db'.jobs
jobs_of e = ap (λ (d : Db). d.jobs) e

pub Step-Kept : {w u : World} → Step w u → Kept w.db.jobs u.db.jobs
unfolding register_worker_at heartbeat_worker_at stop_worker renew_lease update_progress
    record_encoding_duration
Step-Kept {w} (creates db' name now j e) = create-Kept w.db db' name now j e
Step-Kept {w} (creates_image db' r now j e) = create_image_job-Kept w.db db' r now j e
Step-Kept {w} (requests_cancel db' J owner now r e) = request_cancel-Kept w.db db' J owner now r e
Step-Kept {w} (retries db' J owner now r e) = manual_retry-Kept w.db db' J owner now r e
Step-Kept {w} (registers db' reg as_of now r e) = untouched w.db db' (ground arith)
Step-Kept {w} (beats db' i ttl as_of t e) = untouched w.db db' (ground arith)
Step-Kept {w} (stops db' i now e) = untouched w.db db' (ground arith)
Step-Kept {w} (claims_job db' locked i t token c e) = claim_next-Kept w.db db' locked i t token c e
Step-Kept {w} (finds_no_job db' locked i t token e) =
    untouched w.db db' (jobs_of (claim_next-none w.db db' locked i t token e))
Step-Kept {w} (renews db' c t x _ e) = untouched w.db db' (ground arith)
Step-Kept {w} (progresses db' c now n _ e) =
    updated (λ j. running_job c.job_id j && fits n j.progress_completed j.progress_total)
      (λ j. record j { progress_completed = n }) w.db db' (λ j. (refl, refl, refl, refl))
      (ground arith)
Step-Kept {w} (encodes db' c now d _ e) = untouched w.db db' (ground arith)
Step-Kept {w} (completes db' c now d _ e) =
    updated (completed_job c.job_id) (succeed_job now d (plain "demo delay completed")) w.db db'
      (λ j. (refl, refl, refl, refl)) (jobs_of (complete_effect w.db db' c now d e).2)
Step-Kept {w} (publishes db' c now d o _ e) =
    let (artifacts, n, inputs, _, _, effect) = complete_image_job_effect w.db db' c now d o e in
    updated (published_job c.job_id) (succeed_job now d (resized inputs)) w.db db'
      (λ j. (refl, refl, refl, refl)) (jobs_of effect)
Step-Kept {w} (cancels db' c now d _ e) =
    updated (cancelling_job c.job_id) (cancel_job now) w.db db' (λ j. (refl, refl, refl, refl))
      (jobs_of (finish_cancelled_effect w.db db' c now d e).2)
Step-Kept {w} (fails db' c now d k m r i e) =
    elim (record_failure_effect w.db db' c now d k m r e).1 [
      | inl (_, _, same) ↦
          updated (running_job c.job_id)
            (retry_job (plus_seconds now (retry_backoff_seconds c.attempt_number)) m) w.db db'
            (λ j. (refl, refl, refl, refl)) (jobs_of same)
      | inr (_, same) ↦
          updated (running_job c.job_id) (fail_job now m) w.db db' (λ j. (refl, refl, refl, refl))
            (jobs_of same)
    ]
Step-Kept {w} (reclaims db' locked t r e) = reclaim_next-Kept w.db db' locked t r e
Step-Kept {w} (materializes s s' locked t now r same e) =
    subst (λ (d : Db). Kept d.jobs s'.queue.jobs) same
      (materialize_next_schedule-Kept s s' locked t now r e)
Step-Kept {w} (expires_outputs m m' retention now keys same e) =
    subst (λ (d : Db). Kept d.jobs m'.queue.jobs) same
      (untouched m.queue m'.queue
        (jobs_of (expire_output_artifacts_effect m m' retention now keys e)))

pub Reach-Kept : {w u : World} → Reach w u → Kept w.db.jobs u.db.jobs
Reach-Kept {w} here = Kept-refl w.db.jobs
Reach-Kept {w} {u} (next {w = v} r s) =
    Kept-trans w.db.jobs v.db.jobs u.db.jobs (Reach-Kept r) (Step-Kept s)
