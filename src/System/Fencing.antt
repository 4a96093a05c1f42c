-- ===== src/System/Fencing.antt =====
-- The fence of the worker's writes: an attempt that is over, taken over by another worker or past its
-- lease is not written to any more.
use task_harbor.Base.{
  ℕ, ◌≤◌, ◌<◌, ◌≡◌, Bool, true, false, ◌⊎◌, [], ◌∷◌, List, arith, err, claim_lost, RepositoryError,
  String, ◌&&◌, Option-cases, Result-cases, leb, not, ◌+◌, inl, inr, none,
}
use task_harbor.Clock.{Time}
use task_harbor.Core.{i32_max, i64_max}
use task_harbor.Sql.{count_rows, find_row}
use task_harbor.Sql.Counts.{count_rows_mono}
use task_harbor.Tables.{Db}
use task_harbor.Queue.{ClaimedJob, owns}
use task_harbor.Queue.Workers.{renew_lease}
use task_harbor.Queue.Finish.{
  complete, update_progress, record_encoding_duration, finish_cancelled, cancellation_requested,
  is_demo_work, fits,
}
use task_harbor.Queue.Failure.{FailureKind, record_failure}
use task_harbor.Queue.Publish.{PendingOutputArtifact, complete_image_job, lock_active_claim}
use task_harbor.Safety.{Inv, running_id}
use task_harbor.Safety.Witness.{find_row_count}
use task_harbor.System.{World, Reach, initial}
use task_harbor.System.Reachable.{Reach-Inv, reached-Inv}

no_row {ℓ} :
    {A : Type ℓ} (p q : A → Bool)
    → ((x : A) → p x ≡ true → q x ≡ true)
    → (xs : List A) → count_rows q xs ≡ 0
    → count_rows p xs ≡ 0
no_row p q h xs e = omega (arith, count_rows_mono p q h xs)

found_no_row {ℓ} :
    {A : Type ℓ} (p : A → Bool) (xs : List A) → count_rows p xs ≡ 0 → find_row p xs ≡ none
found_no_row p xs e = elim (Option-cases (find_row p xs)) [
  | inl h ↦ h
  | inr (x, h) ↦ absurd (omega (arith, find_row_count p p (λ y k. k) xs x h))
]

-- A worker whose claim holds no attempt (it has ended, belongs to another worker or token, or its
-- lease is over) loses the claim in the renewal of its lease, in progress, encoding time, the end
-- of a cancellation and a failure, in the check for a cancellation, and in the completion of a demo
-- job where its work is one; each is an error, and so a rollback. The numbers that it writes are in
-- the range of their columns.
pub stale_claim_refused :
    (db : Db) (c : ClaimedJob) (now : Time) (duration_ms completed : ℕ) (kind : FailureKind)
    (message : String)
    → count_rows (owns c now) db.attempts ≡ 0
    → duration_ms ≤ i64_max
    → completed ≤ i32_max
    → (renew_lease db c now ≡ err claim_lost)
      × (update_progress db c now completed ≡ err claim_lost)
      × (record_encoding_duration db c now duration_ms ≡ err claim_lost)
      × (cancellation_requested db c now ≡ err claim_lost)
      × (finish_cancelled db c now duration_ms ≡ err claim_lost)
      × (record_failure db c now duration_ms kind message ≡ err claim_lost)
      × ((complete db c now duration_ms ≡ err claim_lost) ⊎ (is_demo_work c.work ≡ false))
unfolding renew_lease update_progress record_encoding_duration cancellation_requested
    finish_cancelled record_failure complete
stale_claim_refused db c now d n kind m e fits_d fits_n = (
  ground arith,
  ground (
    arith,
    no_row (λ a. owns c now a && fits n a.progress_completed a.progress_total) (owns c now)
        (λ a h. ground arith) db.attempts e,
  ),
  ground (
    arith,
    no_row (λ a. owns c now a && not (leb (a.encoding_duration_ms + d) i64_max)) (owns c now)
        (λ a h. ground arith) db.attempts e,
  ),
  ground (arith, found_no_row (owns c now) db.attempts e),
  ground arith,
  ground arith,
  ground arith,
)

-- Such a worker publishes no outputs either, whatever they are.
pub stale_publish_refused :
    (db : Db) (c : ClaimedJob) (now : Time) (duration_ms : ℕ) (outputs : List PendingOutputArtifact)
    → count_rows (owns c now) db.attempts ≡ 0
    → (e : RepositoryError) × (complete_image_job db c now duration_ms outputs ≡ err e)
unfolding complete_image_job lock_active_claim
stale_publish_refused db c now d outputs e =
    elim (Result-cases (complete_image_job db c now d outputs)) [
      | inl failure ↦ failure
      | inr (r, done) ↦ absurd (ground arith)
    ]

-- An attempt that does not run in a state that is reached does not run in a later one.
pub over_stays :
    {w u : World}
    → Reach initial w
    → Reach w u
    → (i : ℕ) → i < w.db.next_attempt_id
    → count_rows (running_id i) w.db.attempts ≡ 0
    → count_rows (running_id i) u.db.attempts ≡ 0
over_stays {w} {u} r s i known over = later.retired.0.1
  where
    marked : Inv (i ∷ []) w.claims w.db
    marked =
        let v = reached-Inv r in
        record {
          job_ids = v.job_ids;
          job_fresh = v.job_fresh;
          attempt_ids = v.attempt_ids;
          attempt_fresh = v.attempt_fresh;
          known = v.known;
          tokens = v.tokens;
          owned = v.owned;
          numbered = v.numbered;
          current = v.current;
          room = v.room;
          limit = v.limit;
          issued = v.issued;
          retired = ((known, over), tt);
        }

    later : Inv (i ∷ []) u.claims u.db
    later = Reach-Inv s marked

-- An attempt of an issued identifier that does not run in a state that is reached never runs again:
-- in every later state a claim that names it holds no attempt, at any time.
pub ended_attempt_stays_ended :
    {w u : World}
    → Reach initial w
    → Reach w u
    → (c : ClaimedJob) (now : Time) → c.attempt_id < w.db.next_attempt_id
    → count_rows (running_id c.attempt_id) w.db.attempts ≡ 0
    → count_rows (owns c now) u.db.attempts ≡ 0
ended_attempt_stays_ended {w} {u} r s c now known over =
    no_row (owns c now) (running_id c.attempt_id) (λ a h. ground arith) u.db.attempts
      (over_stays r s c.attempt_id known over)
