-- ===== src/System/Reachable.antt =====
-- What holds in every state that the queue can reach.
use task_harbor.Base.{ℕ, ◌+◌, ◌≤◌, ◌≡◌, refl, subst, List, [], All, arith, bit}
use task_harbor.Sql.{count_rows}
use task_harbor.Sql.Counts.{count_rows_mono, All-map}
use task_harbor.Tables.{is_claimable}
use task_harbor.Queue.Claim.{last_number}
use task_harbor.Safety.{Inv, has_id, active_job, running_for, for_job, has_token}
use task_harbor.Safety.Ending.{complete-Inv, complete_image_job-Inv, finish_cancelled-Inv}
use task_harbor.Safety.Failing.{record_failure-Inv}
use task_harbor.Safety.Reclaiming.{reclaim_next-Inv}
use task_harbor.Safety.Touching.{
  update_progress-Inv, record_encoding_duration-Inv, renew_lease-Inv, request_cancel-Inv,
  register-Inv, heartbeat-Inv, stop-Inv, create-Inv, create_image_job-Inv, manual_retry-Inv,
}
use task_harbor.Safety.Scheduling.{materialize_next_schedule-Inv}
use task_harbor.Safety.Expiry.{expire_output_artifacts-Inv}
use task_harbor.Safety.Claims.{claim_next-Inv, claim_next-none}
use task_harbor.System.{
  World, Step, Reach, initial, creates, creates_image, requests_cancel, retries, registers, beats,
  stops, claims_job, finds_no_job, renews, progresses, encodes, completes, publishes, cancels,
  fails, reclaims, materializes, expires_outputs, here, next,
}

abbrev pub WorldInv : List ℕ → World → Type 0
WorldInv closed w = Inv closed w.claims w.db

pub Step-Inv : {closed : List ℕ} {w u : World} → Step w u → WorldInv closed w → WorldInv closed u
Step-Inv {w} (creates db' name now j e) v = create-Inv w.db db' name now j v e
Step-Inv {w} (creates_image db' r now j e) v = create_image_job-Inv w.db db' r now j v e
Step-Inv {w} (requests_cancel db' J owner now r e) v = request_cancel-Inv w.db db' J owner now r v e
Step-Inv {w} (retries db' J owner now r e) v = manual_retry-Inv w.db db' J owner now r v e
Step-Inv {w} (registers db' reg as_of now r e) v = register-Inv w.db db' reg as_of now r v e
Step-Inv {w} (beats db' i ttl as_of t e) v = heartbeat-Inv w.db db' i ttl as_of t v e
Step-Inv {w} (stops db' i now e) v = stop-Inv w.db db' i now v e
Step-Inv {w} (claims_job db' locked i t token c e) v =
    claim_next-Inv w.db db' locked i t token c v e
Step-Inv {w} (finds_no_job db' locked i t token e) v =
    subst (Inv _ w.claims) (claim_next-none w.db db' locked i t token e) v
Step-Inv {w} (renews db' c t x _ e) v = renew_lease-Inv w.db db' c t x v e
Step-Inv {w} (progresses db' c now n _ e) v = update_progress-Inv w.db db' c now n v e
Step-Inv {w} (encodes db' c now d _ e) v = record_encoding_duration-Inv w.db db' c now d v e
Step-Inv {w} (completes db' c now d _ e) v = complete-Inv w.db db' c now d v e
Step-Inv {w} (publishes db' c now d o _ e) v = complete_image_job-Inv w.db db' c now d o v e
Step-Inv {w} (cancels db' c now d _ e) v = finish_cancelled-Inv w.db db' c now d v e
Step-Inv {w} (fails db' c now d k m r i e) v = record_failure-Inv w.db db' c now d k m r v i e
Step-Inv {w} (reclaims db' locked t r e) v = reclaim_next-Inv w.db db' locked t r v e
Step-Inv {w} (materializes s s' locked t now r same e) v =
    materialize_next_schedule-Inv s s' locked t now r (rw same v) e
Step-Inv {w} (expires_outputs m m' retention now keys same e) v =
    expire_output_artifacts-Inv m m' retention now keys (rw same v) e

pub Reach-Inv :
    {closed : List ℕ} {start w : World} → Reach start w → WorldInv closed start → WorldInv closed w
Reach-Inv here v = v
Reach-Inv (next r s) v = Step-Inv s (Reach-Inv r v)

initial-Inv : WorldInv [] initial
unfolding count_rows last_number
initial-Inv = record {
  job_ids = λ j. omega arith;
  job_fresh = λ j _. refl;
  attempt_ids = λ i. omega arith;
  attempt_fresh = λ i _. refl;
  known = λ j _. refl;
  tokens = λ t. omega arith;
  owned = λ j. refl;
  numbered = λ j. refl;
  current = tt;
  room = tt;
  limit = tt;
  issued = tt;
  retired = tt;
}

pub reached-Inv : {w : World} → Reach initial w → WorldInv [] w
reached-Inv r = Reach-Inv r initial-Inv

-- In every state that is reached, a job has at most one running attempt, it has one exactly if it is
-- running or its cancellation is requested, and a fencing token stands in at most one attempt.
pub one_owner :
    {w : World}
    → Reach initial w
    → (j t : ℕ)
    → (count_rows (running_for j) w.db.attempts ≤ 1)
      × (count_rows (running_for j) w.db.attempts ≡ count_rows (active_job j) w.db.jobs)
      × (count_rows (has_token t) w.db.attempts ≤ 1)
one_owner {w} r j t =
    let v = reached-Inv r in
    (
      omega (
        arith,
        v.owned j,
        v.job_ids j,
        count_rows_mono (active_job j) (has_id j) (λ x h. ground arith) w.db.jobs,
      ),
      v.owned j,
      v.tokens t,
    )

-- In every state that is reached, a job has no more attempts than it may have, one less where it
-- waits for another, and their number is the highest number of an attempt of the job.
pub attempts_bounded :
    {w : World}
    → Reach initial w
    → All
        (λ j.
          (count_rows (for_job j.id) w.db.attempts + bit (is_claimable j.state) ≤ j.max_attempts)
          × (count_rows (for_job j.id) w.db.attempts ≡ last_number j.id w.db.attempts))
        w.db.jobs
attempts_bounded {w} r =
    let v = reached-Inv r in
    All-map (λ j. last_number j.id w.db.attempts + bit (is_claimable j.state) ≤ j.max_attempts) _
      (λ j h. (omega (arith, v.numbered j.id), v.numbered j.id)) w.db.jobs v.room
