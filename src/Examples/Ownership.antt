-- ===== src/Examples/Ownership.antt =====
-- The theorems on ownership, fencing and the choice of a job, along the run of Examples/Run.
use task_harbor.Base.{
  leb, not, ◌+◌, ◌≤◌, ◌≡◌, refl, true, false, some, [], All, arith, ok, err, claim_lost, ◌⊎◌, ◌&&◌,
  bit, RepositoryError,
}
use task_harbor.Clock.{checked_add}
use task_harbor.Sql.{count_rows, update_rows, insert_row, find_row, first_row}
use task_harbor.Tables.{Db, JobEntry, is_claimable}
use task_harbor.Queue.{ClaimedJob, owns, demo_work}
use task_harbor.Queue.Create.{create}
use task_harbor.Queue.Claim.{
  claim_next, claim_job, claimed_work, is_candidate, is_live, claimed_before, last_number,
}
use task_harbor.Queue.Workers.{renew_lease}
use task_harbor.Queue.Finish.{
  complete, update_progress, record_encoding_duration, finish_cancelled, cancellation_requested,
  is_demo_work,
}
use task_harbor.Queue.Failure.{transient, record_failure, retry_backoff_seconds}
use task_harbor.Queue.Publish.{complete_image_job}
use task_harbor.Queue.Reclaim.{
  reclaim_next, reclaim_attempt, reclaim_job, is_expired, expired_before, expires,
}
use task_harbor.Safety.{active_job, for_job, running_for, has_token}
use task_harbor.System.Reachable.{one_owner, attempts_bounded}
use task_harbor.System.Fencing.{
  stale_claim_refused, stale_publish_refused, ended_attempt_stays_ended,
}
use task_harbor.System.Choice.{
  Among, ServedFirst, claim_next_takes_first, claim_next_grants, claim_next_finds,
}
use task_harbor.Examples.Run.{
  at, no_lock, worker, ready, claim, claimed, ready_run, claimed_lem, claimed_run, reclaimed_run,
  again_run, claimed_again,
}

one_owner_example :
    (count_rows (running_for 1) claimed.db.attempts ≤ 1)
    × (count_rows (running_for 1) claimed.db.attempts ≡ count_rows (active_job 1) claimed.db.jobs)
    × (count_rows (has_token 99) claimed.db.attempts ≤ 1)
one_owner_example = one_owner claimed_run 1 99

attempts_bounded_example :
    All
      (λ j.
        (count_rows (for_job j.id) claimed.db.attempts + bit (is_claimable j.state)
          ≤ j.max_attempts)
        × (count_rows (for_job j.id) claimed.db.attempts ≡ last_number j.id claimed.db.attempts))
      claimed.db.jobs
attempts_bounded_example = attempts_bounded claimed_run

-- The lease of the claim ends at 90 seconds.
stale_claim_refused_example :
    (renew_lease claimed.db claim (at 91) ≡ err claim_lost)
    × (update_progress claimed.db claim (at 91) 1 ≡ err claim_lost)
    × (record_encoding_duration claimed.db claim (at 91) 5 ≡ err claim_lost)
    × (cancellation_requested claimed.db claim (at 91) ≡ err claim_lost)
    × (finish_cancelled claimed.db claim (at 91) 5 ≡ err claim_lost)
    × (record_failure claimed.db claim (at 91) 5 transient "decode" ≡ err claim_lost)
    × ((complete claimed.db claim (at 91) 5 ≡ err claim_lost) ⊎ (is_demo_work claim.work ≡ false))
unfolding create claim_next claim_job claimed_work first_row is_candidate is_live claimed_before
    find_row count_rows update_rows insert_row last_number
stale_claim_refused_example =
    stale_claim_refused claimed.db claim (at 91) 5 1 transient "decode" refl (omega arith)
      (omega arith)

stale_publish_refused_example :
    (e : RepositoryError) × (complete_image_job claimed.db claim (at 91) 5 [] ≡ err e)
unfolding create claim_next claim_job claimed_work first_row is_candidate is_live claimed_before
    find_row count_rows update_rows insert_row last_number
stale_publish_refused_example = stale_publish_refused claimed.db claim (at 91) 5 [] refl

-- The second claim of the job changes nothing for the first.
ended_attempt_stays_ended_example : count_rows (owns claim (at 98)) claimed_again.db.attempts ≡ 0
unfolding create claim_next claim_job claimed_work first_row is_candidate is_live claimed_before
    find_row count_rows update_rows insert_row last_number reclaim_next reclaim_attempt reclaim_job
    is_expired expired_before expires checked_add retry_backoff_seconds
ended_attempt_stays_ended_example =
    ended_attempt_stays_ended reclaimed_run again_run claim (at 98) (omega arith) refl

claim_next_takes_first_example :
    (j : JobEntry) × Among j ready.db.jobs
    × (claim.job_id ≡ j.id)
    × (is_claimable j.state ≡ true)
    × (j.available_at ≤ at 30)
    × (no_lock j.id ≡ false)
    × All
        (λ k.
          ((is_claimable k.state && (leb k.available_at (at 30) && not (no_lock k.id))) ≡ false)
          ⊎ ServedFirst j k)
        ready.db.jobs
claim_next_takes_first_example =
    claim_next_takes_first ready.db claimed.db no_lock 7 (at 30) 99 claim claimed_lem

claim_next_grants_example :
    (count_rows (owns claim (at 80)) claimed.db.attempts ≡ 1)
    × (count_rows (owns claim (at 80)) ready.db.attempts ≡ 0)
claim_next_grants_example =
    claim_next_grants claimed.db no_lock 7 (at 30) 99 claim (at 80) ready_run claimed_lem
      (omega arith)

claim_next_finds_example :
    (c : ClaimedJob) × (db' : Db) × (claim_next ready.db no_lock 7 (at 30) 99 ≡ ok (some c, db'))
unfolding create claimed_work is_candidate is_live find_row count_rows insert_row
claim_next_finds_example =
    claim_next_finds no_lock 7 (at 30) 99 worker ready_run (omega arith) refl refl (omega arith)
      (omega arith) ((refl, demo_work 500, refl), tt)
