-- ===== src/Worker/Survives.antt =====
-- A lost claim is the end of a task, and not of the worker.
use task_harbor.Base.{
  ℕ, ◌≢◌, List, Option, none, some, Result, ok, err, claim_lost, database, migration, invalid_data,
  state_conflict, idempotency_conflict,
}
use task_harbor.Clock.{Time}
use task_harbor.Queue.{ClaimedJob}
use task_harbor.Worker
use task_harbor.Worker.{
  Program, returns, sleeps, removes_outputs, checks_cancellation, finishes_cancelled, resizes,
  records_encoding, measures_usage, updates_progress, records_failure,
}
use task_harbor.Worker.Process.{
  finish_claimed_result, and_then, process_with_lease_renewal, process_claimed_inner, joined_result,
  renewal_lost,
}
use task_harbor.Worker.Later.{Always, Later, Later-Always}

-- How a task ended: its result, or a panic or cancellation (`JoinError`).
pub data TaskEnd : Type 0 where
  finished : Result (Unit {0}) → TaskEnd
  terminated : TaskEnd

-- `handle_task_result`, with `join_error`.
unfoldable pub handle_task_result : Option TaskEnd → Result (Unit {0})
handle_task_result none = ok tt
handle_task_result (some (finished result)) = result
handle_task_result (some terminated) = err (invalid_data "worker task terminated unexpectedly")

abbrev Returning : (Result (Unit {0}) → Type 0) → Program → Type 0
Returning R = Always R (λ _. Unit) (λ _. Unit)

module _ (R : Result (Unit {0}) → Type 0) (k : Result (Unit {0}) → Program)
    (h : (r : Result (Unit {0})) → Returning R (k r)) where
  and_then-Returning : (p : Program) → Returning R (and_then p k)
  unfolding and_then
  and_then-Returning (returns r) = h r
  and_then-Returning (sleeps d p) = and_then-Returning p
  and_then-Returning (removes_outputs p) = and_then-Returning p
  and_then-Returning (checks_cancellation f) = λ a. and_then-Returning (f a)
  and_then-Returning (finishes_cancelled f) = λ a. and_then-Returning (f a)
  and_then-Returning (Worker.completes f) = λ a. and_then-Returning (f a)
  and_then-Returning (resizes i o w q f) = λ a. and_then-Returning (f a)
  and_then-Returning (records_encoding f) = λ a. and_then-Returning (f a)
  and_then-Returning (measures_usage f) = λ a. and_then-Returning (f a)
  and_then-Returning (updates_progress n f) = (tt, λ a. and_then-Returning (f a))
  and_then-Returning (Worker.publishes o f) = (tt, λ a. and_then-Returning (f a))
  and_then-Returning (records_failure x m f) = λ a. and_then-Returning (f a)

finish_claimed_result-kept :
    (r : Result (Unit {0})) → Returning (λ r. r ≢ err claim_lost) (finish_claimed_result r)
unfolding finish_claimed_result
finish_claimed_result-kept (ok _) = cc
finish_claimed_result-kept (err claim_lost) = cc
finish_claimed_result-kept (err database) = cc
finish_claimed_result-kept (err migration) = cc
finish_claimed_result-kept (err (invalid_data message)) = cc
finish_claimed_result-kept (err (state_conflict operation)) = cc
finish_claimed_result-kept (err idempotency_conflict) = cc

-- Whatever the calls and the renewals of the lease answer, a task never ends with a lost claim, and
-- so the loop that joins the task does not stop for one.
pub task_keeps_worker :
    (c : ClaimedJob) (budget : ℕ) (renewals : List (Result Time)) (r : Result (Unit {0}))
    → Later (returns r) (process_with_lease_renewal c budget renewals)
    → handle_task_result (some (finished r)) ≢ err claim_lost
unfolding process_with_lease_renewal handle_task_result
task_keeps_worker c budget renewals r l =
    Later-Always (λ r. r ≢ err claim_lost) (λ _. Unit) (λ _. Unit) l
      (and_then-Returning _ _
        (λ r. finish_claimed_result-kept (joined_result (renewal_lost renewals) r))
        (process_claimed_inner c budget))
