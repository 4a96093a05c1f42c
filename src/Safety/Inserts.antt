-- ===== src/Safety/Inserts.antt =====
-- The invariant under INSERT INTO jobs: a new job that has a fresh identifier, is not active and may
-- be attempted at least once.
use task_harbor.Base.{ℕ, ◌+◌, ◌≤◌, ◌≡◌, false, List, arith, bit}
use task_harbor.Sql.{insert_row}
use task_harbor.Sql.Counts.{count_rows-insert, All-insert, All-map}
use task_harbor.Tables.{JobEntry, AttemptEntry, is_active, is_claimable}
use task_harbor.Queue.Claim.{last_number}
use task_harbor.Queue.{ClaimedJob}
use task_harbor.Safety.Issue.{ClaimRows-insert_job}
use task_harbor.Safety.{QueueInv, has_id, active_job}

pub insert_job-Inv :
    {closed : List ℕ} {claims : List ClaimedJob} (x : JobEntry) (jobs : List JobEntry)
    (attempts : List AttemptEntry) (nj na : ℕ)
    → x.id ≡ nj
    → is_active x.state ≡ false
    → 1 ≤ x.max_attempts
    → QueueInv closed claims jobs attempts nj na
    → QueueInv closed claims (insert_row x jobs) attempts (nj + 1) na
insert_job-Inv {closed} {claims} x jobs attempts nj na fresh idle some_left v = record {
  job_ids =
      λ j. ground (arith, fresh, count_rows-insert (has_id j) x jobs, v.job_ids j, v.job_fresh j);
  job_fresh = λ j h.
      ground (arith, fresh, count_rows-insert (has_id j) x jobs, v.job_fresh j (omega arith));
  attempt_ids = v.attempt_ids;
  attempt_fresh = v.attempt_fresh;
  known = λ j h. v.known j (omega arith);
  tokens = v.tokens;
  owned = λ j. ground (arith, idle, count_rows-insert (active_job j) x jobs, v.owned j);
  numbered = v.numbered;
  current = v.current;
  room =
      All-insert Room x jobs
        (ground (arith, fresh, some_left, v.known nj (omega arith), v.numbered nj)) v.room;
  limit = All-insert (λ j. 1 ≤ j.max_attempts) x jobs some_left v.limit;
  issued = All-map _ _ (λ c h. ClaimRows-insert_job x fresh c jobs attempts na h) claims v.issued;
  retired = v.retired;
}
  where
    Room : JobEntry → Type 0
    Room j = last_number j.id attempts + bit (is_claimable j.state) ≤ j.max_attempts
