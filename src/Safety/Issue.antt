-- ===== src/Safety/Issue.antt =====
-- What a claim says stays true of the rows under every write.
use task_harbor.Base.{ℕ, ◌+◌, ◌≤◌, ◌<◌, ◌≡◌, Bool, false, List, All, arith, some}
use task_harbor.Sql.{count_rows, update_rows, insert_row}
use task_harbor.Sql.Counts.{All-update, All-insert, All-map}
use task_harbor.Tables.{JobEntry, AttemptEntry}
use task_harbor.Queue.{ClaimedJob}
use task_harbor.Safety.{ClaimRows, has_attempt_id}
use task_harbor.Safety.Rows.{SameAttempt, SameJob, count_rows_zero}

abbrev pub NamesAttempt : ClaimedJob → AttemptEntry → Type 0
NamesAttempt c a =
    a.id ≡ c.attempt_id
    → (a.job_id ≡ c.job_id)
      × (a.attempt_number ≡ c.attempt_number)
      × (a.claim_token ≡ some c.claim_token)

abbrev pub NamesJob : ClaimedJob → JobEntry → Type 0
NamesJob c j = j.id ≡ c.job_id → j.max_attempts ≡ c.max_attempts

pub ClaimRows-update_attempts :
    (p : AttemptEntry → Bool) (f : AttemptEntry → AttemptEntry)
    → ((a : AttemptEntry) → SameAttempt a (f a))
    → (c : ClaimedJob) (jobs : List JobEntry) (attempts : List AttemptEntry) (nj na : ℕ)
    → ClaimRows c jobs attempts nj na
    → ClaimRows c jobs (update_rows p f attempts) nj na
ClaimRows-update_attempts p f same c jobs attempts nj na h = record {
  attempt_known = h.attempt_known;
  job_known = h.job_known;
  attempt_rows =
      All-update (NamesAttempt c) (NamesAttempt c) p f (λ a _ r e. ground (arith, same a, r))
        (λ a _ r. r) attempts h.attempt_rows;
  job_rows = h.job_rows;
}

pub ClaimRows-update_jobs :
    (q : JobEntry → Bool) (g : JobEntry → JobEntry)
    → ((j : JobEntry) → SameJob j (g j))
    → (c : ClaimedJob) (jobs : List JobEntry) (attempts : List AttemptEntry) (nj na : ℕ)
    → ClaimRows c jobs attempts nj na
    → ClaimRows c (update_rows q g jobs) attempts nj na
ClaimRows-update_jobs q g same c jobs attempts nj na h = record {
  attempt_known = h.attempt_known;
  job_known = h.job_known;
  attempt_rows = h.attempt_rows;
  job_rows =
      All-update (NamesJob c) (NamesJob c) q g (λ j _ r e. ground (arith, same j, r)) (λ j _ r. r)
        jobs h.job_rows;
}

pub ClaimRows-insert_job :
    (x : JobEntry) {nj : ℕ}
    → x.id ≡ nj
    → (c : ClaimedJob) (jobs : List JobEntry) (attempts : List AttemptEntry) (na : ℕ)
    → ClaimRows c jobs attempts nj na
    → ClaimRows c (insert_row x jobs) attempts (nj + 1) na
ClaimRows-insert_job x fresh c jobs attempts na h = record {
  attempt_known = h.attempt_known;
  job_known = omega (arith, h.job_known);
  attempt_rows = h.attempt_rows;
  job_rows =
      All-insert (NamesJob c) x jobs (λ e. absurd (omega (arith, h.job_known, fresh, e)))
        h.job_rows;
}

pub ClaimRows-insert_attempt :
    (x : AttemptEntry) {na : ℕ}
    → x.id ≡ na
    → (c : ClaimedJob) (jobs : List JobEntry) (attempts : List AttemptEntry) (nj : ℕ)
    → ClaimRows c jobs attempts nj na
    → ClaimRows c jobs (insert_row x attempts) nj (na + 1)
ClaimRows-insert_attempt x fresh c jobs attempts nj h = record {
  attempt_known = omega (arith, h.attempt_known);
  job_known = h.job_known;
  attempt_rows =
      All-insert (NamesAttempt c) x attempts
        (λ e. absurd (omega (arith, h.attempt_known, fresh, e))) h.attempt_rows;
  job_rows = h.job_rows;
}

-- A claim that is made with the new attempt `x`.
pub ClaimRows-new :
    (q : JobEntry → Bool) (g : JobEntry → JobEntry) (x : AttemptEntry)
    → ((j : JobEntry) → SameJob j (g j))
    → (c : ClaimedJob) (jobs : List JobEntry) (attempts : List AttemptEntry) (nj na : ℕ)
    → c.job_id < nj
    → NamesAttempt c x
    → ((i : ℕ) → na ≤ i → count_rows (has_attempt_id i) attempts ≡ 0)
    → c.attempt_id ≡ na
    → All (NamesJob c) jobs
    → ClaimRows c (update_rows q g jobs) (insert_row x attempts) nj (na + 1)
ClaimRows-new q g x same c jobs attempts nj na known names fresh at limits = record {
  attempt_known = omega arith;
  job_known = known;
  attempt_rows = All-insert (NamesAttempt c) x attempts names (
      All-map (λ a. has_attempt_id na a ≡ false) (NamesAttempt c) (λ a h e. absurd (ground arith))
        attempts (count_rows_zero (has_attempt_id na) attempts (fresh na (omega arith))));
  job_rows =
      All-update (NamesJob c) (NamesJob c) q g (λ j _ r e. ground (arith, same j, r)) (λ j _ r. r)
        jobs limits;
}
