-- ===== src/Safety/Claiming.antt =====
-- The invariant under a claim: a job that waits becomes active, and gets the next attempt with a
-- fresh identifier and a fresh token.
use task_harbor.Base.{
  ℕ, ◌+◌, ◌≤◌, ◌<◌, ◌≡◌, ◌∙◌, Bool, true, false, List, ◌∷◌, All, arith, ◌==◌, bit, ◌&&◌, some,
  if◌then◌else◌,
}
use task_harbor.Sql.{count_rows, insert_row, update_rows}
use task_harbor.Sql.Counts.{
  count_rows-insert, count_rows-update_same, count_rows_mono, All-insert, All-update, All-map,
  All-both,
}
use task_harbor.Tables.{JobEntry, AttemptEntry, is_active, is_claimable, in_progress}
use task_harbor.Queue.Claim.{last_number}
use task_harbor.Safety.{
  QueueInv, has_id, active_job, for_job, running_for, has_attempt_id, has_token, running_id,
}
use task_harbor.Queue.{ClaimedJob}
use task_harbor.Safety.Issue.{
  ClaimRows-update_jobs, ClaimRows-insert_attempt, ClaimRows-new, NamesJob,
}
use task_harbor.Safety.Rows.{
  SameJob, last_number-insert, count_rows-update_one, count_rows_same, count_rows_zero,
  count_rows_none,
}

-- WHERE id = $1 AND state IN ('queued', 'retry_waiting').
abbrev pub waiting_job : ℕ → JobEntry → Bool
waiting_job J j = j.id == J && is_claimable j.state

module _ {closed : List ℕ} {claims : List ClaimedJob} (J : ℕ) (g : JobEntry → JobEntry)
    (x : AttemptEntry) (jobs : List JobEntry) (attempts : List AttemptEntry) (nj na : ℕ)
    (v : QueueInv closed claims jobs attempts nj na)
    (one_job : count_rows (waiting_job J) jobs ≡ 1) where
  -- The only row of `jobs` with the identifier is the one that waits.
  only_job : All (λ j. has_id J j ≡ true → waiting_job J j ≡ true) jobs
  only_job =
      count_rows_same (waiting_job J) (has_id J) (λ j h. ground arith) jobs
        (omega (arith, v.job_ids J, one_job))

  -- So no attempt of the job runs.
  none_active : count_rows (active_job J) jobs ≡ 0
  none_active = count_rows_none (active_job J) jobs (
      All-map (λ j. has_id J j ≡ true → waiting_job J j ≡ true) (λ j. active_job J j ≡ false)
        (λ j h. ground (arith, h)) jobs only_job)

  none_running : All (λ a. running_for J a ≡ false) attempts
  none_running = count_rows_zero (running_for J) attempts (v.owned J ∙ none_active)

  known_job : J < nj
  known_job = ground (
    arith,
    v.job_fresh J,
    count_rows_mono (waiting_job J) (has_id J) (λ j h. ground arith) jobs,
    one_job,
  )

  module _ (same_job : (j : JobEntry) → SameJob j (g j))
      (starts : (j : JobEntry)
        → (is_active (g j).state ≡ true) × (is_claimable (g j).state ≡ false))
      (t : ℕ) (new_id : x.id ≡ na) (of_job : x.job_id ≡ J)
      (next : x.attempt_number ≡ last_number J attempts + 1) (runs : in_progress x.state ≡ true)
      (token : x.claim_token ≡ some t) (fresh_token : count_rows (has_token t) attempts ≡ 0) where
    last :
        (j : ℕ)
        → last_number j (insert_row x attempts)
          ≡ (if J == j then last_number J attempts + 1 else last_number j attempts)
    last j = ground (arith, last_number-insert j x attempts, of_job, next)

    token_count : (u : ℕ) → count_rows (has_token u) (insert_row x attempts) ≤ 1
    token_count u =
        ground (arith, count_rows-insert (has_token u) x attempts, token, fresh_token, v.tokens u)

    owned_by :
        (j : ℕ)
        → count_rows (running_for j) (insert_row x attempts)
          ≡ count_rows (active_job j) (update_rows (waiting_job J) g jobs)
    owned_by j = ground (
      arith,
      count_rows-insert (running_for j) x attempts,
      of_job,
      runs,
      v.owned j,
      count_rows-update_one (waiting_job J) (active_job j) g false (J == j)
          (λ k h. ground (arith, same_job k, starts k)) jobs one_job,
    )

    kept :
        (r : JobEntry → Bool)
        → ((j : JobEntry) → r (g j) ≡ r j)
        → count_rows r (update_rows (waiting_job J) g jobs) ≡ count_rows r jobs
    kept r h = count_rows-update_same (waiting_job J) r g (λ j _. h j) jobs

    pub claim-Inv :
        (c : ClaimedJob)
        → (c.job_id ≡ J)
          × (c.attempt_id ≡ na)
          × (c.attempt_number ≡ last_number J attempts + 1)
          × (c.claim_token ≡ t)
        → All (λ j. j.id ≡ J → j.max_attempts ≡ c.max_attempts) jobs
        → QueueInv closed
            (c ∷ claims)
            (update_rows (waiting_job J) g jobs)
            (insert_row x attempts)
            nj
            (na + 1)
    claim-Inv c names limits = record {
      job_ids = λ j. omega (arith, v.job_ids j, kept (has_id j) (λ k. ground (arith, same_job k)));
      job_fresh = λ j h. kept (has_id j) (λ k. ground (arith, same_job k)) ∙ v.job_fresh j h;
      attempt_ids = λ i. ground (
        arith,
        new_id,
        count_rows-insert (has_attempt_id i) x attempts,
        v.attempt_ids i,
        v.attempt_fresh i,
      );
      attempt_fresh = λ i h. ground (
        arith,
        new_id,
        count_rows-insert (has_attempt_id i) x attempts,
        v.attempt_fresh i (omega arith),
      );
      known = λ j h.
          ground (arith, of_job, known_job, count_rows-insert (for_job j) x attempts, v.known j h);
      tokens = token_count;
      owned = owned_by;
      numbered = λ j.
          ground (arith, of_job, last j, count_rows-insert (for_job j) x attempts, v.numbered j);
      current =
          All-insert Current' x attempts (λ _. ground (arith, of_job, next, last J))
            (All-map (λ a. Current a × (running_for J a ≡ false)) Current'
              (λ a h r. ground (arith, h.0 r, h.1, last a.job_id)) attempts
              (All-both Current (λ a. running_for J a ≡ false) attempts v.current none_running));
      room =
          All-update (λ j. Room j × (has_id J j ≡ true → waiting_job J j ≡ true)) Room'
            (waiting_job J) g (λ j e h. ground (arith, same_job j, starts j, h.0, last j.id))
            (λ j e h. ground (arith, h.0, h.1, last j.id)) jobs
            (All-both Room (λ j. has_id J j ≡ true → waiting_job J j ≡ true) jobs v.room only_job);
      limit =
          All-update (λ j. 1 ≤ j.max_attempts) (λ j. 1 ≤ j.max_attempts) (waiting_job J) g
            (λ j _ h. omega (arith, same_job j, h)) (λ j _ h. h) jobs v.limit;
      issued = (
        ClaimRows-new (waiting_job J) g x same_job c jobs attempts nj na
            (ground (arith, names, known_job))
            (λ _. ground (arith, names, new_id, of_job, next, token)) v.attempt_fresh names.1
            (All-map _ (NamesJob c) (λ j h e. h (e ∙ names.0)) jobs limits),
        All-map _ _
            (λ d h.
              ClaimRows-insert_attempt x new_id d _ attempts nj
                (ClaimRows-update_jobs (waiting_job J) g same_job d jobs attempts nj na h))
            claims v.issued,
      );
      retired =
          All-map _ _
            (λ i h. ground (arith, h.0, h.1, new_id, count_rows-insert (running_id i) x attempts))
            closed v.retired;
    }
      where
        Current : AttemptEntry → Type 0
        Current a = in_progress a.state ≡ true → a.attempt_number ≡ last_number a.job_id attempts

        Current' : AttemptEntry → Type 0
        Current' a =
            in_progress a.state ≡ true
            → a.attempt_number ≡ last_number a.job_id (insert_row x attempts)

        Room : JobEntry → Type 0
        Room j = last_number j.id attempts + bit (is_claimable j.state) ≤ j.max_attempts

        Room' : JobEntry → Type 0
        Room' j =
            last_number j.id (insert_row x attempts) + bit (is_claimable j.state) ≤ j.max_attempts
