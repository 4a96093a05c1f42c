-- ===== src/Safety/Updates.antt =====
-- The invariant under the UPDATEs of the operations: one that leaves the state of attempts alone,
-- one that leaves jobs active or not, and the pair that ends an attempt together with its job.
use task_harbor.Base.{
  ℕ, ◌+◌, ◌≤◌, ◌≡◌, sym, ◌∙◌, Bool, true, false, List, All, arith, ◌==◌, is_just, bit, ap,
}
use task_harbor.Sql.{count_rows, update_rows}
use task_harbor.Sql.Counts.{
  count_rows-update_same, count_rows-update_le, All-update, All-map, All-both,
}
use task_harbor.Tables.{JobEntry, AttemptEntry, is_active, is_claimable, in_progress}
use task_harbor.Queue.Claim.{last_number}
use task_harbor.Safety.{
  QueueInv, has_id, active_job, for_job, running_for, has_attempt_id, has_token, running_id,
}
use task_harbor.Safety.Issue.{ClaimRows-update_attempts, ClaimRows-update_jobs}
use task_harbor.Queue.{ClaimedJob}
use task_harbor.Safety.Rows.{SameAttempt, SameJob, last_number-update, count_rows-update_one}

-- The attempts change, in columns that tell nothing of who runs what.
module _ (p : AttemptEntry → Bool) (f : AttemptEntry → AttemptEntry)
    (same : (a : AttemptEntry) → SameAttempt a (f a)) where
  pub touch_attempts-Inv :
      {closed : List ℕ} {claims : List ClaimedJob}
      → ((a : AttemptEntry) → (f a).state ≡ a.state)
      → (jobs : List JobEntry) (attempts : List AttemptEntry) (nj na : ℕ)
      → QueueInv closed claims jobs attempts nj na
      → QueueInv closed claims jobs (update_rows p f attempts) nj na
  touch_attempts-Inv {closed} {claims} still jobs attempts nj na v = record {
    job_ids = v.job_ids;
    job_fresh = v.job_fresh;
    attempt_ids =
        λ i. omega (arith, v.attempt_ids i, kept (has_attempt_id i) (λ a. ground (arith, same a)));
    attempt_fresh =
        λ i h. kept (has_attempt_id i) (λ a. ground (arith, same a)) ∙ v.attempt_fresh i h;
    known = λ j h. kept (for_job j) (λ a. ground (arith, same a)) ∙ v.known j h;
    tokens =
        λ t. omega (arith, v.tokens t, kept (has_token t) (λ a. ap (λ o. is_just o t) (same a).3));
    owned = λ j. kept (running_for j) (λ a. ground (arith, same a, still a)) ∙ v.owned j;
    numbered = λ j. kept (for_job j) (λ a. ground (arith, same a)) ∙ v.numbered j ∙ sym (last j);
    current =
        All-update Current Current' p f
          (λ a _ h r. ground (arith, same a, still a, h, last a.job_id))
          (λ a _ h r. h r ∙ sym (last a.job_id)) attempts v.current;
    room = All-map Room Room' (λ j h. omega (arith, last j.id)) jobs v.room;
    limit = v.limit;
    issued =
        All-map _ _ (λ c h. ClaimRows-update_attempts p f same c jobs attempts nj na h) claims
          v.issued;
    retired =
        All-map _ _ (λ i h. (h.0, kept (running_id i) (λ a. ground (arith, same a, still a)) ∙ h.1))
          closed v.retired;
  }
    where
      kept :
          (q : AttemptEntry → Bool)
          → ((a : AttemptEntry) → q (f a) ≡ q a)
          → count_rows q (update_rows p f attempts) ≡ count_rows q attempts
      kept q h = count_rows-update_same p q f (λ a _. h a) attempts

      last : (j : ℕ) → last_number j (update_rows p f attempts) ≡ last_number j attempts
      last j = last_number-update p f same j attempts

      Current : AttemptEntry → Type 0
      Current a = in_progress a.state ≡ true → a.attempt_number ≡ last_number a.job_id attempts

      Current' : AttemptEntry → Type 0
      Current' a =
          in_progress a.state ≡ true
          → a.attempt_number ≡ last_number a.job_id (update_rows p f attempts)

      Room : JobEntry → Type 0
      Room j = last_number j.id attempts + bit (is_claimable j.state) ≤ j.max_attempts

      Room' : JobEntry → Type 0
      Room' j =
          last_number j.id (update_rows p f attempts) + bit (is_claimable j.state) ≤ j.max_attempts

-- The jobs change: a job stays active or not, and does not begin to wait for an attempt.
module _ (q : JobEntry → Bool) (g : JobEntry → JobEntry)
    (same : (j : JobEntry) → SameJob j (g j)) where
  kept_jobs :
      (r : JobEntry → Bool)
      → ((j : JobEntry) → r (g j) ≡ r j)
      → (jobs : List JobEntry) → count_rows r (update_rows q g jobs) ≡ count_rows r jobs
  kept_jobs r h jobs = count_rows-update_same q r g (λ j _. h j) jobs

  pub touch_jobs-Inv :
      {closed : List ℕ} {claims : List ClaimedJob}
      → ((j : JobEntry) → is_active (g j).state ≡ is_active j.state)
      → ((j : JobEntry) → bit (is_claimable (g j).state) ≤ bit (is_claimable j.state))
      → (jobs : List JobEntry) (attempts : List AttemptEntry) (nj na : ℕ)
      → QueueInv closed claims jobs attempts nj na
      → QueueInv closed claims (update_rows q g jobs) attempts nj na
  touch_jobs-Inv {closed} {claims} still waits jobs attempts nj na v = record {
    job_ids =
        λ i. omega (arith, v.job_ids i, kept_jobs (has_id i) (λ j. ground (arith, same j)) jobs);
    job_fresh = λ i h. kept_jobs (has_id i) (λ j. ground (arith, same j)) jobs ∙ v.job_fresh i h;
    attempt_ids = v.attempt_ids;
    attempt_fresh = v.attempt_fresh;
    known = v.known;
    tokens = v.tokens;
    owned =
        λ i. v.owned i ∙ sym (kept_jobs (active_job i) (λ j. ground (arith, same j, still j)) jobs);
    numbered = v.numbered;
    current = v.current;
    room =
        All-update Room Room q g (λ j _ h. ground (arith, same j, waits j, h)) (λ j _ h. h) jobs
          v.room;
    limit =
        All-update (λ j. 1 ≤ j.max_attempts) (λ j. 1 ≤ j.max_attempts) q g
          (λ j _ h. omega (arith, same j, h)) (λ j _ h. h) jobs v.limit;
    issued =
        All-map _ _ (λ c h. ClaimRows-update_jobs q g same c jobs attempts nj na h) claims v.issued;
    retired = v.retired;
  }
    where
      Room : JobEntry → Type 0
      Room j = last_number j.id attempts + bit (is_claimable j.state) ≤ j.max_attempts

-- The running attempt of the job `J` ends, and the job with it: one row each.
module _ (J : ℕ) (p : AttemptEntry → Bool) (f : AttemptEntry → AttemptEntry) (q : JobEntry → Bool)
    (g : JobEntry → JobEntry)
    (attempt_of : (a : AttemptEntry) → p a ≡ true → (a.job_id ≡ J) × (in_progress a.state ≡ true))
    (job_of : (j : JobEntry) → q j ≡ true → (j.id ≡ J) × (is_active j.state ≡ true))
    (same_attempt : (a : AttemptEntry) → SameAttempt a (f a))
    (same_job : (j : JobEntry) → SameJob j (g j))
    (ended : (a : AttemptEntry) → in_progress (f a).state ≡ false)
    (inactive : (j : JobEntry) → is_active (g j).state ≡ false) where
  pub end_attempt-Inv :
      {closed : List ℕ} {claims : List ClaimedJob} (jobs : List JobEntry)
      (attempts : List AttemptEntry) (nj na : ℕ)
      → count_rows p attempts ≡ 1
      → count_rows q jobs ≡ 1
      → All
          (λ j.
            q j ≡ true
            → last_number j.id attempts + bit (is_claimable (g j).state) ≤ j.max_attempts)
          jobs
      → QueueInv closed claims jobs attempts nj na
      → QueueInv closed claims (update_rows q g jobs) (update_rows p f attempts) nj na
  end_attempt-Inv {closed} {claims} jobs attempts nj na one_attempt one_job left v = record {
    job_ids = λ i. omega (
      arith,
      v.job_ids i,
      kept_jobs q g same_job (has_id i) (λ j. ground (arith, same_job j)) jobs,
    );
    job_fresh = λ i h.
        kept_jobs q g same_job (has_id i) (λ j. ground (arith, same_job j)) jobs ∙ v.job_fresh i h;
    attempt_ids = λ i.
        omega
          (arith, v.attempt_ids i, kept (has_attempt_id i) (λ a. ground (arith, same_attempt a)));
    attempt_fresh =
        λ i h. kept (has_attempt_id i) (λ a. ground (arith, same_attempt a)) ∙ v.attempt_fresh i h;
    known = λ j h. kept (for_job j) (λ a. ground (arith, same_attempt a)) ∙ v.known j h;
    tokens = λ t.
        omega
          (arith, v.tokens t, kept (has_token t) (λ a. ap (λ o. is_just o t) (same_attempt a).3));
    owned = λ i. omega (
      arith,
      v.owned i,
      count_rows-update_one p (running_for i) f (J == i) false
          (λ a h. ground (arith, attempt_of a h, ended a)) attempts one_attempt,
      count_rows-update_one q (active_job i) g (J == i) false
          (λ j h. ground (arith, job_of j h, inactive j)) jobs one_job,
    );
    numbered =
        λ j. kept (for_job j) (λ a. ground (arith, same_attempt a)) ∙ v.numbered j ∙ sym (last j);
    current =
        All-update Current Current' p f (λ a _ h r. cc (ended a))
          (λ a _ h r. h r ∙ sym (last a.job_id)) attempts v.current;
    room = All-map Room Room' (λ j h. omega (arith, last j.id, h)) (update_rows q g jobs) moved;
    limit =
        All-update (λ j. 1 ≤ j.max_attempts) (λ j. 1 ≤ j.max_attempts) q g
          (λ j _ h. omega (arith, same_job j, h)) (λ j _ h. h) jobs v.limit;
    issued =
        All-map _ _
          (λ c h.
            ClaimRows-update_jobs q g same_job c jobs _ nj na
              (ClaimRows-update_attempts p f same_attempt c jobs attempts nj na h))
          claims v.issued;
    retired =
        All-map _ _
          (λ i h. (
            h.0,
            omega (
              arith,
              h.1,
              count_rows-update_le p (running_id i) f (λ a _ r. ground (arith, ended a, r))
                  attempts,
            ),
          ))
          closed v.retired;
  }
    where
      kept :
          (r : AttemptEntry → Bool)
          → ((a : AttemptEntry) → r (f a) ≡ r a)
          → count_rows r (update_rows p f attempts) ≡ count_rows r attempts
      kept r h = count_rows-update_same p r f (λ a _. h a) attempts

      last : (j : ℕ) → last_number j (update_rows p f attempts) ≡ last_number j attempts
      last j = last_number-update p f same_attempt j attempts

      Current : AttemptEntry → Type 0
      Current a = in_progress a.state ≡ true → a.attempt_number ≡ last_number a.job_id attempts

      Current' : AttemptEntry → Type 0
      Current' a =
          in_progress a.state ≡ true
          → a.attempt_number ≡ last_number a.job_id (update_rows p f attempts)

      Room : JobEntry → Type 0
      Room j = last_number j.id attempts + bit (is_claimable j.state) ≤ j.max_attempts

      Room' : JobEntry → Type 0
      Room' j =
          last_number j.id (update_rows p f attempts) + bit (is_claimable j.state) ≤ j.max_attempts

      moved : All Room (update_rows q g jobs)
      moved =
          All-update
            (λ j.
              Room j
              × (q j ≡ true
                  → last_number j.id attempts + bit (is_claimable (g j).state) ≤ j.max_attempts))
            Room q g (λ j e h. ground (arith, same_job j, h.1 e)) (λ j _ h. h.0) jobs
            (All-both Room _ jobs v.room left)
