-- ===== src/Safety/Claims.antt =====
-- The invariant under `claim_next`, and what the claim that it returns says.
use task_harbor.Base.{
  ℕ, ◌+◌, ◌≤◌, ◌≡◌, refl, sym, ◌∙◌, ap, subst, [], ◌∷◌, Bool, true, false, none, some, List, All,
  arith, ok, inl, inr, Option-cases,
}
use task_harbor.Clock.{Time, plus_seconds, whole_milliseconds}
use task_harbor.Sql.{count_rows, update_rows, find_row, first_row, insert_row}
use task_harbor.Tables.{Db, JobEntry, WorkerEntry}
use task_harbor.Queue.{ClaimedJob}
use task_harbor.Queue.Claim.{
  last_number, claim_job, claim_next, claimed_work, start_job, new_attempt, is_live, is_candidate,
  claimed_before,
}
use task_harbor.Safety.{Inv, has_id, has_token}
use task_harbor.Sql.Counts.{All-map, All-both}
use task_harbor.Sql.Order.{NoneBefore, first_row_lem}
use task_harbor.Queue.Order.{claimed_before-IsRowOrder}
use task_harbor.Safety.Rows.{count_rows_zero}
use task_harbor.Safety.Claiming.{waiting_job, claim-Inv}

-- What a successful claim of the job `j` has found and written.
pub record Claimed (db : Db) (j : JobEntry) (worker_id : ℕ) (t : Time) (token : ℕ) (c : ClaimedJob)
    (db' : Db) : Type 0 where
  pub worker : WorkerEntry
  pub live : find_row (is_live worker_id t) db.workers ≡ some worker
  pub one_job : count_rows (waiting_job j.id) db.jobs ≡ 1
  pub fresh_token : count_rows (has_token token) db.attempts ≡ 0
  pub left : last_number j.id db.attempts + 1 ≤ j.max_attempts
  pub names_job : (c.job_id ≡ j.id) × (c.max_attempts ≡ j.max_attempts)
  pub names_attempt :
      (c.attempt_id ≡ db.next_attempt_id)
      × (c.attempt_number ≡ last_number j.id db.attempts + 1)
      × (c.claim_token ≡ token)
      × (c.worker_id ≡ worker_id)
  pub lease : c.lease_expires_at ≡ plus_seconds t worker.lease_duration_seconds
  pub work : claimed_work j db.artifacts ≡ ok c.work
  pub written :
      record db {
        jobs = update_rows (waiting_job j.id) (start_job t) db.jobs;
        attempts =
            insert_row
              (new_attempt db.next_attempt_id j.id
                (last_number j.id db.attempts + 1)
                j.progress_total
                t
                worker
                token
                (whole_milliseconds t j.available_at))
              db.attempts;
        next_attempt_id = db.next_attempt_id + 1;
      }
      ≡ db'

claim_job_effect :
    (db db' : Db) (j : JobEntry) (worker_id : ℕ) (t : Time) (token : ℕ) (c : ClaimedJob)
    → claim_job db j worker_id t token ≡ ok (some c, db')
    → Claimed db j worker_id t token c db'
unfolding claim_job
claim_job_effect db db' j w t token c e = elim (Option-cases (find_row (is_live w t) db.workers)) [
  | inl miss ↦ absurd (ground arith)
  | inr (worker, hit) ↦ record {
    worker = worker;
    live = hit;
    one_job = ground arith;
    fresh_token = ground arith;
    left = ground arith;
    names_job = ground arith;
    names_attempt = ground arith;
    lease = ground arith;
    work = ground arith;
    written = ground arith;
  }
]

-- No two rows have one identifier.
unique_ids :
    (xs : List JobEntry)
    → ((j : ℕ) → count_rows (has_id j) xs ≤ 1)
    → All (λ x. All (λ k. k.id ≡ x.id → k ≡ x) xs) xs
unfolding count_rows
unique_ids [] c = tt
unique_ids (x ∷ xs) c =
    let others : All (λ k. has_id x.id k ≡ false) xs =
      count_rows_zero (has_id x.id) xs (ground (arith, c x.id)) in
    (
      (
        (λ _. refl),
        All-map (λ k. has_id x.id k ≡ false) (λ k. k.id ≡ x.id → k ≡ x)
            (λ k h e. absurd (ground arith)) xs others,
      ),
      All-map (λ y. All (λ k. k.id ≡ y.id → k ≡ y) xs × (has_id x.id y ≡ false))
          (λ y. All (λ k. k.id ≡ y.id → k ≡ y) (x ∷ xs))
          (λ y h. ((λ e. absurd (ground (arith, h.1))), h.0)) xs
          (All-both _ _ xs (unique_ids xs (λ j. ground (arith, c j))) others),
    )

-- The limit on attempts is the same in all rows with the identifier of `j`.
abbrev pub OneLimit : List JobEntry → JobEntry → Type 0
OneLimit jobs j = All (λ k. k.id ≡ j.id → k.max_attempts ≡ j.max_attempts) jobs

one_limit :
    {closed : List ℕ} {claims : List ClaimedJob} (db : Db)
    → Inv closed claims db
    → All (OneLimit db.jobs) db.jobs
one_limit db v =
    All-map (λ x. All (λ k. k.id ≡ x.id → k ≡ x) db.jobs) (OneLimit db.jobs)
      (λ x h.
        All-map (λ k. k.id ≡ x.id → k ≡ x) (λ k. k.id ≡ x.id → k.max_attempts ≡ x.max_attempts)
          (λ k r e. ap (λ (y : JobEntry). y.max_attempts) (r e)) db.jobs h)
      db.jobs (unique_ids db.jobs v.job_ids)

claim_job-Inv :
    {closed : List ℕ} {claims : List ClaimedJob} (db db' : Db) (j : JobEntry) (worker_id : ℕ)
    (t : Time) (token : ℕ) (c : ClaimedJob)
    → Inv closed claims db
    → OneLimit db.jobs j
    → Claimed db j worker_id t token c db'
    → Inv closed (c ∷ claims) db'
claim_job-Inv {closed} {claims} db db' j w t token c v limits done =
    subst (Inv closed (c ∷ claims)) done.written (
      claim-Inv j.id (start_job t) _ db.jobs db.attempts db.next_job_id db.next_attempt_id v
        done.one_job (λ k. (refl, refl)) (λ k. (refl, refl)) token refl refl refl refl refl
        done.fresh_token c (ground (arith, done.names_job, done.names_attempt))
        (All-map (λ k. k.id ≡ j.id → k.max_attempts ≡ j.max_attempts)
          (λ k. k.id ≡ j.id → k.max_attempts ≡ c.max_attempts) (λ k r e. r e ∙ sym done.names_job.1)
          db.jobs limits))

-- The job that a successful claim has taken: a candidate that no candidate goes before.
pub claim_next_effect :
    (db db' : Db) (locked : ℕ → Bool) (worker_id : ℕ) (t : Time) (token : ℕ) (c : ClaimedJob)
    (P : JobEntry → Type 0)
    → All P db.jobs
    → claim_next db locked worker_id t token ≡ ok (some c, db')
    → (j : JobEntry) × P j
      × (is_candidate locked t j ≡ true)
      × NoneBefore (is_candidate locked t) claimed_before j db.jobs
      × Claimed db j worker_id t token c db'
unfolding claim_next
claim_next_effect db db' locked w t token c P a e =
    elim (Option-cases (first_row (is_candidate locked t) claimed_before db.jobs)) [
      | inl none_waits ↦ absurd (ground arith)
      | inr (j, first) ↦
          let chosen =
            first_row_lem (is_candidate locked t) claimed_before claimed_before-IsRowOrder P db.jobs
              j a first in
          (j, chosen.0, chosen.1, chosen.2, claim_job_effect db db' j w t token c (ground arith))
    ]

pub claim_next-Inv :
    {closed : List ℕ} {claims : List ClaimedJob} (db db' : Db) (locked : ℕ → Bool) (worker_id : ℕ)
    (t : Time) (token : ℕ) (c : ClaimedJob)
    → Inv closed claims db
    → claim_next db locked worker_id t token ≡ ok (some c, db')
    → Inv closed (c ∷ claims) db'
claim_next-Inv db db' locked w t token c v e =
    let (j, limits, _, _, done) =
      claim_next_effect db db' locked w t token c (OneLimit db.jobs) (one_limit db v) e in
    claim_job-Inv db db' j w t token c v limits done

pub claim_next-none :
    (db db' : Db) (locked : ℕ → Bool) (worker_id : ℕ) (t : Time) (token : ℕ)
    → claim_next db locked worker_id t token ≡ ok (none, db')
    → db ≡ db'
unfolding claim_next claim_job
claim_next-none db db' locked w t token e = ground arith
