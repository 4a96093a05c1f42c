-- ===== src/Queue/Cancellation.antt =====
-- What becomes of a request to cancel a job.
use task_harbor.Base.{
  ℕ, ◌≤◌, ◌≡◌, refl, ap, bit, Bool, true, false, ◌&&◌, ◌==◌, ◌⊎◌, inl, inr, [], ◌∷◌, List, arith,
  ok, err, state_conflict, some, none, Option, coalesce, subst, Bool-cases, if◌then◌else◌,
}
use task_harbor.Clock.{Time}
use task_harbor.Core.{JobStatus}
use task_harbor.Sql.{count_rows, find_row, update_rows}
use task_harbor.Sql.Counts.{count_rows_mono}
use task_harbor.Tables.{Db, JobEntry}
use task_harbor.Queue.Cancel.{
  request_cancel, request_cancel_row, is_cancellable, get_job, owned_job,
}

find_row-update {ℓ} :
    {A : Type ℓ} (p q : A → Bool) (f : A → A)
    → ((x : A) → p (f x) ≡ p x)
    → (xs : List A) (x : A) → find_row p xs ≡ some x
    → find_row p (update_rows q f xs) ≡ some (if q x then f x else x)
unfolding find_row update_rows
find_row-update p q f h [] x e = absurd (ground arith)
find_row-update p q f h (y ∷ ys) x e = ground (arith, h y, find_row-update p q f h ys x)

-- Where no more than one row is selected, a further condition counts the row that is found.
find_row-and {ℓ} :
    {A : Type ℓ} (p q : A → Bool) (xs : List A) (x : A)
    → count_rows p xs ≤ 1
    → find_row p xs ≡ some x
    → (p x ≡ true) × (count_rows (λ y. p y && q y) xs ≡ bit (q x))
unfolding find_row count_rows
find_row-and p q [] x one e = absurd (ground arith)
find_row-and p q (y ∷ ys) x one e = elim (Bool-cases (p y)) [
  | inl h ↦
      let none_left : count_rows (λ z. p z && q z) ys ≡ 0 =
        ground (arith, count_rows_mono (λ z. p z && q z) p (λ z k. ground arith) ys) in
      let same : y ≡ x = ground arith in ground (arith, none_left, ap p same, ap q same)
  | inr h ↦ ground (arith, find_row-and p q ys x)
]

-- The request is granted: this row is returned, and it is what is read of the job afterwards.
abbrev pub Granted : Db → (job_id : ℕ) → Option ℕ → Time → JobEntry → Type 0
Granted db job_id owner now row =
    (db' : Db) × (request_cancel db job_id owner now ≡ ok (some row, db'))
    × (get_job db' job_id owner ≡ some row)

granted :
    (db : Db) (job_id : ℕ) (owner : Option ℕ) (now : Time) (j : JobEntry)
    → count_rows (λ k. k.id == job_id) db.jobs ≤ 1
    → get_job db job_id owner ≡ some j
    → is_cancellable j.state ≡ true
    → Granted db job_id owner now (request_cancel_row now j)
unfolding request_cancel get_job
granted db job_id owner now j one e grants =
    let selected = λ (k : JobEntry). owned_job job_id owner k && is_cancellable k.state in
    let single =
      find_row-and (owned_job job_id owner) (λ k. is_cancellable k.state) db.jobs j
        (omega (
          arith,
          one,
          count_rows_mono (owned_job job_id owner) (λ k. k.id == job_id) (λ k h. ground arith)
              db.jobs,
        ))
        e in
    let after =
      find_row-update (owned_job job_id owner) selected (request_cancel_row now) (λ k. refl) db.jobs
        j e in
    let now_row : get_job
          (record db { jobs = update_rows selected (request_cancel_row now) db.jobs }) job_id owner
        ≡ some (request_cancel_row now j) =
      ground (arith, after, single.0, grants) in
    (
      record db { jobs = update_rows selected (request_cancel_row now) db.jobs },
      ground (arith, single.1, ap bit grants, now_row),
      now_row,
    )

refused :
    (db : Db) (job_id : ℕ) (owner : Option ℕ) (now : Time) (j : JobEntry)
    → count_rows (λ k. k.id == job_id) db.jobs ≤ 1
    → get_job db job_id owner ≡ some j
    → is_cancellable j.state ≡ false
    → request_cancel db job_id owner now ≡ err (state_conflict "cancel terminal job")
unfolding request_cancel get_job
refused db job_id owner now j one e denies =
    let single =
      find_row-and (owned_job job_id owner) (λ k. is_cancellable k.state) db.jobs j
        (omega (
          arith,
          one,
          count_rows_mono (owned_job job_id owner) (λ k. k.id == job_id) (λ k h. ground arith)
              db.jobs,
        ))
        e in
    ground (arith, e, single.1, ap bit denies)

-- What becomes of a request to cancel, by the state of the job.
abbrev pub CancelOutcome : Db → (job_id : ℕ) → Option ℕ → Time → JobEntry → Type 0
CancelOutcome db job_id owner now j =
    ((j.state ≡ JobStatus.succeeded) ⊎ (j.state ≡ JobStatus.failed))
      × (request_cancel db job_id owner now ≡ err (state_conflict "cancel terminal job"))
    ⊎ ((j.state ≡ JobStatus.queued) ⊎ (j.state ≡ JobStatus.retry_waiting))
      × Granted db job_id owner now (record j {
        state = JobStatus.cancelled;
        cancel_requested_at = some (coalesce j.cancel_requested_at now);
        finished_at = some now;
        failure_message = none;
      })
    ⊎ (j.state ≡ JobStatus.running)
      × Granted db job_id owner now (record j {
        state = JobStatus.cancel_requested;
        cancel_requested_at = some (coalesce j.cancel_requested_at now);
      })
    ⊎ ((j.state ≡ JobStatus.cancel_requested) ⊎ (j.state ≡ JobStatus.cancelled))
      × Granted db job_id owner now
          (record j { cancel_requested_at = some (coalesce j.cancel_requested_at now) })

by_state :
    (db : Db) (job_id : ℕ) (owner : Option ℕ) (now : Time) (j : JobEntry)
    → (is_cancellable j.state ≡ true → Granted db job_id owner now (request_cancel_row now j))
    → (is_cancellable j.state ≡ false
        → request_cancel db job_id owner now ≡ err (state_conflict "cancel terminal job"))
    → (s : JobStatus) → j.state ≡ s
    → CancelOutcome db job_id owner now j
by_state db i o now j grant deny JobStatus.succeeded e = inl (inl e, deny (ground (arith, e)))
by_state db i o now j grant deny JobStatus.failed e = inl (inr e, deny (ground (arith, e)))
by_state db i o now j grant deny JobStatus.queued e =
    inr (inl (inl e, subst (Granted db i o now) (ground (arith, e)) (grant (ground (arith, e)))))
by_state db i o now j grant deny JobStatus.retry_waiting e =
    inr (inl (inr e, subst (Granted db i o now) (ground (arith, e)) (grant (ground (arith, e)))))
by_state db i o now j grant deny JobStatus.running e =
    inr (inr (inl (e, subst (Granted db i o now) (ground (arith, e)) (grant (ground (arith, e))))))
by_state db i o now j grant deny JobStatus.cancel_requested e =
    inr (
      inr (inr (inl e, subst (Granted db i o now) (ground (arith, e)) (grant (ground (arith, e))))))
by_state db i o now j grant deny JobStatus.cancelled e =
    inr (
      inr (inr (inr e, subst (Granted db i o now) (ground (arith, e)) (grant (ground (arith, e))))))

-- A request to cancel a job that the caller can see, by the state of the job. A job that has succeeded
-- or failed is a conflict. A waiting job is cancelled at once: it ends now and its failure message is
-- cleared. A running job is asked to stop. Where the cancellation is requested or done already, the
-- job is as it was. In the granted cases the time of the first request stands in the row, no other
-- column changes, and the row is returned and read afterwards. Identifiers are unique.
pub request_cancel-outcome :
    (db : Db) (job_id : ℕ) (owner : Option ℕ) (now : Time) (j : JobEntry)
    → count_rows (λ k. k.id == job_id) db.jobs ≤ 1
    → get_job db job_id owner ≡ some j
    → CancelOutcome db job_id owner now j
request_cancel-outcome db job_id owner now j one e =
    by_state db job_id owner now j (granted db job_id owner now j one e)
      (refused db job_id owner now j one e) j.state refl
