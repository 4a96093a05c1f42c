-- ===== src/Worker/Settled.antt =====
-- A run of the worker's processing that returns success has ended the attempt for good.
use task_harbor.Base.{
  ℕ, ◌<◌, ◌≡◌, inl, inr, refl, sym, subst, Result, ok, err, RepositoryError, Result-cases, arith,
}
use task_harbor.Clock.{Time}
use task_harbor.Sql.{count_rows}
use task_harbor.Tables.{Db}
use task_harbor.Queue.{ClaimedJob, Tx, owns}
use task_harbor.Safety.{Issued, All-Issued}
use task_harbor.System.{World, with_db, Reach, initial, here, Step, next}
use task_harbor.System.Reachable.{reached-Inv}
use task_harbor.System.Fencing.{over_stays, ended_attempt_stays_ended}
use task_harbor.Worker.{Program}
use task_harbor.Worker.Process.{process_claimed_inner}
use task_harbor.Worker.Accounts.{Accounts, process_work-Accounts, Run-Reach}
use task_harbor.Worker.Run.{
  Run, Run-Issued, Reply, Reply-Reach, Reply-Issued, Step-Issued, done, other, slept, removed,
  checked, cancelled, completed, resized, encoded, measured, progressed, published, failed,
}
use task_harbor.Worker.Ends.{
  Over, complete-Over, finish_cancelled-Over, complete_image_job-Over, record_failure-Over,
}
use task_harbor.System.{completes, publishes, cancels, fails, encodes, progresses}

-- The answer of a call that was granted, and the database that it left.
Reply-ok :
    {A : Type 0} (w v : World) (m : Tx A) (x : A)
    → Reply w m (ok x) v
    → (db' : Db) × (m ≡ ok (x, db')) × (v ≡ with_db w db')
Reply-ok w v (ok (y, db')) x (inl (e, same)) = (db', ground arith, same)
Reply-ok w v (err failure) x (inl (e, same)) = cc
Reply-ok w v m x (inr (e, same)) = cc

known :
    (c : ClaimedJob) {w : World}
    → Reach initial w
    → Issued c w.claims
    → c.attempt_id < w.db.next_attempt_id
known c {w} r i = (All-Issued _ c w.claims (reached-Inv r).issued i).attempt_known

-- From the state in which the attempt ended on, it does not run.
stays-Over :
    {c : ClaimedJob} {p : Program} {v u : World} {r : Result (Unit {0})}
    → Run c p v r u
    → Reach initial v
    → Issued c v.claims
    → Over c v.db
    → Over c u.db
stays-Over {c} run reach i over =
    over_stays reach (Run-Reach run i here) c.attempt_id (known c reach i) over

-- A call that may end the attempt: where it was granted the attempt is over, else the rest is asked.
ending_call :
    {A : Type 0} {c : ClaimedJob} (f : Result A → Program) (w v u : World) (r : Result (Unit {0}))
    (m : Tx A) (a : Result A)
    → ((x : A) (db' : Db) → m ≡ ok (x, db') → Step w (with_db w db'))
    → ((x : A) (db' : Db) → m ≡ ok (x, db') → Over c db')
    → Reply w m a v
    → Reach initial w
    → Issued c w.claims
    → Run c (f a) v r u
    → ((e : RepositoryError) → a ≡ err e → Over c u.db)
    → Over c u.db
ending_call {A} {c} f w v u r m a step over reply reach i run rest = elim (Result-cases a) [
  | inl (e, failure) ↦ rest e failure
  | inr (x, granted) ↦
      let (db', granting, same) = Reply-ok w v m x (subst (λ a. Reply w m a v) granted reply) in
      stays-Over run (Reply-Reach w v m a step reply reach) (Reply-Issued c w v m a reply i)
        (subst (λ x. Over c x.db) (sym same) (over x db' granting))
]

pub settled :
    {c : ClaimedJob} {p : Program} {w u : World} {r : Result (Unit {0})}
    → Run c p w r u
    → Accounts p
    → r ≡ ok tt
    → Reach initial w
    → Issued c w.claims
    → Over c u.db
settled done h e reach i = absurd (h e)
settled {c} (other s run) h e reach i = settled run h e (next reach s) (Step-Issued c s i)
settled (slept run) h e reach i = settled run h e reach i
settled (removed run) h e reach i = settled run h e reach i
settled (checked now a _ run) h e reach i = settled run (h a) e reach i
settled {c} {w = w} {u = u} {r = r} (cancelled {f = f} {v = v} now d a reply run) h e reach i =
    ending_call f w v u r _ a (λ x db' k. cancels db' c now d i k)
      (λ x db' k. finish_cancelled-Over w.db db' c now d (reached-Inv reach) k) reply reach i run
      λ failure same.
        settled run (subst (λ a. Accounts (f a)) (sym same) (h failure)) e
          (Reply-Reach w v _ a (λ x db' k. cancels db' c now d i k) reply reach)
          (Reply-Issued c w v _ a reply i)
settled {c} {w = w} {u = u} {r = r} (completed {f = f} {v = v} now d a reply run) h e reach i =
    ending_call f w v u r _ a (λ x db' k. completes db' c now d i k)
      (λ x db' k. complete-Over w.db db' c now d (reached-Inv reach) k) reply reach i run
      λ failure same.
        settled run (subst (λ a. Accounts (f a)) (sym same) (h failure)) e
          (Reply-Reach w v _ a (λ x db' k. completes db' c now d i k) reply reach)
          (Reply-Issued c w v _ a reply i)
settled (resized a run) h e reach i = settled run (h a) e reach i
settled {c} {w = w} (encoded {v = v} now d a reply run) h e reach i =
    settled run (h a) e (Reply-Reach w v _ a (λ x db' k. encodes db' c now d i k) reply reach)
      (Reply-Issued c w v _ a reply i)
settled (measured a run) h e reach i = settled run (h a) e reach i
settled {c} {w = w} (progressed {v = v} {n = n} now a reply run) h e reach i =
    settled run (h a) e (Reply-Reach w v _ a (λ x db' k. progresses db' c now n i k) reply reach)
      (Reply-Issued c w v _ a reply i)
settled {c} {w = w} {u = u} {r = r} (published {f = f} {v = v} {outputs = o} now d a reply run) h e
      reach i =
    ending_call f w v u r _ a (λ x db' k. publishes db' c now d o i k)
      (λ x db' k. complete_image_job-Over w.db db' c now d (reached-Inv reach) o k) reply reach i
      run
      λ failure same.
        settled run (subst (λ a. Accounts (f a)) (sym same) (h failure)) e
          (Reply-Reach w v _ a (λ x db' k. publishes db' c now d o i k) reply reach)
          (Reply-Issued c w v _ a reply i)
settled {c} {w = w} {u = u} {r = r}
      (failed {f = f} {v = v} {kind = k} {message = m} now d a reply run) h e reach i =
    ending_call f w v u r _ a (λ x db' q. fails db' c now d k m x i q)
      (λ x db' q. record_failure-Over w.db db' c now d (reached-Inv reach) k m x q) reply reach i
      run
      λ failure same.
        settled run (subst (λ a. Accounts (f a)) (sym same) (h failure)) e
          (Reply-Reach w v _ a (λ x db' q. fails db' c now d k m x i q) reply reach)
          (Reply-Issued c w v _ a reply i)

-- A worker processes a job whose claim it was given in a state that is reached, and meanwhile
-- anything else may happen to the queue, calls may fail, and files and images may turn out as they
-- like. If the processing returns success, then the claim holds no attempt any more, at any time, in
-- the state behind it and in every later one.
pub processing_ends_attempt :
    {c : ClaimedJob} {w u v : World} (budget : ℕ) (now : Time)
    → Reach initial w
    → Issued c w.claims
    → Run c (process_claimed_inner c budget) w (ok tt) u
    → Reach u v
    → count_rows (owns c now) v.db.attempts ≡ 0
unfolding process_claimed_inner
processing_ends_attempt {c} {w} {u} {v} budget now reach i run later =
    let behind = Run-Reach run i reach in
    ended_attempt_stays_ended behind later c now (known c behind (Run-Issued run i))
      (settled run (process_work-Accounts c budget c.work) refl reach i)
