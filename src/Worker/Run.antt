-- ===== src/Worker/Run.antt =====
-- A run of the worker's program for a claim, among everything else that happens to the queue. Each
-- call is a transaction at a time and with a duration that the environment chooses. A call may also
-- fail with an error of the driver; what its transaction did before the answer was lost is then a
-- step of the environment. Files and codecs answer as they like.
use task_harbor.Base.{
  ℕ, ◌≡◌, ◌⊎◌, inl, inr, refl, sym, subst, Result, ok, err, database, Bool, List, String,
}
use task_harbor.Clock.{Time}
use task_harbor.Tables.{Db}
use task_harbor.Queue.{ClaimedJob, Tx, commit}
use task_harbor.Queue.Finish.{
  complete, update_progress, record_encoding_duration, finish_cancelled, cancellation_requested,
}
use task_harbor.Queue.Failure.{FailureKind, FailureDisposition, record_failure}
use task_harbor.Queue.Publish.{PendingOutputArtifact, complete_image_job}
use task_harbor.Image.{ImageError, ProcessedImage}
use task_harbor.Storage.{StorageError}
use task_harbor.Core.{Checked}
use task_harbor.Safety.{Issued}
use task_harbor.System.{
  World, with_db, Step, Reach, next, creates, creates_image, requests_cancel, retries, registers,
  beats, stops, claims_job, finds_no_job, renews, progresses, encodes, completes, publishes,
  cancels, fails, reclaims, materializes, expires_outputs,
}
use task_harbor.Worker
use task_harbor.Worker.{
  Program, returns, sleeps, removes_outputs, checks_cancellation, finishes_cancelled, resizes,
  records_encoding, measures_usage, updates_progress, records_failure,
}

abbrev pub answer : {A : Type 0} → Tx A → Result A
answer (ok (a, _)) = ok a
answer (err e) = err e

-- The answer of a transaction and the world behind it.
abbrev pub Reply : {A : Type 0} → World → Tx A → Result A → World → Type 0
Reply w m a v = ((a ≡ answer m) × (v ≡ with_db w (commit w.db m))) ⊎ ((a ≡ err database) × (v ≡ w))

pub data Run (c : ClaimedJob) : Program → World → Result (Unit {0}) → World → Type 0 where
  done : {w : World} {r : Result (Unit {0})} → Run c (returns r) w r w
  other :
      {p : Program} {w v u : World} {r : Result (Unit {0})}
      → Step w v
      → Run c p v r u
      → Run c p w r u
  slept :
      {p : Program} {w u : World} {r : Result (Unit {0})} {delay : ℕ}
      → Run c p w r u
      → Run c (sleeps delay p) w r u
  removed :
      {p : Program} {w u : World} {r : Result (Unit {0})}
      → Run c p w r u
      → Run c (removes_outputs p) w r u
  checked :
      {f : Result Bool → Program} {w u : World} {r : Result (Unit {0})} (now : Time)
      (a : Result Bool)
      → (a ≡ cancellation_requested w.db c now) ⊎ (a ≡ err database)
      → Run c (f a) w r u
      → Run c (checks_cancellation f) w r u
  cancelled :
      {f : Result (Unit {0}) → Program} {w v u : World} {r : Result (Unit {0})} (now : Time) (d : ℕ)
      (a : Result (Unit {0}))
      → Reply w (finish_cancelled w.db c now d) a v
      → Run c (f a) v r u
      → Run c (finishes_cancelled f) w r u
  completed :
      {f : Result (Unit {0}) → Program} {w v u : World} {r : Result (Unit {0})} (now : Time) (d : ℕ)
      (a : Result (Unit {0}))
      → Reply w (complete w.db c now d) a v
      → Run c (f a) v r u
      → Run c (Worker.completes f) w r u
  resized :
      {f : Checked ImageError ProcessedImage → Program} {w u : World} {r : Result (Unit {0})}
      {i o : List ℕ} {width quality : ℕ} (a : Checked ImageError ProcessedImage)
      → Run c (f a) w r u
      → Run c (resizes i o width quality f) w r u
  encoded :
      {f : Result (Unit {0}) → Program} {w v u : World} {r : Result (Unit {0})} (now : Time) (d : ℕ)
      (a : Result (Unit {0}))
      → Reply w (record_encoding_duration w.db c now d) a v
      → Run c (f a) v r u
      → Run c (records_encoding f) w r u
  measured :
      {f : Checked StorageError ℕ → Program} {w u : World} {r : Result (Unit {0})}
      (a : Checked StorageError ℕ)
      → Run c (f a) w r u
      → Run c (measures_usage f) w r u
  progressed :
      {f : Result (Unit {0}) → Program} {w v u : World} {r : Result (Unit {0})} {n : ℕ} (now : Time)
      (a : Result (Unit {0}))
      → Reply w (update_progress w.db c now n) a v
      → Run c (f a) v r u
      → Run c (updates_progress n f) w r u
  published :
      {f : Result (Unit {0}) → Program} {w v u : World} {r : Result (Unit {0})}
      {outputs : List PendingOutputArtifact} (now : Time) (d : ℕ) (a : Result (Unit {0}))
      → Reply w (complete_image_job w.db c now d outputs) a v
      → Run c (f a) v r u
      → Run c (Worker.publishes outputs f) w r u
  failed :
      {f : Result FailureDisposition → Program} {w v u : World} {r : Result (Unit {0})}
      {kind : FailureKind} {message : String} (now : Time) (d : ℕ) (a : Result FailureDisposition)
      → Reply w (record_failure w.db c now d kind message) a v
      → Run c (f a) v r u
      → Run c (records_failure kind message f) w r u

-- A transaction that is a step where it commits leads to a state that can be reached.
pub Reply-Reach :
    {A : Type 0} {start : World} (w v : World) (m : Tx A) (a : Result A)
    → ((x : A) (db' : Db) → m ≡ ok (x, db') → Step w (with_db w db'))
    → Reply w m a v
    → Reach start w
    → Reach start v
Reply-Reach w v (ok (x, db')) a step (inl (_, e)) r =
    subst (Reach _) (sym e) (next r (step x db' refl))
Reply-Reach w v (err failure) a step (inl (_, e)) r = subst (Reach _) (sym e) r
Reply-Reach w v m a step (inr (_, e)) r = subst (Reach _) (sym e) r

-- Claims that were given out are not taken back.
pub Step-Issued : {w v : World} (c : ClaimedJob) → Step w v → Issued c w.claims → Issued c v.claims
Step-Issued c (creates _ _ _ _ _) i = i
Step-Issued c (creates_image _ _ _ _ _) i = i
Step-Issued c (requests_cancel _ _ _ _ _ _) i = i
Step-Issued c (retries _ _ _ _ _ _) i = i
Step-Issued c (registers _ _ _ _ _ _) i = i
Step-Issued c (beats _ _ _ _ _ _) i = i
Step-Issued c (stops _ _ _ _) i = i
Step-Issued c (claims_job _ _ _ _ _ _ _) i = inr i
Step-Issued c (finds_no_job _ _ _ _ _ _) i = i
Step-Issued c (renews _ _ _ _ _ _) i = i
Step-Issued c (progresses _ _ _ _ _ _) i = i
Step-Issued c (encodes _ _ _ _ _ _) i = i
Step-Issued c (completes _ _ _ _ _ _) i = i
Step-Issued c (publishes _ _ _ _ _ _ _) i = i
Step-Issued c (cancels _ _ _ _ _ _) i = i
Step-Issued c (fails _ _ _ _ _ _ _ _ _) i = i
Step-Issued c (reclaims _ _ _ _ _) i = i
Step-Issued c (materializes _ _ _ _ _ _ _ _) i = i
Step-Issued c (expires_outputs _ _ _ _ _ _ _) i = i

pub Reply-Issued :
    {A : Type 0} (c : ClaimedJob) (w v : World) (m : Tx A) (a : Result A)
    → Reply w m a v
    → Issued c w.claims
    → Issued c v.claims
Reply-Issued c w v m a (inl (_, e)) i = subst (λ x. Issued c x.claims) (sym e) i
Reply-Issued c w v m a (inr (_, e)) i = subst (λ x. Issued c x.claims) (sym e) i

pub Run-Issued :
    {c : ClaimedJob} {p : Program} {w u : World} {r : Result (Unit {0})}
    → Run c p w r u
    → Issued c w.claims
    → Issued c u.claims
Run-Issued done i = i
Run-Issued {c} (other s run) i = Run-Issued run (Step-Issued c s i)
Run-Issued (slept run) i = Run-Issued run i
Run-Issued (removed run) i = Run-Issued run i
Run-Issued (checked now a _ run) i = Run-Issued run i
Run-Issued {c} {w = w} (cancelled {v = v} now d a reply run) i =
    Run-Issued run (Reply-Issued c w v _ a reply i)
Run-Issued {c} {w = w} (completed {v = v} now d a reply run) i =
    Run-Issued run (Reply-Issued c w v _ a reply i)
Run-Issued (resized a run) i = Run-Issued run i
Run-Issued {c} {w = w} (encoded {v = v} now d a reply run) i =
    Run-Issued run (Reply-Issued c w v _ a reply i)
Run-Issued (measured a run) i = Run-Issued run i
Run-Issued {c} {w = w} (progressed {v = v} now a reply run) i =
    Run-Issued run (Reply-Issued c w v _ a reply i)
Run-Issued {c} {w = w} (published {v = v} now d a reply run) i =
    Run-Issued run (Reply-Issued c w v _ a reply i)
Run-Issued {c} {w = w} (failed {v = v} now d a reply run) i =
    Run-Issued run (Reply-Issued c w v _ a reply i)
