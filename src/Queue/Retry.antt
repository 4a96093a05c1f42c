-- ===== src/Queue/Retry.antt =====
-- A manual retry: a new job takes the place of the one that is over, which is kept.
use task_harbor.Base.{
  ℕ, ◌≤◌, ◌≡◌, Bool, true, ◌&&◌, ◌==◌, ◌⊎◌, inl, inr, some, Option, List, [], ◌∷◌, arith, ok, err,
  state_conflict, Bool-cases, ◌+◌, ◌++◌, length, map, All, none, refl, ap, String, ◌≢◌,
}
use task_harbor.Clock.{Time}
use task_harbor.Core.{Text, JobStatus, i64_max}
use task_harbor.Sql.{count_rows, find_row, insert_row, select_rows}
use task_harbor.Tables.{Db, JobEntry, ArtifactEntry, ArtifactKind, input, output, is_input}
use task_harbor.Queue.Cancel.{
  manual_retry, copy_inputs, retried_job, is_retryable, get_job, owned_job,
}
use task_harbor.Queue.Replay.{find_row-insert, absent}

find_row-kept {ℓ} :
    {A : Type ℓ} (p : A → Bool) (x : A) (xs : List A) (y : A)
    → find_row p xs ≡ some y
    → (p y ≡ true) × (find_row p (insert_row x xs) ≡ some y)
unfolding find_row insert_row
find_row-kept p x [] y e = absurd (ground arith)
find_row-kept p x (z ∷ zs) y e = elim (Bool-cases (p z)) [
  | inl h ↦ ground (arith, h)
  | inr h ↦ ground (arith, find_row-kept p x zs y)
]

-- What an input is, but for the job that it belongs to and its checksum.
abbrev pub content : ArtifactEntry → ℕ × Text × Text × String × ℕ × ℕ × ℕ
content a =
    (a.item_index, a.storage_key, a.display_name, a.media_type, a.byte_size, a.width, a.height)

abbrev pub input_of : ℕ → ArtifactEntry → Bool
input_of job_id a = a.job_id == job_id && is_input a.kind

map-content-copy_inputs :
    (new_job next : ℕ) (now : Time) (xs : List ArtifactEntry)
    → map content (copy_inputs new_job next now xs) ≡ map content xs
unfolding copy_inputs
map-content-copy_inputs new_job next now [] = refl
map-content-copy_inputs new_job next now (x ∷ xs) =
    ap (λ rest. content x ∷ rest) (map-content-copy_inputs new_job (next + 1) now xs)

abbrev pub NewInput : ℕ → ArtifactEntry → Type 0
NewInput job_id a = (a.job_id ≡ job_id) × (a.kind ≡ input)

copy_inputs-NewInput :
    (new_job next : ℕ) (now : Time) (xs : List ArtifactEntry)
    → All (λ a. a.kind ≡ input) xs
    → All (NewInput new_job) (copy_inputs new_job next now xs)
unfolding copy_inputs
copy_inputs-NewInput new_job next now [] h = tt
copy_inputs-NewInput new_job next now (x ∷ xs) h =
    ((refl, h.0), copy_inputs-NewInput new_job (next + 1) now xs h.1)

is_input→eq : (k : ArtifactKind) → is_input k ≡ true → k ≡ input
is_input→eq input h = refl
is_input→eq output h = cc

inputs_are_inputs :
    (job_id : ℕ) (xs : List ArtifactEntry)
    → All (λ a. a.kind ≡ input) (select_rows (input_of job_id) xs)
unfolding select_rows
inputs_are_inputs job_id [] = tt
inputs_are_inputs job_id (x ∷ xs) = elim (Bool-cases (input_of job_id x)) [
  | inl e ↦ rw e (is_input→eq x.kind (ground arith), inputs_are_inputs job_id xs)
  | inr e ↦ rw e (inputs_are_inputs job_id xs)
]

-- A new job with the given identifier does the work of the old one over again.
abbrev pub fresh_copy : ℕ → Time → JobEntry → JobEntry
fresh_copy new_id now source = record source {
  id = new_id;
  state = JobStatus.queued;
  available_at = now;
  progress_completed = 0;
  result_message = none;
  result_duration_ms = none;
  failure_message = none;
  retry_of_job_id = some source.id;
  cancel_requested_at = none;
  schedule_id = none;
  scheduled_for = none;
  created_at = now;
  started_at = none;
  finished_at = none;
  idempotency_key = none;
  request_fingerprint = none;
}

-- What a retry that is granted has done.
abbrev pub Retried : Db → (job_id : ℕ) → Option ℕ → Time → JobEntry → Type 0
Retried db job_id owner now source =
    (db' : Db) × (copies : List ArtifactEntry) × (manual_retry db job_id owner now
      ≡ ok (some (fresh_copy db.next_job_id now source), db'))
    × (get_job db' db.next_job_id owner ≡ some (fresh_copy db.next_job_id now source))
    × (get_job db' job_id owner ≡ some source)
    × (db'.artifacts ≡ db.artifacts ++ copies)
    × (map content copies ≡ map content (select_rows (input_of job_id) db.artifacts))
    × All (NewInput db.next_job_id) copies

retried_lem :
    (db : Db) (job_id : ℕ) (owner : Option ℕ) (now : Time) (source : JobEntry)
    → count_rows (λ j. j.id == db.next_job_id) db.jobs ≡ 0
    → db.next_job_id ≤ i64_max
    → get_job db job_id owner ≡ some source
    → is_retryable source.state ≡ true
    → Retried db job_id owner now source
unfolding manual_retry get_job
retried_lem db job_id owner now source fresh range e again =
    let row = retried_job db.next_job_id now source in
    let kept = find_row-kept (owned_job job_id owner) row db.jobs source e in
    let made =
      find_row-insert (owned_job db.next_job_id owner) row db.jobs
        (absent (owned_job db.next_job_id owner) (λ j. j.id == db.next_job_id) (λ j h. ground arith)
          db.jobs fresh)
        (ground (arith, kept.0)) in
    let inputs : List ArtifactEntry = select_rows (input_of job_id) db.artifacts in
    let copies = copy_inputs db.next_job_id db.next_artifact_id now inputs in
    let db' : Db = record db {
      jobs = insert_row row db.jobs;
      next_job_id = db.next_job_id + 1;
      artifacts = db.artifacts ++ copies;
      next_artifact_id = db.next_artifact_id + length inputs;
    } in
    (
      db',
      copies,
      ground (arith, e, again, made),
      made,
      kept.1,
      refl,
      map-content-copy_inputs db.next_job_id db.next_artifact_id now inputs,
      copy_inputs-NewInput db.next_job_id db.next_artifact_id now inputs
          (inputs_are_inputs job_id db.artifacts),
    )

-- What becomes of a manual retry, by the state of the job.
abbrev pub RetryOutcome : Db → (job_id : ℕ) → Option ℕ → Time → JobEntry → Type 0
RetryOutcome db job_id owner now source =
    ((source.state ≡ JobStatus.failed) ⊎ (source.state ≡ JobStatus.cancelled))
      × Retried db job_id owner now source
    ⊎ (source.state ≢ JobStatus.failed)
      × (source.state ≢ JobStatus.cancelled)
      × (manual_retry db job_id owner now ≡ err (state_conflict "manually retry job"))

by_state :
    (db : Db) (job_id : ℕ) (owner : Option ℕ) (now : Time) (source : JobEntry)
    → get_job db job_id owner ≡ some source
    → (is_retryable source.state ≡ true → Retried db job_id owner now source)
    → (s : JobStatus) → source.state ≡ s
    → RetryOutcome db job_id owner now source
unfolding manual_retry
by_state db i o now j e grant JobStatus.failed h = inl (inl h, grant (ground (arith, h)))
by_state db i o now j e grant JobStatus.cancelled h = inl (inr h, grant (ground (arith, h)))
by_state db i o now j e grant JobStatus.queued h = inr (λ k. cc, λ k. cc, ground (arith, e, h))
by_state db i o now j e grant JobStatus.running h = inr (λ k. cc, λ k. cc, ground (arith, e, h))
by_state db i o now j e grant JobStatus.retry_waiting h =
    inr (λ k. cc, λ k. cc, ground (arith, e, h))
by_state db i o now j e grant JobStatus.cancel_requested h =
    inr (λ k. cc, λ k. cc, ground (arith, e, h))
by_state db i o now j e grant JobStatus.succeeded h = inr (λ k. cc, λ k. cc, ground (arith, e, h))

-- A manual retry of a job that the caller can see: a job that is neither failed nor cancelled is a
-- conflict. Otherwise a job with the next identifier is made, returned and read afterwards: it is the
-- old one in name, kind, settings, amount of work, limit of attempts, priority and owner, is queued
-- now, refers to the old job and has no trace of its run, its schedule or its request. The old job is
-- kept, and the inputs of the new one are added behind the other artifacts: those of the old job, in
-- order, the same but for the checksum. The next identifier is in range and not in use.
pub manual_retry-outcome :
    (db : Db) (job_id : ℕ) (owner : Option ℕ) (now : Time) (source : JobEntry)
    → count_rows (λ j. j.id == db.next_job_id) db.jobs ≡ 0
    → db.next_job_id ≤ i64_max
    → get_job db job_id owner ≡ some source
    → RetryOutcome db job_id owner now source
manual_retry-outcome db job_id owner now source fresh range e =
    by_state db job_id owner now source e (retried_lem db job_id owner now source fresh range e)
      source.state refl
