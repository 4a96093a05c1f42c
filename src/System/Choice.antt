-- ===== src/System/Choice.antt =====
-- `claim_next` as its callers see it: which job it takes, what the claim is good for, and that a
-- waiting job is taken when a live worker asks.
use task_harbor.Base.{
  Bool-cases, leb, not, ℕ, ◌+◌, ◌≤◌, ◌<◌, ◌≡◌, refl, ap, Bool, true, false, ◌⊎◌, [], ◌∷◌, List, All,
  arith, ok, some, none, inl, inr, Option-cases, Result-cases, ◌&&◌, bit,
}
use task_harbor.Clock.{Time, max_time, whole_milliseconds}
use task_harbor.Core.{i64_max}
use task_harbor.Sql.{count_rows, find_row, first_row}
use task_harbor.Sql.Counts.{count_rows-insert, find_row-All, count_rows_mono, All-map, All-both}
use task_harbor.Safety.Rows.{count_rows_none}
use task_harbor.Sql.Order.{first_row_lem, first_row-none}
use task_harbor.Tables.{Db, JobEntry, WorkerEntry, is_claimable, priority_rank}
use task_harbor.Queue.{ClaimedJob, ClaimedWork, owns}
use task_harbor.Queue.Claim.{
  claim_next, claim_job, claimed_before, is_candidate, is_live, claimed_work, valid_id, last_number,
  new_attempt,
}
use task_harbor.Queue.Order.{claimed_before-IsRowOrder}
use task_harbor.Safety.{has_id, has_token, has_attempt_id}
use task_harbor.Safety.Claiming.{waiting_job}
use task_harbor.Safety.Claims.{Claimed, claim_next_effect}
use task_harbor.System.{World, Reach, initial}
use task_harbor.System.Reachable.{reached-Inv}

-- The row stands in the table.
abbrev pub Among : {A : Type 0} → A → List A → Type 0
Among x [] = ⊥
Among x (y ∷ ys) = (y ≡ x) ⊎ Among x ys

All-Among : {A : Type 0} (xs : List A) → All (λ x. Among x xs) xs
All-Among [] = tt
All-Among (x ∷ xs) =
    (inl refl, All-map (λ y. Among y xs) (λ y. Among y (x ∷ xs)) (λ y h. inr h) xs (All-Among xs))

count_rows-Among :
    {A : Type 0} (p : A → Bool) (x : A) (xs : List A)
    → p x ≡ true
    → Among x xs
    → 1 ≤ count_rows p xs
unfolding count_rows
count_rows-Among p x [] h m = absurd m
count_rows-Among p x (y ∷ ys) h (inl e) = ground (arith, ap p e)
count_rows-Among p x (y ∷ ys) h (inr m) = omega (arith, count_rows-Among p x ys h m)

-- The job `j` is served no later than `k`: it has a higher priority, or the same and it is due
-- earlier, or at the same time and its identifier is not higher.
abbrev pub ServedFirst : JobEntry → JobEntry → Type 0
ServedFirst j k =
    (priority_rank j.priority < priority_rank k.priority)
    ⊎ (priority_rank j.priority ≡ priority_rank k.priority)
      × ((j.available_at < k.available_at) ⊎ (j.available_at ≡ k.available_at) × (j.id ≤ k.id))

-- A claim that succeeds is for a row of the table that waits, is due and is not locked, and it is
-- served no later than any other such row.
pub claim_next_takes_first :
    (db db' : Db) (locked : ℕ → Bool) (worker_id : ℕ) (t : Time) (token : ℕ) (c : ClaimedJob)
    → claim_next db locked worker_id t token ≡ ok (some c, db')
    → (j : JobEntry) × Among j db.jobs
      × (c.job_id ≡ j.id)
      × (is_claimable j.state ≡ true)
      × (j.available_at ≤ t)
      × (locked j.id ≡ false)
      × All
          (λ k.
            ((is_claimable k.state && (leb k.available_at t && not (locked k.id))) ≡ false)
            ⊎ ServedFirst j k)
          db.jobs
unfolding is_candidate claimed_before
claim_next_takes_first db db' locked w t token c e =
    let (j, m, h, n, done) =
      claim_next_effect db db' locked w t token c (λ x. Among x db.jobs) (All-Among db.jobs) e in
    (
      j,
      m,
      done.names_job.0,
      ground arith,
      ground arith,
      ground arith,
      All-map (λ k. is_candidate locked t k ≡ true → claimed_before k j ≡ false) _
          (λ k f. served j k f) db.jobs n,
    )
  where
    served :
        (j k : JobEntry)
        → (is_candidate locked t k ≡ true → claimed_before k j ≡ false)
        → ((is_claimable k.state && (leb k.available_at t && not (locked k.id))) ≡ false)
          ⊎ ServedFirst j k
    served j k f = elim (Bool-cases (is_candidate locked t k)) [
      | inl h ↦ inr (ground (arith, f h))
      | inr h ↦ inl h
    ]

-- The row that a claim inserts is the one that it holds.
Claimed-holds :
    (db db' : Db) (j : JobEntry) (worker_id : ℕ) (t : Time) (token : ℕ) (c : ClaimedJob)
    (now : Time)
    → Claimed db j worker_id t token c db'
    → now < c.lease_expires_at
    → count_rows (owns c now) db.attempts ≡ 0
    → count_rows (owns c now) db'.attempts ≡ 1
unfolding is_live
Claimed-holds db db' j i t token c now done early none_held =
    let row =
      new_attempt db.next_attempt_id j.id (last_number j.id db.attempts + 1) j.progress_total t
        done.worker token (whole_milliseconds t j.available_at) in
    let same : is_live i t done.worker ≡ true =
      (find_row-All (λ _. Unit {0}) (is_live i t) db.workers
        (All-map (λ x. Among x db.workers) (λ _. Unit {0}) (λ _ _. tt) db.workers
          (All-Among db.workers))
        done.live).1 in
    let held : owns c now row ≡ true =
      ground (arith, same, done.names_job, done.names_attempt, done.lease) in
    omega (
      arith,
      ap (λ (d : Db). count_rows (owns c now) d.attempts) done.written,
      count_rows-insert (owns c now) row db.attempts,
      none_held,
      ap bit held,
    )

-- In a state that is reached, a claim that succeeds grants the attempt: at each time before the end
-- of the lease the claim holds exactly one attempt behind the claim, and none in the state before
-- it.
pub claim_next_grants :
    {w : World} (db' : Db) (locked : ℕ → Bool) (worker_id : ℕ) (t : Time) (token : ℕ)
    (c : ClaimedJob) (now : Time)
    → Reach initial w
    → claim_next w.db locked worker_id t token ≡ ok (some c, db')
    → now < c.lease_expires_at
    → (count_rows (owns c now) db'.attempts ≡ 1) × (count_rows (owns c now) w.db.attempts ≡ 0)
claim_next_grants {w} db' locked i t token c now r e early =
    let (j, _, _, _, done) =
      claim_next_effect w.db db' locked i t token c (λ _. Unit)
        (All-map (λ x. Among x w.db.jobs) (λ _. Unit {0}) (λ _ _. tt) w.db.jobs
          (All-Among w.db.jobs))
        e in
    let fresh : count_rows (owns c now) w.db.attempts ≡ 0 = omega (
      arith,
      (reached-Inv r).attempt_fresh c.attempt_id (omega (arith, done.names_attempt.0)),
      count_rows_mono (owns c now) (has_attempt_id c.attempt_id) (λ a h. ground arith)
          w.db.attempts,
    ) in
    (Claimed-holds w.db db' j i t token c now done early fresh, fresh)

-- The job's row is read without an error: its identifier is one and its work can be decoded.
abbrev Decodes : Db → JobEntry → Type 0
Decodes db j =
    (valid_id j.id ≡ true) × (work : ClaimedWork) × (claimed_work j db.artifacts ≡ ok work)

abbrev HasRoom : Db → JobEntry → Type 0
HasRoom db j = last_number j.id db.attempts + bit (is_claimable j.state) ≤ j.max_attempts

claim_job_finds :
    (db : Db) (locked : ℕ → Bool) (worker_id : ℕ) (t : Time) (token : ℕ) (worker : WorkerEntry)
    (j : JobEntry)
    → count_rows (has_id j.id) db.jobs ≤ 1
    → is_candidate locked t j ≡ true
    → Among j db.jobs
    → HasRoom db j
    → Decodes db j
    → find_row (is_live worker_id t) db.workers ≡ some worker
    → count_rows (has_token token) db.attempts ≡ 0
    → db.next_attempt_id ≤ i64_max
    → t ≤ max_time
    → (c : ClaimedJob) × (db' : Db) × (claim_job db j worker_id t token ≡ ok (some c, db'))
unfolding claim_job is_candidate
claim_job_finds db locked i t token worker j one chosen among room decodes live fresh ids range =
    let waiting : is_claimable j.state ≡ true = ground arith in
    let single : count_rows (waiting_job j.id) db.jobs ≡ 1 = omega (
      arith,
      one,
      count_rows-Among (waiting_job j.id) j db.jobs (ground arith) among,
      count_rows_mono (waiting_job j.id) (has_id j.id) (λ x h. ground arith) db.jobs,
    ) in
    let within : whole_milliseconds t j.available_at ≤ i64_max = omega arith in
    elim (Result-cases (claim_job db j i t token)) [
      | inl (e, fails) ↦ absurd (ground (arith, room, decodes.0, decodes.2, live, single, within))
      | inr ((none, db'), h) ↦ absurd (ground (arith, live))
      | inr ((some c, db'), h) ↦ (c, db', h)
    ]

-- In a state that is reached, a worker that is live and brings a fresh token gets a job, where one
-- waits that is due and not locked: it never runs out of attempts and meets no conflict. The rows
-- of the jobs can be decoded, and the numbers are in the range of their columns.
pub claim_next_finds :
    {w : World} (locked : ℕ → Bool) (worker_id : ℕ) (t : Time) (token : ℕ) (worker : WorkerEntry)
    → Reach initial w
    → 1 ≤ count_rows (is_candidate locked t) w.db.jobs
    → find_row (is_live worker_id t) w.db.workers ≡ some worker
    → count_rows (has_token token) w.db.attempts ≡ 0
    → w.db.next_attempt_id ≤ i64_max
    → t ≤ max_time
    → All (Decodes w.db) w.db.jobs
    → (c : ClaimedJob) × (db' : Db) × (claim_next w.db locked worker_id t token ≡ ok (some c, db'))
unfolding claim_next
claim_next_finds {w} locked i t token worker r waits live fresh ids range rows =
    elim (Option-cases (first_row (is_candidate locked t) claimed_before w.db.jobs)) [
      | inl empty ↦ absurd (
          omega (
            arith,
            waits,
            count_rows_none _ w.db.jobs
                (first_row-none (is_candidate locked t) claimed_before w.db.jobs empty),
          ))
      | inr (j, first) ↦
          let v = reached-Inv r in
          let (facts, chosen, _) =
            first_row_lem (is_candidate locked t) claimed_before claimed_before-IsRowOrder
              (λ j. (Among j w.db.jobs × Decodes w.db j) × HasRoom w.db j) w.db.jobs j
              (All-both _ _ w.db.jobs (All-both _ _ w.db.jobs (All-Among w.db.jobs) rows) v.room)
              first in
          let (c, db', done) =
            claim_job_finds w.db locked i t token worker j (v.job_ids j.id) chosen facts.0.0 facts.1
              facts.0.1 live fresh ids range in
          (c, db', ground (arith, first, done))
    ]
