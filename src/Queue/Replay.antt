-- ===== src/Queue/Replay.antt =====
-- What a request with an idempotency key leaves behind: the row with its key.
use task_harbor.Base.{
  ℕ, ◌≡◌, refl, ap, subst, Bool, true, ◌==◌, [], ◌∷◌, List, arith, ok, some, none, Option,
  Bool-cases, Option-cases, Result-cases, inl, inr, list_eq_self, list_eq→eq, matches_owner,
}
use task_harbor.Clock.{Time}
use task_harbor.Core.{Text}
use task_harbor.Sql.{count_rows, find_row, insert_row}
use task_harbor.Tables.{Db, JobEntry}
use task_harbor.Queue.Cancel.{get_job, owned_job}
use task_harbor.Queue.Create.{
  NewImageJob, IdempotencyRequest, create_image_job, insert_image_job, find_request, same_request,
  image_job, has_text, key_of, fingerprint_of,
}

pub find_row-insert {ℓ} :
    {A : Type ℓ} (p : A → Bool) (x : A) (xs : List A)
    → find_row p xs ≡ none
    → p x ≡ true
    → find_row p (insert_row x xs) ≡ some x
unfolding find_row insert_row
find_row-insert p x [] e h = ground (arith, h)
find_row-insert p x (y ∷ ys) e h = elim (Bool-cases (p y)) [
  | inl k ↦ absurd (ground arith)
  | inr k ↦ ground (arith, find_row-insert p x ys)
]

pub absent {ℓ} :
    {A : Type ℓ} (p q : A → Bool)
    → ((x : A) → p x ≡ true → q x ≡ true)
    → (xs : List A) → count_rows q xs ≡ 0
    → find_row p xs ≡ none
unfolding find_row count_rows
absent p q h [] e = refl
absent p q h (x ∷ xs) e = elim (Bool-cases (p x)) [
  | inl k ↦ absurd (ground (arith, h x k))
  | inr k ↦ ground (arith, absent p q h xs)
]

-- What an earlier request left behind: the row with its key, and the job that is read for it.
unfoldable pub Recorded : Db → ℕ → IdempotencyRequest → JobEntry → Type 0
Recorded db owner k j =
    (row : JobEntry) × (find_row (same_request owner k.key) db.jobs ≡ some row)
    × (row.request_fingerprint ≡ some k.fingerprint)
    × (get_job db row.id (some owner) ≡ some j)

inserted :
    (db db' : Db) (r : NewImageJob) (k : IdempotencyRequest) (now : Time) (j : JobEntry)
    → r.idempotency ≡ some k
    → count_rows (λ x. x.id == db.next_job_id) db.jobs ≡ 0
    → find_row (same_request r.owner_user_id k.key) db.jobs ≡ none
    → insert_image_job db r now ≡ ok (j, db')
    → Recorded db' r.owner_user_id k j
unfolding insert_image_job Recorded get_job same_request
inserted db db' r k now j key fresh missing e =
    let row = image_job db.next_job_id r now in
    let jobs' = insert_row row db.jobs in
    let keyed : find_row (same_request r.owner_user_id k.key) jobs' ≡ some row =
      find_row-insert (same_request r.owner_user_id k.key) row db.jobs missing
        (ground (arith, list_eq_self k.key, key, ap key_of key)) in
    let read : (o : Option ℕ)
        → matches_owner o r.owner_user_id ≡ true
        → get_job (record db { jobs = jobs' }) db.next_job_id o ≡ some row =
      (λ o m.
        find_row-insert (owned_job db.next_job_id o) row db.jobs
          (absent (owned_job db.next_job_id o) (λ x. x.id == db.next_job_id) (λ x h. ground arith)
            db.jobs fresh)
          (ground (arith, m))) in
    let anyone = read none refl in
    let same : row ≡ j = ground (arith, anyone) in
    let kept : jobs' ≡ db'.jobs = ground (arith, anyone) in
    let mine : get_job (record db { jobs = jobs' }) db.next_job_id (some r.owner_user_id)
        ≡ some row =
      read (some r.owner_user_id) (ground arith) in
    (row, ground (arith, kept, keyed), ap fingerprint_of key, ground (arith, kept, mine, same))

has_text→eq : (o : Option Text) (t : Text) → has_text o t ≡ true → o ≡ some t
has_text→eq none t h = absurd (ground arith)
has_text→eq (some s) t h = ap some (list_eq→eq s t h)

earlier_found :
    (db : Db) (owner : ℕ) (k : IdempotencyRequest) (j : JobEntry)
    → find_request db owner k ≡ ok (some j)
    → Recorded db owner k j
unfolding find_request Recorded
earlier_found db owner k j e = elim (Option-cases (find_row (same_request owner k.key) db.jobs)) [
  | inl miss ↦ absurd (ground (arith, miss))
  | inr (row, hit) ↦
      let printed : has_text row.request_fingerprint k.fingerprint ≡ true = ground (arith, hit) in
      (row, hit, has_text→eq row.request_fingerprint k.fingerprint printed, ground (arith, hit))
]

earlier_missing :
    (db : Db) (owner : ℕ) (k : IdempotencyRequest)
    → find_request db owner k ≡ ok none
    → find_row (same_request owner k.key) db.jobs ≡ none
unfolding find_request
earlier_missing db owner k e = ground arith

pub recorded :
    (db db' : Db) (r : NewImageJob) (k : IdempotencyRequest) (now : Time) (j : JobEntry)
    → r.idempotency ≡ some k
    → count_rows (λ x. x.id == db.next_job_id) db.jobs ≡ 0
    → create_image_job db r now ≡ ok (j, db')
    → Recorded db' r.owner_user_id k j
unfolding create_image_job
recorded db db' r k now j key fresh e = elim (Result-cases (find_request db r.owner_user_id k)) [
  | inl (x, h) ↦ absurd (ground (arith, key, h))
  | inr (none, h) ↦
      inserted db db' r k now j key fresh (earlier_missing db r.owner_user_id k h)
        (ground (arith, key, h))
  | inr (some i, h) ↦
      let same : i ≡ j = ground (arith, key, h) in
      let kept : db ≡ db' = ground (arith, key, h) in
      subst (λ d. Recorded d r.owner_user_id k j) kept
        (subst (Recorded db r.owner_user_id k) same (earlier_found db r.owner_user_id k i h))
]
