-- ===== src/System/Keys.antt =====
-- What every transaction keeps of the jobs: no row goes away, rows keep their places, and each keeps
-- its identifier, its owner and the key and fingerprint of the request that made it.
use task_harbor.Base.{
  ℕ, ◌≡◌, refl, sym, ◌∙◌, ap, subst, Bool, true, Option, some, List, [], ◌∷◌, arith, ok, inl, inr,
  ◌⊎◌, ◌&&◌, ◌==◌, Bool-cases, Option-cases,
}
use task_harbor.Clock.{Time}
use task_harbor.Core.{JobName}
use task_harbor.Sql.{count_rows, update_rows, insert_row, find_row}
use task_harbor.Tables.{Db, JobEntry}
use task_harbor.Queue.Cancel.{
  request_cancel, request_cancel_row, owned_job, is_cancellable, manual_retry, retried_job, get_job,
}
use task_harbor.Queue.Create.{
  create, NewImageJob, create_image_job, insert_image_job, fresh_job, image_job,
}

abbrev pub SameKey : JobEntry → JobEntry → Type 0
SameKey a b =
    (b.id ≡ a.id)
    × (b.owner_user_id ≡ a.owner_user_id)
    × (b.idempotency_key ≡ a.idempotency_key)
    × (b.request_fingerprint ≡ a.request_fingerprint)

abbrev pub Kept : List JobEntry → List JobEntry → Type 0
Kept [] ys = Unit
Kept (x ∷ xs) [] = ⊥
Kept (x ∷ xs) (y ∷ ys) = SameKey x y × Kept xs ys

pub Kept-refl : (xs : List JobEntry) → Kept xs xs
Kept-refl [] = tt
Kept-refl (x ∷ xs) = ((refl, refl, refl, refl), Kept-refl xs)

pub Kept-trans : (xs ys zs : List JobEntry) → Kept xs ys → Kept ys zs → Kept xs zs
Kept-trans [] ys zs h k = tt
Kept-trans (x ∷ xs) [] zs h k = absurd h
Kept-trans (x ∷ xs) (y ∷ ys) [] h k = absurd k
Kept-trans (x ∷ xs) (y ∷ ys) (z ∷ zs) h k =
    ((k.0.0 ∙ h.0.0, k.0.1 ∙ h.0.1, k.0.2 ∙ h.0.2, k.0.3 ∙ h.0.3), Kept-trans xs ys zs h.1 k.1)

Kept-update :
    (p : JobEntry → Bool) (f : JobEntry → JobEntry)
    → ((j : JobEntry) → SameKey j (f j))
    → (xs : List JobEntry) → Kept xs (update_rows p f xs)
unfolding update_rows
Kept-update p f same [] = tt
Kept-update p f same (x ∷ xs) = elim (Bool-cases (p x)) [
  | inl e ↦ rw e (same x, Kept-update p f same xs)
  | inr e ↦ rw e ((refl, refl, refl, refl), Kept-update p f same xs)
]

Kept-insert : (x : JobEntry) (xs : List JobEntry) → Kept xs (insert_row x xs)
unfolding insert_row
Kept-insert x [] = tt
Kept-insert x (y ∷ ys) = ((refl, refl, refl, refl), Kept-insert x ys)

pub updated :
    (p : JobEntry → Bool) (f : JobEntry → JobEntry) (db db' : Db)
    → ((j : JobEntry) → SameKey j (f j))
    → update_rows p f db.jobs ≡ db'.jobs
    → Kept db.jobs db'.jobs
updated p f db db' same e = subst (Kept db.jobs) e (Kept-update p f same db.jobs)

pub inserted :
    (x : JobEntry) (db db' : Db) → insert_row x db.jobs ≡ db'.jobs → Kept db.jobs db'.jobs
inserted x db db' e = subst (Kept db.jobs) e (Kept-insert x db.jobs)

pub untouched : (db db' : Db) → db.jobs ≡ db'.jobs → Kept db.jobs db'.jobs
untouched db db' e = subst (Kept db.jobs) e (Kept-refl db.jobs)

pub find_row-holds :
    (p : JobEntry → Bool) (xs : List JobEntry) (x : JobEntry) → find_row p xs ≡ some x → p x ≡ true
unfolding find_row
find_row-holds p [] x e = absurd (ground arith)
find_row-holds p (a ∷ xs) x e = elim (Bool-cases (p a)) [
  | inl hit ↦ let same : a ≡ x = ground arith in ap p (sym same) ∙ hit
  | inr miss ↦ find_row-holds p xs x (ground arith)
]

-- The first row of a request stays the first.
pub find_row-Kept :
    (p : JobEntry → Bool)
    → ((a b : JobEntry) → SameKey a b → p b ≡ p a)
    → (xs ys : List JobEntry) → Kept xs ys
    → (x : JobEntry) → find_row p xs ≡ some x
    → (y : JobEntry) × (find_row p ys ≡ some y) × SameKey x y
unfolding find_row
find_row-Kept p h [] ys k x e = absurd (ground arith)
find_row-Kept p h (a ∷ xs) [] k x e = absurd k
find_row-Kept p h (a ∷ xs) (b ∷ ys) k x e = elim (Bool-cases (p a)) [
  | inl yes_a ↦
      let same : a ≡ x = ground arith in
      (b, ground (arith, h a b k.0), subst (λ z. SameKey z b) same k.0)
  | inr no_a ↦
      let (y, found, key) = find_row-Kept p h xs ys k.1 x (ground arith) in
      (y, ground (arith, h a b k.0, found), key)
]

pub request_cancel-Kept :
    (db db' : Db) (job_id : ℕ) (owner : Option ℕ) (now : Time) (r : Option JobEntry)
    → request_cancel db job_id owner now ≡ ok (r, db')
    → Kept db.jobs db'.jobs
unfolding request_cancel
request_cancel-Kept db db' J owner now r e =
    elim (Bool-cases
      (count_rows (λ j. owned_job J owner j && is_cancellable j.state) db.jobs == 0)) [
        | inl nothing ↦ untouched db db' (ground arith)
        | inr something ↦
            updated (λ j. owned_job J owner j && is_cancellable j.state) (request_cancel_row now) db
              db' (λ j. (refl, refl, refl, refl)) (ground arith)
      ]

pub manual_retry-Kept :
    (db db' : Db) (job_id : ℕ) (owner : Option ℕ) (now : Time) (r : Option JobEntry)
    → manual_retry db job_id owner now ≡ ok (r, db')
    → Kept db.jobs db'.jobs
unfolding manual_retry
manual_retry-Kept db db' J owner now r e = elim (Option-cases (get_job db J owner)) [
  | inl missing ↦ untouched db db' (ground arith)
  | inr (source, hit) ↦ inserted (retried_job db.next_job_id now source) db db' (ground arith)
]

insert_image_job-Kept :
    (db db' : Db) (request : NewImageJob) (now : Time) (j : JobEntry)
    → insert_image_job db request now ≡ ok (j, db')
    → Kept db.jobs db'.jobs
unfolding insert_image_job
insert_image_job-Kept db db' r now j e =
    inserted (image_job db.next_job_id r now) db db' (ground arith)

pub create_image_job-Kept :
    (db db' : Db) (request : NewImageJob) (now : Time) (j : JobEntry)
    → create_image_job db request now ≡ ok (j, db')
    → Kept db.jobs db'.jobs
unfolding create_image_job
create_image_job-Kept db db' r now j e = elim outcome [
  | inl same ↦ untouched db db' (ap (λ (d : Db). d.jobs) same)
  | inr made ↦ insert_image_job-Kept db db' r now j made
]
  where
    outcome : (db ≡ db') ⊎ (insert_image_job db r now ≡ ok (j, db'))
    outcome = ground arith

pub create-Kept :
    (db db' : Db) (name : JobName) (now : Time) (j : JobEntry)
    → create db name now ≡ ok (j, db')
    → Kept db.jobs db'.jobs
unfolding create
create-Kept db db' name now j e =
    inserted (fresh_job db.next_job_id name.as_str now) db db' (ground arith)
