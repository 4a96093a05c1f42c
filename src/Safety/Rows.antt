-- ===== src/Safety/Rows.antt =====
-- What an UPDATE or an INSERT leaves alone, for the columns that the invariant reads.
use task_harbor.Base.{
  ℕ, ◌+◌, ◌≤◌, ◌≡◌, refl, Bool, true, false, List, [], ◌∷◌, All, arith, ◌==◌, bit, max,
  if◌then◌else◌,
}
use task_harbor.Sql.{count_rows, update_rows, insert_row}
use task_harbor.Sql.Counts.{count_rows-update}
use task_harbor.Tables.{JobEntry, AttemptEntry}
use task_harbor.Queue.Claim.{last_number}

-- The columns of an attempt that never change.
abbrev pub SameAttempt : AttemptEntry → AttemptEntry → Type 0
SameAttempt a b =
    (b.id ≡ a.id)
    × (b.job_id ≡ a.job_id)
    × (b.attempt_number ≡ a.attempt_number)
    × (b.claim_token ≡ a.claim_token)

-- The columns of a job that never change.
abbrev pub SameJob : JobEntry → JobEntry → Type 0
SameJob a b = (b.id ≡ a.id) × (b.max_attempts ≡ a.max_attempts)

pub last_number-update :
    (p : AttemptEntry → Bool) (f : AttemptEntry → AttemptEntry)
    → ((a : AttemptEntry) → SameAttempt a (f a))
    → (j : ℕ) (xs : List AttemptEntry) → last_number j (update_rows p f xs) ≡ last_number j xs
unfolding last_number update_rows
last_number-update p f same j [] = refl
last_number-update p f same j (x ∷ xs) = ground (arith, same x, last_number-update p f same j xs)

pub last_number-insert :
    (j : ℕ) (a : AttemptEntry) (xs : List AttemptEntry)
    → last_number j (insert_row a xs)
      ≡ max (last_number j xs) (if a.job_id == j then a.attempt_number else 0)
unfolding last_number insert_row
last_number-insert j a [] = ground arith
last_number-insert j a (x ∷ xs) = ground (arith, last_number-insert j a xs)

module _ {ℓ} {A : Type ℓ} where
  -- An update of exactly one row.
  pub count_rows-update_one :
      (p q : A → Bool) (f : A → A) (b c : Bool)
      → ((x : A) → p x ≡ true → (q x ≡ b) × (q (f x) ≡ c))
      → (xs : List A) → count_rows p xs ≡ 1
      → count_rows q (update_rows p f xs) + bit b ≡ count_rows q xs + bit c
  count_rows-update_one p q f b c h xs one = grind (arith, count_rows-update p q f b c h xs)

  -- Where the rows of `r` are no more than those of `q`, and `q` implies `r`, they are the same.
  pub count_rows_same :
      (q r : A → Bool)
      → ((x : A) → q x ≡ true → r x ≡ true)
      → (xs : List A) → count_rows r xs ≤ count_rows q xs
      → All (λ x. r x ≡ true → q x ≡ true) xs
  unfolding count_rows
  count_rows_same q r h [] le = tt
  count_rows_same q r h (x ∷ xs) le =
      ((λ e. ground (arith, h x, smaller xs)), count_rows_same q r h xs (ground (arith, h x)))
    where
      smaller : (ys : List A) → count_rows q ys ≤ count_rows r ys
      smaller [] = omega arith
      smaller (y ∷ ys) = ground (arith, h y, smaller ys)

  -- Rows that no count finds.
  pub count_rows_zero :
      (r : A → Bool) (xs : List A) → count_rows r xs ≡ 0 → All (λ x. r x ≡ false) xs
  unfolding count_rows
  count_rows_zero r [] e = tt
  count_rows_zero r (x ∷ xs) e = (ground arith, count_rows_zero r xs (ground arith))

  pub count_rows_none :
      (r : A → Bool) (xs : List A) → All (λ x. r x ≡ false) xs → count_rows r xs ≡ 0
  unfolding count_rows
  count_rows_none r [] a = refl
  count_rows_none r (x ∷ xs) a = ground (arith, a.0, count_rows_none r xs a.1)
