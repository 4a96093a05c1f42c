-- ===== src/Sql/Counts.antt =====
-- How an UPDATE and an INSERT change the number of rows that satisfy a predicate.
use task_harbor.Base.{
  ◌+◌, ◌*◌, ◌≤◌, ◌≡◌, refl, ap, ◌++◌, inl, inr, Bool, true, false, some, List, [], ◌∷◌, arith, bit,
  Bool-cases, All,
}
use task_harbor.Sql.{count_rows, update_rows, insert_row, find_row}

module _ {ℓ} {A : Type ℓ} where
  -- Rows that satisfy `q` as before (`b`) and after (`c`) the update of the rows of `p`.
  pub count_rows-update :
      (p q : A → Bool) (f : A → A) (b c : Bool)
      → ((x : A) → p x ≡ true → (q x ≡ b) × (q (f x) ≡ c))
      → (xs : List A)
      → count_rows q (update_rows p f xs) + bit b * count_rows p xs
        ≡ count_rows q xs + bit c * count_rows p xs
  unfolding count_rows update_rows
  count_rows-update p q f b c h [] = omega arith
  count_rows-update p q f b c h (x ∷ xs) = ground (arith, h x, count_rows-update p q f b c h xs)

  -- An update that leaves `q` alone on each row leaves the count alone.
  pub count_rows-update_same :
      (p q : A → Bool) (f : A → A)
      → ((x : A) → p x ≡ true → q (f x) ≡ q x)
      → (xs : List A) → count_rows q (update_rows p f xs) ≡ count_rows q xs
  unfolding count_rows update_rows
  count_rows-update_same p q f h [] = refl
  count_rows-update_same p q f h (x ∷ xs) = ground (arith, h x, count_rows-update_same p q f h xs)

  -- An update that brings no row to `q`.
  pub count_rows-update_le :
      (p q : A → Bool) (f : A → A)
      → ((x : A) → p x ≡ true → q (f x) ≡ true → q x ≡ true)
      → (xs : List A) → count_rows q (update_rows p f xs) ≤ count_rows q xs
  unfolding count_rows update_rows
  count_rows-update_le p q f h [] = omega arith
  count_rows-update_le p q f h (x ∷ xs) = ground (arith, h x, count_rows-update_le p q f h xs)

  pub count_rows-insert :
      (q : A → Bool) (x : A) (xs : List A)
      → count_rows q (insert_row x xs) ≡ count_rows q xs + bit (q x)
  unfolding count_rows insert_row
  count_rows-insert q x [] = omega arith
  count_rows-insert q x (y ∷ ys) = omega (arith, count_rows-insert q x ys)

  pub insert_row-append : (x : A) (xs : List A) → insert_row x xs ≡ xs ++ x ∷ []
  unfolding insert_row
  insert_row-append x [] = refl
  insert_row-append x (y ∷ ys) = ap (λ rest. y ∷ rest) (insert_row-append x ys)

  pub count_rows_mono :
      (p q : A → Bool)
      → ((x : A) → p x ≡ true → q x ≡ true)
      → (xs : List A) → count_rows p xs ≤ count_rows q xs
  unfolding count_rows
  count_rows_mono p q h [] = omega arith
  count_rows_mono p q h (x ∷ xs) = ground (arith, h x, count_rows_mono p q h xs)

  -- A predicate that no row meets, and an update that then changes nothing.
  pub update_rows_none :
      (p : A → Bool) (f : A → A) (xs : List A) → count_rows p xs ≡ 0 → update_rows p f xs ≡ xs
  unfolding count_rows update_rows
  update_rows_none p f [] h = refl
  update_rows_none p f (x ∷ xs) h = ground (arith, update_rows_none p f xs)

  pub All-update {κ} :
      (P Q : A → Type κ) (p : A → Bool) (f : A → A)
      → ((x : A) → p x ≡ true → P x → Q (f x))
      → ((x : A) → p x ≡ false → P x → Q x)
      → (xs : List A) → All P xs
      → All Q (update_rows p f xs)
  unfolding update_rows
  All-update P Q p f hit miss [] a = a
  All-update P Q p f hit miss (x ∷ xs) a = elim (Bool-cases (p x)) [
    | inl e ↦ rw e (hit x e a.0, All-update P Q p f hit miss xs a.1)
    | inr e ↦ rw e (miss x e a.0, All-update P Q p f hit miss xs a.1)
  ]

  pub All-insert {κ} :
      (P : A → Type κ) (x : A) (xs : List A) → P x → All P xs → All P (insert_row x xs)
  unfolding insert_row
  All-insert P x [] h a = (h, tt)
  All-insert P x (y ∷ ys) h a = (a.0, All-insert P x ys h a.1)

  pub All-map {κ} : (P Q : A → Type κ) → ((x : A) → P x → Q x) → (xs : List A) → All P xs → All Q xs
  All-map P Q h [] a = a
  All-map P Q h (x ∷ xs) a = (h x a.0, All-map P Q h xs a.1)

  pub All-both {κ μ} :
      (P : A → Type κ) (Q : A → Type μ) (xs : List A)
      → All P xs
      → All Q xs
      → All (λ x. P x × Q x) xs
  All-both P Q [] a b = tt
  All-both P Q (x ∷ xs) a b = ((a.0, b.0), All-both P Q xs a.1 b.1)

  -- A row that is found satisfies its predicate and all that the rows satisfy.
  pub find_row-All {κ} :
      (P : A → Type κ) (p : A → Bool) (xs : List A) {x : A}
      → All P xs
      → find_row p xs ≡ some x
      → P x × (p x ≡ true)
  unfolding find_row
  find_row-All P p [] a e = cc
  find_row-All P p (y ∷ ys) {x} a e = elim (Bool-cases (p y)) [
    | inl h ↦ let same : y ≡ x = ground arith in rw (← same) (a.0, h)
    | inr h ↦ find_row-All P p ys a.1 (ground arith)
  ]
