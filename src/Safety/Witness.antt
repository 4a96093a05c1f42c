-- ===== src/Safety/Witness.antt =====
-- Rows that a count or a SELECT is about, taken out of the table with what every row has.
use task_harbor.Base.{
  ◌≡◌, ◌≤◌, Bool, true, false, some, List, [], ◌∷◌, All, arith, Bool-cases, inl, inr,
}
use task_harbor.Sql.{count_rows, find_row}
use task_harbor.Safety.Rows.{count_rows_zero}

module _ {ℓ} {A : Type ℓ} where
  -- A count that is not 0 has a row, and the row has what all rows have.
  pub count_rows_witness {κ} :
      (P : A → Type κ) (p : A → Bool) (xs : List A)
      → All P xs
      → count_rows p xs ≡ 1
      → (x : A) × (p x ≡ true) × P x
  unfolding count_rows
  count_rows_witness P p [] a e = absurd (omega arith)
  count_rows_witness P p (x ∷ xs) a e = elim (Bool-cases (p x)) [
    | inl h ↦ (x, h, a.0)
    | inr h ↦ count_rows_witness P p xs a.1 (ground arith)
  ]

  pub find_row_count :
      (p r : A → Bool)
      → ((x : A) → p x ≡ true → r x ≡ true)
      → (xs : List A) (x : A) → find_row p xs ≡ some x
      → 1 ≤ count_rows r xs
  unfolding count_rows find_row
  find_row_count p r h [] x e = cc
  find_row_count p r h (y ∷ ys) x e = ground (arith, h y, find_row_count p r h ys x)

  unmatched :
      (r : A → Bool) (x : A) (xs : List A)
      → All (λ z. r z ≡ false) xs
      → All (λ z. r z ≡ true → z ≡ x) xs
  unmatched r x [] a = tt
  unmatched r x (y ∷ ys) a = ((λ e. cc (a.0)), unmatched r x ys a.1)

  -- A row that is found is the only one where no more than one row has the key.
  pub find_row_unique :
      (p r : A → Bool)
      → ((x : A) → p x ≡ true → r x ≡ true)
      → (xs : List A) (x : A) → count_rows r xs ≤ 1
      → find_row p xs ≡ some x
      → All (λ y. r y ≡ true → y ≡ x) xs
  unfolding count_rows find_row
  find_row_unique p r h [] x c e = tt
  find_row_unique p r h (y ∷ ys) x c e = elim (Bool-cases (p y)) [
    | inl t ↦
        let none_else : count_rows r ys ≡ 0 = ground (arith, h y) in
        ((λ _. ground arith), unmatched r x ys (count_rows_zero r ys none_else))
    | inr t ↦
        let later : find_row p ys ≡ some x = ground arith in
        (
          (λ k. absurd (ground (arith, find_row_count p r h ys x later))),
          find_row_unique p r h ys x (ground arith) later,
        )
  ]
