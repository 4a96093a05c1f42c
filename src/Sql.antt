-- ===== src/Sql.antt =====
-- The statements of SQL that the repositories use, over a table as the list of its rows:
-- SELECT with a predicate, SELECT ... ORDER BY ... LIMIT 1, UPDATE ... WHERE, and COUNT(*).
pub mod Counts
pub mod Order
use task_harbor.Base.{
  ℕ, suc, ◌+◌, Bool, true, false, Option, none, some, List, [], ◌∷◌, if◌then◌else◌, bit,
}

module _ {ℓ} {A : Type ℓ} where
  -- SELECT COUNT(*) ... WHERE p; also the rows that an UPDATE ... WHERE p affects.
  unfoldable pub count_rows : (A → Bool) → List A → ℕ
  count_rows p [] = 0
  count_rows p (x ∷ xs) = bit (p x) + count_rows p xs

  -- UPDATE ... SET f WHERE p.
  unfoldable pub update_rows : (A → Bool) → (A → A) → List A → List A
  update_rows p f [] = []
  update_rows p f (x ∷ xs) = (if p x then f x else x) ∷ update_rows p f xs

  -- SELECT ... WHERE p, the rows in the order of insertion.
  unfoldable pub select_rows : (A → Bool) → List A → List A
  select_rows p [] = []
  select_rows p (x ∷ xs) = let rest = select_rows p xs in if p x then x ∷ rest else rest

  -- SELECT ... WHERE p for at most one row: the first.
  unfoldable pub find_row : (A → Bool) → List A → Option A
  find_row p [] = none
  find_row p (x ∷ xs) = if p x then some x else find_row p xs

  abbrev pub better : (A → A → Bool) → A → Option A → A
  better before x none = x
  better before x (some y) = if before y x then y else x

  -- SELECT ... WHERE p ORDER BY before LIMIT 1.
  unfoldable pub first_row : (A → Bool) → (A → A → Bool) → List A → Option A
  first_row p before [] = none
  first_row p before (x ∷ xs) =
      let rest = first_row p before xs in if p x then some (better before x rest) else rest

  -- INSERT: the new row stands behind the others.
  unfoldable pub insert_row : A → List A → List A
  insert_row x [] = x ∷ []
  insert_row x (y ∷ ys) = y ∷ insert_row x ys

  -- The row `x` at its place in an ORDER BY, behind the rows that are not after it.
  place : (A → A → Bool) → A → List A → List A
  place before x [] = x ∷ []
  place before x (y ∷ ys) =
      let rest = place before x ys in if before y x then y ∷ rest else x ∷ y ∷ ys

  -- ORDER BY.
  unfoldable pub order_rows : (A → A → Bool) → List A → List A
  unfolding place
  order_rows before [] = []
  order_rows before (x ∷ xs) = place before x (order_rows before xs)
