-- ===== src/Sql/Order.antt =====
-- SELECT ... WHERE p ORDER BY ... LIMIT 1 finds a row that none goes before.
use task_harbor.Base.{
  ◌≡◌, refl, inl, inr, Bool, true, false, Option, none, some, List, [], ◌∷◌, Bool-cases, All, subst,
}
use mathlib.Core.Option.{some-injective}
use task_harbor.Sql.{first_row, better}
use task_harbor.Sql.Counts.{All-map}

-- What ORDER BY asks of the comparison of rows.
pub record IsRowOrder {ℓ} {A : Type ℓ} (before : A → A → Bool) : Type ℓ where
  pub irreflexive : (x : A) → before x x ≡ false
  pub asymmetric : (x y : A) → before x y ≡ true → before y x ≡ false
  pub not_before_trans : (x y z : A) → before y x ≡ false → before z y ≡ false → before z x ≡ false

module _ {ℓ} {A : Type ℓ} (p : A → Bool) (before : A → A → Bool) where
  -- No row of `xs` that is selected goes before `x`.
  abbrev pub NoneBefore : A → List A → Type 0
  NoneBefore x xs = All (λ y. p y ≡ true → before y x ≡ false) xs

  pub first_row-none : (xs : List A) → first_row p before xs ≡ none → All (λ y. p y ≡ false) xs
  unfolding first_row
  first_row-none [] e = tt
  first_row-none (x ∷ xs) e = elim (Bool-cases (p x)) [
    | inl h ↦ cc (rw h at e)
    | inr h ↦ (h, first_row-none xs (rw h at e))
  ]

  NoneBefore-weaken :
      IsRowOrder before
      → (x z : A) (ys : List A) → before z x ≡ false
      → NoneBefore z ys
      → NoneBefore x ys
  NoneBefore-weaken o x z ys h n =
      All-map (λ y. p y ≡ true → before y z ≡ false) (λ y. p y ≡ true → before y x ≡ false)
        (λ y k s. o.not_before_trans x z y h (k s)) ys n

  NoneBefore-unselected : (x : A) (ys : List A) → All (λ y. p y ≡ false) ys → NoneBefore x ys
  NoneBefore-unselected x ys h =
      All-map (λ y. p y ≡ false) (λ y. p y ≡ true → before y x ≡ false) (λ y k s. cc) ys h

  Chosen {κ} : (A → Type κ) → List A → A → Type κ
  Chosen P xs x = P x × (p x ≡ true) × NoneBefore x xs

  better-Chosen {κ} :
      IsRowOrder before
      → (P : A → Type κ) (y : A) (ys : List A) (r : Option A) → p y ≡ true
      → P y
      → (r ≡ none → NoneBefore y ys)
      → ((z : A) → r ≡ some z → Chosen P ys z)
      → Chosen P (y ∷ ys) (better before y r)
  unfolding Chosen
  better-Chosen o P y ys none s h e c = (h, s, ((λ t. o.irreflexive y), e refl))
  better-Chosen o P y ys (some z) s h e c = elim (Bool-cases (before z y)) [
    | inl b ↦
        let late : z ≡ better before y (some z) = rw b refl in
        subst (Chosen P (y ∷ ys)) late
          ((c z refl).0, (c z refl).1, ((λ t. o.asymmetric z y b), (c z refl).2))
    | inr b ↦
        let kept : y ≡ better before y (some z) = rw b refl in
        subst (Chosen P (y ∷ ys)) kept
          (h, s, ((λ t. o.irreflexive y), NoneBefore-weaken o y z ys b (c z refl).2))
  ]

  -- The row found has what every row has, it is selected, and none goes before it.
  pub first_row_lem {κ} :
      IsRowOrder before
      → (P : A → Type κ) (xs : List A) (x : A) → All P xs
      → first_row p before xs ≡ some x
      → P x × (p x ≡ true) × NoneBefore x xs
  unfolding first_row Chosen
  first_row_lem o P [] x a e = cc
  first_row_lem o P (y ∷ ys) x a e = elim (Bool-cases (p y)) [
    | inr h ↦
        let ih : P x × (p x ≡ true) × NoneBefore x ys = first_row_lem o P ys x a.1 (rw h at e) in
        (ih.0, ih.1, ((λ t. cc), ih.2))
    | inl h ↦ subst (Chosen P (y ∷ ys)) (some-injective _ _ (rw h at e)) (
        better-Chosen o P y ys (first_row p before ys) h a.0
          (λ r. NoneBefore-unselected y ys (first_row-none ys r))
          (λ z r. first_row_lem o P ys z a.1 r))
  ]
