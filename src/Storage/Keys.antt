-- ===== src/Storage/Keys.antt =====
-- The keys of outputs: they resolve, and each belongs to one input of one attempt.
use mathlib.Core.List.{append_assoc, append_cancel_right}
use task_harbor.Base.{
  ◌^◌, ◌↔◌, list_eq, ℕ, zero, suc, ◌+◌, ◌*◌, ◌-◌, ◌/◌, ◌<◌, ◌≡◌, ◌∙◌, refl, sym, ap, true, false,
  ◌&&◌, ◌||◌, List, [], ◌∷◌, ◌++◌, all, arith, inl, inr, Bool-cases, ltb, leb,
}
use task_harbor.Core.{Text, accepted, codes, is_empty}
use task_harbor.Storage.{
  split_slash, inner_components, first_components, components, is_normal, names, contains,
  is_absolute, resolve_key, digits_before, decimal, digit, output_key,
}

-- What a row of digits stands for, behind `n`.
value_from : ℕ → Text → ℕ
value_from n [] = n
value_from n (c ∷ cs) = value_from (n * 10 + (c - 0x30)) cs

-- 10 ^ rounds.
ten : ℕ → ℕ
ten zero = 1
ten (suc rounds) = 10 * ten rounds

value_from-digits_before :
    (rounds n : ℕ) (rest : Text)
    → n < ten rounds
    → value_from 0 (digits_before (suc rounds) n rest) ≡ value_from n rest
unfolding value_from ten digits_before
value_from-digits_before zero n rest h =
    let small : ltb n 10 ≡ true = ground arith in
    rw small (ap (λ m. value_from m rest) (omega arith))
value_from-digits_before (suc rounds) n rest h = elim (Bool-cases (ltb n 10)) [
  | inl small ↦ rw small (ap (λ m. value_from m rest) (ground arith))
  | inr large ↦ rw large (
      value_from-digits_before rounds (n / 10) (digit n ∷ rest) (omega arith)
      ∙ ap (λ m. value_from m rest) (omega arith))
]

contains-append : (d : ℕ) (xs ys : Text) → contains d (xs ++ ys) ≡ (contains d xs || contains d ys)
contains-append d [] ys = refl
contains-append d (x ∷ xs) ys = ground (arith, contains-append d xs ys)

contains-digits_before :
    (d rounds n : ℕ) (rest : Text)
    → (leb 0x30 d && leb d 0x39) ≡ false
    → contains d rest ≡ false
    → contains d (digits_before rounds n rest) ≡ false
unfolding digits_before
contains-digits_before d zero n rest low h = h
contains-digits_before d (suc rounds) n rest low h =
    ground (arith, contains-digits_before d rounds (n / 10) (digit n ∷ rest))

split_slash-append :
    (xs ys : Text) → contains 0x2f xs ≡ false → split_slash (xs ++ 0x2f ∷ ys) ≡ xs ∷ split_slash ys
unfolding split_slash
split_slash-append [] ys h = refl
split_slash-append (x ∷ xs) ys h = ground (arith, split_slash-append xs ys)

split_slash-single : (xs : Text) → contains 0x2f xs ≡ false → split_slash xs ≡ xs ∷ []
unfolding split_slash
split_slash-single [] h = refl
split_slash-single (x ∷ xs) h = ground (arith, split_slash-single xs)

-- A number of at most 20 digits is read back from its digits.
value_from-decimal : (n : ℕ) → n < ten 19 → value_from 0 (decimal n) ≡ n
unfolding decimal value_from
value_from-decimal n h = value_from-digits_before 19 n [] h

contains-decimal : (d n : ℕ) → (leb 0x30 d && leb d 0x39) ≡ false → contains d (decimal n) ≡ false
unfolding decimal
contains-decimal d n h = contains-digits_before d 20 n [] h refl

-- The path of an output below the root.
abbrev pub output_path : (job_id attempt_id input_id : ℕ) → List Text
output_path job_id attempt_id input_id =
    codes "outputs"
    ∷ (codes "job-" ++ decimal job_id)
    ∷ (codes "attempt-" ++ decimal attempt_id)
    ∷ (codes "input-" ++ (decimal input_id ++ codes ".jpg"))
    ∷ []

no-append :
    (d : ℕ) (xs ys : Text)
    → contains d xs ≡ false
    → contains d ys ≡ false
    → contains d (xs ++ ys) ≡ false
no-append d xs ys a b = contains-append d xs ys ∙ rw a b

resolve_key-accepts :
    (key : Text) (pieces : List Text)
    → is_empty key ≡ false
    → contains 0x5c key ≡ false
    → contains 0x3a key ≡ false
    → is_absolute key ≡ false
    → split_slash key ≡ pieces
    → all is_normal (first_components pieces) ≡ true
    → resolve_key key ≡ accepted (names (first_components pieces))
unfolding resolve_key components
resolve_key-accepts key pieces a b c d e f =
    let split : components key ≡ first_components pieces = rw (d, e) refl in ground arith

-- The key, by the texts of its three numbers.
abbrev key_of : Text → Text → Text → Text
key_of x y z =
    (codes "outputs/job-" ++ (x ++ (codes "/attempt-" ++ y)))
    ++ (codes "/input-" ++ (z ++ codes ".jpg"))

key_of-regroup :
    (x y z : Text)
    → key_of x y z
      ≡ codes "outputs"
        ++ (0x2f
            ∷ ((codes "job-" ++ x)
                ++ (0x2f
                    ∷ ((codes "attempt-" ++ y)
                        ++ (0x2f ∷ (codes "input-" ++ (z ++ codes ".jpg")))))))
key_of-regroup x y z = simp (append_assoc)

-- Digits only, as far as paths are concerned.
abbrev Plain : Text → Type 0
Plain x = (contains 0x2f x ≡ false) × (contains 0x5c x ≡ false) × (contains 0x3a x ≡ false)

decimal-Plain : (n : ℕ) → Plain (decimal n)
decimal-Plain n =
    (contains-decimal 0x2f n refl, contains-decimal 0x5c n refl, contains-decimal 0x3a n refl)

module _ (x y z : Text) (p : Plain x) (q : Plain y) (r : Plain z) where
  key_of-split :
      split_slash (key_of x y z)
      ≡ codes "outputs"
        ∷ (codes "job-" ++ x)
        ∷ (codes "attempt-" ++ y)
        ∷ (codes "input-" ++ (z ++ codes ".jpg"))
        ∷ []
  key_of-split = rw key_of-regroup (
      split_slash-append (codes "outputs") _ refl
      ∙ ap (λ l. codes "outputs" ∷ l)
          (split_slash-append (codes "job-" ++ x) _ p.0
            ∙ ap (λ l. (codes "job-" ++ x) ∷ l)
                (split_slash-append (codes "attempt-" ++ y) _ q.0
                  ∙ ap (λ l. (codes "attempt-" ++ y) ∷ l)
                      (split_slash-single (codes "input-" ++ (z ++ codes ".jpg"))
                        (contains-append 0x2f z (codes ".jpg") ∙ rw r.0 refl)))))

  key_of-contains : (contains 0x5c (key_of x y z) ≡ false) × (contains 0x3a (key_of x y z) ≡ false)
  key_of-contains = (
    no-append 0x5c (x ++ (codes "/attempt-" ++ y)) _ (no-append 0x5c x _ p.1 q.1)
        (no-append 0x5c z _ r.1 refl),
    no-append 0x3a (x ++ (codes "/attempt-" ++ y)) _ (no-append 0x3a x _ p.2 q.2)
        (no-append 0x3a z _ r.2 refl),
  )

  key_of-resolves :
      resolve_key (key_of x y z)
      ≡ accepted (
          codes "outputs"
          ∷ (codes "job-" ++ x)
          ∷ (codes "attempt-" ++ y)
          ∷ (codes "input-" ++ (z ++ codes ".jpg"))
          ∷ [])
  unfolding inner_components list_eq
  key_of-resolves =
      resolve_key-accepts (key_of x y z) _ refl key_of-contains.0 key_of-contains.1 refl
        key_of-split refl

same : (j a i : ℕ) → output_key j a i ≡ key_of (decimal j) (decimal a) (decimal i)
unfolding output_key
same j a i = refl

pub output_key-resolves :
    (j a i : ℕ) → resolve_key (output_key j a i) ≡ accepted (output_path j a i)
output_key-resolves j a i =
    ap resolve_key (same j a i)
    ∙ key_of-resolves (decimal j) (decimal a) (decimal i) (decimal-Plain j) (decimal-Plain a)
        (decimal-Plain i)

decimal-injective : (n m : ℕ) → n < 10 ^ 19 → m < 10 ^ 19 → decimal n ≡ decimal m → n ≡ m
unfolding ten
decimal-injective n m h k e =
    sym (value_from-decimal n h) ∙ ap (value_from 0) e ∙ value_from-decimal m k

output_path-injective :
    (j a i j' a' i' : ℕ)
    → output_path j a i ≡ output_path j' a' i'
    → (decimal j ≡ decimal j') × (decimal a ≡ decimal a') × (decimal i ≡ decimal i')
output_path-injective j a i j' a' i' e =
    (cc, cc, append_cancel_right (decimal i) (decimal i') (codes ".jpg") (cc))

-- The output of an input in an attempt is stored at a key that resolves to its own file, in the
-- directory of its attempt in the directory of its job below `outputs`; and two such keys are the
-- same only for the same job, the same attempt and the same input. The numbers have at most 19
-- digits, as those of BIGINT have.
pub output_key-separates :
    (j a i j' a' i' : ℕ)
    → j < 10 ^ 19
    → a < 10 ^ 19
    → i < 10 ^ 19
    → j' < 10 ^ 19
    → a' < 10 ^ 19
    → i' < 10 ^ 19
    → (resolve_key (output_key j a i)
        ≡ accepted (
            codes "outputs"
            ∷ (codes "job-" ++ decimal j)
            ∷ (codes "attempt-" ++ decimal a)
            ∷ (codes "input-" ++ (decimal i ++ codes ".jpg"))
            ∷ []))
      × ((output_key j a i ≡ output_key j' a' i') ↔ ((j ≡ j') × (a ≡ a') × (i ≡ i')))
output_key-separates j a i j' a' i' h k l h' k' l' = (
  output_key-resolves j a i,
  (
    λ e.
        let path : output_path j a i ≡ output_path j' a' i' =
          cc (e, output_key-resolves j a i, output_key-resolves j' a' i') in
        let parts = output_path-injective j a i j' a' i' path in
        (
          decimal-injective j j' h h' parts.0,
          decimal-injective a a' k k' parts.1,
          decimal-injective i i' l l' parts.2,
        ),
    λ e. rw (e.0, e.1, e.2) refl,
  ),
)
