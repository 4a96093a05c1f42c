-- ===== src/Auth/Compare.antt =====
-- The comparison of hashes in constant time (`constant_time_eq`, apps/api/src/auth.rs).
use Prim.Native.Nat.{bit_or, bit_xor}
use task_harbor.Base.{
  ℕ, zero, suc, ◌<◌, ◌≡◌, refl, Bool, true, false, ◌&&◌, List, [], ◌∷◌, arith, All, length, list_eq,
  if◌then◌else◌, not, ltb, ◌==◌, Bool-cases, inl, inr, ◌∙◌,
}

-- The fold over the pairs of bytes; `zip` ends with the shorter list.
unfoldable pub differences : (difference : ℕ) → List ℕ → List ℕ → ℕ
differences difference [] right = difference
differences difference (l ∷ left) [] = difference
differences difference (l ∷ left) (r ∷ right) =
    differences (bit_or difference (bit_xor l r)) left right

unfoldable pub constant_time_eq : List ℕ → List ℕ → Bool
unfolding differences
constant_time_eq left right =
    if not (length left == length right) then false else differences 0 left right == 0

passes_to : (ℕ → ℕ → Bool) → (left right : ℕ) → Bool
passes_to test left zero = true
passes_to test left (suc right) = passes_to test left right && test left right

passes_all : (ℕ → ℕ → Bool) → (left right : ℕ) → Bool
passes_all test zero right = true
passes_all test (suc left) right = passes_all test left right && passes_to test left right

test_at :
    (test : ℕ → ℕ → Bool) (left i j : ℕ) → j < i → passes_to test left i ≡ true → test left j ≡ true
unfolding passes_to
test_at test left zero j below passed = absurd (omega arith)
test_at test left (suc i) j below passed = ground (arith, test_at test left i j)

tests_at :
    (test : ℕ → ℕ → Bool) (bound i left : ℕ)
    → left < i
    → passes_all test i bound ≡ true
    → passes_to test left bound ≡ true
unfolding passes_all
tests_at test bound zero left below passed = absurd (omega arith)
tests_at test bound (suc i) left below passed = ground (arith, tests_at test bound i left)

-- Bytes are different exactly where their exclusive or is not 0, and it is a byte; a byte that is
-- `or`ed to the differences so far is lost nowhere.
abbrev good_pair : ℕ → ℕ → Bool
good_pair x y =
    ltb (bit_xor x y) 256
    && (ltb (bit_or x y) 256
        && ((if bit_xor x y == 0 then x == y else not (x == y))
            && (if bit_or x y == 0 then x == 0 && y == 0 else not (x == 0 && y == 0))))

pairs_pass : passes_all good_pair 256 256 ≡ true
unfolding passes_to passes_all
pairs_pass = refl

pair_lem : (x y : ℕ) → x < 256 → y < 256 → good_pair x y ≡ true
pair_lem x y h k = test_at good_pair x 256 y k (tests_at good_pair 256 256 x h pairs_pass)

xor_lem : (x y : ℕ) → x < 256 → y < 256 → (bit_xor x y < 256) × ((bit_xor x y == 0) ≡ (x == y))
xor_lem x y h k = ground (arith, pair_lem x y h k)

or_lem :
    (x y : ℕ) → x < 256 → y < 256 → (bit_or x y < 256) × ((bit_or x y == 0) ≡ (x == 0 && y == 0))
or_lem x y h k = ground (arith, pair_lem x y h k)

abbrev IsByte : ℕ → Type 0
IsByte x = x < 256

differences_lem :
    (d : ℕ) (left right : List ℕ)
    → d < 256
    → All IsByte left
    → All IsByte right
    → length left ≡ length right
    → (differences d left right == 0) ≡ (d == 0 && list_eq left right)
unfolding differences list_eq
differences_lem d [] [] h a b e = ground arith
differences_lem d [] (r ∷ right) h a b e = absurd (omega arith)
differences_lem d (l ∷ left) [] h a b e = absurd (omega arith)
differences_lem d (l ∷ left) (r ∷ right) h a b e =
    let x = xor_lem l r a.0 b.0 in
    let o = or_lem d (bit_xor l r) h x.0 in
    differences_lem (bit_or d (bit_xor l r)) left right o.0 a.1 b.1 (omega arith) ∙ ground arith

list_eq-length : (left right : List ℕ) → list_eq left right ≡ true → length left ≡ length right
unfolding list_eq
list_eq-length [] [] h = refl
list_eq-length [] (r ∷ right) h = cc
list_eq-length (l ∷ left) [] h = cc
list_eq-length (l ∷ left) (r ∷ right) h = omega (arith, list_eq-length left right (ground arith))

-- The comparison in constant time is equality: for all byte strings, of the same length or not, the
-- fold over all pairs of bytes gives what a comparison byte by byte gives.
pub constant_time_eq-equality :
    (left right : List ℕ)
    → All (λ x. x < 256) left
    → All (λ x. x < 256) right
    → constant_time_eq left right ≡ list_eq left right
unfolding constant_time_eq
constant_time_eq-equality left right a b = elim (Bool-cases (length left == length right)) [
  | inl same ↦ rw same (differences_lem 0 left right (omega arith) a b (ground arith))
  | inr other ↦ rw other (ground (arith, list_eq-length left right))
]
