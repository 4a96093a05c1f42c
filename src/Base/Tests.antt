-- ===== src/Base/Tests.antt =====
-- Boolean tests on the native numbers, the conditional, and tests on optional values.
use Prim.Native.Nat.{ℕ, ◌≤◌, ◌<◌, compare, Ordering}
use mathlib.Core.Path.{◌≡◌, refl}
use mathlib.Core.Logic.{◌⊎◌, inl, inr}
use mathlib.Core.Bool.{Bool, true, false, ◌&&◌}
use mathlib.Core.Option.{Option, none, some}
use native.Mathlib.Omega.{arith}

abbrev pub ltb : ℕ → ℕ → Bool
ltb a b = elim (compare a b) [ Ordering.lt ↦ true | _ ↦ false ]

abbrev pub leb : ℕ → ℕ → Bool
leb a b = elim (compare a b) [ Ordering.gt ↦ false | _ ↦ true ]

infix 50 ◌==◌
abbrev pub ◌==◌ : ℕ → ℕ → Bool
a == b = elim (compare a b) [ Ordering.eq ↦ true | _ ↦ false ]

infix 1 if◌then◌else◌
abbrev pub if◌then◌else◌ {ℓ} : {A : Type ℓ} → Bool → A → A → A
if true then x else y = x
if false then x else y = y

-- One for true and zero for false: how a test counts a row.
abbrev pub bit : Bool → ℕ
bit true = 1
bit false = 0

pub ltb→lt : (a b : ℕ) → ltb a b ≡ true → a < b
ltb→lt a b h = ground arith

pub leb→le : (a b : ℕ) → leb a b ≡ true → a ≤ b
leb→le a b h = ground arith

pub ==→eq : (a b : ℕ) → (a == b) ≡ true → a ≡ b
==→eq a b h = ground arith

pub ==-self : (a : ℕ) → (a == a) ≡ true
==-self a = ground arith

pub &&→left : (a b : Bool) → (a && b) ≡ true → a ≡ true
&&→left a b h = ground arith

pub &&→right : (a b : Bool) → (a && b) ≡ true → b ≡ true
&&→right a b h = ground arith

pub Bool-cases : (b : Bool) → (b ≡ true) ⊎ (b ≡ false)
Bool-cases true = inl refl
Bool-cases false = inr refl

pub Option-cases {ℓ} : {A : Type ℓ} (o : Option A) → (o ≡ none) ⊎ ((a : A) × (o ≡ some a))
Option-cases none = inl refl
Option-cases (some a) = inr (a, refl)

abbrev pub is_some {ℓ} : {A : Type ℓ} → Option A → Bool
is_some none = false
is_some (some _) = true

abbrev pub is_none {ℓ} : {A : Type ℓ} → Option A → Bool
is_none none = true
is_none (some _) = false

-- `column = $n` of SQL at a nullable column: a NULL is equal to nothing.
abbrev pub is_just : Option ℕ → ℕ → Bool
is_just none b = false
is_just (some a) b = a == b

-- `column > $n` at a nullable column.
abbrev pub is_above : Option ℕ → ℕ → Bool
is_above none b = false
is_above (some a) b = ltb b a

-- `column <= $n` at a nullable column.
abbrev pub is_at_most : Option ℕ → ℕ → Bool
is_at_most none b = false
is_at_most (some a) b = leb a b

-- `$n IS NULL OR column = $n`, the owner filter of the queries.
abbrev pub matches_owner : Option ℕ → ℕ → Bool
matches_owner none b = true
matches_owner (some a) b = b == a

-- COALESCE(a, b).
abbrev pub coalesce : Option ℕ → ℕ → ℕ
coalesce none b = b
coalesce (some a) b = a
