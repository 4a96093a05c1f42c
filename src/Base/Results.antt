-- ===== src/Base/Results.antt =====
-- `RepositoryError` and the results of repository operations
-- (crates/adapters/src/postgres.rs). Messages of `InvalidData` and the operation of
-- `StateConflict` are texts; the errors of the database driver carry nothing here.
use Prim.Native.Nat.{ℕ}
use Prim.Native.String.{String}
use mathlib.Core.Path.{◌≡◌, refl}
use mathlib.Core.Logic.{◌⊎◌, inl, inr}
use mathlib.Core.Bool.{Bool, true, false}
use mathlib.Core.Option.{Option, none, some}
use task_harbor.Base.Tests.{◌==◌}

pub data RepositoryError : Type 0 where
  database : RepositoryError
  migration : RepositoryError
  invalid_data : String → RepositoryError
  state_conflict : String → RepositoryError
  idempotency_conflict : RepositoryError
  claim_lost : RepositoryError

pub data Result {ℓ} (A : Type ℓ) : Type ℓ where
  ok : A → Result A
  err : RepositoryError → Result A

-- `?` on a result: the rest of the transaction runs on the value, an error ends it.
infixl 5 ◌>>=◌
abbrev pub ◌>>=◌ {ℓ κ} : {A : Type ℓ} {B : Type κ} → Result A → (A → Result B) → Result B
(err failure) >>= rest = err failure
(ok value) >>= rest = rest value

infixl 5 ◌>>◌
abbrev pub ◌>>◌ {ℓ} : {B : Type ℓ} → Result (Unit {0}) → Result B → Result B
first >> second = first >>= λ _. second

-- `if !condition { return Err(failure) }`.
abbrev pub guard : Bool → RepositoryError → Result (Unit {0})
guard false failure = err failure
guard true failure = ok tt

-- `option.ok_or(e)?`.
abbrev pub ok_or {ℓ} : {A : Type ℓ} → Option A → RepositoryError → Result A
ok_or none e = err e
ok_or (some a) e = ok a

-- `rows_affected == 1`, or the transaction is rolled back with a state conflict.
abbrev pub ensure_one_row : ℕ → String → Result (Unit {0})
ensure_one_row n operation = guard (n == 1) (state_conflict operation)

-- `rows_affected == 1`, or the claim is lost.
abbrev pub ensure_claim_row : ℕ → Result (Unit {0})
ensure_claim_row n = guard (n == 1) claim_lost

pub Result-cases {ℓ} :
    {A : Type ℓ} (m : Result A) → ((e : RepositoryError) × (m ≡ err e)) ⊎ ((a : A) × (m ≡ ok a))
Result-cases (ok a) = inr (a, refl)
Result-cases (err e) = inl (e, refl)
