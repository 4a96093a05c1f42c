-- ===== src/Queue/Backoff.antt =====
-- The waiting time before a retry.
use task_harbor.Base.{ℕ, ◌+◌, ◌*◌, ◌-◌, ◌^◌, ◌≤◌, ◌≡◌, refl, subst, min, arith, zero, suc}
use task_harbor.Queue.Failure.{retry_backoff_seconds, max_backoff_seconds}

pow_mono : (a k : ℕ) → 2 ^ a ≤ 2 ^ (a + k)
pow_mono a zero = grind arith
pow_mono a (suc k) = grind (arith, pow_mono a k, pow_suc (a + k))
  where
    pow_suc : (b : ℕ) → 2 ^ (suc b) ≡ 2 * 2 ^ b
    pow_suc b = grind arith

-- From the seventh attempt on the cap is reached.
capped : (n : ℕ) → 7 ≤ n → retry_backoff_seconds n ≡ 60
unfolding retry_backoff_seconds
capped n h =
    let k = min (n - 1) 31 in
    let up : 6 + (k - 6) ≡ k = omega arith in
    let down : k + (31 - k) ≡ 31 = omega arith in
    let low : 2 ^ 6 ≤ 2 ^ k = subst (λ x. 2 ^ 6 ≤ 2 ^ x) up (pow_mono 6 (k - 6)) in
    let high : 2 ^ k ≤ 2 ^ 31 = subst (λ x. 2 ^ k ≤ 2 ^ x) down (pow_mono k (31 - k)) in
    omega (arith, low, high)

later :
    (m : ℕ)
    → 6 ≤ m
    → retry_backoff_seconds (m + 2) ≡ min (2 * retry_backoff_seconds (m + 1)) max_backoff_seconds
later m h = omega (arith, capped (m + 1) (omega arith), capped (m + 2) (omega arith))

-- The first retry waits one second; each later one twice as long as the one before, up to the cap
-- of 60 seconds, whatever the number of the attempt: the product of 32 bits never wraps around.
pub retry_backoff-doubles :
    (n : ℕ)
    → (retry_backoff_seconds 1 ≡ 1)
      × (retry_backoff_seconds (n + 2)
          ≡ min (2 * retry_backoff_seconds (n + 1)) max_backoff_seconds)
unfolding retry_backoff_seconds
retry_backoff-doubles n = (refl, doubles n)
  where
    doubles :
        (m : ℕ)
        → retry_backoff_seconds (m + 2)
          ≡ min (2 * retry_backoff_seconds (m + 1)) max_backoff_seconds
    doubles zero = refl
    doubles (suc zero) = refl
    doubles (suc (suc zero)) = refl
    doubles (suc (suc (suc zero))) = refl
    doubles (suc (suc (suc (suc zero)))) = refl
    doubles (suc (suc (suc (suc (suc zero))))) = refl
    doubles (suc (suc (suc (suc (suc (suc m)))))) =
        later (suc (suc (suc (suc (suc (suc m)))))) (omega arith)
