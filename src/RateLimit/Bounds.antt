-- ===== src/RateLimit/Bounds.antt =====
-- The memory of the rate limiter is bounded, and a request that is let through had room in its window.
use task_harbor.Base.{
  ℕ, ◌+◌, ◌≤◌, ◌&&◌, inl, inr, List, [], ◌∷◌, ◌++◌, All, arith, leb, ◌==◌, length, length-append,
  list_eq, Bool-cases, Option-cases, bit,
}
use task_harbor.Core.{Text, is_empty}
use task_harbor.Sql.{count_rows, find_row}
use task_harbor.Sql.Counts.{find_row-All}
use task_harbor.RateLimit.{
  Tracked, max_tracked_keys, prune, prune_all, has_key, attempts_of, put, check, run,
}

-- At most 1024 keys, and at most `limit` instants for each.
abbrev pub Bounded : ℕ → List Tracked → Type 0
Bounded limit state = (length state ≤ max_tracked_keys) × All (λ t. length t.attempts ≤ limit) state

length-prune : (window now : ℕ) (xs : List ℕ) → length (prune window now xs) ≤ length xs
unfolding prune
length-prune window now [] = omega arith
length-prune window now (x ∷ xs) = ground (arith, length-prune window now xs)

length-prune_all : (window now : ℕ) (s : List Tracked) → length (prune_all window now s) ≤ length s
unfolding prune_all
length-prune_all window now [] = omega arith
length-prune_all window now (t ∷ more) = ground (arith, length-prune_all window now more)

short-prune_all :
    (limit window now : ℕ) (s : List Tracked)
    → All (λ t. length t.attempts ≤ limit) s
    → All (λ t. length t.attempts ≤ limit) (prune_all window now s)
unfolding prune_all
short-prune_all limit window now [] a = tt
short-prune_all limit window now (t ∷ more) a =
    elim (Bool-cases (is_empty (prune window now t.attempts))) [
      | inl e ↦ rw e (short-prune_all limit window now more a.1)
      | inr e ↦ rw e (
        omega (arith, length-prune window now t.attempts, a.0),
        short-prune_all limit window now more a.1,
      )
    ]

short-put :
    (limit : ℕ) (key : Text) (xs : List ℕ) (s : List Tracked)
    → length xs ≤ limit
    → All (λ t. length t.attempts ≤ limit) s
    → All (λ t. length t.attempts ≤ limit) (put key xs s)
unfolding put
short-put limit key xs [] h a = (h, tt)
short-put limit key xs (t ∷ more) h a = elim (Bool-cases (list_eq t.key key)) [
  | inl e ↦ rw e (h, a.1)
  | inr e ↦ rw e (a.0, short-put limit key xs more h a.1)
]

length-put :
    (key : Text) (xs : List ℕ) (s : List Tracked)
    → length (put key xs s) ≤ length s + bit (count_rows (has_key key) s == 0)
unfolding put count_rows
length-put key xs [] = ground arith
length-put key xs (t ∷ more) = ground (arith, length-put key xs more)

short-found :
    (limit : ℕ) (key : Text) (s : List Tracked)
    → All (λ t. length t.attempts ≤ limit) s
    → length (attempts_of (find_row (has_key key) s)) ≤ limit
short-found limit key s a = elim (Option-cases (find_row (has_key key) s)) [
  | inl e ↦ rw e (omega arith)
  | inr (t, e) ↦ rw e ((find_row-All (λ t. length t.attempts ≤ limit) (has_key key) s a e).0)
]

check-Bounded :
    (limit window : ℕ) (state : List Tracked) (now : ℕ) (key : Text)
    → Bounded limit state
    → Bounded limit (check limit window state now key).1
unfolding check
check-Bounded limit window state now key b =
    let pruned = prune_all window now state in
    let attempts = attempts_of (find_row (has_key key) pruned) in
    let few = length-prune_all window now state in
    let short = short-prune_all limit window now state b.1 in
    let found = short-found limit key pruned short in
    elim (Bool-cases
      (count_rows (has_key key) pruned == 0 && leb max_tracked_keys (length pruned))) [
        | inl full ↦ rw full (omega (arith, few, b.0), short)
        | inr room ↦ elim (Bool-cases (leb limit (length attempts))) [
          | inl busy ↦
              rw (room, busy)
                (
                  ground (arith, few, b.0, room, length-put key attempts pruned),
                  short-put limit key attempts pruned found short,
                )
          | inr free ↦
              rw (room, free)
                (
                  ground (arith, few, b.0, room, length-put key (attempts ++ (now ∷ [])) pruned),
                  short-put limit key (attempts ++ (now ∷ [])) pruned
                      (ground (arith, free, length-append attempts (now ∷ []))) short,
                )
        ]
      ]

run_from :
    (limit window : ℕ) (requests : List (ℕ × Text)) (state : List Tracked)
    → Bounded limit state
    → Bounded limit (run limit window state requests)
unfolding run
run_from limit window [] state b = b
run_from limit window ((now, key) ∷ more) state b =
    run_from limit window more (check limit window state now key).1
      (check-Bounded limit window state now key b)

-- However many requests arrive, with whatever keys and at whatever times: the limiter, which starts
-- empty, keeps at most 1024 keys and at most as many instants for each as its limit.
pub run-Bounded :
    (limit window : ℕ) (requests : List (ℕ × Text)) → Bounded limit (run limit window [] requests)
run-Bounded limit window requests = run_from limit window requests [] (omega arith, tt)
