-- ===== src/RateLimit.antt =====
-- The sliding window of apps/api/src/rate_limit.rs: for each key the instants of the requests that
-- were let through. The map is a list of its entries, a deque a list with its front first.
pub mod Bounds
use task_harbor.Base.{
  ℕ, ◌+◌, ◌-◌, Bool, true, false, ◌&&◌, ◌||◌, not, Option, none, some, List, [], ◌∷◌, ◌++◌, ltb,
  leb, ◌==◌, if◌then◌else◌, length, list_eq,
}
use task_harbor.Core.{Text, is_empty}
use task_harbor.Sql.{count_rows, update_rows, find_row}

abbrev pub max_tracked_keys : ℕ
max_tracked_keys = 1024

pub record Tracked : Type 0 where
  pub key : Text
  pub attempts : List ℕ

pub data Verdict : Type 0 where
  allowed : Verdict
  retry_after : ℕ → Verdict

-- Instants that have left the window are popped from the front; `duration_since` stops at 0.
unfoldable pub prune : (window now : ℕ) → List ℕ → List ℕ
prune window now [] = []
prune window now (a ∷ rest) =
    let later = prune window now rest in if leb window (now - a) then later else a ∷ rest

-- The loop over the values and `retain`.
unfoldable pub prune_all : (window now : ℕ) → List Tracked → List Tracked
prune_all window now [] = []
prune_all window now (t ∷ more) =
    let rest = prune_all window now more in
    let attempts = prune window now t.attempts in
    if is_empty attempts then rest else record t { attempts = attempts } ∷ rest

abbrev pub has_key : Text → Tracked → Bool
has_key key t = list_eq t.key key

-- The deque of a key; `or_default` where there is none.
abbrev pub attempts_of : Option Tracked → List ℕ
attempts_of none = []
attempts_of (some t) = t.attempts

-- `entry(key)` with its new value.
unfoldable pub put : Text → List ℕ → List Tracked → List Tracked
put key attempts [] = record { key = key; attempts = attempts } ∷ []
put key attempts (t ∷ more) =
    let rest = put key attempts more in
    if list_eq t.key key then record t { attempts = attempts } ∷ more else t ∷ rest

-- The time until the oldest instant leaves the window.
unfoldable pub wait : (window now : ℕ) → List ℕ → ℕ
wait window now [] = window
wait window now (a ∷ _) = window - (now - a)

unfoldable pub check : (limit window : ℕ) → List Tracked → (now : ℕ) → Text → Verdict × List Tracked
check limit window state now key =
    let pruned = prune_all window now state in
    let attempts = attempts_of (find_row (has_key key) pruned) in
    if count_rows (has_key key) pruned == 0 && leb max_tracked_keys (length pruned)
    then (retry_after window, pruned)
    else if leb limit (length attempts)
    then (retry_after (wait window now attempts), put key attempts pruned)
    else (allowed, put key (attempts ++ (now ∷ [])) pruned)

-- The limiter after a sequence of requests.
unfoldable pub run : (limit window : ℕ) → List Tracked → List (ℕ × Text) → List Tracked
run limit window state [] = state
run limit window state ((now, key) ∷ more) =
    run limit window (check limit window state now key).1 more
