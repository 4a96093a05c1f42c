-- ===== src/Examples/Values.antt =====
-- The theorems on times, names and labels at concrete values.
use task_harbor.Base.{
  ℕ, ◌*◌, ◌+◌, ◌-◌, ◌≤◌, ◌<◌, ◌≡◌, ◌↔◌, refl, list_eq, true, false, [], ◌∷◌, arith, ok, min, all,
}
use task_harbor.Clock.{second, checked_add}
use task_harbor.Core.{
  new_job_name, accepted, rejected, empty, too_long, is_whitespace, max_job_name_length,
}
use task_harbor.Core.Names.{new_job_name-accepts}
use task_harbor.Schedule.{latest_due_slot, next_slot_after}
use task_harbor.Schedule.Recurrence.{
  latest_due_slot_lem, latest_due_slot-one_by_one, next_slot_after-latest_due_slot, one_by_one,
}
use task_harbor.Queue.Failure.{retry_backoff_seconds, max_backoff_seconds}
use task_harbor.Queue.Backoff.{retry_backoff-doubles}
use task_harbor.RateLimit.{retry_after, check, run, prune, prune_all, put, wait}
use task_harbor.RateLimit.Bounds.{Bounded, run-Bounded}
use task_harbor.Sql.{count_rows, find_row}
use task_harbor.Examples.Run.{at}

latest_due_slot_lem_example :
    (k : ℕ) × (latest_due_slot (at 100) 60 (at 250)
      ≡ ok (at 100 + k * 60 * second, at 100 + k * 60 * second + 60 * second, k))
    × (at 100 + k * 60 * second ≤ at 250)
    × (at 250 < at 100 + k * 60 * second + 60 * second)
latest_due_slot_lem_example =
    latest_due_slot_lem (at 100) 60 (at 250) (omega arith) (omega arith) (omega arith)

latest_due_slot-one_by_one_example :
    latest_due_slot (at 100) 60 (at 250)
    ≡ ok (one_by_one (at 250 - at 100) (at 100) (60 * second) (at 250) 0)
latest_due_slot-one_by_one_example =
    latest_due_slot-one_by_one (at 100) 60 (at 250) (omega arith) (omega arith) (omega arith)

next_slot_after-latest_due_slot_example : next_slot_after (at 100) 60 (at 250) ≡ ok (at 280)
unfolding latest_due_slot checked_add
next_slot_after-latest_due_slot_example =
    next_slot_after-latest_due_slot (at 100) 60 (at 250) (at 220) (at 280) 2 (omega arith) refl

retry_backoff-doubles_example :
    (retry_backoff_seconds 1 ≡ 1)
    × (retry_backoff_seconds 7 ≡ min (2 * retry_backoff_seconds 6) max_backoff_seconds)
retry_backoff-doubles_example = retry_backoff-doubles 5

new_job_name-accepts_example :
    (((all is_whitespace (0x20 ∷ []) ≡ false) × (1 ≤ max_job_name_length))
      ↔ (new_job_name (0x20 ∷ []) ≡ accepted (record { as_str = 0x20 ∷ [] })))
    × ((all is_whitespace (0x20 ∷ []) ≡ true) ↔ (new_job_name (0x20 ∷ []) ≡ rejected empty))
    × (((all is_whitespace (0x20 ∷ []) ≡ false) × (max_job_name_length < 1))
        ↔ (new_job_name (0x20 ∷ []) ≡ rejected (too_long max_job_name_length 1)))
new_job_name-accepts_example = new_job_name-accepts (0x20 ∷ [])

run-Bounded_example :
    Bounded 2 (run 2 60 [] ((0, 0x6b ∷ []) ∷ (1, 0x6b ∷ []) ∷ (2, 0x6b ∷ []) ∷ []))
run-Bounded_example = run-Bounded 2 60 ((0, 0x6b ∷ []) ∷ (1, 0x6b ∷ []) ∷ (2, 0x6b ∷ []) ∷ [])

-- The third request within the window of a limit of two waits until the first one leaves the window.
third_request :
    (check 2 60 (run 2 60 [] ((0, 0x6b ∷ []) ∷ (1, 0x6b ∷ []) ∷ [])) 2 (0x6b ∷ [])).0
    ≡ retry_after 58
unfolding check run prune prune_all put wait count_rows find_row list_eq
third_request = refl
