-- ===== src/Schedule/Recurrence.antt =====
-- The slots that the recurrence arithmetic finds.
use task_harbor.Base.{
  ℕ, zero, suc, ◌+◌, ◌-◌, ◌*◌, ◌/◌, ◌≤◌, ◌<◌, ◌≡◌, ok, err, invalid_data, arith, ltb, if◌then◌else◌,
}
use task_harbor.Clock.{Time, second, max_time, checked_add, whole_seconds}
use task_harbor.Schedule.{latest_due_slot, next_slot_after}

pub div_bounds : (n d : ℕ) → 0 < d → (n / d * d ≤ n) × (n < (n / d + 1) * d)
div_bounds n d h = grind arith

-- The number of the last slot that is due: whole intervals, counted in whole seconds.
abbrev due_slots : Time → ℕ → Time → ℕ
due_slots n interval t = whole_seconds t n / interval

due_slots_bounds :
    (n interval t : ℕ)
    → 0 < interval
    → n ≤ t
    → (n + due_slots n interval t * interval * second ≤ t)
      × (t < n + due_slots n interval t * interval * second + interval * second)
due_slots_bounds n interval t h le = omega (arith, div_bounds (whole_seconds t n) interval h)

quotient_unique : (a b d e : ℕ) → a * d ≤ e → e < (a + 1) * d → b * d ≤ e → e < (b + 1) * d → a ≡ b
quotient_unique a b d e p q r s = grind arith

-- Rounding to whole seconds first makes no difference.
div-second-div : (e interval : ℕ) → 0 < interval → e / second / interval ≡ e / (interval * second)
div-second-div e interval h =
    quotient_unique (e / second / interval) (e / (interval * second)) (interval * second) e
      (omega (arith, slots.0)) (omega (arith, slots.1)) spans.0 spans.1
  where
    slots :
        (e / second / interval * interval ≤ e / second)
        × (e / second < (e / second / interval + 1) * interval)
    slots = div_bounds (e / second) interval h

    spans :
        (e / (interval * second) * (interval * second) ≤ e)
        × (e < (e / (interval * second) + 1) * (interval * second))
    spans = div_bounds e (interval * second) (omega arith)

-- A due schedule, with its interval positive and the slot after the clock within the range of
-- times: the result is ok, the slot is a whole number k of intervals after the cursor and not
-- after the clock, the next cursor is one interval later and after the clock, and k slots are
-- reported as coalesced.
pub latest_due_slot_lem :
    (next_run_at : Time) (interval : ℕ) (as_of : Time)
    → 0 < interval
    → next_run_at ≤ as_of
    → as_of + interval * second ≤ max_time
    → (k : ℕ) × (latest_due_slot next_run_at interval as_of
        ≡ ok (
          next_run_at + k * interval * second,
          next_run_at + k * interval * second + interval * second,
          k,
        ))
      × (next_run_at + k * interval * second ≤ as_of)
      × (as_of < next_run_at + k * interval * second + interval * second)
unfolding latest_due_slot checked_add
latest_due_slot_lem n interval t h le fits =
    let b = due_slots_bounds n interval t h le in
    (due_slots n interval t, ground (arith, b.0, b.1), b.0, b.1)

-- A slot that is found is not after the clock, and the next one is.
pub latest_due_slot_bounds :
    (next_run_at : Time) (interval : ℕ) (as_of slot following : Time) (k : ℕ)
    → 0 < interval
    → latest_due_slot next_run_at interval as_of ≡ ok (slot, following, k)
    → (slot ≤ as_of) × (as_of < following)
unfolding latest_due_slot checked_add
latest_due_slot_bounds n interval t slot following k h e =
    let le : n ≤ t = ground arith in
    let b = due_slots_bounds n interval t h le in ground (arith, b.0, b.1)

-- The scheduler that does not coalesce: one interval after another, counting the slots passed.
pub one_by_one : ℕ → Time → ℕ → Time → ℕ → Time × Time × ℕ
one_by_one zero slot step as_of passed = (slot, slot + step, passed)
one_by_one (suc fuel) slot step as_of passed =
    let rest = one_by_one fuel (slot + step) step as_of (passed + 1) in
    if ltb as_of (slot + step) then (slot, slot + step, passed) else rest

one_by_one_lem :
    (k fuel : ℕ) (slot step as_of passed : ℕ)
    → k ≤ fuel
    → slot + k * step ≤ as_of
    → as_of < slot + k * step + step
    → one_by_one fuel slot step as_of passed ≡ (slot + k * step, slot + k * step + step, passed + k)
unfolding one_by_one
one_by_one_lem zero zero slot step t passed f lo hi = ground arith
one_by_one_lem (suc k) zero slot step t passed f lo hi = absurd (omega arith)
one_by_one_lem zero (suc fuel) slot step t passed f lo hi = ground arith
one_by_one_lem (suc k) (suc fuel) slot step t passed f lo hi = ground (
  arith,
  one_by_one_lem k fuel (slot + step) step t (passed + 1) (omega arith) (omega arith) (omega arith),
)

-- Under the same conditions the arithmetic finds what the scheduler finds that goes through the
-- slots one by one, given as much fuel as there are nanoseconds to catch up.
pub latest_due_slot-one_by_one :
    (next_run_at : Time) (interval : ℕ) (as_of : Time)
    → 0 < interval
    → next_run_at ≤ as_of
    → as_of + interval * second ≤ max_time
    → latest_due_slot next_run_at interval as_of
      ≡ ok (one_by_one (as_of - next_run_at) next_run_at (interval * second) as_of 0)
latest_due_slot-one_by_one n interval t h le fits =
    let (k, e, lo, hi) = latest_due_slot_lem n interval t h le fits in
    let few : k * (interval * second) ≤ t - n = omega arith in
    ground (
      arith,
      e,
      one_by_one_lem k (t - n) n (interval * second) t 0 (grind arith) (omega arith) (omega arith),
    )

-- A cursor that is set by an edit agrees with one that is moved by a tick: where the slot that is
-- due is found from the anchor, with a positive interval, the first slot after the clock is the
-- next cursor that goes with it.
pub next_slot_after-latest_due_slot :
    (anchor_at : Time) (interval : ℕ) (as_of : Time) (slot following : Time) (k : ℕ)
    → 0 < interval
    → latest_due_slot anchor_at interval as_of ≡ ok (slot, following, k)
    → next_slot_after anchor_at interval as_of ≡ ok following
unfolding latest_due_slot next_slot_after checked_add
next_slot_after-latest_due_slot n interval t slot following k h e =
    ground (arith, div-second-div (t - n) interval h)

-- A clock before the cursor is refused, and no slot is found.
pub latest_due_slot_early :
    (next_run_at : Time) (interval : ℕ) (as_of : Time)
    → as_of < next_run_at
    → latest_due_slot next_run_at interval as_of
      ≡ err (invalid_data "schedule is not due at the supplied clock time")
unfolding latest_due_slot
latest_due_slot_early n interval t h = ground arith
