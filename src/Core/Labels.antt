-- ===== src/Core/Labels.antt =====
-- The labels of the enumerations are read back, and nothing else is.
use text.Mathlib.TextEquality.{eq_iff}
use task_harbor.Base.{◌≡◌, ◌↔◌, refl, sym, String, some, arith}
use task_harbor.Core.{
  JobStatus, JobType, JobPriority, queued, demo_delay, image_resize, high, priority_as_str,
  parse_priority, type_as_str, parse_type, status_as_str, parse_status,
}

pub parse_status-status_as_str : (s : JobStatus) → parse_status (status_as_str s) ≡ some s
unfolding parse_status status_as_str
parse_status-status_as_str queued = refl
parse_status-status_as_str _ = refl

pub parse_type-type_as_str : (t : JobType) → parse_type (type_as_str t) ≡ some t
unfolding parse_type type_as_str
parse_type-type_as_str demo_delay = refl
parse_type-type_as_str image_resize = refl

pub parse_priority-priority_as_str : (p : JobPriority) → parse_priority (priority_as_str p) ≡ some p
unfolding parse_priority priority_as_str
parse_priority-priority_as_str high = refl
parse_priority-priority_as_str _ = refl

pub status_as_str-parse_status :
    (x : String) (s : JobStatus) → parse_status x ≡ some s → status_as_str s ≡ x
unfolding parse_status status_as_str
status_as_str-parse_status x s h = ground (
  arith,
  eq_iff x "queued",
  eq_iff x "running",
  eq_iff x "retry_waiting",
  eq_iff x "cancel_requested",
  eq_iff x "succeeded",
  eq_iff x "failed",
  eq_iff x "cancelled",
)

pub type_as_str-parse_type : (x : String) (t : JobType) → parse_type x ≡ some t → type_as_str t ≡ x
unfolding parse_type type_as_str
type_as_str-parse_type x t h = ground (arith, eq_iff x "demo_delay", eq_iff x "image_resize")

pub priority_as_str-parse_priority :
    (x : String) (p : JobPriority) → parse_priority x ≡ some p → priority_as_str p ≡ x
unfolding parse_priority priority_as_str
priority_as_str-parse_priority x p h =
    ground (arith, eq_iff x "high", eq_iff x "normal", eq_iff x "low")

-- The labels of states, types and priorities are read back by their parsers, and a text that a
-- parser reads is the label of the value that it gives.
pub labels_round_trip :
    ((s : JobStatus) (x : String) → (parse_status x ≡ some s) ↔ (x ≡ status_as_str s))
    × ((t : JobType) (x : String) → (parse_type x ≡ some t) ↔ (x ≡ type_as_str t))
    × ((p : JobPriority) (x : String) → (parse_priority x ≡ some p) ↔ (x ≡ priority_as_str p))
labels_round_trip = (
  (λ s x.
      ((λ h. sym (status_as_str-parse_status x s h)), λ e. rw e (parse_status-status_as_str s))),
  (λ t x. ((λ h. sym (type_as_str-parse_type x t h)), λ e. rw e (parse_type-type_as_str t))),
  (λ p x. (
    (λ h. sym (priority_as_str-parse_priority x p h)),
    λ e. rw e (parse_priority-priority_as_str p),
  )),
)
