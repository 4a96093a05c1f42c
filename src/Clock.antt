-- ===== src/Clock.antt =====
-- Time as the code computes with it: an `OffsetDateTime` (of the `time` crate, whose range is the
-- years -9999 to 9999) is the count of nanoseconds since the first instant of that range in UTC.
-- `CURRENT_TIMESTAMP` and the clock of a call are arguments of the operations.
use task_harbor.Base.{ℕ, ◌+◌, ◌-◌, ◌*◌, ◌/◌, Option, none, some, leb, if◌then◌else◌}

abbrev pub Time : Type 0
Time = ℕ

-- A second in nanoseconds.
abbrev pub second : ℕ
second = 1000000000

-- A millisecond in nanoseconds.
abbrev pub millisecond : ℕ
millisecond = 1000000

-- The last instant of the year 9999: the range has 7304484 days.
abbrev pub max_time : ℕ
max_time = 631107417599999999999

-- `OffsetDateTime::checked_add` of a duration that is not negative.
unfoldable pub checked_add : Time → ℕ → Option Time
checked_add t d = if leb (t + d) max_time then some (t + d) else none

-- `(later - earlier).whole_seconds()` and the like, where `earlier` is not after `later`.
abbrev pub whole_seconds : Time → Time → ℕ
whole_seconds later earlier = (later - earlier) / second

-- `(later - earlier).whole_milliseconds().max(0)`: ℕ's difference stops at 0, as `max` does.
abbrev pub whole_milliseconds : Time → Time → ℕ
whole_milliseconds later earlier = (later - earlier) / millisecond

-- `t + seconds * INTERVAL '1 second'`.
abbrev pub plus_seconds : Time → ℕ → Time
plus_seconds t seconds = t + seconds * second
