-- ===== src/Tasks/Schedule.antt =====
-- internal/tasks/schedule.go. An instant is a number of nanoseconds from the zero instant of package
-- time; the clock of a location, which package time reads off its zone data, is a parameter.
pub mod Next
mod Examples
use jproxy_go.Common.{
  ℕ, zero, suc, ◌+◌, ◌-◌, ◌*◌, ◌%◌, ◌⊎◌, inl, inr, Bool, ◌&&◌, not, Option, none, some, ℤ, pos_part,
  leb_ℤ, pos, ltb, ◌==◌, if◌then◌else◌,
}

pub record Clock : Type 0 where
  pub hour : ℕ → ℕ
  pub minute : ℕ → ℕ
  pub second : ℕ → ℕ

-- The types that implement Schedule.
pub data Schedule : Type 0 where
  daily : ℕ → ℕ → ℕ → Schedule
  hourly : ℕ → ℕ → Schedule
  every_minutes : ℕ → ℕ → Schedule
  every_seconds : ℕ → Schedule

pub data Field : Type 0 where
  hour_field : Field
  minute_field : Field
  second_field : Field
  interval_field : Field

-- Between 0 and a bound, as a number.
abbrev pub within : ℤ → ℕ → Bool
within n bound = leb_ℤ (pos 0) n && leb_ℤ n (pos bound)

-- validTime and validMinuteSecond; `none` is no error.
unfoldable pub valid_minute_second : ℤ → ℤ → Option Field
valid_minute_second minute second =
    if not (within minute 59)
    then some minute_field
    else if not (within second 59)
    then some second_field
    else none

unfoldable pub valid_time : ℤ → ℤ → ℤ → Option Field
valid_time hour minute second =
    let rest = valid_minute_second minute second in
    if not (within hour 23) then some hour_field else rest

-- interval >= 1 && interval <= 60 && 60%interval == 0
abbrev pub divides_60 : ℤ → Bool
divides_60 n = leb_ℤ (pos 1) n && leb_ℤ n (pos 60) && 60 % pos_part n == 0

-- The constructors; the right side is the field of a ValidationError.
unfoldable pub new_daily : ℤ → ℤ → ℤ → Schedule ⊎ Field
new_daily hour minute second = elim (valid_time hour minute second) [
  | some field ↦ inr field
  | none ↦ inl (daily (pos_part hour) (pos_part minute) (pos_part second))
]

unfoldable pub new_hourly : ℤ → ℤ → Schedule ⊎ Field
new_hourly minute second = elim (valid_minute_second minute second) [
  | some field ↦ inr field
  | none ↦ inl (hourly (pos_part minute) (pos_part second))
]

unfoldable pub new_every_minutes : ℤ → ℤ → Schedule ⊎ Field
new_every_minutes interval second =
    if not (divides_60 interval)
    then inr interval_field
    else if not (within second 59)
    then inr second_field
    else inl (every_minutes (pos_part interval) (pos_part second))

unfoldable pub new_every_seconds : ℤ → Schedule ⊎ Field
new_every_seconds interval =
    if not (divides_60 interval)
    then inr interval_field
    else inl (every_seconds (pos_part interval))

-- time.Second and scheduleSearchLimit
abbrev pub time_second : ℕ
time_second = 1000000000

abbrev pub schedule_search_limit : ℕ
schedule_search_limit = 72 * 3600 * 1000000000

-- The functions that Next passes to nextMatching.
unfoldable pub matches : Clock → Schedule → ℕ → Bool
matches clock (daily hour minute second) t =
    clock.hour t == hour && clock.minute t == minute && clock.second t == second
matches clock (hourly minute second) t = clock.minute t == minute && clock.second t == second
matches clock (every_minutes interval second) t =
    clock.minute t % interval == 0 && clock.second t == second
matches clock (every_seconds interval) t = clock.second t % interval == 0

-- The loop of nextMatching; `none` means that the fuel ran out.
unfoldable pub search_matching : ℕ → (ℕ → Bool) → ℕ → ℕ → Option ℕ
search_matching zero test limit candidate = none
search_matching (suc fuel) test limit candidate =
    let rest = search_matching fuel test limit (candidate + time_second) in
    if ltb limit candidate then some candidate else if test candidate then some candidate else rest

-- from.Truncate(time.Second).Add(time.Second)
unfoldable pub next_second : ℕ → ℕ
next_second from = from - from % time_second + time_second

-- The fuel is the number of seconds searched and two more.
unfoldable pub next_matching : (ℕ → Bool) → ℕ → Option ℕ
next_matching test from =
    search_matching 259202 test (from + schedule_search_limit) (next_second from)

-- Next
unfoldable pub next : Clock → Schedule → ℕ → Option ℕ
next clock schedule from = next_matching (matches clock schedule) from
