-- ===== src/Calendar.antt =====
-- What the source uses of Go's package time, where the local zone is UTC. Fractions of a second are
-- cut.
pub mod Valid
use vkt7d.Common.{
  ℕ, zero, suc, ◌+◌, ◌-◌, ◌*◌, ◌/◌, ◌%◌, ◌^◌, ◌≤◌, ◌<◌, ◌==◌, ltb, leb, Bool, true, false, not,
  ◌&&◌, ◌||◌, if◌then◌else◌,
}

-- The months since January of the year 0, the days since the first of the month, and the seconds of
-- the day.
pub record Time : Type 0 where
  pub month : ℕ
  pub day : ℕ
  pub second : ℕ

abbrev pub is_leap : ℕ → Bool
is_leap y = (y % 4 == 0) && (not (y % 100 == 0) || (y % 400 == 0))

unfoldable pub days_in : ℕ → ℕ
days_in month =
    let m = month % 12 in
    if m == 1
    then if is_leap (month / 12) then 29 else 28
    else if (m == 3) || (m == 5) || (m == 8) || (m == 10)
    then 30
    else 31

abbrev pub IsTime : Time → Type 0
IsTime t = (t.day < days_in t.month) × (t.second < 86400)

-- `t.Year()`, `t.Month()`, `t.Day()` and `t.Hour()`.
abbrev pub year_of : Time → ℕ
year_of t = t.month / 12

abbrev pub month_of : Time → ℕ
month_of t = t.month % 12 + 1

abbrev pub day_of : Time → ℕ
day_of t = t.day + 1

abbrev pub hour_of : Time → ℕ
hour_of t = t.second / 3600

-- The months of a year and a month as `time.Date` takes them; the month may be 0 or above 12.
abbrev pub month_index : ℕ → ℕ → ℕ
month_index y m = y * 12 + m - 1

-- The day `k` days after the first of the month: as many turns as days are enough.
unfoldable pub carried : ℕ → ℕ → ℕ → ℕ → Time
carried zero m k s = record { month = m; day = k; second = s }
carried (suc turns) m k s =
    let later = carried turns (m + 1) (k - days_in m) s in
    if ltb k (days_in m) then record { month = m; day = k; second = s } else later

-- The day 0 is the last one of the month before.
unfoldable pub on_day : ℕ → ℕ → ℕ → Time
unfolding carried
on_day m zero s = record { month = m - 1; day = days_in (m - 1) - 1; second = s }
on_day m (suc k) s = carried (suc k) m k s

-- `time.Date`: a day past the month and seconds past the day are carried on.
unfoldable pub date : ℕ → ℕ → ℕ → Time
unfolding on_day
date m day seconds = on_day m (day + seconds / 86400) (seconds % 86400)

-- `t.Add` of some seconds.
unfoldable pub add_seconds : Time → ℕ → Time
unfolding date
add_seconds t n = date t.month (t.day + 1) (t.second + n)

-- `t.AddDate(0, 0, 1)` and `t.AddDate(0, 0, -1)`.
unfoldable pub next_day : Time → Time
unfolding date
next_day t = date t.month (t.day + 2) t.second

unfoldable pub day_before : Time → Time
unfolding date
day_before t = date t.month t.day t.second

-- `t.Add(-time.Hour)`
unfoldable pub hour_before : Time → Time
hour_before t =
    if leb 3600 t.second
    then record t { second = t.second - 3600 }
    else record (day_before t) { second = t.second + 82800 }

-- `n` times.
unfoldable pub repeated : ℕ → (Time → Time) → Time → Time
repeated zero f t = t
repeated (suc n) f t = repeated n f (f t)

-- A number of seconds back, at most a day.
unfoldable pub seconds_before : Time → ℕ → Time
seconds_before t n =
    if leb n t.second
    then record t { second = t.second - n }
    else record (day_before t) { second = t.second + 86400 - n }

-- `t.Add(-time.Duration(n) * time.Hour)`: an int64 of nanoseconds that wraps, so past 2^63 it leads
-- forward. What is no whole second is rounded down.
unfoldable pub hours_before : Time → ℕ → Time
unfolding repeated seconds_before add_seconds
hours_before t n =
    let back = n * 3600 * 10 ^ 9 % 2 ^ 64 in
    let seconds = (back + 10 ^ 9 - 1) / 10 ^ 9 in
    if leb back (2 ^ 63)
    then seconds_before (repeated (seconds / 3600) hour_before t) (seconds % 3600)
    else add_seconds t ((2 ^ 64 - back) / 10 ^ 9)

-- `t.AddDate(0, -n, 0)`: the day stays, and is carried on if the month is too short.
unfoldable pub months_before : Time → ℕ → Time
unfolding date
months_before t n = date (t.month - n) (t.day + 1) t.second

unfoldable pub truncate_hour : Time → Time
truncate_hour t = record t { second = t.second - t.second % 3600 }

-- Times by a number: no month has more than 31 days, so the order is that of the times.
abbrev pub stamp : Time → ℕ
stamp t = (t.month * 31 + t.day) * 86400 + t.second

-- `t.After(u)`
abbrev pub after : Time → Time → Bool
after t u = ltb (stamp u) (stamp t)
