-- ===== src/Calendar/Valid.antt =====
-- The operations give times that exist, and their order.
use vkt7d.Common.{
  ℕ, zero, suc, ◌+◌, ◌-◌, ◌*◌, ◌/◌, ◌%◌, ◌^◌, ◌≤◌, ◌<◌, ◌≡◌, ltb, leb, true, Bool-cases, inl, inr,
  refl, arith,
}
use vkt7d.Calendar.{
  Time, days_in, IsTime, carried, on_day, date, add_seconds, next_day, day_before, hour_before,
  stamp, repeated, seconds_before, hours_before,
}

pub days_in_bounds : (m : ℕ) → (28 ≤ days_in m) × (days_in m ≤ 31)
unfolding days_in
days_in_bounds m = ground arith

-- A day carried on from an earlier or the same day of the calendar.
pub record Carried (m k s : ℕ) (t : Time) : Type 0 where
  pub exists : IsTime t
  pub not_earlier : m * 31 + k ≤ t.month * 31 + t.day
  pub same_second : t.second ≡ s

carried-Carried : (turns m k s : ℕ) → k < turns → s < 86400 → Carried m k s (carried turns m k s)
unfolding carried
carried-Carried zero m k s h small = absurd (omega arith)
carried-Carried (suc turns) m k s h small = elim (Bool-cases (ltb k (days_in m))) [
  | inl here ↦ rw here (record {
    exists = (ground (arith, here), small);
    not_earlier = omega arith;
    same_second = refl;
  })
  | inr there ↦
      let bounds = days_in_bounds m in
      let past : days_in m ≤ k = ground (arith, there) in
      let rest =
        carried-Carried turns (m + 1) (k - days_in m) s (omega (arith, bounds.0, past, h)) small in
      rw there (record {
        exists = rest.exists;
        not_earlier = omega (arith, rest.not_earlier, bounds.1, past);
        same_second = rest.same_second;
      })
]

-- `time.Date` at a day past the first, or at the day 0 with a day or more of seconds.
pub date-Carried : (m d s k : ℕ) → d + s / 86400 ≡ suc k → Carried m k (s % 86400) (date m d s)
unfolding date on_day
date-Carried m d s k e = rw e (carried-Carried (suc k) m k (s % 86400) (omega arith) (omega arith))

-- A day of the month that is in the month.
pub date_in_month :
    (m d s : ℕ)
    → d < days_in m
    → s < 86400
    → date m (suc d) s ≡ record { month = m; day = d; second = s }
unfolding date on_day carried
date_in_month m d s h small =
    let no_carry : suc d + s / 86400 ≡ suc d = omega arith in
    let same : s % 86400 ≡ s = omega arith in
    let inside : ltb d (days_in m) ≡ true = ground arith in rw (no_carry, same, inside) refl

last_day-IsTime : (m s : ℕ) → s < 86400 → IsTime (on_day m zero s)
unfolding on_day
last_day-IsTime m s h = (omega (arith, (days_in_bounds (m - 1)).0), h)

pub date-IsTime : (m d s : ℕ) → IsTime (date m d s)
date-IsTime m d s = by_day (d + s / 86400) refl
  where
    by_day : (n : ℕ) → d + s / 86400 ≡ n → IsTime (date m d s)
    by_day zero e = unfold date in rw e (last_day-IsTime m (s % 86400) (omega arith))
    by_day (suc k) e = (date-Carried m d s k e).exists

pub next_day-after : (t : Time) → IsTime t → stamp t < stamp (next_day t)
unfolding next_day
next_day-after t h =
    let c = date-Carried t.month (t.day + 2) t.second (t.day + 1) (omega arith) in
    omega (arith, c.not_earlier, c.same_second, h.1)

pub add_hour-after : (t : Time) → IsTime t → stamp t < stamp (add_seconds t 3600)
unfolding add_seconds
add_hour-after t h =
    let s = t.second + 3600 in
    let c = date-Carried t.month (t.day + 1) s (t.day + s / 86400) (omega arith) in
    omega (arith, c.not_earlier, c.same_second, h.1)

-- A day earlier is at least a day earlier by the stamps.
pub day_before-before : (t : Time) → IsTime t → 1 ≤ t.month → stamp (day_before t) + 86400 ≤ stamp t
unfolding day_before
day_before-before t h year = by_day t.day refl
  where
    by_day : (d : ℕ) → t.day ≡ d → stamp (date t.month t.day t.second) + 86400 ≤ stamp t
    by_day zero e =
        let none : t.day + t.second / 86400 ≡ zero = omega (arith, e, h.1) in
        let bounds = days_in_bounds (t.month - 1) in
        unfold date in unfold on_day in rw none (omega (arith, bounds.1, e, year))
    by_day (suc d) e =
        rw (e, date_in_month t.month d t.second (omega (arith, h.0, e)) h.1) (omega (arith, e))

date-second : (m d s : ℕ) → s < 86400 → (date m d s).second ≡ s
date-second m d s h = by_day (d + s / 86400) refl
  where
    by_day : (n : ℕ) → d + s / 86400 ≡ n → (date m d s).second ≡ s
    by_day zero e = unfold date in unfold on_day in rw e (omega arith)
    by_day (suc k) e = omega (arith, (date-Carried m d s k e).same_second)

day_before-second : (t : Time) → IsTime t → (day_before t).second ≡ t.second
unfolding day_before
day_before-second t h = date-second t.month t.day t.second h.1

pub hour_before-before :
    (t : Time) → IsTime t → 1 ≤ t.month → stamp (hour_before t) + 3600 ≤ stamp t
unfolding hour_before
hour_before-before t h year =
    let day = day_before-before t h year in
    let second = day_before-second t h in
    elim (Bool-cases (leb 3600 t.second)) [
      | inl late ↦ let enough : 3600 ≤ t.second = ground (arith, late) in rw late (omega arith)
      | inr early ↦
          let few : t.second < 3600 = ground (arith, early) in
          rw early (omega (arith, day, second, few))
    ]

pub day_before-IsTime : (t : Time) → IsTime (day_before t)
unfolding day_before
day_before-IsTime t = date-IsTime t.month t.day t.second

pub hour_before-IsTime : (t : Time) → IsTime t → IsTime (hour_before t)
unfolding hour_before
hour_before-IsTime t h =
    let day = day_before-IsTime t in
    elim (Bool-cases (leb 3600 t.second)) [
      | inl late ↦ rw late (h.0, omega (arith, h.1))
      | inr early ↦
          let few : t.second < 3600 = ground (arith, early) in rw early (day.0, omega (arith, few))
    ]

pub repeated-IsTime :
    (n : ℕ) (f : Time → Time) (t : Time)
    → ((u : Time) → IsTime u → IsTime (f u))
    → IsTime t
    → IsTime (repeated n f t)
unfolding repeated
repeated-IsTime zero f t keeps h = h
repeated-IsTime (suc n) f t keeps h = repeated-IsTime n f (f t) keeps (keeps t h)

seconds_before-IsTime : (t : Time) (n : ℕ) → IsTime t → IsTime (seconds_before t n)
unfolding seconds_before
seconds_before-IsTime t n h =
    let day = day_before-IsTime t in
    elim (Bool-cases (leb n t.second)) [
      | inl late ↦ rw late (h.0, omega (arith, h.1))
      | inr early ↦
          let few : t.second < n = ground (arith, early) in rw early (day.0, omega (arith, few))
    ]

pub hours_before-IsTime : (t : Time) (n : ℕ) → IsTime t → IsTime (hours_before t n)
unfolding hours_before
hours_before-IsTime t n h =
    let back = n * 3600 * 10 ^ 9 % 2 ^ 64 in
    let seconds = (back + 10 ^ 9 - 1) / 10 ^ 9 in
    let forth = (2 ^ 64 - back) / 10 ^ 9 in
    elim (Bool-cases (leb back (2 ^ 63))) [
      | inl small ↦ rw small (
          seconds_before-IsTime (repeated (seconds / 3600) hour_before t) (seconds % 3600)
            (repeated-IsTime (seconds / 3600) hour_before t hour_before-IsTime h))
      | inr wrapped ↦
          rw wrapped (unfold add_seconds in date-IsTime t.month (t.day + 1) (t.second + forth))
    ]
