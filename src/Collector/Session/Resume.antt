-- ===== src/Collector/Session/Resume.antt =====
-- Where the next session goes on, from the key that the last one stored.
use vkt7d.Common.{
  ℕ, zero, suc, ◌+◌, ◌-◌, ◌/◌, ◌%◌, ◌≤◌, ◌<◌, ◌≡◌, ◌==◌, ltb, refl, sym, ap, ◌∙◌, true, false,
  Bool-cases, ◌||◌, inl, inr, arith, if◌then◌else◌,
}
use vkt7d.Calendar.{Time, IsTime, days_in, carried, on_day, date, next_day, months_before}
use vkt7d.Calendar.Valid.{days_in_bounds, date_in_month}
use vkt7d.Protocol.{hourly}
use vkt7d.Protocol.Client.{date_payload, is_daily_like}
use vkt7d.Storage.{midnight}
use vkt7d.Collector.Dates.{is_report_type, next_archive_time, month_report_date}
use vkt7d.Collector.Dates.Report.{report_date, month_report_date_lem}
use vkt7d.Collector.Session.{Job, overlapped, moment}

-- The key of a record's row: the time for the hourly archive, else the day.
abbrev pub key : ℕ → Time → Time
key typ t = if typ == hourly then t else midnight t

-- The day that `time.Date` comes to does not depend on the second.
abbrev SameDay : Time → Time → Type 0
SameDay t u = (t.month ≡ u.month) × (t.day ≡ u.day)

carried-SameDay : (turns m k s s' : ℕ) → SameDay (carried turns m k s) (carried turns m k s')
unfolding carried
carried-SameDay zero m k s s' = (refl, refl)
carried-SameDay (suc turns) m k s s' = elim (Bool-cases (ltb k (days_in m))) [
  | inl here ↦ rw here (refl, refl)
  | inr there ↦ rw there (carried-SameDay turns (m + 1) (k - days_in m) s s')
]

on_day-SameDay : (m k s s' : ℕ) → SameDay (on_day m k s) (on_day m k s')
unfolding on_day
on_day-SameDay m zero s s' = (refl, refl)
on_day-SameDay m (suc k) s s' = carried-SameDay (suc k) m k s s'

date-SameDay : (m k s s' : ℕ) → s < 86400 → s' < 86400 → SameDay (date m k s) (date m k s')
unfolding date
date-SameDay m k s s' h h' =
    let none : k + s / 86400 ≡ k = omega arith in
    let none' : k + s' / 86400 ≡ k = omega arith in
    rw (none, none') (on_day-SameDay m k (s % 86400) (s' % 86400))

midnight_lem :
    (t : Time) → IsTime t → midnight t ≡ record { month = t.month; day = t.day; second = 0 }
midnight_lem t h =
    let one : t.day + 1 ≡ suc t.day = omega arith in
    rw one (date_in_month t.month t.day 0 h.0 (omega arith))

-- `SetDate` writes the same for two times of one day, if it puts in the hour 23.
same_payload :
    (t u : Time) (typ : ℕ)
    → is_daily_like typ ≡ true
    → SameDay t u
    → date_payload (moment t) (is_daily_like typ) ≡ date_payload (moment u) (is_daily_like typ)
same_payload t u typ by_day (month, day) = rw (by_day, month, day) refl

next-SameDay :
    (t : Time) (typ report_day : ℕ)
    → IsTime t
    → (typ == hourly) ≡ false
    → SameDay (next_archive_time (midnight t) typ report_day) (next_archive_time t typ report_day)
unfolding next_archive_time
next-SameDay t typ report_day h other = elim (Bool-cases (is_report_type typ)) [
  | inl reports ↦
      let same : month_report_date (midnight t) 1 report_day ≡ month_report_date t 1 report_day =
        (month_report_date_lem (midnight t) 1 report_day).0
        ∙ ap (λ u. report_date (u.month + 1) report_day) (midnight_lem t h)
        ∙ sym (month_report_date_lem t 1 report_day).0 in
      rw (other, reports) (ap (λ u. u.month) same, ap (λ u. u.day) same)
  | inr days ↦
      rw (other, days, midnight_lem t h)
        (unfold next_day in date-SameDay t.month (t.day + 2) 0 t.second (omega arith) h.1)
]

-- A session that goes on from the key in the store asks the meter for exactly the date that the
-- session before would have asked for next: `SetDate` writes the same bytes.
pub next_archive_time-key :
    (t : Time) (typ report_day : ℕ)
    → IsTime t
    → ((typ == hourly) || is_daily_like typ) ≡ true
    → date_payload (moment (next_archive_time (key typ t) typ report_day)) (is_daily_like typ)
      ≡ date_payload (moment (next_archive_time t typ report_day)) (is_daily_like typ)
next_archive_time-key t typ report_day h known = elim (Bool-cases (typ == hourly)) [
  | inl hours ↦ rw hours refl
  | inr other ↦
      let by_day : is_daily_like typ ≡ true = rw other at known in
      rw other (
        same_payload (next_archive_time (midnight t) typ report_day)
          (next_archive_time t typ report_day) typ by_day (next-SameDay t typ report_day h other))
]

into_next_month :
    (m k s : ℕ)
    → days_in m ≤ k
    → k - days_in m < days_in (m + 1)
    → on_day m (suc k) s ≡ record { month = m + 1; day = k - days_in m; second = s }
unfolding on_day carried
into_next_month m zero s h short = absurd (omega (arith, (days_in_bounds m).0, h))
into_next_month m (suc k) s h short =
    let past : ltb (suc k) (days_in m) ≡ false = ground (arith, h) in
    let inside : ltb (suc k - days_in m) (days_in (m + 1)) ≡ true = ground (arith, short) in
    rw (past, inside) refl

months_before_same :
    (t : Time)
    → IsTime t
    → 1 ≤ t.month
    → days_in (t.month - 1) ≤ t.day
    → ((months_before t 1).month ≡ t.month)
      × ((months_before t 1).day ≡ t.day - days_in (t.month - 1))
unfolding months_before
months_before_same t h year long =
    let m = t.month - 1 in
    let back : m + 1 ≡ t.month = omega arith in
    let plain : t.day + 1 + t.second / 86400 ≡ suc t.day = omega (arith, h.1) in
    let few = (days_in_bounds m).0 in
    let in_month = h.0 in
    let short : t.day - days_in m < days_in (m + 1) = rw back (omega (arith, few, in_month)) in
    let landed = into_next_month m t.day (t.second % 86400) long short in
    unfold date in rw (plain, landed, back) (refl, refl)

-- The overlap of one period in the monthly and the total archive: from a day that the month before
-- does not have, the cursor goes no month back; it lands on an early day of the same month.
pub overlapped-same_month :
    (j : Job) (t : Time)
    → (j.typ == hourly) ≡ false
    → is_report_type j.typ ≡ true
    → j.overlap ≡ 1
    → IsTime t
    → 1 ≤ t.month
    → days_in (t.month - 1) ≤ t.day
    → ((overlapped j t).month ≡ t.month) × ((overlapped j t).day ≡ t.day - days_in (t.month - 1))
unfolding overlapped
overlapped-same_month j t other reports one h year long =
    rw (one, other, reports) (months_before_same t h year long)
