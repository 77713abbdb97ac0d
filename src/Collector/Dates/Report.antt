-- ===== src/Collector/Dates/Report.antt =====
-- The report dates of months: no drift, whatever the month's length.
use vkt7d.Common.{ℕ, zero, suc, ◌+◌, ◌-◌, ◌≤◌, ◌≡◌, ltb, ap, ◌∙◌, if◌then◌else◌, arith}
use vkt7d.Calendar.{Time, days_in, IsTime, date, on_day, day_of, repeated}
use vkt7d.Calendar.Valid.{days_in_bounds, date_in_month}
use vkt7d.Collector.Dates.{at_23, month_report_date, next_archive_time}
use vkt7d.Protocol.{monthly}

abbrev pub min : ℕ → ℕ → ℕ
min a b = if ltb a b then a else b

abbrev pub max : ℕ → ℕ → ℕ
max a b = if ltb a b then b else a

-- The report date of a month: the report day, or the first or the last day, at 23:00.
unfoldable pub report_date : ℕ → ℕ → Time
report_date m report_day = record {
  month = m;
  day = min (max 1 report_day) (days_in m) - 1;
  second = at_23;
}

last_day : (m : ℕ) → day_of (date (m + 1) 0 at_23) ≡ days_in m
unfolding date on_day
last_day m =
    let one_back : m + 1 - 1 ≡ m = omega arith in rw one_back (omega (arith, (days_in_bounds m).0))

pub report_date-IsTime : (m report_day : ℕ) → IsTime (report_date m report_day)
unfolding report_date
report_date-IsTime m report_day = ground (arith, days_in_bounds m)

-- The two tests of the source clamp the day.
clamped :
    (report_day last : ℕ)
    → 1 ≤ last
    → (let day = if ltb report_day 1 then 1 else report_day in if ltb last day then last else day)
      ≡ suc (min (max 1 report_day) last - 1)
clamped report_day last h = ground arith

-- `monthReportDate` gives the report date of the month that is `offset` months on, the first or
-- the last day of that month where it has no such day, at 23:00 and a time that exists.
pub month_report_date_lem :
    (t : Time) (offset report_day : ℕ)
    → (month_report_date t offset report_day ≡ report_date (t.month + offset) report_day)
      × IsTime (report_date (t.month + offset) report_day)
unfolding month_report_date
month_report_date_lem t offset report_day =
    let m = t.month + offset in
    let bounds = days_in_bounds m in
    let first = date_in_month m 0 at_23 (omega (arith, bounds.0)) (omega arith) in
    let valid = report_date-IsTime m report_day in
    let day = clamped report_day (days_in m) (omega (arith, bounds.0)) in
    (
      rw (first, last_day m, day)
          (unfold report_date in
            date_in_month m (min (max 1 report_day) (days_in m) - 1) at_23
              (unfold report_date in valid.0) (omega arith)),
      valid,
    )

-- However many months the cursor of a monthly archive advances, from whatever time it started, it
-- stands on the report date of the month that is so many months on: a short month in between does
-- not move the later dates.
pub next_archive_time_months :
    (n : ℕ) (t : Time) (report_day : ℕ)
    → repeated (suc n) (λ u. next_archive_time u monthly report_day) t
      ≡ report_date (t.month + suc n) report_day
unfolding repeated next_archive_time
next_archive_time_months zero t report_day = (month_report_date_lem t 1 report_day).0
next_archive_time_months (suc n) t report_day =
    let first = (month_report_date_lem t 1 report_day).0 in
    let rest = next_archive_time_months n (report_date (t.month + 1) report_day) report_day in
    let on : t.month + 1 + suc n ≡ t.month + suc (suc n) = omega arith in
    rw first (rest ∙ (unfold report_date in ap (λ m. report_date m report_day) on))
