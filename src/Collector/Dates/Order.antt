-- ===== src/Collector/Dates/Order.antt =====
-- The order of archive dates: the cursor moves on, and only what is over is read.
use vkt7d.Common.{
  ℕ, zero, suc, ◌+◌, ◌*◌, ◌≤◌, ◌<◌, ◌≡◌, ◌==◌, not, true, Bool-cases, inl, inr, arith, [], ◌∷◌,
}
use vkt7d.Calendar.{
  Time, days_in, IsTime, stamp, after, add_seconds, next_day, day_before, hour_before,
  truncate_hour, year_of, month_of, day_of, hour_of, month_index,
}
use vkt7d.Calendar.Valid.{
  days_in_bounds, date_in_month, date-IsTime, next_day-after, add_hour-after, day_before-before,
  hour_before-before,
}
use vkt7d.Protocol.{hourly, daily}
use vkt7d.Collector.Dates.{due, next_archive_time, is_report_type, parse_vt_date}
use vkt7d.Collector.Dates.Report.{report_date, report_date-IsTime, month_report_date_lem}

-- Both halves of what a cursor needs: a time that exists, and later than before.
abbrev pub Advances : Time → Time → Type 0
Advances t u = IsTime u × (stamp t < stamp u)

report_date-Advances :
    (t : Time) (report_day : ℕ) → IsTime t → Advances t (report_date (t.month + 1) report_day)
report_date-Advances t report_day h = (
  report_date-IsTime (t.month + 1) report_day,
  unfold report_date in omega (arith, (days_in_bounds t.month).1, h.0, h.1),
)

-- Whatever the type of the archive and the report day, the next archive time exists and is later.
pub next_archive_time-Advances :
    (t : Time) (typ report_day : ℕ) → IsTime t → Advances t (next_archive_time t typ report_day)
unfolding next_archive_time
next_archive_time-Advances t typ report_day h = elim (Bool-cases (typ == hourly)) [
  | inl hours ↦
      rw hours (
        unfold add_seconds in date-IsTime t.month (t.day + 1) (t.second + 3600),
        add_hour-after t h,
      )
  | inr other ↦ elim (Bool-cases (is_report_type typ)) [
    | inl months ↦
        rw (other, months, (month_report_date_lem t 1 report_day).0)
          (report_date-Advances t report_day h)
    | inr days ↦
        rw (other, days)
          (unfold next_day in date-IsTime t.month (t.day + 2) t.second, next_day-after t h)
  ]
]

truncate_hour-IsTime : (t : Time) → IsTime t → IsTime (truncate_hour t)
unfolding truncate_hour
truncate_hour-IsTime t h = (h.0, omega (arith, h.1))

truncate_hour-le : (t : Time) → stamp (truncate_hour t) ≤ stamp t
unfolding truncate_hour
truncate_hour-le t = omega arith

truncated_year : (t : Time) → 1 ≤ t.month → 1 ≤ (truncate_hour t).month
unfolding truncate_hour
truncated_year t h = h

not-after-lt : (t u now : Time) → not (after t u) ≡ true → stamp u < stamp now → stamp t < stamp now
not-after-lt t u now e h = ground (arith, e)

-- What is due is over: whatever the type, its time lies before the present.
pub due-before :
    (t now : Time) (typ : ℕ)
    → IsTime now
    → 1 ≤ now.month
    → due t typ now ≡ true
    → stamp t < stamp now
unfolding due
due-before t now typ h year e = elim (Bool-cases (typ == hourly)) [
  | inl hours ↦
      let u = truncate_hour now in
      let test : not (after t (hour_before u)) ≡ true = rw hours at e in
      let hour = hour_before-before u (truncate_hour-IsTime now h) (truncated_year now year) in
      not-after-lt t (hour_before u) now test (omega (arith, hour, truncate_hour-le now))
  | inr other ↦ elim (Bool-cases (typ == daily)) [
    | inl days ↦
        not-after-lt t (day_before now) now (rw (other, days) at e)
          (omega (arith, day_before-before now h year))
    | inr reports ↦ elim (Bool-cases (is_report_type typ)) [
      | inl monthly_or_total ↦
          let test : after (record now { second = 0 }) t ≡ true =
            rw (other, reports, monthly_or_total) at e in
          ground (arith, test)
      | inr none ↦ absurd (cc (rw (other, reports, none) at e))
    ]
  ]
]

-- The date that the meter reports is the one that `SetDate` writes back: a date of four bytes that
-- exists, of the years 2000 to 2255, has exactly these fields.
pub parse_vt_date-fields :
    (d m y h : ℕ)
    → 1 ≤ m
    → m ≤ 12
    → 1 ≤ d
    → d ≤ days_in (month_index (2000 + y) m)
    → h < 24
    → let t = parse_vt_date (d ∷ m ∷ y ∷ h ∷ []) in
      (day_of t ≡ d) × (month_of t ≡ m) × (year_of t ≡ 2000 + y) × (hour_of t ≡ h) × IsTime t
unfolding parse_vt_date
parse_vt_date-fields zero m y h m1 m12 d1 dm h24 = absurd (omega arith)
parse_vt_date-fields (suc d) m y h m1 m12 d1 dm h24 =
    rw (date_in_month (month_index (2000 + y) m) d (h * 3600) (omega arith) (omega arith))
      (omega arith, omega arith, omega arith, omega arith, (omega arith, omega arith))
