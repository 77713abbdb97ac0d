-- ===== src/Tests/CalendarTests.antt =====
-- Dates of archive records.
use vkt7d.Common.{◌+◌, ◌-◌, ◌≡◌, refl, [], ◌∷◌, arith}
use vkt7d.Calendar.{
  Time, IsTime, days_in, month_index, year_of, month_of, day_of, hour_of, repeated, hours_before,
  hour_before, day_before,
}
use vkt7d.Protocol.{monthly}
use vkt7d.Protocol.Client.{date_payload, is_daily_like}
use vkt7d.Collector.Dates.{at_23, next_archive_time, parse_vt_date}
use vkt7d.Collector.Dates.Report.{report_date, next_archive_time_months}
use vkt7d.Collector.Dates.Order.{parse_vt_date-fields}
use vkt7d.Collector.Session.{Job, overlapped, moment}
use vkt7d.Collector.Session.Resume.{key, next_archive_time-key, overlapped-same_month}

-- 31 March 2024, 23:00.
abbrev end_of_march : Time
end_of_march = record { month = month_index 2024 3; day = 30; second = at_23 }

end_of_march-IsTime : IsTime end_of_march
unfolding days_in
end_of_march-IsTime = (omega arith, omega arith)

-- Two months on from 31 March it is 31 May, with 30 April in between.
next_archive_time_months_example :
    repeated 2 (λ u. next_archive_time u monthly 31) end_of_march
    ≡ report_date (end_of_march.month + 2) 31
next_archive_time_months_example = next_archive_time_months 1 end_of_march 31

leap_day_parsed :
    let t = parse_vt_date (29 ∷ 2 ∷ 24 ∷ 5 ∷ []) in
    (day_of t ≡ 29) × (month_of t ≡ 2) × (year_of t ≡ 2000 + 24) × (hour_of t ≡ 5) × IsTime t
unfolding days_in
leap_day_parsed =
    parse_vt_date-fields 29 2 24 5 (omega arith) (omega arith) (omega arith) (omega arith)
      (omega arith)

next_archive_time-key_example :
    date_payload
      (moment (next_archive_time (key monthly end_of_march) monthly 31))
      (is_daily_like monthly)
    ≡ date_payload (moment (next_archive_time end_of_march monthly 31)) (is_daily_like monthly)
next_archive_time-key_example =
    next_archive_time-key end_of_march monthly 31 end_of_march-IsTime refl

-- A day and an hour back; and 5124096 hours, which wrap to less than half an hour.
hours_back :
    (hours_before end_of_march 25 ≡ record end_of_march { day = 29; second = at_23 - 3600 })
    × (hours_before end_of_march 5124096 ≡ record end_of_march { second = at_23 - 1527 })
unfolding hours_before hour_before day_before days_in
hours_back = (refl, refl)

-- A month back from 31 March 2024 is 2 March.
abbrev monthly_job : Job
monthly_job = record {
  id = 1;
  typ = monthly;
  table = "monthly_archive";
  report_day = 31;
  overlap = 1;
}

overlapped-same_month_example :
    ((overlapped monthly_job end_of_march).month ≡ end_of_march.month)
    × ((overlapped monthly_job end_of_march).day
        ≡ end_of_march.day - days_in (end_of_march.month - 1))
unfolding days_in
overlapped-same_month_example =
    overlapped-same_month monthly_job end_of_march refl refl refl end_of_march-IsTime (omega arith)
      (omega arith)
