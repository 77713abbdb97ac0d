-- ===== src/Collector/Dates/Start.antt =====
-- Where an archive begins: always at a time that exists.
use vkt7d.Common.{ℕ, ◌+◌, ◌==◌, ltb, Bool, true, false, if◌then◌else◌, Bytes, length, take, drop}
use vkt7d.Calendar.{Time, IsTime, date, months_before}
use vkt7d.Calendar.Valid.{date-IsTime}
use vkt7d.Protocol.{hourly, daily}
use vkt7d.Collector.Dates.{
  at_23, is_report_type, parse_vt_date, month_report_date, older_start, parse_start,
}
use vkt7d.Collector.Dates.Report.{month_report_date_lem}

pub IsTime-if : (b : Bool) (t u : Time) → IsTime t → IsTime u → IsTime (if b then t else u)
IsTime-if true t u h k = h
IsTime-if false t u h k = k

pub parse_vt_date-IsTime : (d : Bytes) → IsTime (parse_vt_date d)
unfolding parse_vt_date
parse_vt_date-IsTime d = date-IsTime _ _ _

pub months_before-IsTime : (t : Time) (n : ℕ) → IsTime (months_before t n)
unfolding months_before
months_before-IsTime t n = date-IsTime _ _ _

pub month_report_date-IsTime : (t : Time) (k r : ℕ) → IsTime (month_report_date t k r)
month_report_date-IsTime t k r = let (same, valid) = month_report_date_lem t k r in rw same valid

older_start-IsTime : (d : Bytes) (typ r : ℕ) (now : Time) → IsTime (older_start d typ r now)
unfolding older_start
older_start-IsTime d typ r now =
    let start = parse_vt_date (take 4 d) in
    let year_ago = months_before now 12 in
    let long_ago = months_before-IsTime now 12 in
    let report = month_report_date start 0 r in
    let at_days_end = date start.month (start.day + 1) at_23 in
    let by_report =
      IsTime-if (is_report_type typ) report year_ago (month_report_date-IsTime start 0 r)
        long_ago in
    let by_day =
      IsTime-if (typ == daily) at_days_end (if is_report_type typ then report else year_ago)
        (date-IsTime start.month (start.day + 1) at_23) by_report in
    let by_hour =
      IsTime-if (typ == hourly) start
        (if typ == daily then at_days_end else if is_report_type typ then report else year_ago)
        (parse_vt_date-IsTime (take 4 d)) by_day in
    IsTime-if (ltb (length d) 4) year_ago
      (if typ == hourly
        then start
        else if typ == daily
        then at_days_end
        else if is_report_type typ
        then report
        else year_ago)
      long_ago by_hour

pub parse_start-IsTime : (d : Bytes) (typ r : ℕ) (now : Time) → IsTime (parse_start d typ r now)
unfolding parse_start
parse_start-IsTime d typ r now =
    let older = older_start d typ r now in
    let old = older_start-IsTime d typ r now in
    let hours = parse_vt_date (take 4 d) in
    let days = parse_vt_date (take 4 (drop 8 d)) in
    let report = month_report_date days 0 r in
    let by_report =
      IsTime-if (is_report_type typ) report older (month_report_date-IsTime days 0 r) old in
    let by_day =
      IsTime-if (typ == daily) days (if is_report_type typ then report else older)
        (parse_vt_date-IsTime (take 4 (drop 8 d))) by_report in
    let by_hour =
      IsTime-if (typ == hourly) hours
        (if typ == daily then days else if is_report_type typ then report else older)
        (parse_vt_date-IsTime (take 4 d)) by_day in
    IsTime-if (ltb (length d) 12) older
      (if typ == hourly
        then hours
        else if typ == daily
        then days
        else if is_report_type typ
        then report
        else older)
      old by_hour
