-- ===== src/Collector/Dates.antt =====
-- collector.go: the dates of archive records: `monthReportDate`, `due`, `nextArchiveTime`,
-- `parseStart` and `parseVTDate`.
pub mod Report
pub mod Order
pub mod Start
use vkt7d.Common.{
  ℕ, ◌+◌, ◌*◌, ◌==◌, ltb, leb, not, Bool, true, false, ◌||◌, if◌then◌else◌, Bytes, length, get_or,
  take, drop,
}
use vkt7d.Calendar.{
  Time, month_index, day_of, date, add_seconds, next_day, day_before, hour_before, months_before,
  truncate_hour, stamp, after,
}
use vkt7d.Protocol.{hourly, daily, monthly, total}

-- 23:00
abbrev pub at_23 : ℕ
at_23 = 23 * 3600

unfoldable pub month_report_date : Time → ℕ → ℕ → Time
month_report_date t month_offset report_day =
    let first = date (t.month + month_offset) 1 at_23 in
    let last_day = day_of (date (first.month + 1) 0 at_23) in
    let day = if ltb report_day 1 then 1 else report_day in
    let day' = if ltb last_day day then last_day else day in date first.month day' at_23

abbrev pub is_report_type : ℕ → Bool
is_report_type typ = (typ == monthly) || (typ == total)

unfoldable pub due : Time → ℕ → Time → Bool
due t typ now =
    if typ == hourly
    then not (after t (hour_before (truncate_hour now)))
    else if typ == daily
    then not (after t (day_before now))
    else if is_report_type typ
    then after (record now { second = 0 }) t
    else false

unfoldable pub next_archive_time : Time → ℕ → ℕ → Time
next_archive_time t typ report_day =
    if typ == hourly
    then add_seconds t 3600
    else if is_report_type typ
    then month_report_date t 1 report_day
    else next_day t

-- `parseVTDate` of four bytes: the callers pass no fewer.
unfoldable pub parse_vt_date : Bytes → Time
parse_vt_date d =
    date (month_index (2000 + get_or d 2 0) (get_or d 1 0)) (get_or d 0 0) (get_or d 3 0 * 3600)

-- The older form of the response, with the hourly and the current date only.
unfoldable pub older_start : Bytes → ℕ → ℕ → Time → Time
older_start d typ report_day now =
    let start = parse_vt_date (take 4 d) in
    if ltb (length d) 4
    then months_before now 12
    else if typ == hourly
    then start
    else if typ == daily
    then date start.month (start.day + 1) at_23
    else if is_report_type typ
    then month_report_date start 0 report_day
    else months_before now 12

unfoldable pub parse_start : Bytes → ℕ → ℕ → Time → Time
unfolding older_start
parse_start d typ report_day now =
    let hourly_start = parse_vt_date (take 4 d) in
    let daily_start = parse_vt_date (take 4 (drop 8 d)) in
    if ltb (length d) 12
    then older_start d typ report_day now
    else if typ == hourly
    then hourly_start
    else if typ == daily
    then daily_start
    else if is_report_type typ
    then month_report_date daily_start 0 report_day
    else older_start d typ report_day now
