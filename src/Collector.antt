-- ===== src/Collector.antt =====
-- internal/collector/collector.go: `meaningful`, `filter`, and the children: the
-- splitting of read lists, and the reading of one archive record.
pub mod Split
pub mod Archive
pub mod Dates
pub mod Session
pub mod World
pub mod Properties
pub mod Once
pub mod Run
use vkt7d.Common.{ℕ, leb, ◌==◌, Bool, true, false, ◌&&◌, ◌||◌, if◌then◌else◌, List, [], ◌∷◌}
use vkt7d.Model.{Element}
use vkt7d.Protocol.{hourly, daily, monthly, total, current, current_total, properties}

abbrev within : ℕ → ℕ → ℕ → Bool
within lo hi a = leb lo a && leb a hi

-- The cases of the switch that two types share.
abbrev in_totals : ℕ → Bool
in_totals a =
    within 3 8 a
    || within 11 13 a
    || within 17 18 a
    || within 25 30 a
    || within 33 35 a
    || within 39 40 a
    || a == 81

-- Addresses are not negative, so `a >= 0` is left out.
unfoldable pub meaningful : ℕ → ℕ → Bool
meaningful a typ =
    if typ == hourly || typ == daily || typ == monthly
    then leb a 18 || within 22 40 a || within 77 82 a
    else if typ == total
    then in_totals a
    else if typ == current
    then leb a 2
      || within 9 10 a
      || a == 14
      || a == 15
      || a == 16
      || within 19 21 a
      || within 22 24 a
      || within 31 32 a
      || a == 36
      || within 41 43 a
      || a == 77
      || a == 78
      || a == 81
      || a == 82
    else if typ == current_total
    then in_totals a
    else false

unfoldable pub filter : List Element → ℕ → List Element
unfolding meaningful
filter [] typ = []
filter (e ∷ es) typ = let out = filter es typ in if meaningful e.address typ then e ∷ out else out
