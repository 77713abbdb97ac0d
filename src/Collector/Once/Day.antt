-- ===== src/Collector/Once/Day.antt =====
-- The report day of a session.
use vkt7d.Common.{ℕ, ◌≤◌, ◌≡◌, refl, Bool-cases, inl, inr, arith}
use vkt7d.Storage.{Database, report_day}
use vkt7d.Collector.Once.{not_a_day, stored_or, or_thirty, resolved_day}

-- A day of some month.
abbrev pub IsDay : ℕ → Type 0
IsDay day = (1 ≤ day) × (day ≤ 31)

or_thirty-IsDay : (day : ℕ) → IsDay (or_thirty day)
or_thirty-IsDay day = ground arith

-- The day that a session works with is one of 1 to 31, whatever the meter and the store say; it is
-- the meter's if that is one, and then the store is not asked.
pub resolved_day-IsDay :
    (d : Database) (id day : ℕ) (s : d.State)
    → IsDay (resolved_day d id day s).0 × (IsDay day → resolved_day d id day s ≡ (day, s))
unfolding resolved_day
resolved_day-IsDay d id day s =
    let r = (report_day d id s).0 in
    elim (Bool-cases (not_a_day day)) [
      | inl none_given ↦
          rw none_given
            (or_thirty-IsDay (stored_or day r), λ h. absurd (ground (arith, none_given, h)))
      | inr given ↦ rw given ((ground (arith, given), ground (arith, given)), λ h. refl)
    ]
