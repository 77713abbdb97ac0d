-- ===== src/Storage/Names.antt =====
-- `propertyAddress`, and the table names.
use Prim.Native.String.{String}
use text.Mathlib.Text.{◌==◌}
use vkt7d.Common.{ℕ, Bool, ◌||◌, if◌then◌else◌, Option, none, some, List, [], ◌∷◌}

-- The cases of the switch.
abbrev pub property_cases : List (String × ℕ)
property_cases =
    ("t_unit", 44)
    ∷ ("G_unit", 45)
    ∷ ("V_unit", 46)
    ∷ ("M_unit", 47)
    ∷ ("P_unit", 48)
    ∷ ("Qo_unit", 53)
    ∷ ("BNP_unit", 55)
    ∷ ("VOC_unit", 56)
    ∷ ("t_dec", 57)
    ∷ ("V1_dec", 59)
    ∷ ("M1_dec", 60)
    ∷ ("P1_dec", 61)
    ∷ ("Qo1_dec", 66)
    ∷ ("V2_dec", 69)
    ∷ ("M2_dec", 70)
    ∷ ("Qo2_dec", 76)
    ∷ []

unfoldable pub case_of : String → List (String × ℕ) → Option ℕ
case_of name [] = none
case_of name ((n, a) ∷ cases) = if n == name then some a else case_of name cases

-- `none` is -1.
unfoldable pub property_address : String → Option ℕ
unfolding case_of
property_address name = case_of name property_cases

abbrev pub is_hourly_table : String → Bool
is_hourly_table table = table == "hourly_archive"

abbrev pub is_date_table : String → Bool
is_date_table table =
    (table == "daily_archive") || (table == "monthly_archive") || (table == "total_archive")

abbrev pub is_current_table : String → Bool
is_current_table table = (table == "current_values") || (table == "current_totals")
