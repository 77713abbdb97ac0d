-- ===== src/Model/Names/Distinct.antt =====
-- No two of the meter's elements have the same name.
use text.Mathlib.Text.{◌==◌ as str_eq}
use text.Mathlib.TextEquality.{eq_iff}
use vkt7d.Common.{
  ℕ, ◌<◌, ◌≡◌, ◌≢◌, refl, Bool, true, not, ◌||◌, ◌==◌, every_below, every_below→, arith,
}
use vkt7d.Model.Names.{element_name}

abbrev apart : ℕ → ℕ → Bool
apart a b = not (str_eq (element_name a) (element_name b)) || a == b

all_apart : every_below 83 (λ a. every_below 83 (λ b. apart a b)) ≡ true
unfolding every_below element_name
all_apart = refl

-- The supported addresses, those below 83, have different names: values stored by name do not
-- overwrite one another.
pub element_name-ne : (a b : ℕ) → a < 83 → b < 83 → a ≢ b → element_name a ≢ element_name b
element_name-ne a b ha hb ne e =
    let row = every_below→ 83 (λ a. every_below 83 (λ b. apart a b)) a all_apart ha in
    let cell = every_below→ 83 (λ b. apart a b) b row hb in
    ground (arith, cell, (eq_iff (element_name a) (element_name b)).1 e)
