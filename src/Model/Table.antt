-- ===== src/Model/Table.antt =====
-- Maps from names to values.
use Prim.Native.String.{String}
use text.Mathlib.Text.{◌==◌}
use text.Mathlib.TextEquality.{eq_iff}
use vkt7d.Common.{
  ◌≡◌, refl, arith, List, [], ◌∷◌, Option, none, some, if◌then◌else◌, Bool-cases, inl, inr,
}

module _ {ℓ} {V : Type ℓ} where
  pub lookup : String → List (String × V) → Option V
  lookup k [] = none
  lookup k ((j, v) ∷ m) = if j == k then some v else lookup k m

  -- `m[k] = v`
  unfoldable pub put : String → V → List (String × V) → List (String × V)
  put k v [] = (k, v) ∷ []
  put k v ((j, w) ∷ m) = if j == k then (k, v) ∷ m else (j, w) ∷ put k v m

  pub lookup-put :
      (k j : String) (v : V) (m : List (String × V))
      → lookup j (put k v m) ≡ (if k == j then some v else lookup j m)
  unfolding lookup put
  lookup-put k j v [] = refl
  lookup-put k j v ((i, w) ∷ m) =
      ground (arith, eq_iff k j, eq_iff i k, eq_iff i j, lookup-put k j v m)

  -- Every name of the map has the property.
  abbrev pub AllNames : (String → Type 0) → List (String × V) → Type 0
  AllNames P [] = Unit
  AllNames P ((k, v) ∷ m) = P k × AllNames P m

  pub put-AllNames :
      (P : String → Type 0) (k : String) (v : V) (m : List (String × V))
      → P k
      → AllNames P m
      → AllNames P (put k v m)
  unfolding put
  put-AllNames P k v [] here h = (here, tt)
  put-AllNames P k v ((j, w) ∷ m) here h = elim (Bool-cases (j == k)) [
    | inl same ↦ rw same (here, h.1)
    | inr other ↦ rw other (h.0, put-AllNames P k v m here h.1)
  ]
