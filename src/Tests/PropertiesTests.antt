-- ===== src/Tests/PropertiesTests.antt =====
-- The properties record.
use vkt7d.Common.{◌==◌, ◌≡◌, refl, ◌++◌, if◌then◌else◌, List, [], ◌∷◌, Bytes, length, some, arith}
use vkt7d.Errors.{malformed, Result, ok, err}
use vkt7d.Collector.Properties.{property_elements}
use vkt7d.Protocol.Elements.{Table}
use vkt7d.Storage.{Statement, save_properties}
use vkt7d.Storage.Commit.{WholeOrNothing}
use vkt7d.Storage.Properties.{property_plan}
use vkt7d.Collector.Properties.Names.{parsed_properties-WholeOrNothing}
use vkt7d.Tests.Store.{Stored, lossy, lossy_Transactions}
use vkt7d.Protocol.Properties.{parse_properties}
use vkt7d.Protocol.Properties.Fields.{
  Field, unit_field, digits_field, wires, AllFit, values_of, parse_properties-fields,
}

-- A decoder for texts of ASCII.
abbrev ascii : Bytes → Result Bytes
ascii b = ok b

abbrev degrees : Field
degrees = unit_field (b'o' ∷ b'C' ∷ []) 0xC0 0

abbrev two_digits : Field
two_digits = digits_field 2 0xC0 0

abbrev one_more : Bytes
one_more = 0 ∷ []

abbrev eight : Field → List Field
eight f = f ∷ f ∷ f ∷ f ∷ f ∷ f ∷ f ∷ f ∷ []

abbrev fields : List Field
fields = eight degrees ++ eight two_digits

fields_fit : AllFit ascii 0 property_elements fields
fields_fit = (
  (omega arith, refl, omega arith, (_, refl)),
  (
    (omega arith, refl, omega arith, (_, refl)),
    (
      (omega arith, refl, omega arith, (_, refl)),
      (
        (omega arith, refl, omega arith, (_, refl)),
        (
          (omega arith, refl, omega arith, (_, refl)),
          (
            (omega arith, refl, omega arith, (_, refl)),
            (
              (omega arith, refl, omega arith, (_, refl)),
              (
                (omega arith, refl, omega arith, (_, refl)),
                (
                  (omega arith, refl),
                  (
                    (omega arith, refl),
                    (
                      (omega arith, refl),
                      (
                        (omega arith, refl),
                        (
                          (omega arith, refl),
                          ((omega arith, refl), ((omega arith, refl), ((omega arith, refl), tt))),
                        ),
                      ),
                    ),
                  ),
                ),
              ),
            ),
          ),
        ),
      ),
    ),
  ),
)

parse_properties-fields_example :
    parse_properties ascii property_elements (wires fields ++ one_more) ≡ (
      if length one_more == 0
      then ok (values_of ascii 0 property_elements fields fields_fit [])
      else err (malformed (wires fields ++ one_more)))
parse_properties-fields_example =
    parse_properties-fields ascii property_elements fields one_more fields_fit refl

abbrev empty_store : Stored
empty_store = record { rows = []; pending = [] }

abbrev values : Table
values = values_of ascii 0 property_elements fields fields_fit []

parsed_properties-WholeOrNothing_example :
    (sts : List Statement) × (property_plan 1 values ≡ some sts)
    × WholeOrNothing lossy lossy_Transactions sts empty_store
        (save_properties lossy 1 values empty_store)
parsed_properties-WholeOrNothing_example =
    parsed_properties-WholeOrNothing ascii lossy lossy_Transactions 1 (wires fields ++ []) values
      empty_store (parse_properties-fields ascii property_elements fields [] fields_fit refl)
