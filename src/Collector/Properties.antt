-- ===== src/Collector/Properties.antt =====
-- collector.go: `collectProperties`, which reads the units and the decimals of the meter and stores
-- them.
pub mod Names
use vkt7d.Common.{ℕ, List, [], ◌∷◌, Bytes}
use vkt7d.Errors.{Result, M, ◌>>=◌, ◌>>◌, lift}
use vkt7d.Model.{Element}
use vkt7d.Protocol.{properties}
use vkt7d.Protocol.Frame.{byte}
use vkt7d.Protocol.Transaction.{SerialPort}
use vkt7d.Protocol.Elements.{Table}
use vkt7d.Protocol.Properties.{parse_properties}
use vkt7d.Protocol.Client.{Client, set_type, set_read_list, read_data}
use vkt7d.Storage.{Database, save_properties}
use vkt7d.Collector.World.{World, on_port, on_db}

abbrev pub property_elements : List Element
property_elements =
    record { address = 44; name = "t_unit"; size = 7 }
    ∷ record { address = 45; name = "G_unit"; size = 7 }
    ∷ record { address = 46; name = "V_unit"; size = 7 }
    ∷ record { address = 47; name = "M_unit"; size = 7 }
    ∷ record { address = 48; name = "P_unit"; size = 7 }
    ∷ record { address = 53; name = "Qo_unit"; size = 7 }
    ∷ record { address = 55; name = "BNP_unit"; size = 7 }
    ∷ record { address = 56; name = "VOC_unit"; size = 7 }
    ∷ record { address = 57; name = "t_dec"; size = 1 }
    ∷ record { address = 59; name = "V1_dec"; size = 1 }
    ∷ record { address = 60; name = "M1_dec"; size = 1 }
    ∷ record { address = 61; name = "P1_dec"; size = 1 }
    ∷ record { address = 66; name = "Qo1_dec"; size = 1 }
    ∷ record { address = 69; name = "V2_dec"; size = 1 }
    ∷ record { address = 70; name = "M2_dec"; size = 1 }
    ∷ record { address = 76; name = "Qo2_dec"; size = 1 }
    ∷ []

module _ (p : SerialPort) (d : Database) (decode : Bytes → Result Bytes) (c : Client)
    {H : Type 0} where
  unfoldable pub collect_properties : ℕ → M (World p.State d.State H) (Unit {0})
  collect_properties id = do
    on_port (set_type p c (byte properties))
    on_port (set_read_list p c property_elements)
    record_data ← on_port (read_data p c)
    v ← lift (parse_properties decode property_elements record_data)
    on_db (save_properties d id v)
