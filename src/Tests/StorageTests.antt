-- ===== src/Tests/StorageTests.antt =====
-- Transactions of the store, on a database in memory.
use vkt7d.Common.{[], ◌∷◌}
use vkt7d.Common.Int.{pos}
use vkt7d.Model.{integer}
use vkt7d.Protocol.Elements.{Table}
use vkt7d.Storage.{delete_active, active_rows, upsert_active, save_properties}
use vkt7d.Storage.Commit.{WholeOrNothing, upsert_active-WholeOrNothing}
use vkt7d.Storage.Properties.{property_plan, Saved, save_properties-Saved}
use vkt7d.Tests.Store.{Stored, memory, memory_Transactions, lossy, lossy_Transactions}
use vkt7d.Tests.ClientTests.{one_element}

abbrev before : Stored
before = record { rows = delete_active 2 ∷ []; pending = [] }

-- The connection is lost behind the commit.
upsert_active-WholeOrNothing_example :
    WholeOrNothing lossy lossy_Transactions
      (delete_active 1 ∷ active_rows 1 one_element)
      before
      (upsert_active lossy 1 one_element before)
upsert_active-WholeOrNothing_example =
    upsert_active-WholeOrNothing lossy lossy_Transactions 1 one_element before

-- The second name is no property.
abbrev two_properties : Table
two_properties =
    ("t_dec", record { value = integer (pos 2); quality = 0xC0; ns = 0; raw = 2 ∷ [] })
    ∷ ("P_dec", record { value = integer (pos 1); quality = 0xC0; ns = 0; raw = 1 ∷ [] })
    ∷ []

rows_of_properties :
    Saved memory memory_Transactions
      (property_plan 1 two_properties)
      before
      (save_properties memory 1 two_properties before)
rows_of_properties = save_properties-Saved memory memory_Transactions 1 two_properties before
