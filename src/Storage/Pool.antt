-- ===== src/Storage/Pool.antt =====
-- storage.go: `New`, `Close` and `Migrate`. `pgxpool.New` and `Pool.Close` are parameters.
use Prim.Native.String.{String}
use vkt7d.Errors.{Result, ok, err, M, ◌>>◌}
use vkt7d.Storage.{Database, create_schema}

module _ (d : Database) (connect : String → M d.State (Unit {0}))
    (close_pool : d.State → d.State) where
  -- The pool is closed if the ping fails.
  abbrev pub pinged_pool : Result (Unit {0}) × d.State → Result (Unit {0}) × d.State
  pinged_pool (ok u, s) = (ok u, s)
  pinged_pool (err e, s) = (err e, close_pool s)

  unfoldable pub new_store : String → M d.State (Unit {0})
  new_store url = connect url >> (λ s. pinged_pool (d.ping s))

-- The script of the migration is one statement.
abbrev pub migrate : (d : Database) → M d.State (Unit {0})
migrate d = d.exec create_schema
