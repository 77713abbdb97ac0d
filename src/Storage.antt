-- ===== src/Storage.antt =====
-- internal/storage/storage.go: the store. The database is PostgreSQL behind pgx: its state, its
-- answers to a statement and its transactions are a parameter. A constructor of `Statement` is one
-- SQL text of the source with its arguments; what PostgreSQL does with it is not modelled.
pub mod Encode
pub mod Names
pub mod Commit
pub mod Properties
pub mod Pool
use Prim.Native.String.{String}
use vkt7d.Common.{
  ℕ, ◌+◌, Bool, true, false, ◌||◌, if◌then◌else◌, Option, none, some, List, [], ◌∷◌, Bytes,
}
use vkt7d.Errors.{Error, refused, Result, ok, err, M, ◌>>=◌, ◌>>◌, fail, done}
use vkt7d.Common.Int.{ℤ}
use vkt7d.Model.{Meta, Element, Value, Datum}
use vkt7d.Calendar.{Time, date}
use vkt7d.Protocol.Elements.{Table}
use vkt7d.Storage.Encode.{Encoded, encode, numeric_of}
use vkt7d.Storage.Names.{property_address, is_hourly_table, is_date_table, is_current_table}

pub data Statement : Type 0 where
  create_schema : Statement
  touch_device : ℕ → List ℕ → Bytes → Statement
  delete_active : ℕ → Statement
  upsert_active_element : ℕ → ℕ → ℕ → Statement
  upsert_archive : String → ℕ → Time → Meta → Encoded → Statement
  upsert_property : ℕ → ℕ → String → Datum → Option Datum → Bytes → Statement
  insert_current : String → ℕ → Encoded → Statement
  insert_log : ℕ → String → Option Error → Statement

-- What `QueryRow(...).Scan` gives: a row, pgx.ErrNoRows, or another error.
pub data Row (A : Type 0) : Type 0 where
  row : A → Row A
  no_rows : Row A
  query_failed : Error → Row A

pub record Database : Type 1 where
  pub State : Type 0
  pub ping : M State (Unit {0})
  -- on the pool, and in a transaction
  pub exec : Statement → M State (Unit {0})
  pub tx_exec : Statement → M State (Unit {0})
  pub begin : M State (Unit {0})
  pub commit : M State (Unit {0})
  pub rollback : State → State
  -- INSERT ... RETURNING id, and the three SELECTs
  pub device : String → ℤ → String → ℤ → State → Row ℕ × State
  pub report_day : ℕ → State → Row ℕ × State
  pub latest_archive : String → ℕ → State → Row Time × State
  pub latest_current : String → ℕ → State → Row Time × State

-- Any error of the query, ErrNoRows included.
abbrev pub scanned : {A : Type 0} → Row A → Result A
scanned (row a) = ok a
scanned no_rows = err refused
scanned (query_failed e) = err e

-- `errors.Is(err, pgx.ErrNoRows)` gives the default.
abbrev pub row_or : {A : Type 0} → A → Row A → Result A
row_or default (row a) = ok a
row_or default no_rows = ok default
row_or default (query_failed e) = err e

abbrev pub optional : {A : Type 0} → Row A → Result (Option A)
optional (row a) = ok (some a)
optional no_rows = ok none
optional (query_failed e) = err e

-- 00:00 of the day.
abbrev pub midnight : Time → Time
midnight t = date t.month (t.day + 1) 0

-- The wall clock of the row in the local zone: the fields stay.
abbrev pub in_local : Option Time → Option Time
in_local none = none
in_local (some t) = some (date t.month (t.day + 1) t.second)

abbrev pub local_result : Result (Option Time) → Result (Option Time)
local_result (ok o) = ok (in_local o)
local_result (err e) = err e

-- The statements of the loop of `UpsertActive`.
unfoldable pub active_rows : ℕ → List Element → List Statement
active_rows id [] = []
active_rows id (e ∷ es) = upsert_active_element id e.address e.size ∷ active_rows id es

module _ (d : Database) where
  open d use {State}

  unfoldable pub device : String → ℤ → String → ℤ → M State ℕ
  device name address port baud s =
      let (r, s') = d.device name address port baud s in (scanned r, s')

  unfoldable pub report_day : ℕ → M State ℕ
  report_day id s = let (r, s') = d.report_day id s in (row_or 0 r, s')

  unfoldable pub touch : ℕ → List ℕ → Bytes → M State (Unit {0})
  touch id fields subscriber = d.exec (touch_device id fields subscriber)

  -- The deferred rollback of an open transaction, whatever the outcome.
  unfoldable pub in_transaction : M State (Unit {0}) → M State (Unit {0})
  in_transaction m = do d.begin; λ s. let (r, s') = (m >> d.commit) s in (r, d.rollback s')

  unfoldable pub exec_all : List Statement → M State (Unit {0})
  exec_all [] = done tt
  exec_all (st ∷ sts) = d.tx_exec st >> exec_all sts

  unfoldable pub upsert_active : ℕ → List Element → M State (Unit {0})
  upsert_active id es =
      in_transaction (d.tx_exec (delete_active id) >> exec_all (active_rows id es))

  unfoldable pub save_archive : String → ℕ → Time → Table → Meta → M State (Unit {0})
  save_archive table id t v meta =
      if is_hourly_table table
      then d.exec (upsert_archive table id t meta (encode v))
      else if is_date_table table
      then d.exec (upsert_archive table id (midnight t) meta (encode v))
      else fail refused

  abbrev save_property : ℕ → String → Value → Option ℕ → M State (Unit {0})
  save_property id name x none = fail refused
  save_property id name x (some address) =
      d.tx_exec (upsert_property id address name x.value (numeric_of x.value) x.raw)

  -- The loop of `SaveProperties`, in the order of the map.
  unfoldable pub property_rows : ℕ → Table → M State (Unit {0})
  property_rows id [] = done tt
  property_rows id ((name, x) ∷ v) =
      save_property id name x (property_address name) >> property_rows id v

  unfoldable pub save_properties : ℕ → Table → M State (Unit {0})
  save_properties id v = in_transaction (property_rows id v)

  unfoldable pub save_current : String → ℕ → Table → M State (Unit {0})
  save_current table id v =
      if is_current_table table then d.exec (insert_current table id (encode v)) else fail refused

  unfoldable pub last : String → ℕ → M State (Option Time)
  last table id s =
      let (r, s') = d.latest_archive table id s in
      if is_hourly_table table
      then (local_result (optional r), s')
      else if is_date_table table
      then (optional r, s')
      else (err refused, s)

  unfoldable pub current_last : String → ℕ → M State (Option Time)
  current_last table id s =
      let (r, s') = d.latest_current table id s in
      if is_current_table table then (optional r, s') else (err refused, s)

  -- The error of the log is dropped.
  unfoldable pub log : ℕ → String → Option Error → State → State
  log id status e s = (d.exec (insert_log id status e) s).1
