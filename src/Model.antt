-- ===== src/Model.antt =====
-- internal/model/model.go: the elements of the meter and their decoded values. A Go map from names
-- to values is an association list with one entry for a name.
pub mod Table
pub mod Names
use vkt7d.Common.{ℕ, Option, List, Bytes}
use vkt7d.Common.Int.{ℤ}
use Prim.Native.String.{String}

-- `Address` and `Size` come from unsigned fields of a response and are never negative.
pub record Element : Type 0 where
  pub address : ℕ
  pub name : String
  pub size : ℕ

-- What the field `Value any` holds. A Go string made of raw bytes is those bytes, and a float32 is
-- its bit pattern.
pub data Datum : Type 0 where
  text : Bytes → Datum
  counters : List ℕ → Datum
  float32 : ℕ → Datum
  unsigned : ℕ → Datum
  integer : ℤ → Datum

pub record Value : Type 0 where
  pub value : Datum
  pub quality : ℕ
  pub ns : ℕ
  pub raw : Bytes

-- The fields of `Record` that tell the measurement scheme: what is not known is nil.
pub record Meta : Type 0 where
  pub scheme_tv1 : Option ℕ
  pub scheme_tv2 : Option ℕ
  pub active_db : Option ℕ
