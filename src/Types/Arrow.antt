-- ===== src/Types/Arrow.antt =====
-- The schemas and columns that the binding builds by hand. `F` is `f64`.
use imbh_c.Common.{Text, Bool, Option, List}
use imbh_c.Common.Int.{ℤ}

pub data DataType : Type 0 where
  utf8 int64 float64 boolean : DataType

-- `Field::new(name, data_type, nullable)`
pub record Field : Type 0 where
  pub name : Text
  pub data_type : DataType
  pub nullable : Bool

-- A column array; a string array may hold nulls, the others are built from plain vectors.
pub data Column (F : Type 0) : Type 0 where
  string_array : List (Option Text) → Column F
  int64_array : List ℤ → Column F
  float64_array : List F → Column F
  boolean_array : List Bool → Column F
