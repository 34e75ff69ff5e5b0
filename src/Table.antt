-- ===== src/Table.antt =====
-- The table that every part of the program passes on: src/core/table_data.h, and the interface of a
-- parser in src/core/itable_parser.h. Text is a list of bytes. The program's `double` is a type
-- parameter.
use data_table_viewer.Prelude.{ℕ, Bool, List, Bytes}

-- `ColumnMeta::Type`
pub data ColumnType : Type 0 where
  string integer float boolean : ColumnType

pub record ColumnMeta : Type 0 where
  pub name : Bytes
  pub kind : ColumnType

-- `numeric_cache` has an entry for each numeric column, under its index.
pub record TableData (Double : Type 0) : Type 0 where
  pub columns : List ColumnMeta
  pub rows : List (List Bytes)
  pub total_rows : ℕ
  pub truncated : Bool
  pub numeric_cache : List (ℕ × List Double)
