-- ===== src/Parser/Filling.antt =====
-- What `finish` of the parser leaves of names and rows, in words of its own: the names as they are, and
-- every row filled up to the width of the table.
use data_table_viewer.Prelude.{
  ℕ, zero, suc, ◌+◌, ◌-◌, ltb, List, [], ◌∷◌, ◌++◌, ◌≡◌, refl, ap, ◌∙◌, arith, replicate,
  if◌then◌else◌, false, length, Bytes,
}
use data_table_viewer.Table.{TableData, string}
use data_table_viewer.Parser.{header_columns, column_name, pad, pad_all}
use data_table_viewer.Parser.Render.{filled, fill_all, columns_named, AllNamed}

header_columns-named :
    (i : ℕ) (names : List Bytes) → AllNamed names → header_columns i names ≡ columns_named names
unfolding header_columns column_name
header_columns-named i [] h = refl
header_columns-named i (name ∷ names) (h, hs) = rw h (
    ap (λ more. record { name = name; kind = string } ∷ more)
      (header_columns-named (i + 1) names hs))

filled-nothing : (width : ℕ) → filled width [] ≡ replicate width []
filled-nothing zero = refl
filled-nothing (suc width) = ap (λ row. [] ∷ row) (filled-nothing width)

filled-wide :
    (width : ℕ) (row : List Bytes)
    → (if ltb (length row) width then row ++ replicate (width - length row) [] else row)
      ≡ filled width row
filled-wide zero [] = refl
filled-wide zero (cell ∷ row) = ground arith
filled-wide (suc width) [] = ground (arith, filled-nothing (suc width))
filled-wide (suc width) (cell ∷ row) = ground (arith, filled-wide width row)

pad_all-filled : (width : ℕ) (rows : List (List Bytes)) → pad_all width rows ≡ fill_all width rows
unfolding pad_all pad
pad_all-filled width [] = refl
pad_all-filled width (row ∷ rows) =
    ap (λ r. r ∷ pad_all width rows) (filled-wide width row)
    ∙ ap (λ rs. filled width row ∷ rs) (pad_all-filled width rows)

length-columns_named : (names : List Bytes) → length (columns_named names) ≡ length names
length-columns_named [] = refl
length-columns_named (name ∷ names) = ap suc (length-columns_named names)

pub whole_table :
    {Double : Type 0} (names : List Bytes) (rows : List (List Bytes))
    → AllNamed names
    → let columns = header_columns 0 names in
      ◌≡◌ {A = TableData Double}
        (record {
          columns = columns;
          rows = pad_all (length columns) rows;
          total_rows = length rows;
          truncated = false;
          numeric_cache = [];
        })
        (record {
          columns = columns_named names;
          rows = fill_all (length names) rows;
          total_rows = length rows;
          truncated = false;
          numeric_cache = [];
        })
whole_table names rows named =
    rw
      (
        header_columns-named 0 names named,
        length-columns_named names,
        pad_all-filled (length names) rows,
      )
      refl
