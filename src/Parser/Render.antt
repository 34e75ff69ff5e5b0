-- ===== src/Parser/Render.antt =====
-- A writer to read back: RFC 4180 with every cell in quotes, and what a scan is to make of it.
use data_table_viewer.Prelude.{
  ℕ, zero, suc, is_empty, false, ◌≡◌, ◌+◌, true, List, [], ◌∷◌, ◌++◌, ◌==◌, if◌then◌else◌, Bytes,
}
use data_table_viewer.Table.{ColumnMeta, string}
use data_table_viewer.Scanner.{Callbacks}
use data_table_viewer.Scanner.Machine.{field, record_end}

-- A quote inside a cell is doubled.
unfoldable pub escape : Bytes → Bytes
escape [] = []
escape (c ∷ cs) = if c == b'"' then b'"' ∷ b'"' ∷ escape cs else c ∷ escape cs

unfoldable pub quote_cell : Bytes → Bytes
quote_cell cell = b'"' ∷ (escape cell ++ b'"' ∷ [])

-- One row: its cells, and a line feed behind the last.
unfoldable pub render_row : ℕ → Bytes → List Bytes → Bytes
render_row d cell [] = quote_cell cell ++ b'\n' ∷ []
render_row d cell (next ∷ cells) = quote_cell cell ++ (d ∷ render_row d next cells)

-- The rows, each given as its first cell and the others.
unfoldable pub render : ℕ → List (Bytes × List Bytes) → Bytes
render d [] = []
render d ((cell, cells) ∷ rows) = render_row d cell cells ++ render d rows

-- A row filled up with empty cells to the width of the table.
abbrev pub filled : ℕ → List Bytes → List Bytes
filled zero row = row
filled (suc width) [] = [] ∷ filled width []
filled (suc width) (cell ∷ row) = cell ∷ filled width row

abbrev pub fill_all : ℕ → List (List Bytes) → List (List Bytes)
fill_all width [] = []
fill_all width (row ∷ rows) = filled width row ∷ fill_all width rows

-- The columns of a table with these names, whose types nobody has looked at.
abbrev pub columns_named : List Bytes → List ColumnMeta
columns_named [] = []
columns_named (name ∷ names) = record { name = name; kind = string } ∷ columns_named names

-- No name is empty.
abbrev pub AllNamed : List Bytes → Type 0
AllNamed [] = Unit
AllNamed (name ∷ names) = (is_empty name ≡ false) × AllNamed names

module _ {S : Type 0} (cb : Callbacks S) where
  -- Each cell of a row as one complete field.
  unfoldable pub cells_done : ℕ → Bytes → List Bytes → S → S
  cells_done col cell [] s = field cb col cell true s
  cells_done col cell (next ∷ cells) s = cells_done (col + 1) next cells (field cb col cell true s)

  -- Each row, and its end, at whatever place of the file.
  unfoldable pub rows_done : List (Bytes × List Bytes) → S → S
  rows_done [] s = s
  rows_done ((cell, cells) ∷ rows) s =
      rows_done rows (record_end cb 0 0 0 (cells_done 0 cell cells s))
