-- ===== src/Tests/Names.antt =====
-- Names and declared types of SQLite columns, and the text of a cell.
use data_table_viewer.Prelude.{false, [], ◌∷◌, ◌++◌, some, ◌≡◌, refl, Bytes}
use data_table_viewer.Table.{integer}
use data_table_viewer.Display.{
  single_line_display_text, has_breaks, fold_breaks, IsSingleLine, Folded,
  single_line_display_text_lem,
}
use data_table_viewer.Sqlite.{quote_identifier, map_sqlite_decl_type, finds, starts_with, lower}
use data_table_viewer.Sqlite.Quoting.{read_identifier, read_identifier-quote_identifier}

-- `a"b`, and a semicolon behind it.
abbrev tricky : Bytes
tricky = b'a' ∷ b'"' ∷ b'b' ∷ []

read_identifier-quote_identifier_example :
    read_identifier (quote_identifier tricky ++ b';' ∷ []) ≡ some (tricky, b';' ∷ [])
read_identifier-quote_identifier_example = read_identifier-quote_identifier tricky (b';' ∷ []) refl

is_integer_type :
    map_sqlite_decl_type (some (b'B' ∷ b'I' ∷ b'g' ∷ b'I' ∷ b'n' ∷ b'T' ∷ [])) ≡ integer
unfolding map_sqlite_decl_type finds starts_with lower
is_integer_type = refl

-- A text of two lines.
abbrev two_lines : Bytes
two_lines = b'a' ∷ b'\r' ∷ b'\n' ∷ b'b' ∷ []

single_line_display_text_lem_example :
    IsSingleLine (single_line_display_text two_lines)
    × Folded false two_lines (single_line_display_text two_lines)
    × (single_line_display_text (single_line_display_text two_lines)
        ≡ single_line_display_text two_lines)
single_line_display_text_lem_example = single_line_display_text_lem two_lines

one_line : single_line_display_text two_lines ≡ b'a' ∷ b' ' ∷ b'b' ∷ []
unfolding single_line_display_text has_breaks fold_breaks
one_line = refl
