-- ===== src/Sqlite.antt =====
-- The helpers of src/parsers/sqlite_common.cpp that stand apart from the SQLite library, and
-- `quoted` of src/parsers/sqlite_table_source.cpp.
use data_table_viewer.Prelude.{
  ℕ, ◌+◌, Bool, true, false, ◌&&◌, ◌||◌, List, [], ◌∷◌, ◌++◌, Option, none, some, leb, ◌==◌,
  if◌then◌else◌, Bytes,
}
use data_table_viewer.Table.{ColumnType, string, integer, float, boolean}
pub mod Quoting

-- Each quote is doubled; the search goes on behind the pair.
unfoldable pub escape_sql_identifier : Bytes → Bytes
escape_sql_identifier [] = []
escape_sql_identifier (c ∷ name) =
    let rest = escape_sql_identifier name in if c == b'"' then b'"' ∷ b'"' ∷ rest else c ∷ rest

unfoldable pub quote_identifier : Bytes → Bytes
quote_identifier name = b'"' ∷ (escape_sql_identifier name ++ b'"' ∷ [])

-- `tolower` of the C locale.
abbrev pub to_lower : ℕ → ℕ
to_lower c = if leb b'A' c && leb c b'Z' then c + 32 else c

unfoldable pub lower : Bytes → Bytes
lower [] = []
lower (c ∷ text) = to_lower c ∷ lower text

unfoldable pub starts_with : Bytes → Bytes → Bool
starts_with [] text = true
starts_with (c ∷ word) [] = false
starts_with (c ∷ word) (d ∷ text) = c == d && starts_with word text

-- Whether `find` finds the word.
unfoldable pub finds : Bytes → Bytes → Bool
finds word [] = starts_with word []
finds word (c ∷ text) = starts_with word (c ∷ text) || finds word text

unfoldable pub map_sqlite_decl_type : Option Bytes → ColumnType
map_sqlite_decl_type none = string
map_sqlite_decl_type (some decl) =
    let type = lower decl in
    if finds (b'i' ∷ b'n' ∷ b't' ∷ []) type
    then integer
    else if finds (b'f' ∷ b'l' ∷ b'o' ∷ b'a' ∷ b't' ∷ []) type
        || (finds (b'd' ∷ b'o' ∷ b'u' ∷ b'b' ∷ b'l' ∷ b'e' ∷ []) type
            || finds (b'r' ∷ b'e' ∷ b'a' ∷ b'l' ∷ []) type)
    then float
    else if finds (b'b' ∷ b'o' ∷ b'o' ∷ b'l' ∷ []) type
    then boolean
    else string
