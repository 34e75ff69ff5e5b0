-- ===== src/Parser.antt =====
-- `CsvParser` of src/parsers/csv_parser.cpp, which reads a whole file in one `feed`.
pub mod Callback
pub mod Render
pub mod Filling
pub mod Scan
pub mod RoundTrip
pub mod Bounds
use data_table_viewer.Prelude.{
  ℕ, zero, suc, ◌+◌, ◌-◌, ◌/◌, ◌%◌, Bool, true, false, not, ◌&&◌, List, [], ◌∷◌, ◌++◌, Option, none,
  some, ltb, leb, ◌==◌, if◌then◌else◌, length, is_empty, replicate, Bytes,
}
use data_table_viewer.Scanner.{Callbacks, CancelCheck, max_columns}
use data_table_viewer.Scanner.Feed.{feed}
use data_table_viewer.Scanner.Delimiter.{detect_delimiter}
use data_table_viewer.Scanner.Whole.{started}
use data_table_viewer.Table.{ColumnMeta, string, TableData}

abbrev pub max_parser_rows : ℕ
max_parser_rows = 100000

pub record CsvParser : Type 0 where
  pub delimiter : ℕ
  pub auto_detect : Bool

-- The constructor.
unfoldable pub new : ℕ → CsvParser
new delimiter = record { delimiter = delimiter; auto_detect = delimiter == 0 }

pub data FormatName : Type 0 where
  csv_tsv tsv csv : FormatName

unfoldable pub format_name : CsvParser → FormatName
format_name p = if p.auto_detect then csv_tsv else if p.delimiter == b'\t' then tsv else csv

-- What the callbacks of `parse` write to: the table so far, `currentRow` and `currentCell`.
pub record Build : Type 0 where
  pub columns : List ColumnMeta
  pub rows : List (List Bytes)
  pub truncated : Bool
  pub current_row : List Bytes
  pub current_cell : Bytes

-- `std::to_string`; one round for each digit, of which a column index has three at most.
unfoldable pub digits : ℕ → ℕ → Bytes → Bytes
digits zero n out = out
digits (suc fuel) n out =
    let rest = digits fuel (n / 10) ((b'0' + n % 10) ∷ out) in
    if ltb n 10 then (b'0' + n) ∷ out else rest

unfoldable pub column_name : ℕ → Bytes → Bytes
column_name i name = if is_empty name then b'C' ∷ b'o' ∷ b'l' ∷ digits 20 i [] else name

-- The columns that a header row names, from column `i` on.
unfoldable pub header_columns : ℕ → List Bytes → List ColumnMeta
header_columns i [] = []
header_columns i (name ∷ names) =
    record { name = column_name i name; kind = string } ∷ header_columns (i + 1) names

unfoldable pub on_field_fragment : ℕ → Bytes → Bool → Build → Build
on_field_fragment col fragment is_end b =
    if ltb (length b.current_row) max_columns
    then (let cell = b.current_cell ++ fragment in
        if is_end
        then record b { current_row = b.current_row ++ cell ∷ []; current_cell = [] }
        else record b { current_cell = cell })
    else b

-- `onRecord` for a row that is no header.
unfoldable pub add_row : Build → Build
add_row b =
    let rows =
      if ltb (length b.rows) max_parser_rows then b.rows ++ b.current_row ∷ [] else b.rows in
    record b {
      rows = rows;
      truncated = if leb max_parser_rows (length rows) then true else b.truncated;
    }

unfoldable pub on_record : ℕ → ℕ → ℕ → Build → Build
on_record ordinal start end_offset b =
    let b' =
      if is_empty b.columns
      then record b { columns = header_columns 0 b.current_row }
      else add_row b in
    record b' { current_row = []; current_cell = [] }

abbrev pub callbacks : Callbacks Build
callbacks = record { on_record = some on_record; on_field_fragment = some on_field_fragment }

-- The `cancel` that `parse` hands to `feed`.
abbrev pub full : CancelCheck Build
full = some (λ b. leb max_parser_rows (length b.rows))

abbrev pub nothing_built : Build
nothing_built = record {
  columns = [];
  rows = [];
  truncated = false;
  current_row = [];
  current_cell = [];
}

-- `row.resize(colCount)` for a row that is shorter.
unfoldable pub pad : ℕ → List Bytes → List Bytes
pad count row = if ltb (length row) count then row ++ replicate (count - length row) [] else row

unfoldable pub pad_all : ℕ → List (List Bytes) → List (List Bytes)
pad_all count [] = []
pad_all count (row ∷ rows) = pad count row ∷ pad_all count rows

pub data ParseError : Type 0 where
  empty_file parse_cancelled_or_failed no_data_found : ParseError

-- `TableParseResult`
pub data ParseResult (Double : Type 0) : Type 0 where
  parsed : TableData Double → ParseResult Double
  parse_failed : ParseError → ParseResult Double

-- What `parse` makes of the outcome of `feed`.
unfoldable pub finish_parse : {Double : Type 0} → Bool → Build → ParseResult Double
finish_parse fed b =
    if not fed && not b.truncated
    then parse_failed parse_cancelled_or_failed
    else if is_empty b.columns && is_empty b.rows
    then parse_failed no_data_found
    else parsed (record {
      columns = b.columns;
      rows = pad_all (length b.columns) b.rows;
      total_rows = length b.rows;
      truncated = b.truncated;
      numeric_cache = [];
    })

unfoldable pub parse : {Double : Type 0} → CsvParser → Bytes → ParseResult Double
parse p bytes =
    let delimiter = if p.auto_detect then detect_delimiter bytes else p.delimiter in
    let r = feed callbacks (started delimiter nothing_built) bytes 0 true full in
    if is_empty bytes then parse_failed empty_file else finish_parse r.0 r.1.out
