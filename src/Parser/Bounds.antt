-- ===== src/Parser/Bounds.antt =====
-- How much of a file a parse keeps.
use data_table_viewer.Prelude.{
  ℕ, suc, ◌≤◌, Bool, true, not, ◌&&◌, List, [], ◌∷◌, ◌++◌, ◌≡◌, refl, ap, inl, inr, Bool-cases,
  arith, length, length-append, is_empty, leb, if◌then◌else◌, Bytes,
}
use data_table_viewer.Scanner.{max_columns}
use data_table_viewer.Scanner.Delimiter.{detect_delimiter}
use data_table_viewer.Scanner.Feed.{feed}
use data_table_viewer.Scanner.Machine.{field, record_end}
use data_table_viewer.Scanner.Whole.{started}
use data_table_viewer.Scanner.Cancel.{IsKept, feed-out}
use data_table_viewer.Table.{TableData}
use data_table_viewer.Parser.{
  CsvParser, Build, on_field_fragment, on_record, add_row, callbacks, full, nothing_built,
  max_parser_rows, pad_all, ParseResult, parsed, parse_failed, finish_parse, parse,
}

-- No more rows and columns than the limits.
abbrev bounded : Build → Bool
bounded b = leb (length b.rows) max_parser_rows && leb (length b.current_row) max_columns

bounded-IsKept : IsKept callbacks bounded
unfolding field record_end on_field_fragment on_record add_row
bounded-IsKept = record {
  on_field =
      λ col b e s h. ground (arith, length-append s.current_row ((s.current_cell ++ b) ∷ []));
  on_row = λ n a b s h. ground (arith, length-append s.rows (s.current_row ∷ []));
}

length-pad_all : (count : ℕ) (rows : List (List Bytes)) → length (pad_all count rows) ≡ length rows
unfolding pad_all
length-pad_all count [] = refl
length-pad_all count (row ∷ rows) = ap suc (length-pad_all count rows)

abbrev rows_of : {Double : Type 0} → ParseResult Double → ℕ
rows_of (parsed t) = length t.rows
rows_of (parse_failed e) = 0

finish_parse-rows :
    (Double : Type 0) (fed : Bool) (b : Build)
    → rows_of (finish_parse {Double = Double} fed b) ≤ length b.rows
unfolding finish_parse
finish_parse-rows Double fed b = elim (Bool-cases (not fed && not b.truncated)) [
  | inl e ↦ rw e (omega arith)
  | inr e ↦ elim (Bool-cases (is_empty b.columns && is_empty b.rows)) [
    | inl e' ↦ rw (e, e') (omega arith)
    | inr e' ↦ rw (e, e') (omega (arith, length-pad_all (length b.columns) b.rows))
  ]
]

parse-rows :
    (Double : Type 0) (p : CsvParser) (bytes : Bytes)
    → rows_of (parse {Double = Double} p bytes) ≤ max_parser_rows
unfolding parse
parse-rows Double p bytes =
    let d = if p.auto_detect then detect_delimiter bytes else p.delimiter in
    let r = feed callbacks (started d nothing_built) bytes 0 true full in
    let k =
      feed-out callbacks bounded bounded-IsKept (started d nothing_built) bytes 0 true full refl in
    let n : length r.1.out.rows ≤ max_parser_rows = ground arith in
    elim (Bool-cases (is_empty bytes)) [
      | inl e ↦ rw e (omega arith)
      | inr e ↦ rw e (omega (arith, finish_parse-rows Double r.0 r.1.out))
    ]

-- A table that a file is parsed to has 100,000 rows at most, whatever the file holds.
pub parse-bounds :
    {Double : Type 0} (p : CsvParser) (bytes : Bytes) (t : TableData Double)
    → parse p bytes ≡ parsed t
    → length t.rows ≤ max_parser_rows
parse-bounds {Double = Double} p bytes t e = omega (arith, ap rows_of e, parse-rows Double p bytes)
