-- ===== src/FileSource/Paging.antt =====
-- `CsvFileSource::readPage` and the navigation that stands on it.
use data_table_viewer.Prelude.{
  ℕ, zero, suc, ◌+◌, ◌-◌, ◌%◌, ◌^◌, min, Bool, true, false, not, ◌||◌, List, [], ◌∷◌, Option, none,
  some, ltb, leb, ◌==◌, if◌then◌else◌, length, is_empty, get_elem?, Bytes,
}
use data_table_viewer.Prelude.Int.{ℤ, pos, negsuc, ◌+ℤ◌, ◌-ℤ◌, ltb_ℤ}
use data_table_viewer.Scanner.{Callbacks, CancelCheck, Scanner, State, reset}
use data_table_viewer.Scanner
use data_table_viewer.Scanner.Feed.{feed}
use data_table_viewer.Table.{ColumnMeta, TableData}
use data_table_viewer.Inferrer.{is_numeric}
use data_table_viewer.Index.{FileOps, Span, read_spans, is_complete}
use data_table_viewer.Source.{compute_per_cell_cap, PageRow, page_fragment, fit_row}
use data_table_viewer.FileSource.State.{
  SourceOps, SourceError, invalid_page, page_cancelled, not_indexed_yet, spans_failed,
  invalid_token, total_required, CsvFileSource, Outcome, ok, err, read_bytes, verify_unchanged,
}

-- `core::PageToken`
pub record PageToken : Type 0 where
  pub first_key : ℕ
  pub last_key : ℕ
  pub offset : ℤ
  pub valid : Bool

-- `core::PageResult`; a key of a CSV page is an ordinal.
pub record PageResult (Double : Type 0) : Type 0 where
  pub success : Bool
  pub error : Option SourceError
  pub table : Option (TableData Double)
  pub keys : List ℤ
  pub clamped : List (List Bool)
  pub token : PageToken
  pub has_more : Bool

-- What `cancelCheck` answers: before the page, before each row, and while a row is scanned.
pub record PageStops : Type 0 where
  pub at_start : Bool
  pub at_row : ℕ → Bool
  pub in_scan : CancelCheck PageRow

abbrev pub no_token : PageToken
no_token = record { first_key = 0; last_key = 0; offset = pos 0; valid = false }

abbrev pub blank_result : {Double : Type 0} → PageResult Double
blank_result = record {
  success = false;
  error = none;
  table = none;
  keys = [];
  clamped = [];
  token = no_token;
  has_more = false;
}

abbrev pub failed_page : {Double : Type 0} → SourceError → PageResult Double
failed_page e = record blank_result { error = some e }

abbrev pub blank_row : PageRow
blank_row = record { values = []; clamped = []; cell = []; cell_clamped = false }

abbrev pub page_callbacks : ℕ → ℕ → Callbacks PageRow
page_callbacks columns cap = record {
  on_record = none;
  on_field_fragment = some (page_fragment columns cap);
}

-- A row of a page: its values, and which of them are cut.
abbrev pub Row : Type 0
Row = List Bytes × List Bool

-- The values of a scanned record, as many as there are columns.
unfoldable pub finish_row : ℕ → PageRow → Row
finish_row columns r = (fit_row columns [] r.values, fit_row columns false r.clamped)

module _ {F H : Type 0} (files : SourceOps H) (stops : PageStops) where
  unfoldable pub read_row :
      ℕ → ℕ → Scanner → Span → CsvFileSource F H → Outcome (Row × Scanner) × CsvFileSource F H
  read_row columns cap scanner span x =
      let bytes = read_bytes files span.start (span.end_offset - span.start) x in
      elim bytes.0 [
        | err e ↦ (err e, bytes.1)
        | ok raw ↦
            let r =
              feed (page_callbacks columns cap) (record { scanner = scanner; out = blank_row }) raw
                span.start true stops.in_scan in
            if r.0
            then (ok (finish_row columns r.1.out, reset r.1.scanner), bytes.1)
            else (err page_cancelled, bytes.1)
      ]

  -- The rows of the page from row `i` on, and the error that ended them, if one did.
  unfoldable pub read_rows :
      ℕ
      → ℕ
      → Scanner
      → ℕ
      → List Span
      → CsvFileSource F H
      → List Row × Option SourceError × CsvFileSource F H
  read_rows columns cap scanner i [] x = ([], none, x)
  read_rows columns cap scanner i (span ∷ spans) x =
      let r = read_row columns cap scanner span x in
      elim (stops.at_row i) [
        | true ↦ ([], some page_cancelled, x)
        | false ↦ elim r.0 [
          | err e ↦ ([], some e, r.1)
          | ok (row, scanner') ↦
              let (rows, e, x') = read_rows columns cap scanner' (i + 1) spans r.1 in
              (row ∷ rows, e, x')
        ]
      ]

unfoldable pub keys_from : ℤ → ℕ → List ℤ
keys_from first zero = []
keys_from first (suc count) = first ∷ keys_from (first +ℤ pos 1) count

unfoldable pub row_values : List Row → List (List Bytes)
row_values [] = []
row_values ((values, clamped) ∷ rows) = values ∷ row_values rows

unfoldable pub row_flags : List Row → List (List Bool)
row_flags [] = []
row_flags ((values, clamped) ∷ rows) = clamped ∷ row_flags rows

unfoldable pub without_plus : Bytes → Bytes
without_plus [] = []
without_plus (c ∷ cs) = if c == b'+' then cs else c ∷ cs

abbrev pub last_end : Span → List Span → ℕ
last_end span [] = span.end_offset
last_end span (next ∷ spans) = last_end next spans

abbrev pub total_of : Option ℤ → ℕ
total_of (some (pos n)) = n
total_of _ = 0

abbrev pub at_least_zero : ℤ → ℤ
at_least_zero (pos n) = pos n
at_least_zero (negsuc n) = pos 0

-- The first row of the last page.
unfoldable pub last_start : ℕ → ℕ → ℕ
last_start total page_size =
    if total % page_size == 0 then total - page_size else total - total % page_size

-- A page behind the last row of a file that is all indexed.
unfoldable pub page_behind : {F H Double : Type 0} → ℕ → CsvFileSource F H → PageResult Double
page_behind start x = record blank_result {
  success = true;
  table = some (record {
    columns = x.columns;
    rows = [];
    total_rows = 0;
    truncated = false;
    numeric_cache = [];
  });
  token = record no_token { offset = pos start };
}

-- `from_chars` is the C++ library's: a number and how much of the text it takes, if it finds one.
module _ {Double : Type 0} (from_chars : Bytes → Option (Double × ℕ)) (nan : Double) where
  -- The number of a cell, unless the cell has been cut. A row has as many cells as flags, and as
  -- there are columns, so nothing is read out of range.
  unfoldable pub cell_number : ℕ → Row → Double
  cell_number col (values, clamped) = elim (get_elem? clamped col) [
    | none ↦ nan
    | some true ↦ nan
    | some false ↦ elim (get_elem? values col) [
      | none ↦ nan
      | some cell ↦
          let text = without_plus cell in
          elim (from_chars text) [ none ↦ nan | some p ↦ if p.1 == length text then p.0 else nan ]
    ]
  ]

  unfoldable pub column_numbers : ℕ → List Row → List Double
  column_numbers col [] = []
  column_numbers col (row ∷ rows) = cell_number col row ∷ column_numbers col rows

  -- The numeric cache, one entry for each numeric column from column `col` on.
  unfoldable pub number_cache : ℕ → List ColumnMeta → List Row → List (ℕ × List Double)
  number_cache col [] rows = []
  number_cache col (column ∷ columns) rows =
      let later = number_cache (col + 1) columns rows in
      if is_numeric column.kind then (col, column_numbers col rows) ∷ later else later

  -- `data` and its token, once all rows are read.
  unfoldable pub page_of :
      {F H : Type 0} → ℕ → Span → List Span → List Row → CsvFileSource F H → PageResult Double
  page_of start span spans rows x = record {
    success = true;
    error = none;
    table = some (record {
      columns = x.columns;
      rows = row_values rows;
      total_rows = total_of x.known_total;
      truncated = false;
      numeric_cache = number_cache 0 x.columns rows;
    });
    keys = keys_from (pos start) (length rows);
    clamped = row_flags rows;
    token = record {
      first_key = span.start;
      last_key = last_end span spans;
      offset = pos start;
      valid = not (is_empty rows);
    };
    has_more =
        ltb (start + length (span ∷ spans)) x.intake.index.header.data_record_count
        || not (is_complete x.intake.index);
  }

-- `readPage` and what calls it. `ops` are the calls on the index file, `files` those on the source.
module _ {F H Double : Type 0} (ops : FileOps F) (files : SourceOps H) (stops : PageStops)
    (from_chars : Bytes → Option (Double × ℕ)) (nan : Double) where
  -- The rows of the spans that the index has given.
  unfoldable pub read_spanned :
      ℕ → ℕ → List Span → CsvFileSource F H → PageResult Double × CsvFileSource F H
  read_spanned start page_size [] x = (page_behind start x, x)
  read_spanned start page_size (span ∷ spans) x =
      let columns = length x.columns in
      let r =
        read_rows files stops columns (compute_per_cell_cap (pos page_size) columns)
          (Scanner.new x.delimiter) 0 (span ∷ spans) x in
      elim r.1 [
        | some e ↦ (
          record (failed_page e) {
            keys = keys_from (pos start) (length r.0);
            clamped = row_flags r.0;
          },
          r.2,
        )
        | none ↦ (page_of from_chars nan start span spans r.0 r.2, r.2)
      ]

  unfoldable pub read_indexed : ℕ → ℕ → CsvFileSource F H → PageResult Double × CsvFileSource F H
  read_indexed start page_size x =
      let count = min page_size (x.intake.index.header.data_record_count - start) in
      let r = read_spans ops (pos start) 0 count x.intake.index in
      let x' = record x { intake = record (x.intake) { index = r.1 } } in
      if length r.0 == count
      then read_spanned start page_size r.0 x'
      else (failed_page spans_failed, x')

  -- `readPage` behind its checks.
  unfoldable pub read_checked : ℕ → ℕ → CsvFileSource F H → PageResult Double × CsvFileSource F H
  read_checked start page_size x =
      if stops.at_start
      then (failed_page page_cancelled, x)
      else if leb x.intake.index.header.data_record_count start
      then if is_complete x.intake.index
        then (page_behind start x, x)
        else (failed_page not_indexed_yet, x)
      else read_indexed start page_size x

  unfoldable pub read_page : ℤ → ℤ → CsvFileSource F H → PageResult Double × CsvFileSource F H
  read_page (negsuc start) page_size x = (failed_page invalid_page, x)
  read_page (pos start) (negsuc page_size) x = (failed_page invalid_page, x)
  read_page (pos start) (pos zero) x = (failed_page invalid_page, x)
  read_page (pos start) (pos (suc n)) x =
      let v = verify_unchanged files x in
      elim v.0 [ some e ↦ (failed_page e, v.1) | none ↦ read_checked start (suc n) v.1 ]

  unfoldable pub first_page : ℤ → CsvFileSource F H → PageResult Double × CsvFileSource F H
  first_page page_size x = read_page (pos 0) page_size x

  -- The greatest `int64_t` guards the sum.
  unfoldable pub next_page :
      PageToken → ℤ → CsvFileSource F H → PageResult Double × CsvFileSource F H
  next_page token page_size x =
      if not token.valid
      then (failed_page invalid_token, x)
      else if ltb_ℤ (pos (2 ^ 63 - 1) -ℤ page_size) token.offset
      then (failed_page invalid_token, x)
      else read_page (token.offset +ℤ page_size) page_size x

  unfoldable pub prev_page :
      PageToken → ℤ → CsvFileSource F H → PageResult Double × CsvFileSource F H
  prev_page token page_size x =
      if not token.valid
      then (failed_page invalid_token, x)
      else read_page (at_least_zero (token.offset -ℤ page_size)) page_size x

  unfoldable pub last_page :
      ℤ → Option ℤ → CsvFileSource F H → PageResult Double × CsvFileSource F H
  last_page page_size none x = (failed_page total_required, x)
  last_page page_size (some (negsuc total)) x = (failed_page total_required, x)
  last_page (negsuc n) (some (pos total)) x = (failed_page total_required, x)
  last_page (pos zero) (some (pos total)) x = (failed_page total_required, x)
  last_page (pos (suc n)) (some (pos zero)) x = first_page (pos (suc n)) x
  last_page (pos (suc n)) (some (pos (suc total))) x =
      read_page (pos (last_start (suc total) (suc n))) (pos (suc n)) x
