-- ===== src/Tests/Scan.antt =====
-- The scanner and the parser at concrete inputs.
use data_table_viewer.Prelude.{
  ℕ, true, false, List, [], ◌∷◌, ◌≡◌, refl, none, arith, length, Bytes, ◌≤◌,
}
use data_table_viewer.Scanner.Delimiter.{detect_delimiter}
use data_table_viewer.Scanner.Machine.{reference}
use data_table_viewer.Scanner.Probe.{delimiter_of}
use data_table_viewer.Scanner.Whole.{started, concat, feed_all, feed_all_lem}
use data_table_viewer.Parser.{new, callbacks, nothing_built, parse, parsed, max_parser_rows}
use data_table_viewer.Parser.Callback.{callbacks-IsStream}
use data_table_viewer.Parser.Render.{render, columns_named, fill_all}
use data_table_viewer.Parser.Bounds.{parse-bounds}
use data_table_viewer.Parser.RoundTrip.{cells_of, table_of, parse-render}

-- `a,"x""`, and then `y"` and CR, LF: a doubled quote across two chunks.
abbrev first_chunk : Bytes
first_chunk = b'a' ∷ b',' ∷ b'"' ∷ b'x' ∷ b'"' ∷ []

abbrev second_chunk : Bytes
second_chunk = b'"' ∷ b'y' ∷ b'"' ∷ b'\r' ∷ []

abbrev third_chunk : Bytes
third_chunk = b'\n' ∷ b'z' ∷ []

feed_all_lem_example :
    (let r =
        feed_all callbacks none
          (started b',' nothing_built)
          0
          (first_chunk ∷ second_chunk ∷ third_chunk ∷ []) in
      (r.0 ≡ true)
      × (r.1.out
          ≡ reference callbacks
              (delimiter_of b',')
              nothing_built
              (concat (first_chunk ∷ second_chunk ∷ third_chunk ∷ []))))
feed_all_lem_example =
    feed_all_lem callbacks callbacks-IsStream none (λ s. refl) b',' nothing_built first_chunk
      (second_chunk ∷ third_chunk ∷ [])

abbrev header_row : Bytes × List Bytes
header_row = (b'a' ∷ b',' ∷ [], (b'"' ∷ []) ∷ [])

abbrev data_rows : List (Bytes × List Bytes)
data_rows = (b'"' ∷ b'\n' ∷ [], []) ∷ []

parse-render_example :
    parse {Double = ℕ} (new b',') (render b',' (header_row ∷ data_rows))
    ≡ parsed (record {
      columns = columns_named (cells_of header_row);
      rows = fill_all (length (cells_of header_row)) (table_of data_rows);
      total_rows = length (table_of data_rows);
      truncated = false;
      numeric_cache = [];
    })
parse-render_example =
    parse-render b',' refl refl refl header_row data_rows (omega arith, (omega arith, tt))
      (omega arith) (refl, (refl, tt))

parse-bounds_example : 1 ≤ max_parser_rows
parse-bounds_example =
    parse-bounds (new b',') (render b',' (header_row ∷ data_rows)) _ parse-render_example

-- Twelve columns named by a tab and one comma on the first line: more than twice as many tabs.
detects_tabs : detect_delimiter (b'a' ∷ b'\t' ∷ b'b' ∷ b'\t' ∷ b'c' ∷ b'\t' ∷ b',' ∷ []) ≡ b'\t'
unfolding detect_delimiter
detects_tabs = refl
