-- ===== src/Parser/RoundTrip.antt =====
-- `CsvParser::parse` reads back what the writer has written.
use data_table_viewer.Prelude.{
  ℕ, suc, ◌+◌, ◌<◌, ◌≤◌, Bool, true, false, List, [], ◌∷◌, ◌++◌, ◌≡◌, refl, sym, ap, ◌∙◌,
  append-nil, append_assoc, arith, ◌==◌, length, length-append, Bytes, none, is_empty,
}
use data_table_viewer.Scanner
use data_table_viewer.Scanner.{Callbacks, is_bom, max_columns}
use data_table_viewer.Scanner.Feed.{asks, feed}
use data_table_viewer.Scanner.Machine.{
  field, record_end, run, close, fresh, read_prefix, reference, plain,
}
use data_table_viewer.Scanner.Whole.{started, feed_all, feed_all_lem}
use data_table_viewer.Scanner.Probe.{delimiter_of}
use data_table_viewer.Scanner.Cancel.{feed-same}
use data_table_viewer.Parser.{
  new, Build, header_columns, on_field_fragment, on_record, add_row, callbacks, full, nothing_built,
  max_parser_rows, pad_all, parsed, finish_parse, parse,
}
use data_table_viewer.Parser.Callback.{callbacks-IsStream, full-IsKept}
use data_table_viewer.Parser.Render.{
  escape, quote_cell, render_row, render, fill_all, columns_named, AllNamed, cells_done, rows_done,
}
use data_table_viewer.Parser.Filling.{whole_table}
use data_table_viewer.Parser.Scan.{Narrow, run-render, at}

abbrev pub cells_of : Bytes × List Bytes → List Bytes
cells_of (cell, cells) = cell ∷ cells

abbrev pub table_of : List (Bytes × List Bytes) → List (List Bytes)
table_of [] = []
table_of (row ∷ rows) = cells_of row ∷ table_of rows

-- Every row has as many columns as are kept, at most.
abbrev pub Fits : List (Bytes × List Bytes) → Type 0
Fits [] = Unit
Fits ((cell, cells) ∷ rows) = (length cells < max_columns) × Fits rows

Fits-Narrow : (rows : List (Bytes × List Bytes)) → Fits rows → Narrow rows
Fits-Narrow [] h = tt
Fits-Narrow ((cell, cells) ∷ rows) (h, hs) = (omega arith, Fits-Narrow rows hs)

-- A rendered table begins with a quote.
render-head :
    (d : ℕ) (cell : Bytes) (cells : List Bytes) (rows : List (Bytes × List Bytes))
    → (t : Bytes) × (render d ((cell, cells) ∷ rows) ≡ b'"' ∷ t) × (2 ≤ length t)
unfolding render render_row quote_cell
render-head d cell [] rows = (
  _,
  refl,
  omega (
    arith,
    length-append (escape cell ++ b'"' ∷ []) (b'\n' ∷ []),
    length-append (escape cell) (b'"' ∷ []),
    length-append ((escape cell ++ b'"' ∷ []) ++ b'\n' ∷ []) (render d rows),
  ),
)
render-head d cell (next ∷ cells) rows = (
  _,
  refl,
  omega (
    arith,
    length-append (escape cell) (b'"' ∷ []),
    length-append (escape cell ++ b'"' ∷ []) (d ∷ render_row d next cells),
    length-append ((escape cell ++ b'"' ∷ []) ++ d ∷ render_row d next cells) (render d rows),
  ),
)

is_bom-quote : (t : Bytes) → is_bom (b'"' ∷ t) ≡ false
unfolding is_bom
is_bom-quote [] = refl
is_bom-quote (a ∷ []) = refl
is_bom-quote (a ∷ b ∷ t) = refl

placeless : (n a b : ℕ) (s : Build) → record_end callbacks n a b s ≡ record_end callbacks 0 0 0 s
unfolding record_end on_record
placeless n a b s = refl

-- The cells of a row, one after another.
cells_built :
    (cells : List Bytes) (cell : Bytes) (col : ℕ) (b : Build)
    → length b.current_row ≡ col
    → b.current_cell ≡ []
    → col + length cells < max_columns
    → cells_done callbacks col cell cells b
      ≡ record b { current_row = b.current_row ++ cell ∷ cells; current_cell = [] }
unfolding cells_done field on_field_fragment
cells_built [] cell col b e z h = ground arith
cells_built (next ∷ cells) cell col b e z h =
    let b' = record b { current_row = b.current_row ++ cell ∷ []; current_cell = [] } in
    let n : length b'.current_row ≡ col + 1 =
      omega (arith, length-append b.current_row (cell ∷ [])) in
    ground (
      arith,
      cells_built cells next (col + 1) b' n refl (omega arith),
      append_assoc b.current_row (cell ∷ []) (next ∷ cells),
    )

-- Between two records nothing is half built, and there is a header.
record Between (b : Build) : Type 0 where
  no_row : b.current_row ≡ []
  no_cell : b.current_cell ≡ []
  headed : is_empty b.columns ≡ false
  whole : b.truncated ≡ false

row_built :
    (cell : Bytes) (cells : List Bytes) (b : Build)
    → Between b
    → length cells < max_columns
    → length b.rows + 1 < max_parser_rows
    → record_end callbacks 0 0 0 (cells_done callbacks 0 cell cells b)
      ≡ record b { rows = b.rows ++ (cell ∷ cells) ∷ [] }
unfolding record_end on_record add_row
row_built cell cells b v h n =
    rw (cells_built cells cell 0 b (rw v.no_row refl) v.no_cell (omega arith))
      (ground (arith, length-append b.rows ((cell ∷ cells) ∷ [])))

rows_built :
    (rows : List (Bytes × List Bytes)) (b : Build)
    → Between b
    → Fits rows
    → length b.rows + length rows < max_parser_rows
    → rows_done callbacks rows b ≡ record b { rows = b.rows ++ table_of rows }
unfolding rows_done
rows_built [] b v h n = ap (λ r. record b { rows = r }) (sym (append-nil b.rows))
rows_built ((cell, cells) ∷ rows) b v (h, hs) n =
    let b' = record b { rows = b.rows ++ (cell ∷ cells) ∷ [] } in
    let v' : Between b' = record {
      no_row = v.no_row;
      no_cell = v.no_cell;
      headed = v.headed;
      whole = v.whole;
    } in
    rw (row_built cell cells b v h (omega arith)) (
      rows_built rows b' v' hs (omega (arith, length-append b.rows ((cell ∷ cells) ∷ [])))
      ∙ ap (λ r. record b { rows = r }) (append_assoc b.rows ((cell ∷ cells) ∷ []) (table_of rows)))

-- The header row makes the columns.
header_built :
    (cell : Bytes) (cells : List Bytes)
    → length cells < max_columns
    → record_end callbacks 0 0 0 (cells_done callbacks 0 cell cells nothing_built)
      ≡ record nothing_built { columns = header_columns 0 (cell ∷ cells) }
unfolding record_end on_record
header_built cell cells h = rw (cells_built cells cell 0 nothing_built refl refl (omega arith)) refl

abbrev built : Bytes × List Bytes → List (Bytes × List Bytes) → Build
built header rows = record nothing_built {
  columns = header_columns 0 (cells_of header);
  rows = table_of rows;
}

table_built :
    (header : Bytes × List Bytes) (rows : List (Bytes × List Bytes))
    → Fits (header ∷ rows)
    → length rows < max_parser_rows
    → rows_done callbacks (header ∷ rows) nothing_built ≡ built header rows
unfolding rows_done
table_built (cell, cells) rows (h, hs) n = rw (header_built cell cells h) (
    rows_built rows (record nothing_built { columns = header_columns 0 (cell ∷ cells) })
      (record {
        no_row = refl;
        no_cell = refl;
        headed = unfold header_columns in refl;
        whole = refl;
      })
      hs (omega arith))

not_bom :
    (d : ℕ) (header : Bytes × List Bytes) (rows : List (Bytes × List Bytes))
    → is_bom (render d (header ∷ rows)) ≡ false
not_bom d (cell, cells) rows =
    let (t, e, n) = render-head d cell cells rows in ap is_bom e ∙ is_bom-quote t

reference-plain :
    (d : ℕ) (b : Build) (bytes : Bytes)
    → is_bom bytes ≡ false
    → reference callbacks d b bytes
      ≡ close callbacks (run callbacks d (fresh 0 b) 0 bytes) (length bytes)
unfolding reference read_prefix
reference-plain d b bytes e = rw e

close-between :
    (n a : ℕ) (b : Build) (offset : ℕ) → close callbacks (at plain n a false 0 b) offset ≡ b
unfolding close
close-between n a b offset = refl

delimiter_of-nonzero : (d : ℕ) → (d == 0) ≡ false → delimiter_of d ≡ d
unfolding Scanner.new
delimiter_of-nonzero d e = rw e

length-table_of : (rows : List (Bytes × List Bytes)) → length (table_of rows) ≡ length rows
length-table_of [] = refl
length-table_of (row ∷ rows) = ap suc (length-table_of rows)

render-long :
    (d : ℕ) (header : Bytes × List Bytes) (rows : List (Bytes × List Bytes))
    → (3 ≤ length (render d (header ∷ rows))) × (is_empty (render d (header ∷ rows)) ≡ false)
render-long d (cell, cells) rows =
    let (t, e, n) = render-head d cell cells rows in rw e (omega arith, refl)

not_full :
    (header : Bytes × List Bytes) (rows : List (Bytes × List Bytes))
    → length rows < max_parser_rows
    → asks full (built header rows) ≡ false
not_full header rows few = ground (arith, length-table_of rows)

parse-fixed :
    {Double : Type 0} (d : ℕ) (bytes : Bytes)
    → (d == 0) ≡ false
    → is_empty bytes ≡ false
    → parse {Double = Double} (new d) bytes ≡ (
        let r = feed callbacks (started d nothing_built) bytes 0 true full in
        finish_parse r.0 r.1.out)
unfolding parse new
parse-fixed d bytes nonzero e = rw (nonzero, e) refl

finish_parse-built :
    {Double : Type 0} (header : Bytes × List Bytes) (rows : List (Bytes × List Bytes)) (fed : Bool)
    (b : Build)
    → fed ≡ true
    → b ≡ built header rows
    → finish_parse {Double = Double} fed b
      ≡ parsed (record {
        columns = header_columns 0 (cells_of header);
        rows = pad_all (length (header_columns 0 (cells_of header))) (table_of rows);
        total_rows = length (table_of rows);
        truncated = false;
        numeric_cache = [];
      })
unfolding finish_parse header_columns
finish_parse-built (cell, cells) rows fed b e e' = rw (e, e') refl

module _ (d : ℕ) (nonzero : (d == 0) ≡ false) (no_quote : (d == b'"') ≡ false)
    (no_lf : (b'\n' == d) ≡ false) (header : Bytes × List Bytes) (rows : List (Bytes × List Bytes))
    (fits : Fits (header ∷ rows)) (few : length rows < max_parser_rows) where
  -- What the machine makes of the rendered table.
  reference-render :
      reference callbacks d nothing_built (render d (header ∷ rows)) ≡ built header rows
  reference-render =
      let (n, a, o, e) =
        run-render callbacks callbacks-IsStream d placeless no_quote no_lf (header ∷ rows) 0 0
          nothing_built 0 (Fits-Narrow (header ∷ rows) fits) in
      reference-plain d nothing_built (render d (header ∷ rows)) (not_bom d header rows)
      ∙ ap (λ m. close callbacks m (length (render d (header ∷ rows)))) e
      ∙ close-between n a _ _
      ∙ table_built header rows fits few

  unhindered :
      (let r = feed callbacks (started d nothing_built) (render d (header ∷ rows)) 0 true none in
        (r.0 ≡ true) × (r.1.out ≡ built header rows))
  unfolding feed_all
  unhindered =
      let (fed, out) =
        feed_all_lem callbacks callbacks-IsStream none (λ s. refl) d nothing_built
          (render d (header ∷ rows)) [] in
      (
        fed,
        out
            ∙ ap (λ x. reference callbacks x nothing_built (render d (header ∷ rows) ++ []))
                (delimiter_of-nonzero d nonzero)
            ∙ ap (reference callbacks d nothing_built) (append-nil (render d (header ∷ rows)))
            ∙ reference-render,
      )

  -- A table of at most 256 columns and less than 100,000 rows, whatever its cells hold, written
  -- with every cell in quotes, a delimiter that is no NUL, quote or line feed, and a line feed
  -- behind each row, is parsed to itself, if no name in its first row is empty: the columns have
  -- exactly the names in the first row, the rows are the others with the very cells that were
  -- written, the short ones filled up with empty cells to the width of the first, and nothing is
  -- truncated.
  pub parse-render :
      {Double : Type 0}
      → AllNamed (cells_of header)
      → parse {Double = Double} (new d) (render d (header ∷ rows))
        ≡ parsed (record {
          columns = columns_named (cells_of header);
          rows = fill_all (length (cells_of header)) (table_of rows);
          total_rows = length (table_of rows);
          truncated = false;
          numeric_cache = [];
        })
  parse-render {Double = Double} named =
      let bytes = render d (header ∷ rows) in
      let (n, e) = render-long d header rows in
      let (fed, out) = unhindered in
      let calm : asks full (feed callbacks (started d nothing_built) bytes 0 true none).1.out
          ≡ false =
        ap (asks full) out ∙ not_full header rows few in
      let same = feed-same callbacks full full-IsKept d nothing_built bytes n calm in
      parse-fixed d bytes nonzero e
      ∙ finish_parse-built header rows _ _ (ap (λ r. r.0) same ∙ fed) (ap (λ r. r.1.out) same ∙ out)
      ∙ ap parsed (whole_table (cells_of header) (table_of rows) named)
