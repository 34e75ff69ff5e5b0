-- ===== src/FileSource/PageBudget.antt =====
-- What a page of `readPage` holds: how many rows, how wide they are, and how many bytes.
use data_table_viewer.Prelude.{
  ℕ, zero, suc, ◌+◌, ◌-◌, ◌*◌, ◌≤◌, ◌⊎◌, inl, inr, min, List, [], ◌∷◌, Option, none, some, ◌≡◌,
  refl, sym, ap, subst, arith, leb, ◌==◌, length, Bytes, if_intro, option_intro,
}
use native.Mathlib.Nat.{mul-le-mul_right}
use data_table_viewer.Prelude.Int.{ℤ, pos, negsuc}
use data_table_viewer.Scanner
use data_table_viewer.Index.{FileOps, Span, read_spans, is_complete}
use data_table_viewer.Source.{compute_per_cell_cap}
use data_table_viewer.Source.Cells.{AllWithin, compute_per_cell_cap_lem}
use data_table_viewer.FileSource.State.{
  SourceOps, SourceError, invalid_page, page_cancelled, not_indexed_yet, spans_failed,
  CsvFileSource, verify_unchanged,
}
use data_table_viewer.FileSource.Paging.{
  PageStops, PageResult, Row, failed_page, page_behind, page_of, read_rows, row_values, row_flags,
  read_spanned, read_indexed, read_checked, read_page,
}
use data_table_viewer.FileSource.Pages.{AllShaped, read_rows-AllShaped}

-- The rows that a page shows.
abbrev pub rows_shown : {Double : Type 0} → PageResult Double → List (List Bytes)
rows_shown r = elim r.table [ none ↦ [] | some t ↦ t.rows ]

-- Every row has as many entries as there are columns.
abbrev pub AllWide : {A : Type 0} → ℕ → List (List A) → Type 0
AllWide columns [] = Unit
AllWide columns (row ∷ rows) = (length row ≡ columns) × AllWide columns rows

-- No cell has more than `cap` bytes.
abbrev pub CellsWithin : ℕ → List (List Bytes) → Type 0
CellsWithin cap [] = Unit
CellsWithin cap (row ∷ rows) = AllWithin cap row × CellsWithin cap rows

-- The bytes of all cells.
abbrev pub row_bytes : List Bytes → ℕ
row_bytes [] = 0
row_bytes (v ∷ row) = length v + row_bytes row

abbrev pub page_bytes : List (List Bytes) → ℕ
page_bytes [] = 0
page_bytes (row ∷ rows) = row_bytes row + page_bytes rows

-- A page of at most `page_size` rows, all with the same number of cells and with a clamp flag for
-- each cell. No cell has more than 4096 bytes, and all have 32 MiB together at most,
-- unless none of them has more than 16 bytes.
pub record IsPage {Double : Type 0} (page_size : ℕ) (r : PageResult Double) : Type 0 where
  pub columns : ℕ
  pub few : length (rows_shown r) ≤ page_size
  pub wide : AllWide columns (rows_shown r)
  pub flagged : AllWide columns r.clamped
  pub paired : (rows_shown r ≡ []) ⊎ (length r.clamped ≡ length (rows_shown r))
  pub short : CellsWithin 4096 (rows_shown r)
  pub budget : (CellsWithin 16 (rows_shown r)) ⊎ (page_bytes (rows_shown r) ≤ 33554432)

row_bytes_lem : (cap : ℕ) (row : List Bytes) → AllWithin cap row → row_bytes row ≤ length row * cap
row_bytes_lem cap [] h = omega arith
row_bytes_lem cap (v ∷ row) (h, hs) = let le = row_bytes_lem cap row hs in omega arith

page_bytes_lem :
    (columns cap : ℕ) (rows : List (List Bytes))
    → AllWide columns rows
    → CellsWithin cap rows
    → page_bytes rows ≤ length rows * (columns * cap)
page_bytes_lem columns cap [] w h = omega arith
page_bytes_lem columns cap (row ∷ rows) (w, ws) (h, hs) =
    let le = page_bytes_lem columns cap rows ws hs in
    let first : row_bytes row ≤ columns * cap =
      subst (λ n. row_bytes row ≤ n * cap) w (row_bytes_lem cap row h) in
    ground arith

AllWithin-more :
    (cap more : ℕ) (row : List Bytes) → cap ≤ more → AllWithin cap row → AllWithin more row
AllWithin-more cap more [] le h = tt
AllWithin-more cap more (v ∷ row) le (h, hs) = (omega arith, AllWithin-more cap more row le hs)

CellsWithin-more :
    (cap more : ℕ) (rows : List (List Bytes))
    → cap ≤ more
    → CellsWithin cap rows
    → CellsWithin more rows
CellsWithin-more cap more [] le h = tt
CellsWithin-more cap more (row ∷ rows) le (h, hs) =
    (AllWithin-more cap more row le h, CellsWithin-more cap more rows le hs)

module _ (columns cap : ℕ) where
  AllShaped-row_values :
      (rows : List Row)
      → AllShaped columns cap rows
      → AllWide columns (row_values rows) × CellsWithin cap (row_values rows)
  unfolding row_values
  AllShaped-row_values [] h = (tt, tt)
  AllShaped-row_values ((values, flags) ∷ rows) ((w, f, h), hs) =
      let (ws, cs) = AllShaped-row_values rows hs in ((w, ws), (h, cs))

  AllShaped-row_flags :
      (rows : List Row) → AllShaped columns cap rows → AllWide columns (row_flags rows)
  unfolding row_flags
  AllShaped-row_flags [] h = tt
  AllShaped-row_flags ((values, flags) ∷ rows) ((w, f, h), hs) = (f, AllShaped-row_flags rows hs)

length-row_values : (rows : List Row) → length (row_values rows) ≡ length rows
unfolding row_values
length-row_values [] = refl
length-row_values ((values, flags) ∷ rows) = ap suc (length-row_values rows)

length-row_flags : (rows : List Row) → length (row_flags rows) ≡ length rows
unfolding row_flags
length-row_flags [] = refl
length-row_flags ((values, flags) ∷ rows) = ap suc (length-row_flags rows)

-- Within the cap of the page, the rows are within its budget.
budget_lem :
    (n columns : ℕ) (rows : List (List Bytes))
    → AllWide columns rows
    → CellsWithin (compute_per_cell_cap (pos n) columns) rows
    → length rows ≤ n
    → CellsWithin 4096 rows × ((CellsWithin 16 rows) ⊎ (page_bytes rows ≤ 33554432))
budget_lem n columns rows w h few =
    let cap = compute_per_cell_cap (pos n) columns in
    let (low, high, fits) = compute_per_cell_cap_lem n columns in
    let bytes = page_bytes_lem columns cap rows w h in
    let more : length rows * (columns * cap) ≤ n * (columns * cap) =
      mul-le-mul_right (columns * cap) few in
    (
      CellsWithin-more cap 4096 rows high h,
      elim fits [ inl e ↦ inl (subst (λ c. CellsWithin c rows) e h) | inr le ↦ inr (ground arith) ],
    )

module _ {Double : Type 0} where
  -- A page that shows no row.
  bare-IsPage : (n : ℕ) (r : PageResult Double) → rows_shown r ≡ [] → r.clamped ≡ [] → IsPage n r
  bare-IsPage n r e c = record {
    columns = 0;
    few = subst (λ rows. length rows ≤ n) (sym e) (omega arith);
    wide = subst (λ rows. AllWide 0 rows) (sym e) tt;
    flagged = subst (λ rows. AllWide 0 rows) (sym c) tt;
    paired = inl e;
    short = subst (λ rows. CellsWithin 4096 rows) (sym e) tt;
    budget = inl (subst (λ rows. CellsWithin 16 rows) (sym e) tt);
  }

  failed-IsPage : (n : ℕ) (e : SourceError) → IsPage {Double = Double} n (failed_page e)
  failed-IsPage n e = bare-IsPage n (failed_page e) refl refl

module _ {F H Double : Type 0} (ops : FileOps F) (files : SourceOps H) (stops : PageStops)
    (from_chars : Bytes → Option (Double × ℕ)) (nan : Double) where
  read_spanned-IsPage :
      (start n : ℕ) (spans : List Span) (x : CsvFileSource F H)
      → length spans ≤ n
      → IsPage n (read_spanned ops files stops from_chars nan start n spans x).0
  unfolding read_spanned page_behind page_of
  read_spanned-IsPage start n [] x h = bare-IsPage n _ refl refl
  read_spanned-IsPage start n (span ∷ spans) x h =
      let columns = length x.columns in
      let cap = compute_per_cell_cap (pos n) columns in
      let r = read_rows files stops columns cap (Scanner.new x.delimiter) 0 (span ∷ spans) x in
      let (shaped, read) =
        read_rows-AllShaped files stops columns cap (Scanner.new x.delimiter) 0 (span ∷ spans) x in
      let (wide, cells) = AllShaped-row_values columns cap r.0 shaped in
      let flags = AllShaped-row_flags columns cap r.0 shaped in
      let few : length (row_values r.0) ≤ n = omega (arith, length-row_values r.0) in
      let (short, budget) = budget_lem n columns (row_values r.0) wide cells few in
      option_intro (λ (q : PageResult Double × CsvFileSource F H). IsPage n q.0) r.1 _ _
        (record {
          columns = columns;
          few = few;
          wide = wide;
          flagged = flags;
          paired = inr (omega (arith, length-row_values r.0, length-row_flags r.0));
          short = short;
          budget = budget;
        })
        (λ e. record {
          columns = columns;
          few = omega arith;
          wide = tt;
          flagged = flags;
          paired = inl refl;
          short = tt;
          budget = inl tt;
        })

  read_indexed-IsPage :
      (start n : ℕ) (x : CsvFileSource F H)
      → IsPage n (read_indexed ops files stops from_chars nan start n x).0
  unfolding read_indexed
  read_indexed-IsPage start n x =
      let count = min n (x.intake.index.header.data_record_count - start) in
      let r = read_spans ops (pos start) 0 count x.intake.index in
      if_intro (λ (q : PageResult Double × CsvFileSource F H). IsPage n q.0) (length r.0 == count) _
        _ (λ e. read_spanned-IsPage start n r.0 _ (ground arith))
        (λ _. failed-IsPage n spans_failed)

  read_checked-IsPage :
      (start n : ℕ) (x : CsvFileSource F H)
      → IsPage n (read_checked ops files stops from_chars nan start n x).0
  unfolding read_checked page_behind
  read_checked-IsPage start n x =
      let P : PageResult Double × CsvFileSource F H → Type 0 = λ q. IsPage n q.0 in
      if_intro P stops.at_start _ _ (λ _. failed-IsPage n page_cancelled)
        (λ _.
          if_intro P (leb x.intake.index.header.data_record_count start) _ _
            (λ _.
              if_intro P (is_complete x.intake.index) _ _ (λ _. bare-IsPage n _ refl refl)
                (λ _. failed-IsPage n not_indexed_yet))
            (λ _. read_indexed-IsPage start n x))

  -- A page that `readPage` gives, whatever the file holds and whenever a stop is asked for, has as
  -- many rows as were asked for at most, all with the same number of cells, and one clamp flag for each
  -- cell. No cell has more than 4096 bytes, and all cells together have 32 MiB at most, unless none of
  -- them has more than 16 bytes.
  pub read_page-IsPage :
      (start : ℤ) (n : ℕ) (x : CsvFileSource F H)
      → IsPage n (read_page ops files stops from_chars nan start (pos n) x).0
  unfolding read_page
  read_page-IsPage (negsuc start) n x = failed-IsPage n invalid_page
  read_page-IsPage (pos start) zero x = failed-IsPage zero invalid_page
  read_page-IsPage (pos start) (suc n) x =
      let v = verify_unchanged files x in
      option_intro (λ (q : PageResult Double × CsvFileSource F H). IsPage (suc n) q.0) v.0 _ _
        (read_checked-IsPage start (suc n) v.1) (λ e. failed-IsPage (suc n) e)
