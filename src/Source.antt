-- ===== src/Source.antt =====
-- The page rules of `CsvFileSource` in src/parsers/csv_file_source.cpp: which columns a page has,
-- how much of a cell it keeps, and when it is ready.
pub mod Cells
pub mod Thinning
pub mod Clamping
pub mod Readiness
pub mod Selection
use data_table_viewer.Prelude.{
  ℕ, zero, suc, ◌+◌, ◌-◌, ◌*◌, ◌/◌, ◌%◌, min, max, Bool, true, false, not, ◌&&◌, ◌||◌, List, [],
  ◌∷◌, ◌++◌, Option, none, some, ltb, leb, ◌==◌, if◌then◌else◌, length, is_empty, get_elem?, set,
  replicate, take, Bytes, u64,
}
use data_table_viewer.Prelude.Int.{ℤ, pos, negsuc}
use data_table_viewer.Index.{Index, is_complete}

-- A byte that continues a UTF-8 character: `(c & 0xC0) == 0x80`.
unfoldable pub is_continuation : ℕ → Bool
is_continuation c = c / 64 == 2

-- The byte at a place, which is in range wherever it is asked for.
abbrev pub byte_at : Bytes → ℕ → ℕ
byte_at [] n = 0
byte_at (c ∷ cs) zero = c
byte_at (c ∷ cs) (suc n) = byte_at cs n

-- The loop of `utf8SafeLength` from length `n` down.
unfoldable pub back_up : Bytes → ℕ → ℕ
back_up s zero = zero
back_up s (suc n) =
    let rest = back_up s n in if is_continuation (byte_at s (suc n)) then rest else suc n

unfoldable pub utf8_safe_length : Bytes → ℕ → ℕ
utf8_safe_length s max_bytes = if leb (length s) max_bytes then length s else back_up s max_bytes

-- The indices from `col` on, `count` of them.
unfoldable pub indices : ℕ → ℕ → List ℕ
indices col zero = []
indices col (suc count) = col ∷ indices (col + 1) count

-- Whether a column has been selected; one out of range has.
abbrev pub selected_at : List Bool → ℕ → Bool
selected_at [] n = true
selected_at (b ∷ bs) zero = b
selected_at (b ∷ bs) (suc n) = selected_at bs n

-- The loop over the requested columns: the columns taken, and `outSelected`.
unfoldable pub select_columns : List ℤ → ℕ → List Bool → List ℕ × List Bool
select_columns [] count selected = ([], selected)
select_columns (negsuc c ∷ requested) count selected = select_columns requested count selected
select_columns (pos c ∷ requested) count selected =
    let skip = select_columns requested count selected in
    let taken = select_columns requested count (set selected c true) in
    if ltb c count && not (selected_at selected c) then (c ∷ taken.0, taken.1) else skip

unfoldable pub resolve_target_columns : List ℤ → ℕ → List ℕ × List Bool
resolve_target_columns requested count =
    let select_all = is_empty requested in
    let selected = replicate count select_all in
    if select_all then (indices 0 count, selected) else select_columns requested count selected

abbrev pub default_cell_cap : ℕ
default_cell_cap = 4096

abbrev pub min_cell_cap : ℕ
min_cell_cap = 16

abbrev pub page_byte_budget : ℕ
page_byte_budget = 33554432

unfoldable pub compute_per_cell_cap : ℤ → ℕ → ℕ
compute_per_cell_cap (negsuc n) columns = default_cell_cap
compute_per_cell_cap (pos n) columns =
    if n == 0 || columns == 0
    then default_cell_cap
    else min default_cell_cap (max min_cell_cap (page_byte_budget / (n * columns)))

-- What the callback of `readPage` writes to.
pub record PageRow : Type 0 where
  pub values : List Bytes
  pub clamped : List Bool
  pub cell : Bytes
  pub cell_clamped : Bool

-- The part of the callback that adds to the cell.
unfoldable pub add_fragment : ℕ → Bytes → PageRow → PageRow
add_fragment cap fragment r =
    let safe = utf8_safe_length fragment (cap - length r.cell) in
    if ltb (length r.cell) cap
    then record r {
      cell = r.cell ++ take safe fragment;
      cell_clamped = if ltb safe (length fragment) then true else r.cell_clamped;
    }
    else record r { cell_clamped = if is_empty fragment then r.cell_clamped else true }

unfoldable pub page_fragment : ℕ → ℕ → ℕ → Bytes → Bool → PageRow → PageRow
page_fragment columns cap col fragment is_end r =
    let r' = add_fragment cap fragment r in
    if ltb col columns
    then (if is_end
        then record r' {
          values = r'.values ++ r'.cell ∷ [];
          clamped = r'.clamped ++ r'.cell_clamped ∷ [];
          cell = [];
          cell_clamped = false;
        }
        else r')
    else r

-- Short rows are filled up, and long ones cut.
unfoldable pub fit_row : {A : Type 0} → ℕ → A → List A → List A
fit_row columns a row = take columns (row ++ replicate (columns - length row) a)

-- `core::IndexReadiness`
pub data IndexReadiness : Type 0 where
  pending ready at_end failed : IndexReadiness

unfoldable pub readiness : {F : Type 0} → Bool → Bool → Index F → ℤ → ℤ → IndexReadiness
readiness source_changed scan_failed x (negsuc first) page_size = failed
readiness source_changed scan_failed x (pos first) (negsuc page_size) = failed
readiness source_changed scan_failed x (pos first) (pos zero) = failed
readiness source_changed scan_failed x (pos first) (pos (suc page_size)) =
    if source_changed || x.failed || scan_failed
    then failed
    else if leb (u64 (first + suc page_size)) x.header.data_record_count
    then ready
    else if is_complete x
    then (if leb x.header.data_record_count first then at_end else ready)
    else pending
