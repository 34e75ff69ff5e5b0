-- ===== src/Tests/Paging.antt =====
-- Pages, cells and column types at concrete inputs.
use data_table_viewer.Prelude.{
  ℕ, ◌*◌, ◌≤◌, ◌⊎◌, ◌↔◌, true, false, List, [], ◌∷◌, Option, none, some, ◌≡◌, refl, arith, Bytes,
}
use data_table_viewer.Prelude.Int.{ℤ, pos, negsuc, ◌≤ℤ◌}
use data_table_viewer.Pager.{PagerState, first_row_on_page, can_next, can_last, normalize_page_text}
use data_table_viewer.Pager.Pages.{PageInRange, can_next_lem, normalize_text-InRange}
use data_table_viewer.Inferrer.{
  column_kind, cell_at, is_integer, is_float, is_sign, all_digits, is_digit,
}
use data_table_viewer.Inferrer.Numerals.{integer-float}
use data_table_viewer.Inferrer.Columns.{Suits, column_kind-Suits}
use data_table_viewer.Index.{Index, empty_header}
use data_table_viewer.Source.{
  utf8_safe_length, back_up, is_continuation, select_columns, compute_per_cell_cap, min_cell_cap,
  default_cell_cap, page_byte_budget, PageRow, page_fragment, add_fragment, resolve_target_columns,
  readiness,
}
use data_table_viewer.Source.Cells.{IsBoundary, utf8_safe_length_lem, compute_per_cell_cap_lem}
use data_table_viewer.Source.Clamping.{Fragment, AllClamped, gathered, unread, gathered-AllClamped}
use data_table_viewer.Source.Readiness.{Promise, readiness_lem}
use data_table_viewer.Source.Selection.{IsSelection, resolve_target_columns_lem}

-- Page 2 of 1001 rows, 500 to a page.
abbrev second_page : PagerState
second_page = record {
  page = pos 2;
  page_size = pos 500;
  total = some (pos 1001);
  has_more = false;
  arrived_from_prev = false;
}

can_next_lem_example :
    ((can_next second_page ≡ true) ↔ (first_row_on_page (pos 3) (pos 500) ≤ℤ pos 1001))
    × (can_last second_page ≡ can_next second_page)
can_next_lem_example = can_next_lem second_page 1001 499 1 refl refl refl

-- A reader of numbers that knows one text.
abbrev reader : Bytes → Option (ℤ × ℕ)
reader text = some (negsuc 4, 2)

normalize_text-InRange_example : PageInRange (normalize_page_text reader (b'-' ∷ b'5' ∷ []))
normalize_text-InRange_example = normalize_text-InRange reader (b'-' ∷ b'5' ∷ [])

abbrev minus_twelve : Bytes
minus_twelve = b'-' ∷ b'1' ∷ b'2' ∷ []

passes : is_integer minus_twelve ≡ true
unfolding is_integer is_sign all_digits is_digit
passes = refl

integer-float_example : is_float minus_twelve ≡ (true, false)
integer-float_example = integer-float minus_twelve passes

abbrev table_rows : List (List Bytes)
table_rows = (minus_twelve ∷ []) ∷ ((b'7' ∷ []) ∷ []) ∷ []

column_kind-Suits_example : Suits (column_kind table_rows 0) (cell_at ((b'7' ∷ []) ∷ []) 0)
column_kind-Suits_example = column_kind-Suits table_rows 0 1 ((b'7' ∷ []) ∷ []) (omega arith) refl

-- `xé` cut inside its second character.
abbrev accented : Bytes
accented = b'x' ∷ 195 ∷ 169 ∷ []

utf8_safe_length_lem_example :
    (utf8_safe_length accented 2 ≤ 2)
    × (utf8_safe_length accented 2 ≤ 3)
    × IsBoundary accented (utf8_safe_length accented 2)
utf8_safe_length_lem_example = utf8_safe_length_lem accented 2

cuts_before_accent : utf8_safe_length accented 2 ≡ 1
unfolding utf8_safe_length back_up is_continuation
cuts_before_accent = refl

compute_per_cell_cap_lem_example :
    (let cap = compute_per_cell_cap (pos 500) 20 in
      (min_cell_cap ≤ cap)
      × (cap ≤ default_cell_cap)
      × ((cap ≡ min_cell_cap) ⊎ (cap * (500 * 20) ≤ page_byte_budget)))
compute_per_cell_cap_lem_example = compute_per_cell_cap_lem 500 20

abbrev requested : List ℤ
requested = pos 2 ∷ negsuc 0 ∷ pos 2 ∷ pos 9 ∷ pos 0 ∷ []

resolve_target_columns_lem_example : IsSelection 3 (resolve_target_columns requested 3).0
resolve_target_columns_lem_example = resolve_target_columns_lem requested 3

selects_two : (resolve_target_columns requested 3).0 ≡ 2 ∷ 0 ∷ []
unfolding resolve_target_columns select_columns
selects_two = refl

-- 700 records, and no end yet.
abbrev growing : Index ℕ
growing = record {
  header = record empty_header { data_record_count = 700 };
  file = none;
  ram_cache = [];
  write_buffer = [];
  block_cache = [];
  block_start = none;
  failed = false;
  error = none;
}

readiness_lem_example :
    Promise false false growing 500 500 (readiness false false growing (pos 500) (pos 500))
readiness_lem_example = readiness_lem false false growing 500 499 (omega arith)

-- `xyé` and then `z`, as two fragments of one cell that may keep three bytes: the `é` is left out,
-- and the `z` behind it is kept.
abbrev blank_row : PageRow
blank_row = record { values = []; clamped = []; cell = []; cell_clamped = false }

keeps_after_cut :
    (page_fragment 1 3 0
      (b'z' ∷ [])
      true
      (page_fragment 1 3 0 (b'x' ∷ b'y' ∷ 195 ∷ 169 ∷ []) false blank_row)).values
    ≡ (b'x' ∷ b'y' ∷ b'z' ∷ []) ∷ []
unfolding page_fragment add_fragment utf8_safe_length back_up is_continuation
keeps_after_cut = refl

-- The same two fragments, and a fragment of a column that the table does not have.
abbrev pieces : List Fragment
pieces = (0, b'x' ∷ b'y' ∷ 195 ∷ 169 ∷ [], false) ∷ (0, b'z' ∷ [], true) ∷ (1, b'w' ∷ [], true) ∷ []

gathered-AllClamped_example :
    AllClamped 3
      ((b'x' ∷ b'y' ∷ 195 ∷ 169 ∷ b'z' ∷ []) ∷ [])
      (gathered 1 3 pieces unread).values
      (gathered 1 3 pieces unread).clamped
gathered-AllClamped_example = gathered-AllClamped 1 3 pieces
