-- ===== src/Pager.antt =====
-- The paging rules of src/core/pager_state.h. `int64_t` is ℤ: on the row counts of files that
-- can exist no operation here leaves its range.
pub mod Pages
use data_table_viewer.Prelude.{
  ℕ, suc, ◌+◌, ◌-◌, ◌*◌, ◌/◌, ◌%◌, Bool, true, false, not, ◌&&◌, ◌||◌, Option, none, some, ltb,
  ◌==◌, if◌then◌else◌, Bytes, length,
}
use data_table_viewer.Prelude.Int.{ℤ, pos, negsuc, sub_ℕ, ◌+ℤ◌, ◌-ℤ◌, ◌*ℤ◌, ltb_ℤ}

unfoldable pub first_row_on_page : ℤ → ℤ → ℤ
first_row_on_page page page_size = (page -ℤ pos 1) *ℤ page_size +ℤ pos 1

abbrev pub min_page_rows : ℕ
min_page_rows = 100

abbrev pub max_page_rows : ℕ
max_page_rows = 3000

abbrev pub default_page_rows : ℕ
default_page_rows = 500

-- `std::clamp(value, 100, 3000)`, or 500 without a value.
unfoldable pub normalize_page_rows : Option ℤ → ℤ
normalize_page_rows none = pos default_page_rows
normalize_page_rows (some n) =
    if ltb_ℤ n (pos min_page_rows)
    then pos min_page_rows
    else if ltb_ℤ (pos max_page_rows) n
    then pos max_page_rows
    else n

-- The text of a setting. `stoll` is the C++ library's: a number and how much of the text it
-- takes, or nothing where it throws.
unfoldable pub normalize_page_text : (Bytes → Option (ℤ × ℕ)) → Bytes → ℤ
normalize_page_text stoll value = elim (stoll value) [
  | none ↦ pos default_page_rows
  | some p ↦ if p.1 == length value then normalize_page_rows (some p.0) else pos default_page_rows
]

pub record PagerState : Type 0 where
  pub page : ℤ
  pub page_size : ℤ
  pub total : Option ℤ
  pub has_more : Bool
  pub arrived_from_prev : Bool

-- C++ division truncates towards zero; the divisor is positive wherever it is called.
abbrev pub quot : ℤ → ℕ → ℤ
quot (pos a) n = pos (a / n)
quot (negsuc a) n = sub_ℕ 0 (suc a / n)

-- Whether the remainder is not zero.
abbrev pub has_rest : ℤ → ℕ → Bool
has_rest (pos a) n = not (a % n == 0)
has_rest (negsuc a) n = not (suc a % n == 0)

unfoldable pub pages_of : ℤ → ℤ → ℤ
pages_of total (pos (suc n)) =
    let k = quot total (suc n) +ℤ (if has_rest total (suc n) then pos 1 else pos 0) in
    if ltb_ℤ (pos 1) k then k else pos 1
pages_of total _ = pos 0

unfoldable pub pages : PagerState → ℤ
pages p = elim p.total [ none ↦ pos 0 | some total ↦ pages_of total p.page_size ]

unfoldable pub can_first : PagerState → Bool
can_first p = ltb_ℤ (pos 1) p.page

unfoldable pub can_prev : PagerState → Bool
can_prev p = ltb_ℤ (pos 1) p.page

unfoldable pub can_next : PagerState → Bool
can_next p = elim p.total [
  | none ↦ p.has_more || p.arrived_from_prev
  | some total ↦ ltb_ℤ p.page (pages p)
]

unfoldable pub can_last : PagerState → Bool
can_last p = elim p.total [ none ↦ false | some total ↦ ltb_ℤ p.page (pages p) ]
