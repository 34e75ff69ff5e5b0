-- ===== src/Scanner.antt =====
-- The streaming CSV scanner of src/parsers/csv_record_scanner.h and csv_record_scanner.cpp.
-- Bytes are numbers. A callback is a function on the state `S` of whoever owns it; a missing
-- `std::function` is `none`. What a pointer difference gives in the source is here the bytes
-- between the two pointers, and `offset` is `baseOffset + (p - chunk.data())`.
pub mod Delimiter
pub mod Feed
pub mod Machine
pub mod Simulation
pub mod Rounds
pub mod Loop
pub mod Resolve
pub mod Chunks
pub mod Prefix
pub mod Probe
pub mod Whole
pub mod Cancel
pub mod Projection
pub mod Local
pub mod Records
pub mod Contents
pub mod Reread
use data_table_viewer.Prelude.{
  ℕ, ◌+◌, ◌-◌, Bool, true, false, not, ◌&&◌, ◌||◌, List, [], ◌∷◌, ◌++◌, Option, none, some, ltb,
  leb, ◌==◌, if◌then◌else◌, length, is_empty, take, drop, Bytes, u64, min,
}

abbrev pub max_columns : ℕ
max_columns = 256

abbrev pub cancel_check_interval : ℕ
cancel_check_interval = 65536

-- `CsvRecordScanner::Callbacks`.
pub record Callbacks (S : Type 0) : Type 0 where
  pub on_record : Option (ℕ → ℕ → ℕ → S → S)
  pub on_field_fragment : Option (ℕ → Bytes → Bool → S → S)

-- `CsvRecordScanner::CancelCheck`.
abbrev pub CancelCheck : Type 0 → Type 0
CancelCheck S = Option (S → Bool)

-- The members of `CsvRecordScanner`, less its callbacks.
pub record Scanner : Type 0 where
  pub delimiter : ℕ
  pub in_quotes : Bool
  pub pending_quote : Bool
  pub pending_cr : Bool
  pub has_bom : Bool
  pub bom_checked : Bool
  pub bom_buffer : Bytes
  pub record_ordinal : ℕ
  pub current_record_start : ℕ
  pub has_record_start : Bool
  pub saw_data_in_record : Bool
  pub col_index : ℕ
  pub bytes_since_cancel_check : ℕ

-- The constructor: a NUL delimiter means a comma.
unfoldable pub new : ℕ → Scanner
new delimiter = record {
  delimiter = if delimiter == 0 then b',' else delimiter;
  in_quotes = false;
  pending_quote = false;
  pending_cr = false;
  has_bom = false;
  bom_checked = false;
  bom_buffer = [];
  record_ordinal = 0;
  current_record_start = 0;
  has_record_start = false;
  saw_data_in_record = false;
  col_index = 0;
  bytes_since_cancel_check = 0;
}

unfoldable pub reset : Scanner → Scanner
reset s = record s {
  in_quotes = false;
  pending_quote = false;
  pending_cr = false;
  has_bom = false;
  bom_checked = false;
  bom_buffer = [];
  record_ordinal = 0;
  current_record_start = 0;
  has_record_start = false;
  saw_data_in_record = false;
  col_index = 0;
  bytes_since_cancel_check = 0;
}

-- A scanner together with what its callbacks have made so far.
pub record State (S : Type 0) : Type 0 where
  pub scanner : Scanner
  pub out : S

-- The two pointers of the loop in `feed`: `span` is from `spanStart` up to `p`.
pub record Cursor (S : Type 0) : Type 0 where
  pub state : State S
  pub offset : ℕ
  pub span : Bytes

-- How one round of the loop ends: `return false`, `break`, or `continue` past one or two bytes.
pub data Round (S : Type 0) : Type 0 where
  cancelled : State S → Round S
  stop : Cursor S → Round S
  one : Cursor S → Round S
  two : Cursor S → Round S

-- `c == '\xEF'` and so on, on the first three bytes.
unfoldable pub is_bom : Bytes → Bool
is_bom (a ∷ b ∷ c ∷ rest) = a == 0xef && b == 0xbb && c == 0xbf
is_bom _ = false

module _ {S : Type 0} (cb : Callbacks S) where
  unfoldable pub emit_fragment : State S → Bytes → Bool → State S
  emit_fragment st fragment is_end = elim cb.on_field_fragment [
    | none ↦ st
    | some call ↦
        if ltb st.scanner.col_index max_columns
        then if not (is_empty fragment) || is_end
          then record st { out = call st.scanner.col_index fragment is_end st.out }
          else st
        else st
  ]

  unfoldable pub flush_field : State S → State S
  flush_field st = elim cb.on_field_fragment [
    | none ↦ st
    | some call ↦
        if ltb st.scanner.col_index max_columns
        then record st { out = call st.scanner.col_index [] true st.out }
        else st
  ]

  unfoldable pub end_record : State S → ℕ → State S
  end_record st end_offset =
      let s = st.scanner in
      record {
        scanner = record s {
          record_ordinal = u64 (s.record_ordinal + 1);
          col_index = 0;
          saw_data_in_record = false;
          has_record_start = false;
        };
        out = elim cb.on_record [
          | none ↦ st.out
          | some call ↦ call s.record_ordinal s.current_record_start end_offset st.out
        ];
      }
