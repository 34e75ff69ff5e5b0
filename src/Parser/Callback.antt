-- ===== src/Parser/Callback.antt =====
-- The callbacks of `parse` take a field as one stream of bytes, and a request to stop stays made.
use data_table_viewer.Prelude.{
  ℕ, Bool, false, [], ◌∷◌, ◌++◌, ◌≡◌, append-nil, append_assoc, arith, length-append, Bytes,
}
use data_table_viewer.Scanner.Feed.{asks}
use data_table_viewer.Scanner.Machine.{IsStream, field, record_end}
use data_table_viewer.Scanner.Cancel.{IsKept}
use data_table_viewer.Parser.{Build, on_field_fragment, on_record, add_row, callbacks, full}

fragment-append :
    (col : ℕ) (a b : Bytes) (is_end : Bool) (s : Build)
    → on_field_fragment col (a ++ b) is_end s
      ≡ on_field_fragment col b is_end (on_field_fragment col a false s)
unfolding on_field_fragment
fragment-append col a b is_end s = ground (arith, append_assoc s.current_cell a b)

fragment-nil : (col : ℕ) (s : Build) → on_field_fragment col [] false s ≡ s
unfolding on_field_fragment
fragment-nil col s = ground (arith, append-nil s.current_cell)

pub callbacks-IsStream : IsStream callbacks
unfolding field
callbacks-IsStream = record {
  field-nil = λ col s. ground (arith, fragment-nil col s);
  field-append = λ col a b e s. ground (arith, fragment-append col a b e s);
}

pub full-IsKept : IsKept callbacks (asks full)
unfolding field record_end on_field_fragment on_record add_row
full-IsKept = record {
  on_field = λ col b e s h. ground arith;
  on_row = λ n a b s h. ground (arith, length-append s.rows (s.current_row ∷ []));
}
