-- ===== src/Scanner/Simulation.antt =====
-- One round of the scanner's loop against the machine: the scanner looks one byte ahead where the
-- machine remembers, and keeps a span where the machine has handed the bytes on.
use data_table_viewer.Prelude.{
  ℕ, ◌+◌, Bool, true, false, [], ◌∷◌, ◌++◌, ◌≡◌, refl, ap, sym, if◌then◌else◌, Bytes, u64, arith,
  append-nil,
}
use data_table_viewer.Scanner.{Callbacks, Scanner, State, emit_fragment, flush_field, end_record}
use data_table_viewer.Scanner.Feed.{emit_span, close_field}
use data_table_viewer.Scanner.Machine.{
  Mode, plain, quoted, quote_seen, cr_seen, Machine, field, record_end, IsStream,
}

-- The machine's mode, as the scanner's flags spell it.
abbrev pub mode_of : Scanner → Mode
mode_of s =
    if s.pending_cr
    then cr_seen
    else if s.pending_quote
    then quote_seen
    else if s.in_quotes
    then quoted
    else plain

module _ {S : Type 0} where
  -- The machine that a scanner stands for between two bytes.
  abbrev pub view : State S → Machine S
  view st = record {
    mode = mode_of st.scanner;
    ordinal = st.scanner.record_ordinal;
    start = if st.scanner.pending_cr then 0 else st.scanner.current_record_start;
    saw = st.scanner.saw_data_in_record;
    col = st.scanner.col_index;
    out = st.out;
  }

-- Inside the loop nothing is pending, the record has a start, and the probe for a byte order
-- mark is done.
pub record IsReady (s : Scanner) : Type 0 where
  pub no_cr : s.pending_cr ≡ false
  pub no_quote : s.pending_quote ≡ false
  pub started : s.has_record_start ≡ true
  pub checked : s.bom_checked ≡ true

module _ {S : Type 0} (cb : Callbacks S) (stream : IsStream cb) where
  pub emit_fragment_lem :
      (st : State S) (c : ℕ) (cs : Bytes) (is_end : Bool)
      → emit_fragment cb st (c ∷ cs) is_end
        ≡ record st { out = field cb st.scanner.col_index (c ∷ cs) is_end st.out }
  unfolding emit_fragment field
  emit_fragment_lem st c cs is_end = ground arith

  pub flush_field_lem :
      (st : State S)
      → flush_field cb st ≡ record st { out = field cb st.scanner.col_index [] true st.out }
  unfolding flush_field field
  flush_field_lem st = ground arith

  pub emit_span_lem :
      (st : State S) (span : Bytes)
      → emit_span cb st span ≡ record st { out = field cb st.scanner.col_index span false st.out }
  unfolding emit_span
  emit_span_lem st [] =
      ap (λ o. record { scanner = st.scanner; out = o })
        (sym (stream.field-nil st.scanner.col_index st.out))
  emit_span_lem st (c ∷ cs) = emit_fragment_lem st c cs false

  pub close_field_lem :
      (st : State S) (span : Bytes)
      → close_field cb st span ≡ record st { out = field cb st.scanner.col_index span true st.out }
  unfolding close_field
  close_field_lem st [] = flush_field_lem st
  close_field_lem st (c ∷ cs) = emit_fragment_lem st c cs true

  pub end_record_lem :
      (st : State S) (offset : ℕ)
      → end_record cb st offset ≡ record {
        scanner = record (st.scanner) {
          record_ordinal = u64 (st.scanner.record_ordinal + 1);
          col_index = 0;
          saw_data_in_record = false;
          has_record_start = false;
        };
        out = record_end cb st.scanner.record_ordinal st.scanner.current_record_start offset st.out;
      }
  unfolding end_record record_end
  end_record_lem st offset = refl

  -- Closing a field is handing on its bytes, then the end of the field.
  pub field-end :
      (col : ℕ) (span : Bytes) (s : S)
      → field cb col span true s ≡ field cb col [] true (field cb col span false s)
  field-end col span s =
      rw (← stream.field-append col span [] true s)
        (ap (λ b. field cb col b true s) (sym (append-nil span)))

  pub field-concat :
      (col : ℕ) (span : Bytes) (c : ℕ) (s : S)
      → field cb col (span ++ c ∷ []) false s
        ≡ field cb col (c ∷ []) false (field cb col span false s)
  field-concat col span c s = stream.field-append col span (c ∷ []) false s
