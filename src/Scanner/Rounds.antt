-- ===== src/Scanner/Rounds.antt =====
-- Each round of the scanner's loop does what the machine does with the bytes that it takes.
use data_table_viewer.Prelude.{
  ℕ, ◌+◌, Bool, true, false, ◌&&◌, ◌||◌, [], ◌∷◌, ◌≡◌, refl, Option, none, some, ◌==◌, u64, arith,
  Bool-cases, inl, inr,
}
use data_table_viewer.Scanner.{
  Callbacks, Scanner, Cursor, Round, cancelled, stop, one, two, end_record,
}
use data_table_viewer.Scanner.Feed.{
  next_is, chunk_ends, close_field, quoted_round, break_round, delimiter_round, quote_round,
  plain_round,
}
use data_table_viewer.Scanner.Machine.{
  plain, quote_seen, cr_seen, Machine, field, IsStream, end_row, plain_byte, quoted_byte, step_in,
  step,
}
use data_table_viewer.Scanner.Simulation.{
  view, IsReady, emit_span_lem, emit_fragment_lem, close_field_lem, end_record_lem, field-end,
  field-concat,
}

-- `m` has taken a byte that ends a quoted field or a record, if what follows is no second quote or
-- LF. The scanner has looked at `next`, and is in `m'`.
pub data Agrees {S : Type 0} (is_eof : Bool) (next : Option ℕ) (offset : ℕ) (m' m : Machine S)
    : Type 0 where
  same : m' ≡ m → Agrees is_eof next offset m' m
  quote_closed :
      m.mode ≡ quote_seen
      → m' ≡ record m { mode = plain }
      → next_is b'"' next ≡ false
      → chunk_ends is_eof next ≡ false
      → Agrees is_eof next offset m' m
  cr_done :
      m.mode ≡ cr_seen
      → m' ≡ record m { mode = plain; start = u64 offset }
      → m.saw ≡ false
      → next_is b'\n' next ≡ false
      → chunk_ends is_eof next ≡ false
      → Agrees is_eof next offset m' m

-- What holds of a scanner between two chunks, once the probe for a byte order mark is done.
pub record IsBetween (s : Scanner) : Type 0 where
  pub cr_outside :
      (s.pending_cr && (s.pending_quote || s.in_quotes || s.saw_data_in_record)) ≡ false
  pub started : (s.pending_cr || s.has_record_start) ≡ true
  pub checked : s.bom_checked ≡ true

module _ {S : Type 0} (cb : Callbacks S) where
  -- The machine that a cursor stands for: its span has been handed on.
  abbrev pub seen : Cursor S → Machine S
  seen k = record (view k.state) {
    out = field cb k.state.scanner.col_index k.span false k.state.out;
  }

  abbrev pub took : Cursor S → ℕ → Machine S
  took k c = step cb k.state.scanner.delimiter (seen k) k.offset c

  -- What a round must have done with the byte `c` at the cursor.
  abbrev pub Follows : Bool → Cursor S → ℕ → Option ℕ → Round S → Type 0
  Follows is_eof k c next (cancelled st) = ⊥
  Follows is_eof k c next (stop k') =
      (chunk_ends is_eof next ≡ true)
      × (k'.state.scanner.delimiter ≡ k.state.scanner.delimiter)
      × IsBetween k'.state.scanner
      × (seen k' ≡ took k c)
  Follows is_eof k c next (one k') =
      IsReady k'.state.scanner
      × (k'.offset ≡ k.offset + 1)
      × (k'.state.scanner.delimiter ≡ k.state.scanner.delimiter)
      × Agrees is_eof next (k.offset + 1) (seen k') (took k c)
  Follows is_eof k c next (two k') =
      IsReady k'.state.scanner
      × (k'.offset ≡ k.offset + 2)
      × (k'.state.scanner.delimiter ≡ k.state.scanner.delimiter)
      × (d : ℕ) × (next ≡ some d)
      × (seen k' ≡ step cb k.state.scanner.delimiter (took k c) (k.offset + 1) d)

module _ {S : Type 0} (cb : Callbacks S) (stream : IsStream cb) where
  nil :
      (k : Cursor S)
      → field cb k.state.scanner.col_index [] false
          (field cb k.state.scanner.col_index k.span false k.state.out)
        ≡ field cb k.state.scanner.col_index k.span false k.state.out
  nil k = stream.field-nil _ _

  -- A quote inside quotes, by what stands behind it.
  quoted_round-quote :
      (is_eof : Bool) (k : Cursor S) (next : Option ℕ)
      → IsReady k.state.scanner
      → k.state.scanner.in_quotes ≡ true
      → Follows cb is_eof k b'"' next (quoted_round cb is_eof k b'"' next)
  unfolding quoted_round next_is chunk_ends step_in quoted_byte
  quoted_round-quote true k none r q = rw (emit_span_lem cb stream) (
    record { no_cr = r.no_cr; no_quote = r.no_quote; started = r.started; checked = r.checked },
    refl,
    refl,
    quote_closed (ground arith) (ground (arith, nil k)) refl refl,
  )
  quoted_round-quote false k none r q = rw (emit_span_lem cb stream) (
    refl,
    refl,
    record { cr_outside = ground arith; started = ground arith; checked = r.checked },
    ground (arith, nil k),
  )
  quoted_round-quote is_eof k (some d) r q = elim (Bool-cases (d == b'"')) [
    | inl h ↦
        rw (emit_span_lem cb stream, h, emit_fragment_lem cb stream)
          (
            r,
            refl,
            refl,
            b'"',
            ground arith,
            ground (
              arith,
              stream.field-nil k.state.scanner.col_index (
                  field cb k.state.scanner.col_index (b'"' ∷ []) false
                    (field cb k.state.scanner.col_index k.span false k.state.out)),
            ),
          )
    | inr h ↦
        rw (emit_span_lem cb stream, h)
          (
            record {
              no_cr = r.no_cr;
              no_quote = r.no_quote;
              started = r.started;
              checked = r.checked;
            },
            refl,
            refl,
            quote_closed (ground arith) (ground (arith, nil k)) h refl,
          )
  ]

  pub quoted_round-Follows :
      (is_eof : Bool) (k : Cursor S) (c : ℕ) (next : Option ℕ)
      → IsReady k.state.scanner
      → k.state.scanner.in_quotes ≡ true
      → Follows cb is_eof k c next (quoted_round cb is_eof k c next)
  unfolding quoted_round step_in quoted_byte
  quoted_round-Follows is_eof k c next r q = elim (Bool-cases (c == b'"')) [
    | inl h ↦ let e : c ≡ b'"' = ground arith in rw e (quoted_round-quote is_eof k next r q)
    | inr h ↦ rw h (
      record { no_cr = r.no_cr; no_quote = r.no_quote; started = r.started; checked = r.checked },
      refl,
      refl,
      same (ground (arith, field-concat cb stream k.state.scanner.col_index k.span c k.state.out)),
    )
  ]

  took-plain :
      (k : Cursor S) (c : ℕ)
      → IsReady k.state.scanner
      → k.state.scanner.in_quotes ≡ false
      → took cb k c ≡ plain_byte cb k.state.scanner.delimiter (seen cb k) k.offset c
  unfolding step_in
  took-plain k c r q = rw (r.no_cr, r.no_quote, q)

  quote_round-Follows :
      (is_eof : Bool) (k : Cursor S) (next : Option ℕ)
      → IsReady k.state.scanner
      → k.state.scanner.in_quotes ≡ false
      → Follows cb is_eof k b'"' next (quote_round cb k)
  unfolding quote_round plain_byte
  quote_round-Follows is_eof k next r q = rw (emit_span_lem cb stream) (
    record { no_cr = r.no_cr; no_quote = r.no_quote; started = r.started; checked = r.checked },
    refl,
    refl,
    same (rw (took-plain k b'"' r q) (ground (arith, nil k))),
  )

  delimiter_round-Follows :
      (is_eof : Bool) (k : Cursor S) (c : ℕ) (next : Option ℕ)
      → IsReady k.state.scanner
      → k.state.scanner.in_quotes ≡ false
      → (c == b'"') ≡ false
      → (c == k.state.scanner.delimiter) ≡ true
      → Follows cb is_eof k c next (delimiter_round cb k)
  unfolding delimiter_round plain_byte
  delimiter_round-Follows is_eof k c next r q h1 h2 = rw (close_field_lem cb stream) (
    record { no_cr = r.no_cr; no_quote = r.no_quote; started = r.started; checked = r.checked },
    refl,
    refl,
    same (rw (took-plain k c r q, h1, h2) (rw (stream.field-nil, field-end cb stream))),
  )

  -- The state behind the end of a record.
  row_ended :
      (k : Cursor S)
      → IsReady k.state.scanner
      → end_record cb (close_field cb k.state k.span) (u64 k.offset) ≡ record {
        scanner = record (k.state.scanner) {
          record_ordinal = u64 (k.state.scanner.record_ordinal + 1);
          col_index = 0;
          saw_data_in_record = false;
          has_record_start = false;
        };
        out = (end_row cb (seen cb k) k.offset).out;
      }
  unfolding end_row
  row_ended k r =
      rw (close_field_lem cb stream, field-end cb stream)
        (rw (end_record_lem cb stream) (ground arith))

  nil_row :
      (k : Cursor S)
      → field cb 0 [] false (end_row cb (seen cb k) k.offset).out
        ≡ (end_row cb (seen cb k) k.offset).out
  nil_row k = stream.field-nil _ _

  break_round-lf :
      (is_eof : Bool) (k : Cursor S) (next : Option ℕ)
      → IsReady k.state.scanner
      → k.state.scanner.in_quotes ≡ false
      → (b'\n' == k.state.scanner.delimiter) ≡ false
      → Follows cb is_eof k b'\n' next (break_round cb is_eof k b'\n' next)
  unfolding break_round plain_byte end_row
  break_round-lf is_eof k next r q h = rw (row_ended k r) (
    record { no_cr = r.no_cr; no_quote = r.no_quote; started = refl; checked = r.checked },
    refl,
    refl,
    same (rw (took-plain k b'\n' r q, h) (ground (arith, nil_row k))),
  )

  took-cr :
      (k : Cursor S)
      → IsReady k.state.scanner
      → k.state.scanner.in_quotes ≡ false
      → (b'\r' == k.state.scanner.delimiter) ≡ false
      → took cb k b'\r' ≡ record (end_row cb (seen cb k) k.offset) { mode = cr_seen; start = 0 }
  unfolding plain_byte
  took-cr k r q h = rw (took-plain k b'\r' r q, h)

  break_round-cr :
      (is_eof : Bool) (k : Cursor S) (next : Option ℕ)
      → IsReady k.state.scanner
      → k.state.scanner.in_quotes ≡ false
      → (b'\r' == k.state.scanner.delimiter) ≡ false
      → Follows cb is_eof k b'\r' next (break_round cb is_eof k b'\r' next)
  unfolding break_round next_is chunk_ends step_in end_row
  break_round-cr true k none r q h = rw (row_ended k r) (
    record { no_cr = r.no_cr; no_quote = r.no_quote; started = refl; checked = r.checked },
    refl,
    refl,
    cr_done (rw (took-cr k r q h)) (rw (took-cr k r q h) (ground (arith, nil_row k)))
        (rw (took-cr k r q h)) refl refl,
  )
  break_round-cr false k none r q h = rw (row_ended k r) (
    refl,
    refl,
    record { cr_outside = ground arith; started = refl; checked = r.checked },
    (rw (took-cr k r q h) (ground (arith, nil_row k))),
  )
  break_round-cr is_eof k (some d) r q h = elim (Bool-cases (d == b'\n')) [
    | inl e ↦
        rw (row_ended k r, e)
          (
            record { no_cr = r.no_cr; no_quote = r.no_quote; started = refl; checked = r.checked },
            refl,
            refl,
            b'\n',
            ground arith,
            (rw (took-cr k r q h) (ground (arith, nil_row k))),
          )
    | inr e ↦
        rw (row_ended k r, e)
          (
            record { no_cr = r.no_cr; no_quote = r.no_quote; started = refl; checked = r.checked },
            refl,
            refl,
            cr_done (rw (took-cr k r q h)) (rw (took-cr k r q h) (ground (arith, nil_row k)))
                (rw (took-cr k r q h)) e refl,
          )
  ]

  break_round-Follows :
      (is_eof : Bool) (k : Cursor S) (c : ℕ) (next : Option ℕ)
      → IsReady k.state.scanner
      → k.state.scanner.in_quotes ≡ false
      → (c == k.state.scanner.delimiter) ≡ false
      → (c == b'\r' || c == b'\n') ≡ true
      → Follows cb is_eof k c next (break_round cb is_eof k c next)
  break_round-Follows is_eof k c next r q h h' = elim (Bool-cases (c == b'\r')) [
    | inl e ↦
        let e' : c ≡ b'\r' = ground arith in rw e' (break_round-cr is_eof k next r q (rw e' at h))
    | inr e ↦
        let e' : c ≡ b'\n' = ground arith in rw e' (break_round-lf is_eof k next r q (rw e' at h))
  ]

  pub plain_round-Follows :
      (is_eof : Bool) (k : Cursor S) (c : ℕ) (next : Option ℕ)
      → IsReady k.state.scanner
      → k.state.scanner.in_quotes ≡ false
      → Follows cb is_eof k c next (plain_round cb is_eof k c next)
  unfolding plain_round plain_byte
  plain_round-Follows is_eof k c next r q = elim (Bool-cases (c == b'"')) [
    | inl h ↦ let e : c ≡ b'"' = ground arith in rw e (quote_round-Follows is_eof k next r q)
    | inr h1 ↦ elim (Bool-cases (c == k.state.scanner.delimiter)) [
      | inl h2 ↦ rw (h1, h2) (delimiter_round-Follows is_eof k c next r q h1 h2)
      | inr h2 ↦ elim (Bool-cases (c == b'\r' || c == b'\n')) [
        | inl h3 ↦ rw (h1, h2, h3) (break_round-Follows is_eof k c next r q h2 h3)
        | inr h3 ↦
            rw (h1, h2, h3)
              (
                record {
                  no_cr = r.no_cr;
                  no_quote = r.no_quote;
                  started = r.started;
                  checked = r.checked;
                },
                refl,
                refl,
                same (
                    rw (took-plain k c r q) (
                      ground (
                        arith,
                        field-concat cb stream k.state.scanner.col_index k.span c k.state.out,
                      ))),
              )
      ]
    ]
  ]
