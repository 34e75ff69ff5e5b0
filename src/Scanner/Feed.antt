-- ===== src/Scanner/Feed.antt =====
-- `CsvRecordScanner::feed` of src/parsers/csv_record_scanner.cpp, one definition for each of its
-- stages: the probe for a byte order mark, what the last chunk left open, the loop, and the end.
-- The loop's `p + 1 < end` is a byte `next` behind the one that is read.
use data_table_viewer.Prelude.{
  ℕ, ◌+◌, ◌-◌, Bool, true, false, not, ◌&&◌, ◌||◌, [], ◌∷◌, ◌++◌, Option, none, some, ltb, leb,
  ◌==◌, if◌then◌else◌, length, is_empty, take, drop, Bytes, u64, min,
}
use data_table_viewer.Scanner.{
  Callbacks, CancelCheck, Scanner, State, Cursor, Round, cancelled, stop, one, two, is_bom,
  cancel_check_interval, emit_fragment, flush_field, end_record,
}

-- `p + 1 < end && *(p + 1) == c`
unfoldable pub next_is : ℕ → Option ℕ → Bool
next_is c none = false
next_is c (some d) = d == c

-- `p + 1 == end && !isEof`
unfoldable pub chunk_ends : Bool → Option ℕ → Bool
chunk_ends is_eof none = not is_eof
chunk_ends is_eof (some d) = false

abbrev pub start_at : Scanner → ℕ → Scanner
start_at s offset = record s { current_record_start = u64 offset; has_record_start = true }

-- `cancel && cancel()`
abbrev pub asks : {S : Type 0} → CancelCheck S → S → Bool
asks none s = false
asks (some check) s = check s

-- Where a call of `feed` stands once it has dealt with the start of its chunk.
pub data Probe (S : Type 0) : Type 0 where
  waiting : State S → Probe S
  failed : State S → Probe S
  ready : State S → ℕ → Bytes → Probe S

module _ {S : Type 0} where
  -- `if(!m_hasRecordStart && m_recordOrdinal == 0)`
  unfoldable pub first_start : State S → ℕ → State S
  first_start st offset =
      let s = st.scanner in
      if not s.has_record_start && s.record_ordinal == 0
      then record st { scanner = start_at s offset }
      else st

  -- A CR at the end of the last chunk.
  unfoldable pub resolve_cr : Bool → State S → ℕ → Bytes → State S × ℕ × Bytes
  resolve_cr is_eof st offset [] =
      let s = st.scanner in
      if s.pending_cr && is_eof
      then (record st { scanner = record s { pending_cr = false } }, offset, [])
      else (st, offset, [])
  resolve_cr is_eof st offset (c ∷ rest) =
      let s = record (st.scanner) { pending_cr = false } in
      if st.scanner.pending_cr
      then if c == b'\n'
        then (record st { scanner = start_at s (offset + 1) }, offset + 1, rest)
        else (record st { scanner = start_at s offset }, offset, c ∷ rest)
      else (st, offset, c ∷ rest)

module _ {S : Type 0} (cb : Callbacks S) where
  -- `if(p > spanStart) emitFragment(span, false)`
  unfoldable pub emit_span : State S → Bytes → State S
  emit_span st span = if not (is_empty span) then emit_fragment cb st span false else st

  -- `if(p > spanStart) emitFragment(span, true); else flushField()`
  unfoldable pub close_field : State S → Bytes → State S
  close_field st span =
      if not (is_empty span) then emit_fragment cb st span true else flush_field cb st

  -- The count of rounds, and whether the caller asks to stop.
  unfoldable pub tick : CancelCheck S → State S → State S × Bool
  tick cancel st =
      let s = st.scanner in
      let n = s.bytes_since_cancel_check + 1 in
      if leb cancel_check_interval n
      then (record st { scanner = record s { bytes_since_cancel_check = 0 } }, asks cancel st.out)
      else (record st { scanner = record s { bytes_since_cancel_check = n } }, false)

  -- A round inside quotes.
  unfoldable pub quoted_round : Bool → Cursor S → ℕ → Option ℕ → Round S
  quoted_round is_eof k c next =
      if c == b'"'
      then (let st = emit_span k.state k.span in
          let s = st.scanner in
          if next_is b'"' next
          then two (record {
            state = emit_fragment cb st (b'"' ∷ []) false;
            offset = k.offset + 2;
            span = [];
          })
          else if chunk_ends is_eof next
          then stop (record {
            state = record st { scanner = record s { pending_quote = true } };
            offset = k.offset + 1;
            span = [];
          })
          else one (record {
            state = record st { scanner = record s { in_quotes = false } };
            offset = k.offset + 1;
            span = [];
          }))
      else one (record k { offset = k.offset + 1; span = k.span ++ c ∷ [] })

  -- A line break outside quotes.
  unfoldable pub break_round : Bool → Cursor S → ℕ → Option ℕ → Round S
  break_round is_eof k c next =
      let st = end_record cb (close_field k.state k.span) (u64 k.offset) in
      let s = st.scanner in
      if c == b'\r'
      then if next_is b'\n' next
        then two (record {
          state = record st { scanner = start_at s (k.offset + 2) };
          offset = k.offset + 2;
          span = [];
        })
        else if chunk_ends is_eof next
        then stop (record {
          state = record st { scanner = record s { pending_cr = true } };
          offset = k.offset + 1;
          span = [];
        })
        else one (record {
          state = record st { scanner = start_at s (k.offset + 1) };
          offset = k.offset + 1;
          span = [];
        })
      else one (record {
        state = record st { scanner = start_at s (k.offset + 1) };
        offset = k.offset + 1;
        span = [];
      })

  -- A delimiter outside quotes.
  unfoldable pub delimiter_round : Cursor S → Round S
  delimiter_round k =
      let st = close_field k.state k.span in
      let s = st.scanner in
      one (record {
        state = record st {
          scanner = record s { saw_data_in_record = true; col_index = u64 (s.col_index + 1) };
        };
        offset = k.offset + 1;
        span = [];
      })

  -- An opening quote.
  unfoldable pub quote_round : Cursor S → Round S
  quote_round k =
      let st = emit_span k.state k.span in
      one (record {
        state = record st {
          scanner = record (st.scanner) { saw_data_in_record = true; in_quotes = true };
        };
        offset = k.offset + 1;
        span = [];
      })

  -- A round outside quotes, once the record has a start.
  unfoldable pub plain_round : Bool → Cursor S → ℕ → Option ℕ → Round S
  plain_round is_eof k c next =
      let st = k.state in
      if c == b'"'
      then quote_round k
      else if c == st.scanner.delimiter
      then delimiter_round k
      else if c == b'\r' || c == b'\n'
      then break_round is_eof k c next
      else one (record {
        state = record st { scanner = record (st.scanner) { saw_data_in_record = true } };
        offset = k.offset + 1;
        span = k.span ++ c ∷ [];
      })

  -- `if(!m_hasRecordStart) ...` at the head of a round outside quotes.
  unfoldable pub ensure_start : Cursor S → Cursor S
  ensure_start k =
      let s = k.state.scanner in
      if s.has_record_start
      then k
      else record k { state = record (k.state) { scanner = start_at s k.offset } }

  -- One round of the loop.
  unfoldable pub round : Bool → CancelCheck S → Cursor S → ℕ → Option ℕ → Round S
  round is_eof cancel k c next =
      let (st, stops) = tick cancel k.state in
      if stops
      then cancelled st
      else if st.scanner.in_quotes
      then quoted_round is_eof (record k { state = st }) c next
      else plain_round is_eof (ensure_start (record k { state = st })) c next

  -- Behind the loop: the bytes that no callback has seen, and the last record of the file.
  unfoldable pub finish : Bool → ℕ → Cursor S → Bool × State S
  finish is_eof chunk_end k =
      let st = emit_span k.state k.span in
      let s = st.scanner in
      if is_eof && (s.saw_data_in_record || s.in_quotes)
      then (true, end_record cb (flush_field cb st) (u64 chunk_end))
      else (true, st)

  -- What the loop does with the outcome of a round; the functions go on behind one byte or two.
  unfoldable pub follow :
      Bool
      → ℕ
      → (Cursor S → Bool × State S)
      → (Cursor S → Bool × State S)
      → Round S
      → Bool × State S
  follow is_eof chunk_end on_one on_two (cancelled st) = (false, st)
  follow is_eof chunk_end on_one on_two (stop k) = finish is_eof chunk_end k
  follow is_eof chunk_end on_one on_two (one k) = on_one k
  follow is_eof chunk_end on_one on_two (two k) = on_two k

  unfoldable pub loop : Bool → CancelCheck S → ℕ → Cursor S → Bytes → Bool × State S
  loop is_eof cancel chunk_end k [] = finish is_eof chunk_end k
  loop is_eof cancel chunk_end k (c ∷ []) =
      follow is_eof chunk_end (finish is_eof chunk_end) (finish is_eof chunk_end)
        (round is_eof cancel k c none)
  loop is_eof cancel chunk_end k (c ∷ d ∷ rest) =
      follow is_eof chunk_end (λ k'. loop is_eof cancel chunk_end k' (d ∷ rest))
        (λ k'. loop is_eof cancel chunk_end k' rest) (round is_eof cancel k c (some d))

  -- A quote inside quotes at the end of the last chunk.
  unfoldable pub resolve_quote : Bool → State S → ℕ → Bytes → State S × ℕ × Bytes
  resolve_quote is_eof st offset [] =
      let s = st.scanner in
      if s.pending_quote && is_eof
      then (
        record st { scanner = record s { pending_quote = false; in_quotes = false } },
        offset,
        [],
      )
      else (st, offset, [])
  resolve_quote is_eof st offset (c ∷ rest) =
      let s = record (st.scanner) { pending_quote = false } in
      if st.scanner.pending_quote
      then if c == b'"'
        then (let st' = emit_fragment cb (record st { scanner = s }) (b'"' ∷ []) false in
            (record st' { scanner = record (st'.scanner) { in_quotes = true } }, offset + 1, rest))
        else (record st { scanner = record s { in_quotes = false } }, offset, c ∷ rest)
      else (st, offset, c ∷ rest)

  -- `feed` behind its probe for a byte order mark, at the byte `offset` of the source.
  unfoldable pub feed_body : Bool → CancelCheck S → ℕ → State S → ℕ → Bytes → Bool × State S
  feed_body is_eof cancel chunk_end st offset bytes =
      let (st1, o1, b1) = resolve_cr is_eof (first_start st offset) offset bytes in
      let (st2, o2, b2) = resolve_quote is_eof st1 o1 b1 in
      loop is_eof cancel chunk_end (record { state = st2; offset = o2; span = [] }) b2

  -- The probe once its buffer has been filled as far as the chunk goes. The nested `feed` of what
  -- was buffered finds the probe done, so it is `feed_body` at offset 0.
  unfoldable pub probe_filled : Bool → CancelCheck S → State S → Bytes → ℕ → Bytes → Probe S
  probe_filled is_eof cancel st buffer offset rest =
      let s = st.scanner in
      let s' = record s { bom_checked = true; has_record_start = true; bom_buffer = [] } in
      let plain = record st { scanner = record s' { has_bom = false; current_record_start = 0 } } in
      let nested = feed_body false cancel (length buffer) plain 0 buffer in
      if leb 3 (length buffer) || is_eof
      then if leb 3 (length buffer) && is_bom buffer
        then ready (record st { scanner = record s' { has_bom = true; current_record_start = 3 } })
            offset rest
        else if is_empty buffer
        then ready plain offset rest
        else if nested.0
        then ready nested.1 offset rest
        else failed nested.1
      else waiting (record st { scanner = record s { bom_buffer = buffer } })

  -- The third case of the probe: the first bytes come in chunks of less than three.
  unfoldable pub probe_buffered : Bool → CancelCheck S → State S → ℕ → Bytes → Probe S
  probe_buffered is_eof cancel st base chunk =
      let buffer = st.scanner.bom_buffer in
      let taken = min (3 - length buffer) (length chunk) in
      probe_filled is_eof cancel st (buffer ++ take taken chunk) (base + taken) (drop taken chunk)

  unfoldable pub probe : Bool → CancelCheck S → State S → ℕ → Bytes → Probe S
  probe is_eof cancel st base chunk =
      let s = st.scanner in
      let s' = record s { bom_checked = true; has_bom = false; has_record_start = true } in
      if s.bom_checked
      then ready st base chunk
      else if ltb 0 base && is_empty s.bom_buffer
      then ready (record st { scanner = record s' { current_record_start = u64 base } }) base chunk
      else if is_empty s.bom_buffer && base == 0 && leb 3 (length chunk)
      then if is_bom chunk
        then ready (record st { scanner = record s' { has_bom = true; current_record_start = 3 } })
            (base + 3) (drop 3 chunk)
        else ready (record st { scanner = record s' { current_record_start = 0 } }) base chunk
      else probe_buffered is_eof cancel st base chunk

  -- `feed` behind its probe.
  unfoldable pub after_probe : Bool → CancelCheck S → ℕ → Probe S → Bool × State S
  after_probe is_eof cancel chunk_end (waiting st) = (true, st)
  after_probe is_eof cancel chunk_end (failed st) = (false, st)
  after_probe is_eof cancel chunk_end (ready st offset bytes) =
      feed_body is_eof cancel chunk_end st offset bytes

  unfoldable pub feed : State S → Bytes → ℕ → Bool → CancelCheck S → Bool × State S
  feed st chunk base is_eof cancel =
      after_probe is_eof cancel (base + length chunk) (probe is_eof cancel st base chunk)
