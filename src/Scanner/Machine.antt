-- ===== src/Scanner/Machine.antt =====
-- What a scan means, with no chunks, spans or pending flags: a machine that takes one byte at a
-- time and hands every byte of a field to its sink at once. It is RFC 4180 with three liberties
-- of the source: a quote may open inside a field, a lone CR ends a record, and text may follow a
-- closing quote.
use data_table_viewer.Prelude.{
  ℕ, ◌+◌, Bool, true, false, ◌||◌, [], ◌∷◌, ◌++◌, ◌≡◌, none, some, ltb, ◌==◌, if◌then◌else◌, length,
  drop, Bytes, u64,
}
use data_table_viewer.Scanner.{Callbacks, max_columns, is_bom}

pub data Mode : Type 0 where
  plain quoted quote_seen cr_seen : Mode

-- Behind a CR the next record has no start yet: `start` is 0 until a byte follows.
pub record Machine (S : Type 0) : Type 0 where
  pub mode : Mode
  pub ordinal : ℕ
  pub start : ℕ
  pub saw : Bool
  pub col : ℕ
  pub out : S

abbrev pub is_quoted : Mode → Bool
is_quoted quoted = true
is_quoted _ = false

abbrev pub fresh : {S : Type 0} → ℕ → S → Machine S
fresh start s = record { mode = plain; ordinal = 0; start = start; saw = false; col = 0; out = s }

module _ {S : Type 0} (cb : Callbacks S) where
  -- A piece of a field, for the columns that are kept.
  unfoldable pub field : ℕ → Bytes → Bool → S → S
  field col bytes is_end s = elim cb.on_field_fragment [
    | none ↦ s
    | some call ↦ if ltb col max_columns then call col bytes is_end s else s
  ]

  unfoldable pub record_end : ℕ → ℕ → ℕ → S → S
  record_end ordinal start end_offset s = elim cb.on_record [
    | none ↦ s
    | some call ↦ call ordinal start end_offset s
  ]

  -- The sink sees a field as one stream of bytes: how it is cut into fragments is no matter.
  pub record IsStream : Type 0 where
    pub field-nil : (col : ℕ) (s : S) → field col [] false s ≡ s
    pub field-append :
        (col : ℕ) (a b : Bytes) (is_end : Bool) (s : S)
        → field col (a ++ b) is_end s ≡ field col b is_end (field col a false s)

  -- The record ends before the byte at `offset`.
  unfoldable pub end_row : Machine S → ℕ → Machine S
  end_row m offset = record m {
    ordinal = u64 (m.ordinal + 1);
    saw = false;
    col = 0;
    out = record_end m.ordinal m.start (u64 offset) (field m.col [] true m.out);
  }

  unfoldable pub plain_byte : ℕ → Machine S → ℕ → ℕ → Machine S
  unfolding end_row
  plain_byte delimiter m offset c =
      if c == b'"'
      then record m { mode = quoted; saw = true }
      else if c == delimiter
      then record m { saw = true; col = u64 (m.col + 1); out = field m.col [] true m.out }
      else if c == b'\r'
      then record (end_row m offset) { mode = cr_seen; start = 0 }
      else if c == b'\n'
      then record (end_row m offset) { start = u64 (offset + 1) }
      else record m { saw = true; out = field m.col (c ∷ []) false m.out }

  unfoldable pub quoted_byte : Machine S → ℕ → Machine S
  quoted_byte m c =
      if c == b'"'
      then record m { mode = quote_seen }
      else record m { out = field m.col (c ∷ []) false m.out }

  unfoldable pub step_in : Mode → ℕ → Machine S → ℕ → ℕ → Machine S
  unfolding plain_byte quoted_byte
  step_in plain delimiter m offset c = plain_byte delimiter m offset c
  step_in quoted delimiter m offset c = quoted_byte m c
  step_in quote_seen delimiter m offset c =
      if c == b'"'
      then record m { mode = quoted; out = field m.col (c ∷ []) false m.out }
      else plain_byte delimiter (record m { mode = plain }) offset c
  step_in cr_seen delimiter m offset c =
      if c == b'\n'
      then record m { mode = plain; start = u64 (offset + 1) }
      else plain_byte delimiter (record m { mode = plain; start = u64 offset }) offset c

  abbrev pub step : ℕ → Machine S → ℕ → ℕ → Machine S
  step delimiter m = step_in m.mode delimiter m

  unfoldable pub run : ℕ → Machine S → ℕ → Bytes → Machine S
  unfolding step_in
  run delimiter m offset [] = m
  run delimiter m offset (c ∷ rest) = run delimiter (step delimiter m offset c) (offset + 1) rest

  -- At the end of the source a record that holds anything ends, in quotes or not.
  unfoldable pub close : Machine S → ℕ → S
  unfolding end_row
  close m offset = if m.saw || is_quoted m.mode then (end_row m offset).out else m.out

  -- The machine once it has read the first bytes of a source: a byte order mark is no data.
  unfoldable pub read_prefix : ℕ → S → Bytes → Machine S
  read_prefix delimiter s bytes =
      if is_bom bytes
      then run delimiter (fresh 3 s) 3 (drop 3 bytes)
      else run delimiter (fresh 0 s) 0 bytes

  -- What a whole source makes of `s`.
  unfoldable pub reference : ℕ → S → Bytes → S
  reference delimiter s bytes = close (read_prefix delimiter s bytes) (length bytes)
