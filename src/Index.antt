-- ===== src/Index.antt =====
-- `CsvRecordIndex` of src/parsers/csv_record_index.h and src/parsers/csv_record_index.cpp: where the
-- records of a source stand, in memory and in a temporary file.
pub mod Lookup
pub mod Holds
pub mod Append
pub mod Flush
pub mod Complete
pub mod Read
pub mod Refinement
use data_table_viewer.Prelude.{
  ℕ, zero, suc, ◌+◌, ◌-◌, ◌*◌, ◌^◌, ◌≤◌, ◌<◌, min, Bool, true, false, not, ◌&&◌, List, [], ◌∷◌,
  ◌++◌, Option, none, some, ◌≡◌, ltb, leb, if◌then◌else◌, length, is_empty, get_elem?, u64,
}
use data_table_viewer.Prelude.Int.{ℤ, pos, negsuc, ◌+ℤ◌}

abbrev pub max_cached_spans : ℕ
max_cached_spans = 65536

abbrev pub write_buffer_size : ℕ
write_buffer_size = 4096

abbrev pub block_read_size : ℕ
block_read_size = 2048

-- `CsvIndexHeader`, less its constant and reserved bytes.
pub record Header : Type 0 where
  pub header_start : ℕ
  pub header_end : ℕ
  pub data_record_count : ℕ
  pub column_count : ℕ
  pub delimiter : ℕ
  pub has_bom : Bool
  pub is_complete : Bool

-- `CsvRecordSpan`
pub record Span : Type 0 where
  pub start : ℕ
  pub end_offset : ℕ

-- The messages of `m_error`; those of the file calls are one.
pub data IndexError : Type 0 where
  index_failed inverted_span invalid_handle file_failed : IndexError

-- The calls of the C library on an open index file, each with its seek: they say whether they
-- have done all that was asked.
pub record FileOps (F : Type 0) : Type 0 where
  pub write_spans : F → ℕ → List Span → Bool × F
  pub read_block : F → ℕ → ℕ → Option (List Span) × F
  pub write_header : F → Header → Bool × F

-- What the code relies on: a file holds what has been written to it. `span_at` is the span whose
-- 16 bytes start at a place of the file.
pub record FileLaws {F : Type 0} (ops : FileOps F) : Type 0 where
  pub span_at : F → ℕ → Option Span
  pub written :
      (f : F) (offset : ℕ) (spans : List Span)
      → (ops.write_spans f offset spans).0 ≡ true
      → (i : ℕ) → i < length spans
      → span_at (ops.write_spans f offset spans).1 (offset + i * 16) ≡ get_elem? spans i
  pub untouched :
      (f : F) (offset : ℕ) (spans : List Span) (k : ℕ)
      → k + 16 ≤ offset
      → span_at (ops.write_spans f offset spans).1 k ≡ span_at f k
  pub read_right :
      (f : F) (offset count : ℕ) (spans : List Span)
      → (ops.read_block f offset count).0 ≡ some spans
      → (length spans ≡ count)
        × ((i : ℕ) → i < count → get_elem? spans i ≡ span_at f (offset + i * 16))
  pub read_keeps :
      (f : F) (offset count k : ℕ) → span_at (ops.read_block f offset count).1 k ≡ span_at f k
  pub header_keeps :
      (f : F) (h : Header) (k : ℕ) → 64 ≤ k → span_at (ops.write_header f h).1 k ≡ span_at f k

-- `CsvRecordIndex` with its `Impl`; `fileHandle` is null, or open on a file.
-- `blockStartOrdinal` is -1 for none.
pub record Index (F : Type 0) : Type 0 where
  pub header : Header
  pub file : Option F
  pub ram_cache : List Span
  pub write_buffer : List Span
  pub block_cache : List Span
  pub block_start : Option ℕ
  pub failed : Bool
  pub error : Option IndexError

abbrev pub empty_header : Header
empty_header = record {
  header_start = 0;
  header_end = 0;
  data_record_count = 0;
  column_count = 0;
  delimiter = b',';
  has_bom = false;
  is_complete = false;
}

-- Where span `n` stands in the file: behind a header of 64 bytes, 16 bytes each.
unfoldable pub span_offset : ℕ → ℕ
span_offset n = u64 (64 + u64 (n * 16))

module _ {F : Type 0} where
  -- Step 2: whether the window holds `n`.
  unfoldable pub in_window : ℕ → Index F → Bool
  in_window n x = elim x.block_start [
    | none ↦ false
    | some b ↦ leb b n && ltb (n - b) (length x.block_cache)
  ]

  unfoldable pub window_at : ℕ → Index F → Option Span
  window_at n x = elim x.block_start [ none ↦ none | some b ↦ get_elem? x.block_cache (n - b) ]

  unfoldable pub set_header_byte_span : ℕ → ℕ → Index F → Index F
  set_header_byte_span start end_offset x = record x {
    header = record x.header { header_start = start; header_end = end_offset };
  }

  unfoldable pub set_metadata : ℕ → ℕ → Bool → Index F → Index F
  set_metadata columns delimiter bom x = record x {
    header = record x.header { column_count = columns; delimiter = delimiter; has_bom = bom };
  }

  unfoldable pub is_complete : Index F → Bool
  is_complete x = x.header.is_complete && not x.failed

  -- What `readSpan` makes of the block that it has read from `n` on.
  unfoldable pub take_block : ℕ → Index F → Option (List Span) × F → Option Span × Index F
  take_block n x (none, f) = (
    none,
    record x {
      file = some f;
      failed = true;
      error = some file_failed;
      block_cache = [];
      block_start = none;
    },
  )
  take_block n x (some spans, f) =
      (get_elem? spans 0, record x { file = some f; block_cache = spans; block_start = some n })

module _ {F : Type 0} (ops : FileOps F) where
  unfoldable pub flush_buffer : Index F → Bool × Index F
  flush_buffer x = if is_empty x.write_buffer then (true, x) else elim x.file [
    | none ↦ (false, record x { error = some invalid_handle })
    | some f ↦
        let place =
          span_offset (u64 (x.header.data_record_count + 2 ^ 64 - length x.write_buffer)) in
        let r = ops.write_spans f place x.write_buffer in
        if r.0
        then (true, record x { file = some r.1; write_buffer = [] })
        else (false, record x { file = some r.1; error = some file_failed })
  ]

  -- `Impl::writeHeader`
  unfoldable pub put_header : Index F → Bool × Index F
  put_header x = elim x.file [
    | none ↦ (false, record x { error = some invalid_handle })
    | some f ↦
        let r = ops.write_header f x.header in
        if r.0
        then (true, record x { file = some r.1 })
        else (false, record x { file = some r.1; error = some file_failed })
  ]

  -- `created` is the file that `createPrivateIndexFile` opens, if it can.
  unfoldable pub init : Option F → Index F → Bool × Index F
  init created x =
      let x' : Index F = record {
        header = empty_header;
        file = created;
        ram_cache = [];
        write_buffer = [];
        block_cache = [];
        block_start = none;
        failed = false;
        error = x.error;
      } in
      elim created [
        | none ↦ (false, record x' { error = some file_failed })
        | some f ↦ put_header x'
      ]

  -- `appendSpan` behind its guards.
  unfoldable pub add_span : Span → Index F → Bool × Index F
  add_span span x =
      let x' = record x {
        ram_cache =
            if ltb (length x.ram_cache) max_cached_spans
            then x.ram_cache ++ span ∷ []
            else x.ram_cache;
        write_buffer = x.write_buffer ++ span ∷ [];
        header = record x.header { data_record_count = u64 (x.header.data_record_count + 1) };
      } in
      let r = flush_buffer x' in
      if leb write_buffer_size (length x'.write_buffer)
      then (if r.0 then (true, r.1) else (false, record r.1 { failed = true }))
      else (true, x')

  unfoldable pub append_span : ℕ → ℕ → Index F → Bool × Index F
  append_span start end_offset x =
      if x.failed
      then (false, record x { error = some index_failed })
      else if ltb end_offset start
      then (false, record x { error = some inverted_span })
      else add_span (record { start = start; end_offset = end_offset }) x

  -- Step 4 of `readSpan`: the block that starts at `n` becomes the window. A null handle, which no
  -- caller gets here with, is taken as a read that fails.
  unfoldable pub read_window : ℕ → Index F → Option Span × Index F
  read_window n x = elim x.file [
    | none ↦ (
      none,
      record x { failed = true; error = some file_failed; block_cache = []; block_start = none },
    )
    | some f ↦
        take_block n x
          (ops.read_block f (span_offset n) (min block_read_size (x.header.data_record_count - n)))
  ]

  -- Steps 3 and 4: what has not been written yet is written first.
  unfoldable pub read_file : ℕ → Index F → Option Span × Index F
  read_file n x =
      let r = flush_buffer x in
      if r.0 then read_window n r.1 else (none, record r.1 { failed = true })

  unfoldable pub read_span : ℤ → Index F → Option Span × Index F
  read_span (negsuc n) x = (none, x)
  read_span (pos n) x =
      if x.failed
      then (none, x)
      else if leb x.header.data_record_count n
      then (none, x)
      else if ltb n (length x.ram_cache)
      then (get_elem? x.ram_cache n, x)
      else if in_window n x
      then (window_at n x, x)
      else read_file n x

  -- The loop of `readSpans` from index `i` on, which ends at the first span that cannot be read.
  unfoldable pub read_spans : ℤ → ℕ → ℕ → Index F → List Span × Index F
  read_spans first i zero x = ([], x)
  read_spans first i (suc count) x =
      let r = read_span (first +ℤ pos i) x in
      elim r.0 [
        | none ↦ ([], r.1)
        | some span ↦ let (spans, x') = read_spans first (i + 1) count r.1 in (span ∷ spans, x')
      ]

  unfoldable pub flush : Index F → Bool × Index F
  flush x =
      let r = flush_buffer x in
      let w = put_header r.1 in
      if x.failed
      then (false, x)
      else if not r.0
      then (false, record r.1 { failed = true })
      else if not w.0
      then (false, record w.1 { failed = true })
      else (true, w.1)

  unfoldable pub mark_complete : Index F → Bool × Index F
  mark_complete x =
      let r = flush (record x { header = record x.header { is_complete = true } }) in
      if x.failed
      then (false, x)
      else if r.0
      then (true, r.1)
      else (false, record r.1 { header = record r.1.header { is_complete = false } })
