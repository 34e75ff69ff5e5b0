-- ===== src/FileSource/Opening.antt =====
-- `CsvFileSource::open`: the scan of the first part of a file, and the schema that it freezes.
use data_table_viewer.Prelude.{
  ℕ, zero, suc, ◌+◌, ◌-◌, ◌%◌, ◌^◌, min, Bool, true, false, not, ◌&&◌, ◌||◌, List, [], ◌∷◌, Option,
  none, some, leb, ◌==◌, if◌then◌else◌, length, is_empty, Bytes,
}
use data_table_viewer.Prelude.Int.{pos}
use data_table_viewer.Scanner.{Scanner, State, CancelCheck}
use data_table_viewer.Scanner
use data_table_viewer.Scanner.Delimiter.{detect_delimiter, sample_bytes}
use data_table_viewer.Scanner.Feed.{feed}
use data_table_viewer.Table.{ColumnMeta, string}
use data_table_viewer.Inferrer.{infer}
use data_table_viewer.Index.{FileOps, init, set_metadata, mark_complete}
use data_table_viewer.FileSource.State.{
  FileStat, SourceOps, SourceError, index_init_failed, open_failed, empty_file, scan_stopped,
  no_header, no_data, finalize_failed, Intake, CsvFileSource, ok, err, Outcome, empty_sample,
  reset_for_open, read_bytes,
}
use data_table_viewer.FileSource.Sampling.{max_sample_rows, intake_callbacks}

abbrev pub max_header_scan_bytes : ℕ
max_header_scan_bytes = 2097152

abbrev pub chunk_size : ℕ
chunk_size = 262144

abbrev pub max_sample_scan_bytes : ℕ
max_sample_scan_bytes = 2097152

-- How a round of the scan ends: `break`, another round, or a return from `open`.
pub data ScanStep (F H : Type 0) : Type 0 where
  broke : Scanner → CsvFileSource F H → ScanStep F H
  going : Scanner → CsvFileSource F H → ScanStep F H
  aborted : CsvFileSource F H → ScanStep F H

-- The columns of the sample whose cells have been long are text.
unfoldable pub force_strings : List Bool → List ColumnMeta → List ColumnMeta
force_strings [] columns = columns
force_strings (long ∷ flags) [] = []
force_strings (long ∷ flags) (column ∷ columns) =
    (if long then record column { kind = string } else column) ∷ force_strings flags columns

module _ {F H : Type 0} where
  unfoldable pub fail : SourceError → CsvFileSource F H → CsvFileSource F H
  fail e x = record x { intake = record (x.intake) { error = some e } }

  -- What follows a chunk that has been fed.
  unfoldable pub after_chunk : Bool → Scanner → CsvFileSource F H → ScanStep F H
  after_chunk is_eof scanner x =
      let i = x.intake in
      if i.scan_failed
      then aborted x
      else if not i.has_scanned_header && leb max_header_scan_bytes x.scan_offset
      then aborted (fail no_header x)
      else if i.has_scanned_header
          && (leb max_sample_rows (length i.sample.rows)
              || (is_eof || leb max_sample_scan_bytes x.scan_offset))
      then broke scanner x
      else going scanner x

  -- The sample becomes the schema.
  unfoldable pub freeze_schema :
      (Bytes → (Unit {0}) × ℕ) → Scanner → CsvFileSource F H → CsvFileSource F H
  freeze_schema strtod scanner x =
      let i = x.intake in
      let columns = force_strings i.long_sample_cells (infer strtod tt i.sample).columns in
      record x {
        columns = columns;
        intake = record i {
          sampling = false;
          sample = empty_sample;
          sample_row = [];
          sample_cell = [];
          index = set_metadata (length columns % 2 ^ 32) x.delimiter scanner.has_bom i.index;
        };
      }

-- `ops` are the calls on the index file, and `files` those on the source file.
module _ {F H : Type 0} (ops : FileOps F) (files : SourceOps H)
    (cancel : CancelCheck (Intake F)) where
  unfoldable pub feed_chunk : Scanner → CsvFileSource F H → Bytes → ℕ → Bool → ScanStep F H
  feed_chunk scanner x chunk to_read is_eof =
      let r =
        feed (intake_callbacks ops) (record { scanner = scanner; out = x.intake }) chunk
          x.scan_offset is_eof cancel in
      let x' = record x { intake = r.1.out } in
      if r.0
      then after_chunk is_eof r.1.scanner (record x' { scan_offset = x.scan_offset + to_read })
      else aborted (fail scan_stopped x')

  unfoldable pub scan_round : Scanner → CsvFileSource F H → ScanStep F H
  scan_round scanner x =
      let to_read = min chunk_size (x.opened_as.size - x.scan_offset) in
      let r = read_bytes files x.scan_offset to_read x in
      elim r.0 [
        | err e ↦ aborted (fail e r.1)
        | ok chunk ↦
            feed_chunk scanner r.1 chunk to_read (leb x.opened_as.size (x.scan_offset + to_read))
      ]

  -- The loop of the scan, with a bound on its rounds; `none` where the bound is met.
  unfoldable pub scan_sample : ℕ → Scanner → CsvFileSource F H → Option (ScanStep F H)
  scan_sample zero scanner x =
      if leb x.opened_as.size x.scan_offset then some (broke scanner x) else none
  scan_sample (suc rounds) scanner x =
      let round : Option (ScanStep F H) = elim (scan_round scanner x) [
        | broke scanner' x' ↦ some (broke scanner' x')
        | going scanner' x' ↦ scan_sample rounds scanner' x'
        | aborted x' ↦ some (aborted x')
      ] in
      if leb x.opened_as.size x.scan_offset then some (broke scanner x) else round

  -- The end of `open`: the schema is frozen, and a file that has been read whole is all indexed.
  unfoldable pub conclude :
      (Bytes → (Unit {0}) × ℕ) → Scanner → CsvFileSource F H → Bool × CsvFileSource F H
  conclude strtod scanner x =
      let x' = freeze_schema strtod scanner x in
      let r = mark_complete ops x'.intake.index in
      let marked = record x' { intake = record (x'.intake) { index = r.1 } } in
      if not x.intake.has_scanned_header || is_empty x.intake.sample.columns
      then (false, fail no_data x)
      else if leb x'.opened_as.size x'.scan_offset
      then if r.0
        then (true, record marked { known_total = some (pos r.1.header.data_record_count) })
        else (false, fail finalize_failed marked)
      else (true, record x' { index_scanner = some scanner })

  -- The scan of a file that is not empty, once its delimiter is known. A round takes a byte at
  -- least, so the size of the file bounds the rounds.
  unfoldable pub scan_and_conclude :
      (Bytes → (Unit {0}) × ℕ) → CsvFileSource F H → Bool × CsvFileSource F H
  scan_and_conclude strtod x =
      let x' = record x { intake = record (x.intake) { sampling = true; sample = empty_sample } } in
      elim (scan_sample x'.opened_as.size (Scanner.new x'.delimiter) x') [
        | none ↦ (false, x')
        | some step ↦ elim step [
          | broke scanner y ↦ conclude strtod scanner y
          | going scanner y ↦ (false, y)
          | aborted y ↦ (false, y)
        ]
      ]

  -- The delimiter that was asked for, or the one that the first bytes speak for.
  unfoldable pub resolve_delimiter : CsvFileSource F H → Outcome (Unit {0}) × CsvFileSource F H
  resolve_delimiter x =
      let r = read_bytes files 0 (min sample_bytes x.opened_as.size) x in
      if x.delimiter == 0
      then elim r.0 [
        | err e ↦ (err e, fail e r.1)
        | ok sample ↦ (ok tt, record r.1 { delimiter = detect_delimiter sample })
      ]
      else (ok tt, x)

  -- `open` from the opened file on.
  unfoldable pub open_handle :
      (Bytes → (Unit {0}) × ℕ) → H → CsvFileSource F H → Bool × CsvFileSource F H
  open_handle strtod h x =
      let r = files.stat_file h in
      let info : FileStat = elim r.0 [ none ↦ x.opened_as | some stat ↦ stat ] in
      let x' = record x { handle = some r.1; opened_as = info } in
      let d = resolve_delimiter x' in
      if x'.opened_as.size == 0
      then (false, fail empty_file x')
      else elim d.0 [ err e ↦ (false, d.1) | ok _ ↦ scan_and_conclude strtod d.1 ]

  -- `created` is the temporary file that the index gets, if it gets one.
  unfoldable pub open_source :
      (Bytes → (Unit {0}) × ℕ) → Option F → Bytes → ℕ → CsvFileSource F H → Bool × CsvFileSource F H
  open_source strtod created path delimiter x =
      let y = reset_for_open (record x { handle = none }) in
      let i = init ops created y.intake.index in
      let x' = record y {
        file_path = path;
        delimiter = if delimiter == 0 then x.initial_delimiter else delimiter;
        intake = record (y.intake) { error = none; index = i.1 };
      } in
      if i.0
      then elim (files.open_file path) [
        | none ↦ (false, fail open_failed x')
        | some h ↦ open_handle strtod h x'
      ]
      else (false, fail index_init_failed x')
