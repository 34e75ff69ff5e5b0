-- ===== src/FileSource/Indexing.antt =====
-- `CsvFileSource::advanceIndex`: one more slice of the file goes through the scanner that `open` left.
use data_table_viewer.Prelude.{
  ℕ, ◌+◌, ◌-◌, min, Bool, true, false, Option, none, some, ltb, leb, if◌then◌else◌, Bytes,
}
use data_table_viewer.Prelude.Int.{pos}
use data_table_viewer.Scanner.{Scanner, CancelCheck}
use data_table_viewer.Scanner.Feed.{feed}
use data_table_viewer.Index.{FileOps, mark_complete, is_complete}
use data_table_viewer.FileSource.State.{
  SourceOps, SourceError, source_changed_error, not_open, scan_stopped, append_failed,
  finalize_failed, index_broken, Intake, CsvFileSource, ok, err, read_bytes, verify_unchanged,
}
use data_table_viewer.FileSource.Sampling.{intake_callbacks}

abbrev pub min_slice_bytes : ℕ
min_slice_bytes = 4096

-- `core::IndexProgress`
pub record IndexProgress : Type 0 where
  pub indexed_rows : ℕ
  pub scanned_bytes : ℕ
  pub complete : Bool
  pub error : Option SourceError

module _ {F H : Type 0} where
  -- The progress of a source, as the failing branches report it.
  unfoldable pub progress_of : Option SourceError → CsvFileSource F H → IndexProgress
  progress_of e x = record {
    indexed_rows = x.intake.index.header.data_record_count;
    scanned_bytes = x.scan_offset;
    complete = false;
    error = e;
  }

  unfoldable pub stopped : SourceError → CsvFileSource F H → IndexProgress × CsvFileSource F H
  stopped e x = (progress_of (some e) x, x)

  unfoldable pub scan_broken : SourceError → CsvFileSource F H → IndexProgress × CsvFileSource F H
  scan_broken e x = stopped e (record x { intake = record (x.intake) { scan_failed = true } })

module _ {F H : Type 0} (ops : FileOps F) where
  -- What follows a slice that has been fed.
  unfoldable pub after_slice : Bool → CsvFileSource F H → IndexProgress × CsvFileSource F H
  after_slice is_eof x =
      let r = mark_complete ops x.intake.index in
      let x' = record x { intake = record (x.intake) { index = r.1 } } in
      let total = r.1.header.data_record_count in
      let done = record x' { known_total = some (pos total) } in
      if x.intake.scan_failed
      then stopped append_failed x
      else if is_eof
      then if r.0
        then (record (progress_of none done) { complete = true }, done)
        else stopped finalize_failed x'
      else (progress_of none x, x)

module _ {F H : Type 0} (ops : FileOps F) (files : SourceOps H)
    (cancel : CancelCheck (Intake F)) where
  unfoldable pub feed_slice :
      Scanner → CsvFileSource F H → Bytes → ℕ → IndexProgress × CsvFileSource F H
  feed_slice scanner x chunk to_read =
      let is_eof = leb x.opened_as.size (x.scan_offset + to_read) in
      let r =
        feed (intake_callbacks ops) (record { scanner = scanner; out = x.intake }) chunk
          x.scan_offset is_eof cancel in
      let x' = record x { intake = r.1.out; index_scanner = some r.1.scanner } in
      if r.0
      then after_slice ops is_eof (record x' { scan_offset = x.scan_offset + to_read })
      else scan_broken scan_stopped x'

  unfoldable pub read_slice : ℕ → Scanner → CsvFileSource F H → IndexProgress × CsvFileSource F H
  read_slice byte_budget scanner x =
      let budget = if ltb byte_budget min_slice_bytes then min_slice_bytes else byte_budget in
      let to_read = min budget (x.opened_as.size - x.scan_offset) in
      let r = read_bytes files x.scan_offset to_read x in
      elim r.0 [ err e ↦ scan_broken e r.1 | ok chunk ↦ feed_slice scanner r.1 chunk to_read ]

  unfoldable pub advance_index : ℕ → CsvFileSource F H → IndexProgress × CsvFileSource F H
  advance_index byte_budget x =
      let v = verify_unchanged files x in
      let complete = record (progress_of none x) {
        scanned_bytes = x.opened_as.size;
        complete = true;
      } in
      if x.source_changed
      then stopped source_changed_error x
      else if x.intake.index.failed
      then stopped index_broken x
      else if is_complete x.intake.index
      then (complete, x)
      else elim x.index_scanner [
        | none ↦ stopped not_open x
        | some scanner ↦
            if x.intake.scan_failed
            then stopped scan_stopped x
            else elim v.0 [ some e ↦ stopped e v.1 | none ↦ read_slice byte_budget scanner v.1 ]
      ]
