-- ===== src/FileSource/State.antt =====
-- The state of `CsvFileSource`, and its reads of the source file.
use data_table_viewer.Prelude.{
  ℕ, Bool, true, false, ◌||◌, not, List, [], Option, none, some, ◌==◌, if◌then◌else◌, replicate,
  Bytes,
}
use data_table_viewer.Prelude.Int.{ℤ, pos, negsuc}
use data_table_viewer.Scanner.{Scanner, max_columns}
use data_table_viewer.Table.{ColumnMeta, TableData}
use data_table_viewer.Index.{Index}

-- What `fstat` says: size, identity and write time.
pub record FileStat : Type 0 where
  pub size : ℕ
  pub device : ℕ
  pub serial : ℕ
  pub write_time : ℕ

-- The calls of the C library on the source file. An open file may change under its handle, so a
-- call hands back the handle as it leaves it. `read_at` seeks and reads, and gives nothing where
-- it does not get all bytes that it is asked for.
pub record SourceOps (H : Type 0) : Type 0 where
  pub open_file : Bytes → Option H
  pub read_at : H → ℕ → ℕ → Option Bytes × H
  pub stat_file : H → Option FileStat × H

-- The messages of the source and of its results, and those that the worker knows of other sources:
-- the two of an interrupt, those of a sort, and `engine_error` for any other text.
pub data SourceError : Type 0 where
  source_changed_error not_open stat_failed read_failed index_init_failed open_failed empty_file
        scan_stopped no_header no_data append_failed finalize_failed index_broken invalid_page
        page_cancelled not_indexed_yet spans_failed invalid_token total_required missing_ordinal
        out_of_range budget_exceeded interrupted sort_failed sort_unsupported :
      SourceError
  engine_error : Bytes → SourceError

-- What the callbacks of the scan write to: the index, the sample, and the error message.
pub record Intake (F : Type 0) : Type 0 where
  pub index : Index F
  pub error : Option SourceError
  pub has_scanned_header : Bool
  pub scan_failed : Bool
  pub sampling : Bool
  pub sample_row : List Bytes
  pub sample_cell : Bytes
  pub sample : TableData (Unit {0})
  pub long_sample_cells : List Bool
  pub trimmed_sample_cells : List Bool

-- `CsvFileSource` with its `Impl`.
pub record CsvFileSource (F H : Type 0) : Type 0 where
  pub handle : Option H
  pub opened_as : FileStat
  pub source_changed : Bool
  pub file_path : Bytes
  pub delimiter : ℕ
  pub initial_delimiter : ℕ
  pub columns : List ColumnMeta
  pub known_total : Option ℤ
  pub scan_offset : ℕ
  pub index_scanner : Option Scanner
  pub intake : Intake F

-- The outcome of a step that may fail.
pub data Outcome (A : Type 0) : Type 0 where
  ok : A → Outcome A
  err : SourceError → Outcome A

abbrev pub empty_sample : TableData (Unit {0})
empty_sample = record {
  columns = [];
  rows = [];
  total_rows = 0;
  truncated = false;
  numeric_cache = [];
}

abbrev pub no_flags : List Bool
no_flags = replicate max_columns false

abbrev pub no_stat : FileStat
no_stat = record { size = 0; device = 0; serial = 0; write_time = 0 }

module _ {F H : Type 0} where
  -- `resetForOpen` drops the size; the identity is set again when the file is opened.
  unfoldable pub reset_for_open : CsvFileSource F H → CsvFileSource F H
  reset_for_open x = record x {
    file_path = [];
    opened_as = record (x.opened_as) { size = 0 };
    source_changed = false;
    scan_offset = 0;
    columns = [];
    known_total = none;
    index_scanner = none;
    intake = record (x.intake) {
      has_scanned_header = false;
      scan_failed = false;
      sampling = false;
      sample_row = [];
      sample_cell = [];
      sample = empty_sample;
      long_sample_cells = [];
      trimmed_sample_cells = no_flags;
    };
  }

  unfoldable pub row_count : CsvFileSource F H → Option ℤ
  row_count x = x.known_total

  unfoldable pub set_known_total : ℤ → CsvFileSource F H → CsvFileSource F H
  set_known_total (negsuc n) x = x
  set_known_total (pos n) x = record x { known_total = some (pos n) }

-- Whether the file that is open is not the one that was opened.
unfoldable pub differs : FileStat → FileStat → Bool
differs a b =
    not (a.device == b.device)
    || (not (a.serial == b.serial)
        || (not (a.size == b.size) || not (a.write_time == b.write_time)))

module _ {F H : Type 0} (files : SourceOps H) where
  unfoldable pub read_bytes : ℕ → ℕ → CsvFileSource F H → Outcome Bytes × CsvFileSource F H
  read_bytes offset size x = elim x.handle [
    | none ↦ (err not_open, x)
    | some h ↦
        let r = files.read_at h offset size in
        if size == 0 then (ok [], x) else elim r.0 [
          | none ↦ (err read_failed, record x { handle = some r.1 })
          | some bytes ↦ (ok bytes, record x { handle = some r.1 })
        ]
  ]

  -- `none` where the file is as it was; a change is latched.
  unfoldable pub verify_unchanged : CsvFileSource F H → Option SourceError × CsvFileSource F H
  verify_unchanged x = if x.source_changed then (some source_changed_error, x) else elim x.handle [
    | none ↦ (some not_open, x)
    | some h ↦
        let r = files.stat_file h in
        let x' = record x { handle = some r.1 } in
        elim r.0 [
          | none ↦ (some stat_failed, x')
          | some info ↦
              if differs info x.opened_as
              then (some source_changed_error, record x' { source_changed = true })
              else (none, x')
        ]
  ]
