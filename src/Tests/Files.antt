-- ===== src/Tests/Files.antt =====
-- A small file, its scan, its slices, and the worker that asks for them.
use data_table_viewer.Prelude.{
  true, false, List, Option, ℕ, [], ◌∷◌, none, some, ◌≡◌, refl, arith, take, drop, Bytes, u64,
}
use data_table_viewer.Prelude.Int.{pos}
use data_table_viewer.Scanner
use data_table_viewer.Scanner.{Scanner, CancelCheck, is_bom, emit_fragment, end_record, flush_field}
use data_table_viewer.Index.{
  empty_header, is_complete, add_span, append_span, flush, flush_buffer, mark_complete, put_header,
  set_header_byte_span, span_offset,
}
use data_table_viewer.Source.{readiness, back_up, is_continuation, utf8_safe_length}
use data_table_viewer.FileSource.State.{
  FileStat, SourceOps, Intake, CsvFileSource, empty_sample, verify_unchanged, differs, read_bytes,
}
use data_table_viewer.FileSource.Opening.{scan_sample}
use data_table_viewer.FileSource.Progress.{Ended, scan_sample-Ended}
use data_table_viewer.FileSource.Indexing.{
  IndexProgress, advance_index, scan_broken, stopped, progress_of, read_slice, feed_slice,
  after_slice,
}
use data_table_viewer.Scanner.Feed.{
  feed, after_probe, probe, feed_body, loop, resolve_quote, resolve_cr, first_start, follow, round,
  tick, plain_round, ensure_start, delimiter_round, close_field, break_round, emit_span, finish,
  next_is, chunk_ends, probe_buffered, probe_filled, quote_round, quoted_round,
}
use data_table_viewer.FileSource.Sampling.{
  add_sample, clear_sample, frozen_columns, frozen_name, mark_long, on_sample_field,
  on_sample_record, sample_limit, take_header, take_row, take_sample, intake_callbacks,
}
use data_table_viewer.Parser.{column_name, digits, pad}
use data_table_viewer.FileSource.Slices.{
  IsSliced, advance_index_lem, IsIndexed, index_all, index_all-IsIndexed,
}
use data_table_viewer.Index.Holds.{Holds}
use data_table_viewer.FileSource.Composition.{Answers, data_spans, scan-Answers}
use data_table_viewer.Scanner.Whole.{started, concat, feed_all}
use data_table_viewer.Scanner.Probe.{delimiter_of}
use data_table_viewer.Scanner.Local.{local_run, local_step, local_plain}
use data_table_viewer.Scanner.Machine.{plain, record_end}
use data_table_viewer.Scanner.Reread.{feed-slice}
use data_table_viewer.Scanner.Records.{SourceRecord, row_fold, records_from, records_fold}
use data_table_viewer.Scanner.Contents.{StandsIn, records_of, AllStandIn, feed_all-records}
use data_table_viewer.Parser.{callbacks, nothing_built}
use data_table_viewer.Parser.Callback.{callbacks-IsStream}
use data_table_viewer.Table.{string}
use data_table_viewer.FileSource.Paging.{PageStops, read_page}
use data_table_viewer.FileSource.PageBudget.{IsPage, read_page-IsPage}
use data_table_viewer.Worker.Pages.{is_pending}
use data_table_viewer.Worker.Csv.{advance_index-readiness}
use data_table_viewer.Tests.Store.{File, file_ops, file_laws, empty_file}

-- `a,b` and a row `1,2`.
abbrev content : Bytes
content = b'a' ∷ b',' ∷ b'b' ∷ b'\n' ∷ b'1' ∷ b',' ∷ b'2' ∷ b'\n' ∷ []

abbrev small_stat : FileStat
small_stat = record { size = 8; device = 1; serial = 2; write_time = 3 }

-- The file is never changed, and its handle is its bytes.
abbrev pub small_file : SourceOps Bytes
small_file = record {
  open_file = λ path. some content;
  read_at = λ h offset size. (some (take size (drop offset h)), h);
  stat_file = λ h. (some small_stat, h);
}

abbrev intake : Intake File
intake = record {
  index = record {
    header = empty_header;
    file = some empty_file;
    ram_cache = [];
    write_buffer = [];
    block_cache = [];
    block_start = none;
    failed = false;
    error = none;
  };
  error = none;
  has_scanned_header = false;
  scan_failed = false;
  sampling = true;
  sample_row = [];
  sample_cell = [];
  sample = empty_sample;
  long_sample_cells = [];
  trimmed_sample_cells = [];
}

abbrev pub source : CsvFileSource File Bytes
source = record {
  handle = some content;
  opened_as = small_stat;
  source_changed = false;
  file_path = [];
  delimiter = b',';
  initial_delimiter = 0;
  columns = [];
  known_total = none;
  scan_offset = 0;
  index_scanner = some (Scanner.new b',');
  intake = intake;
}

scan_sample-Ended_example :
    Ended 8 (scan_sample file_ops small_file none 8 (Scanner.new b',') source)
scan_sample-Ended_example =
    scan_sample-Ended file_ops small_file none 8 (Scanner.new b',') source (omega arith)
      (omega arith) (omega arith)

advance_index_lem_example : IsSliced 8 0 (advance_index file_ops small_file none 262144 source)
advance_index_lem_example = advance_index_lem file_ops small_file none 262144 source

index_all-IsIndexed_example :
    IsIndexed file_ops small_file none (index_all file_ops small_file none 262144 1 source)
index_all-IsIndexed_example =
    index_all-IsIndexed file_ops small_file none 262144 0 source (omega arith)

-- One slice reads the file whole, with no error.
abbrev one_slice : IndexProgress × CsvFileSource File Bytes
one_slice = advance_index file_ops small_file none 262144 source

all_read : (one_slice.0.error ≡ none) × (one_slice.0.complete ≡ true)
unfolding advance_index progress_of is_complete verify_unchanged differs read_slice read_bytes
    feed_slice after_slice feed after_probe probe is_bom feed_body loop resolve_quote resolve_cr
    first_start follow round tick plain_round ensure_start delimiter_round close_field emit_fragment
    break_round chunk_ends emit_span finish next_is probe_buffered probe_filled quote_round
    quoted_round end_record flush_field scan_broken stopped add_sample clear_sample frozen_columns
    frozen_name mark_long on_sample_field on_sample_record sample_limit take_header take_row
    take_sample add_span append_span flush flush_buffer mark_complete put_header
    set_header_byte_span span_offset column_name digits pad back_up is_continuation utf8_safe_length
    Scanner.new u64
all_read = (refl, refl)

advance_index-readiness_example :
    is_pending (
      readiness one_slice.1.source_changed one_slice.1.intake.scan_failed one_slice.1.intake.index
        (pos 0)
        (pos 100))
    ≡ false
advance_index-readiness_example =
    advance_index-readiness file_ops small_file none 262144 source (pos 0) (pos 100) all_read.0
      all_read.1

-- The file in two chunks, the second of which begins inside its last record.
abbrev halves : List Bytes
halves = take 5 content ∷ drop 5 content ∷ []

blank-Holds : Holds file_ops file_laws intake.index []
blank-Holds = record {
  sound = refl;
  counted = refl;
  bounded = omega arith;
  cached = refl;
  disk = [];
  split = refl;
  on_disk = λ f e k h. absurd (omega arith);
  windowed = λ b e i h. absurd (omega arith);
}

scan-Answers_example :
    (let r = feed_all (intake_callbacks file_ops) none (started b',' intake) 0 halves in
      (r.0 ≡ true)
      × Answers file_ops r.1.out.index
          (data_spans (records_of (delimiter_of b',') (concat halves)))
          (pos 0))
scan-Answers_example =
    scan-Answers file_ops file_laws none (λ s. refl) b',' intake (take 5 content)
      (drop 5 content ∷ []) (pos 0) blank-Holds (omega arith)

-- The one record behind the header stands from byte 4 to byte 7.
one_record : data_spans (records_of b',' content) ≡ record { start = 4; end_offset = 7 } ∷ []
unfolding records_of is_bom records_from local_step local_plain u64
one_record = refl

feed_all-records_example :
    (let r = feed_all callbacks none (started b',' nothing_built) 0 halves in
      let records = records_of (delimiter_of b',') (concat halves) in
      (r.0 ≡ true)
      × (r.1.out ≡ records_fold callbacks 0 nothing_built records)
      × AllStandIn (concat halves) (delimiter_of b',') records)
feed_all-records_example =
    feed_all-records callbacks callbacks-IsStream none (λ s. refl) b',' nothing_built
      (take 5 content) (drop 5 content ∷ []) (omega arith)

-- The record behind the header.
abbrev data_record : SourceRecord
data_record = record {
  start = 4;
  body = b'1' ∷ b',' ∷ b'2' ∷ [];
  local = record { mode = plain; saw = true; col = 1; row = (b'1' ∷ []) ∷ []; cell = b'2' ∷ [] };
}

data_record-StandsIn : StandsIn content (delimiter_of b',') data_record
unfolding local_run local_step local_plain Scanner.new u64
data_record-StandsIn = record {
  before = take 4 content;
  after = b'\n' ∷ [];
  content_is = refl;
  place = refl;
  cells_are = refl;
}

feed-slice_example :
    (let y = feed callbacks (started b',' nothing_built) (take 3 (drop 4 content)) 4 true none in
      (y.0 ≡ true)
      × (y.1.out ≡ record_end callbacks 0 4 7 (row_fold callbacks data_record.local nothing_built)))
feed-slice_example =
    feed-slice callbacks callbacks-IsStream none (λ s. refl) b',' nothing_built content data_record
      data_record-StandsIn (omega arith) (omega arith) refl

-- The file once it is indexed, with its two columns, and a page of it.
abbrev two_columns : CsvFileSource File Bytes
two_columns = record one_slice.1 {
  columns =
      record { name = b'a' ∷ []; kind = string } ∷ record { name = b'b' ∷ []; kind = string } ∷ [];
}

abbrev undisturbed : PageStops
undisturbed = record { at_start = false; at_row = λ i. false; in_scan = none }

abbrev no_number : Bytes → Option (ℕ × ℕ)
no_number text = none

read_page-IsPage_example :
    IsPage 100
      (read_page file_ops small_file undisturbed no_number 0 (pos 0) (pos 100) two_columns).0
read_page-IsPage_example =
    read_page-IsPage file_ops small_file undisturbed no_number 0 (pos 0) 100 two_columns
