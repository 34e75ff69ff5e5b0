-- ===== src/Tests/Waits.antt =====
-- A slice of the small CSV file, while a request waits for its first page.
use data_table_viewer.Prelude.{ℕ, Bool, true, false, [], none, some, Bytes}
use data_table_viewer.Prelude.Int.{pos}
use data_table_viewer.Scanner.{CancelCheck}
use data_table_viewer.Source.{pending}
use data_table_viewer.FileSource.State.{Intake, CsvFileSource}
use data_table_viewer.Worker.{TableSource, csv, PendingPageRequest, first_page, Worker}
use data_table_viewer.Worker.Csv.{csv_indexed}
use data_table_viewer.Tests.Store.{File, file_ops}
use data_table_viewer.Tests.Files.{small_file, source}
use data_table_viewer.Tests.Work.{some_page, progress}

abbrev Source : Type 0
Source = CsvFileSource File Bytes

-- The calls that no slice makes.
abbrev other_calls : TableSource Source ℕ (Unit {0})
other_calls = record {
  kind_of = λ x. csv;
  make = λ desc. source;
  open_source = λ desc check clock x. ((true, none), x, clock);
  columns = λ x. [];
  row_count = λ x. none;
  can_sort = λ x. false;
  is_indexable = λ x. true;
  readiness = λ first size x. pending;
  first = λ size check clock x. (some_page, x, clock);
  next = λ token size check clock x. (some_page, x, clock);
  prev = λ token size check clock x. (some_page, x, clock);
  last = λ size total check clock x. (some_page, x, clock);
  sort = λ column ascending check clock x. ((false, none), x, clock);
  refetch = λ key check clock x.
      (record { success = true; error = none; columns = []; values = [] }, x, clock);
  advance_index = λ budget check clock x. (progress 0, x, clock);
}

abbrev unhindered : (ℕ → Bool) → ℕ → CancelCheck (Intake File)
unhindered check clock = none

abbrev small_table : TableSource Source ℕ (Unit {0})
small_table = csv_indexed file_ops small_file unhindered 5 other_calls

abbrev first_request : PendingPageRequest
first_request = record {
  view_gen = 1;
  op_gen = 1;
  first_ordinal = pos 0;
  page_size = pos 100;
  query = first_page;
}

abbrev waiting : Worker Source (Unit {0})
waiting = record {
  source = some source;
  pending = some first_request;
  timer_valid = false;
  clock = 0;
  queued = [];
  emitted = [];
}
