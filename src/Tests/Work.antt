-- ===== src/Tests/Work.antt =====
-- A worker with a source that is indexed in two slices.
use data_table_viewer.Prelude.{
  ℕ, ◌+◌, true, false, List, [], ◌∷◌, none, some, ◌==◌, ◌-◌, if◌then◌else◌,
}
use data_table_viewer.Prelude.Int.{ℤ, pos, ◌+ℤ◌, ◌-ℤ◌}
use data_table_viewer.Source.{pending, ready}
use data_table_viewer.FileSource.Indexing.{IndexProgress}
use data_table_viewer.FileSource.Paging.{PageResult, blank_result}
use data_table_viewer.Worker.{
  Moment, TableSource, Call, csv, SourceOpenDescriptor, Worker, first_page, next_page, prev_page,
  last_page,
}
use data_table_viewer.Worker.Copying.{refetch_rows}
use data_table_viewer.FileSource.Paging.{no_token}
use data_table_viewer.Worker.Pages.{first, next, prev, last, last_target}
use data_table_viewer.Worker.Targets.{IsLastStart}
use data_table_viewer.Worker.Answers.{Outcome, page_requests-Outcome}
use data_table_viewer.Worker.Events.{
  Event, on_open, on_first, on_slice, on_refetch, on_shutdown, handle_all,
}
use data_table_viewer.Worker.Fresh.{Fresh, handle_all-Fresh}
use data_table_viewer.Worker.Budget.{Completion, refetch_rows-Completion}

-- A page with no table.
abbrev pub some_page : PageResult (Unit {0})
some_page = record blank_result { success = true }

abbrev page_call : Call ℕ (PageResult (Unit {0}))
page_call check clock x = (some_page, x, clock + 3)

abbrev pub progress : ℕ → IndexProgress
progress slices = record {
  indexed_rows = 100;
  scanned_bytes = 262144;
  complete = slices == 0;
  error = none;
}

-- The source counts the slices that are left.
abbrev counter : TableSource ℕ ℕ (Unit {0})
counter = record {
  kind_of = λ x. csv;
  make = λ desc. 2;
  open_source = λ desc check clock x. ((true, none), x, clock + 5);
  columns = λ x. [];
  row_count = λ x. none;
  can_sort = λ x. false;
  is_indexable = λ x. true;
  readiness = λ first size x. if x == 0 then ready else pending;
  first = λ size. page_call;
  next = λ token size. page_call;
  prev = λ token size. page_call;
  last = λ size total. page_call;
  sort = λ column ascending check clock x. ((false, none), x, clock + 1);
  refetch = λ key check clock x. (
    record { success = true; error = none; columns = 0 ∷ []; values = (key ∷ []) ∷ [] },
    x,
    clock + 1,
  );
  advance_index = λ budget check clock x. (progress (x - 1), x - 1, clock + 4);
}

-- Nothing moves on.
abbrev pub still : ℕ → Moment
still t = record {
  view_gen = 1;
  op_gen = 1;
  sequence = 0;
  stop_requested = false;
  timer_due = true;
}

abbrev idle : Worker ℕ (Unit {0})
idle = record {
  source = none;
  pending = none;
  timer_valid = false;
  clock = 0;
  queued = [];
  emitted = [];
}

abbrev descriptor : SourceOpenDescriptor
descriptor = record { kind = csv; path = []; table_name = []; delimiter = 0 }

-- A page is asked for while the index has two slices to go.
abbrev events : List (Event ℕ)
events =
    on_open 1 1 descriptor
    ∷ on_first 1 1 (pos 100)
    ∷ on_slice 1
    ∷ on_slice 1
    ∷ on_refetch 1 7 ((pos 3, 65) ∷ [])
    ∷ on_shutdown
    ∷ []

idle-Fresh : Fresh still idle
idle-Fresh = record { all_fresh = tt }

handle_all-Fresh_example : Fresh still (handle_all counter still events idle)
handle_all-Fresh_example = handle_all-Fresh still counter events idle idle-Fresh

abbrev indexed : Worker ℕ (Unit {0})
indexed = record idle { source = some 1 }

abbrev rows : List (ℤ × ℕ)
rows = (pos 3, 65) ∷ (pos 1, 66) ∷ []

refetch_rows-Completion_example :
    Completion counter still 1 7 rows indexed (refetch_rows counter still 1 7 rows indexed)
refetch_rows-Completion_example = refetch_rows-Completion counter still 1 7 rows indexed

page_requests-Outcome_example :
    Outcome counter still 1 1 first_page page_call
      (pos 0)
      (pos 100)
      false
      indexed
      (first counter still 1 1 (pos 100) indexed)
    × Outcome counter still 1 1
        (next_page no_token)
        page_call
        (pos 100)
        (pos 100)
        false
        indexed
        (next counter still 1 1 no_token (pos 100) indexed)
    × Outcome counter still 1 1
        (prev_page no_token)
        page_call
        (pos 0)
        (pos 100)
        false
        indexed
        (prev counter still 1 1 no_token (pos 100) indexed)
    × Outcome counter still 1 1
        (last_page (pos 250))
        page_call
        (pos 200)
        (pos 100)
        false
        indexed
        (last counter still 1 1 (pos 100) (pos 250) indexed)
    × IsLastStart (pos 100) (pos 250) (pos 200)
unfolding last_target ◌+ℤ◌ ◌-ℤ◌
page_requests-Outcome_example =
    page_requests-Outcome counter still 1 1 (pos 100) no_token (pos 250) indexed
