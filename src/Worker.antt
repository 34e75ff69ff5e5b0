-- ===== src/Worker.antt =====
-- `SourceWorker` of src/workers/source_worker.cpp: the object that owns a table source on its own
-- thread, answers requests by signals, and drops what the view no longer wants. The children stand
-- in the order of the code, the proofs behind them.
use data_table_viewer.Prelude.{ℕ, Bool, List, Option, Bytes}
use data_table_viewer.Prelude.Int.{ℤ}
use data_table_viewer.Table.{ColumnMeta}
use data_table_viewer.Source.{IndexReadiness}
use data_table_viewer.FileSource.State.{SourceError}
use data_table_viewer.FileSource.Indexing.{IndexProgress}
use data_table_viewer.FileSource.Paging.{PageToken, PageResult}
use data_table_viewer.FileSource.Refetching.{RefetchResult}
pub mod Calls
pub mod Pages
pub mod Slicing
pub mod Opening
pub mod Copying
pub mod Events
pub mod Fresh
pub mod Retry
pub mod Targets
pub mod Fetching
pub mod Reading
pub mod Budget
pub mod Resolving
pub mod Waiting
pub mod Answers
pub mod Csv

-- What the worker sees at one moment of what other threads write: the two generations, the
-- sequence number of the interrupts, whether its thread is asked to stop, and whether 100
-- milliseconds have gone by since the last report.
pub record Moment : Type 0 where
  pub view_gen : ℕ
  pub op_gen : ℕ
  pub sequence : ℕ
  pub stop_requested : Bool
  pub timer_due : Bool

-- What a cancel check compares a moment with.
pub record Watch : Type 0 where
  pub view_gen : ℕ
  pub op_gen : Option ℕ
  pub start_seq : ℕ

-- A call of a source, which asks the cancel check at moments of its own choice and takes until a
-- later one.
abbrev pub Call : Type 0 → Type 0 → Type 0
Call X A = (ℕ → Bool) → ℕ → X → A × X × ℕ

pub data SourceKind : Type 0 where
  sqlite csv : SourceKind

pub record SourceOpenDescriptor : Type 0 where
  pub kind : SourceKind
  pub path : Bytes
  pub table_name : Bytes
  pub delimiter : ℕ

-- `ITableSource`, with what the worker uses of the classes that implement it: which kind a source
-- is, how one is made, how it is opened, and the reason of a sort that has failed.
pub record TableSource (X K Double : Type 0) : Type 0 where
  pub kind_of : X → SourceKind
  pub make : SourceOpenDescriptor → X
  pub open_source : SourceOpenDescriptor → Call X (Bool × Option SourceError)
  pub columns : X → List ColumnMeta
  pub row_count : X → Option ℤ
  pub can_sort : X → Bool
  pub is_indexable : X → Bool
  pub readiness : ℤ → ℤ → X → IndexReadiness
  pub first : ℤ → Call X (PageResult Double)
  pub next : PageToken → ℤ → Call X (PageResult Double)
  pub prev : PageToken → ℤ → Call X (PageResult Double)
  pub last : ℤ → Option ℤ → Call X (PageResult Double)
  pub sort : ℕ → Bool → Call X (Bool × Option SourceError)
  pub refetch : K → Call X RefetchResult
  pub advance_index : ℕ → Call X IndexProgress

-- The query of a page request.
pub data Query : Type 0 where
  first_page : Query
  next_page prev_page : PageToken → Query
  last_page : ℤ → Query

pub record PendingPageRequest : Type 0 where
  pub view_gen : ℕ
  pub op_gen : ℕ
  pub first_ordinal : ℤ
  pub page_size : ℤ
  pub query : Query

-- The signals.
pub data Signal (Double : Type 0) : Type 0 where
  open_completed : ℕ → ℕ → Bool → Option SourceError → List ColumnMeta → Bool → Signal Double
  page_ready : ℕ → ℕ → PageResult Double → Signal Double
  sort_completed : ℕ → ℕ → Bool → Option SourceError → ℤ → Signal Double
  refetch_completed : ℕ → ℕ → List (ℤ × RefetchResult) → Signal Double
  index_progress : ℕ → ℤ → Bool → Option SourceError → Signal Double

-- The worker, at the moment `clock`: its source, the page request that waits for the index, whether
-- the progress timer runs, the slices that are queued, by their view, and the signals that it has
-- emitted, each with the moment.
pub record Worker (X Double : Type 0) : Type 0 where
  pub source : Option X
  pub pending : Option PendingPageRequest
  pub timer_valid : Bool
  pub clock : ℕ
  pub queued : List ℕ
  pub emitted : List (ℕ × Signal Double)
