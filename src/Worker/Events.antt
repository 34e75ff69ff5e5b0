-- ===== src/Worker/Events.antt =====
-- The requests as they come to the worker's thread, one after another.
use data_table_viewer.Prelude.{ℕ, Bool, List, [], ◌∷◌}
use data_table_viewer.Prelude.Int.{ℤ}
use data_table_viewer.FileSource.Paging.{PageToken}
use data_table_viewer.Worker.{Moment, SourceOpenDescriptor, TableSource, Worker}
use data_table_viewer.Worker.Pages.{first, next, prev, last}
use data_table_viewer.Worker.Slicing.{index_slice}
use data_table_viewer.Worker.Opening.{open_descriptor, sort, shutdown}
use data_table_viewer.Worker.Copying.{refetch_rows}

-- The slots of the worker.
pub data Event (K : Type 0) : Type 0 where
  on_open : ℕ → ℕ → SourceOpenDescriptor → Event K
  on_first : ℕ → ℕ → ℤ → Event K
  on_next on_prev : ℕ → ℕ → PageToken → ℤ → Event K
  on_last : ℕ → ℕ → ℤ → ℤ → Event K
  on_sort : ℕ → ℕ → ℕ → Bool → Event K
  on_refetch : ℕ → ℕ → List (ℤ × K) → Event K
  on_slice : ℕ → Event K
  on_shutdown : Event K

module _ {X K Double : Type 0} (src : TableSource X K Double) (now : ℕ → Moment) where
  unfoldable pub handle : Event K → Worker X Double → Worker X Double
  handle (on_open v o desc) w = open_descriptor src now v o desc w
  handle (on_first v o size) w = first src now v o size w
  handle (on_next v o token size) w = next src now v o token size w
  handle (on_prev v o token size) w = prev src now v o token size w
  handle (on_last v o size total) w = last src now v o size total w
  handle (on_sort v o column ascending) w = sort src now v o column ascending w
  handle (on_refetch v request rows) w = refetch_rows src now v request rows w
  handle (on_slice v) w = index_slice src now v w
  handle on_shutdown w = shutdown w

  unfoldable pub handle_all : List (Event K) → Worker X Double → Worker X Double
  handle_all [] w = w
  handle_all (e ∷ events) w = handle_all events (handle e w)
