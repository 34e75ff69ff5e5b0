-- ===== src/Worker/Copying.antt =====
-- `refetchRows`: whole cells of several rows, for a copy, within one budget.
use data_table_viewer.Prelude.{
  ℕ, ◌+◌, Bool, false, not, ◌&&◌, ◌||◌, List, [], ◌∷◌, ◌++◌, Option, none, some, ltb, if◌then◌else◌,
  length, Bytes,
}
use data_table_viewer.Prelude.Int.{ℤ}
use data_table_viewer.FileSource.State.{budget_exceeded}
use data_table_viewer.FileSource.Refetching.{RefetchResult, failed_refetch, max_copy_budget_bytes}
use data_table_viewer.Worker.{Moment, Watch, TableSource, refetch_completed, Worker}
use data_table_viewer.Worker.Calls.{
  is_cancellation, is_view_stale, check_of, execute_with_interrupt_retry, emit, at_clock,
}

-- The bytes of a row's values.
unfoldable pub values_bytes : List Bytes → ℕ
values_bytes [] = 0
values_bytes (v ∷ values) = length v + values_bytes values

-- The rows with their results, whatever they were, all failed.
unfoldable pub fail_all : List (ℤ × RefetchResult) → List (ℤ × RefetchResult)
fail_all [] = []
fail_all ((row, r) ∷ results) =
    (row, record r { success = false; error = some budget_exceeded; columns = []; values = [] })
    ∷ fail_all results

-- What the rows so far have come to: their bytes, whether they are too many, and the results.
pub record Batch : Type 0 where
  pub total_bytes : ℕ
  pub exceeded : Bool
  pub results : List (ℤ × RefetchResult)

abbrev pub no_rows : Batch
no_rows = record { total_bytes = 0; exceeded = false; results = [] }

unfoldable pub add_row : ℤ → RefetchResult → Batch → Batch
add_row row r b =
    let total = if r.success then b.total_bytes + values_bytes r.values else b.total_bytes in
    record {
      total_bytes = total;
      exceeded = b.exceeded || r.success && ltb max_copy_budget_bytes total;
      results = b.results ++ (row, r) ∷ [];
    }

-- A row behind the one that exceeds the budget is not read.
abbrev pub skip_row : ℤ → Batch → Batch
skip_row row b = record b { results = b.results ++ (row, failed_refetch budget_exceeded) ∷ [] }

-- The results of a batch; one that exceeds the budget fails as a whole.
unfoldable pub batch_results : Batch → List (ℤ × RefetchResult)
batch_results b = if b.exceeded then fail_all b.results else b.results

module _ {X K Double : Type 0} (src : TableSource X K Double) (now : ℕ → Moment) where
  -- The rows one after another, with the moment of the last test; `none` where the view has moved
  -- on.
  unfoldable pub refetch_all : ℕ → (ℕ → Bool) → List (ℤ × K) → Batch → ℕ → X → Option Batch × X × ℕ
  refetch_all view_gen check [] b clock x = (some b, x, clock)
  refetch_all view_gen check ((row, key) ∷ rows) b clock x =
      let (r, x', clock') =
        execute_with_interrupt_retry now (λ r. not r.success && is_cancellation r.error)
          (is_view_stale now view_gen) 1 (src.refetch key check) (clock + 1) x in
      let skipped = refetch_all view_gen check rows (skip_row row b) (clock + 1) x in
      let rest = refetch_all view_gen check rows (add_row row r b) clock' x' in
      if is_view_stale now view_gen clock
      then (none, x, clock + 1)
      else if b.exceeded
      then skipped
      else rest

  -- The end of `refetchRows`: the view may have moved on.
  unfoldable pub answer_rows : ℕ → ℕ → Option Batch → Worker X Double → Worker X Double
  answer_rows view_gen request none w = emit (refetch_completed view_gen request []) w
  answer_rows view_gen request (some b) w =
      let w' = at_clock (w.clock + 1) w in
      if is_view_stale now view_gen w.clock
      then w'
      else emit (refetch_completed view_gen request (batch_results b)) w'

  unfoldable pub call_rows : ℕ → ℕ → List (ℤ × K) → X → Worker X Double → Worker X Double
  call_rows view_gen request rows x w =
      let watch : Watch = record {
        view_gen = view_gen;
        op_gen = none;
        start_seq = (now w.clock).sequence;
      } in
      let (b, x', clock') = refetch_all view_gen (check_of now watch) rows no_rows w.clock x in
      answer_rows view_gen request b (record w { source = some x'; clock = clock' })

  unfoldable pub refetch_rows : ℕ → ℕ → List (ℤ × K) → Worker X Double → Worker X Double
  refetch_rows view_gen request rows w =
      let w' = at_clock (w.clock + 1) w in
      let nothing = emit (refetch_completed view_gen request []) w' in
      if is_view_stale now view_gen w.clock || (now w.clock).stop_requested
      then nothing
      else elim w.source [ none ↦ nothing | some x ↦ call_rows view_gen request rows x w' ]
