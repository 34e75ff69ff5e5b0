-- ===== src/Worker/Slicing.antt =====
-- `indexSlice`: one slice of the index, the report of it, and the page request that may wait for it.
use data_table_viewer.Prelude.{
  ℕ, ◌+◌, Bool, true, false, not, ◌||◌, [], ◌∷◌, ◌++◌, Option, none, some, if◌then◌else◌,
}
use data_table_viewer.Prelude.Int.{pos}
use data_table_viewer.FileSource.State.{SourceError}
use data_table_viewer.FileSource.Indexing.{IndexProgress}
use data_table_viewer.FileSource.Paging.{failed_page}
use data_table_viewer.Worker.{
  Moment, Watch, TableSource, PendingPageRequest, page_ready, index_progress, Worker,
}
use data_table_viewer.Worker.Calls.{is_stale, is_view_stale, check_of, emit, drop_pending, at_clock}
use data_table_viewer.Worker.Pages.{is_pending, execute_page_query}

abbrev pub slice_bytes : ℕ
slice_bytes = 262144

abbrev pub has_error : Option SourceError → Bool
has_error none = false
has_error (some e) = true

module _ {X K Double : Type 0} (src : TableSource X K Double) (now : ℕ → Moment) where
  -- A report, of an end or an error at once, and otherwise ten times a second at most.
  unfoldable pub report_progress : ℕ → IndexProgress → Worker X Double → Worker X Double
  report_progress view_gen p w =
      if p.complete || (has_error p.error || (not w.timer_valid || (now w.clock).timer_due))
      then emit (index_progress view_gen (pos p.indexed_rows) p.complete p.error)
          (record w { timer_valid = true })
      else w

  -- What becomes of a request that waits and is not stale: it fails with the index, and is run
  -- once the source is not pending any more.
  unfoldable pub answer_pending :
      PendingPageRequest → IndexProgress → X → Worker X Double → Worker X Double
  answer_pending r p x w = elim p.error [
    | some e ↦ emit (page_ready r.view_gen r.op_gen (failed_page e)) (drop_pending w)
    | none ↦
        if is_pending (src.readiness r.first_ordinal r.page_size x)
        then w
        else execute_page_query src now r.view_gen r.op_gen r.query r.page_size (drop_pending w)
  ]

  unfoldable pub resolve_pending : IndexProgress → X → Worker X Double → Worker X Double
  resolve_pending p x w = elim w.pending [
    | none ↦ w
    | some r ↦
        let w' = at_clock (w.clock + 2) w in
        if is_stale now r.view_gen r.op_gen w.clock
        then drop_pending w'
        else answer_pending r p x w'
  ]

  -- The next slice is queued unless the index has come to an end.
  unfoldable pub queue_slice : ℕ → IndexProgress → Worker X Double → Worker X Double
  queue_slice view_gen p w =
      let w' = at_clock (w.clock + 1) w in
      if p.complete || has_error p.error
      then w
      else if is_view_stale now view_gen w.clock || (now w.clock).stop_requested
      then w'
      else record w' { queued = w.queued ++ view_gen ∷ [] }

  -- What follows the slice.
  unfoldable pub after_slice : ℕ → IndexProgress → X → Worker X Double → Worker X Double
  after_slice view_gen p x w =
      queue_slice view_gen p (resolve_pending p x (report_progress view_gen p w))

  unfoldable pub call_slice : ℕ → X → Worker X Double → Worker X Double
  call_slice view_gen x w =
      let watch : Watch = record {
        view_gen = view_gen;
        op_gen = none;
        start_seq = (now w.clock).sequence;
      } in
      let (p, x', clock') = src.advance_index slice_bytes (check_of now watch) w.clock x in
      let w' = record w { source = some x'; clock = clock' + 1 } in
      if is_view_stale now view_gen clock' then w' else after_slice view_gen p x' w'

  unfoldable pub index_slice : ℕ → Worker X Double → Worker X Double
  index_slice view_gen w =
      let w' = at_clock (w.clock + 1) w in
      elim w.source [
        | none ↦ w'
        | some x ↦
            if is_view_stale now view_gen w.clock
              || (not (src.is_indexable x) || (now w.clock).stop_requested)
            then w'
            else call_slice view_gen x w'
      ]
