-- ===== src/Worker/Opening.antt =====
-- `openDescriptor`, `open`, `sort` and `shutdown`.
use data_table_viewer.Prelude.{
  ℕ, ◌+◌, Bool, true, false, not, ◌&&◌, [], ◌∷◌, ◌++◌, Option, none, some, if◌then◌else◌, Bytes,
}
use data_table_viewer.Prelude.Int.{ℤ, pos}
use data_table_viewer.FileSource.State.{SourceError, sort_failed, sort_unsupported}
use data_table_viewer.Worker.{
  Moment, Watch, SourceKind, sqlite, csv, SourceOpenDescriptor, TableSource, open_completed,
  sort_completed, index_progress, Worker,
}
use data_table_viewer.Worker.Calls.{
  is_cancellation, is_stale, check_of, execute_with_interrupt_retry, emit, drop_pending, at_clock,
  guarded, emit_unless_stale,
}

abbrev pub same_kind : SourceKind → SourceKind → Bool
same_kind sqlite sqlite = true
same_kind csv csv = true
same_kind sqlite csv = false
same_kind csv sqlite = false

module _ {X K Double : Type 0} (src : TableSource X K Double) (now : ℕ → Moment) where
  -- The source that is there, if it is of the kind that is asked for, or else a new one.
  unfoldable pub source_for : SourceOpenDescriptor → Option X → X
  source_for desc none = src.make desc
  source_for desc (some x) = if same_kind (src.kind_of x) desc.kind then x else src.make desc

  -- What follows the completion: the progress of a CSV source, at once if it is all indexed, and
  -- by slices otherwise.
  unfoldable pub start_indexing : ℕ → SourceKind → Bool → X → Worker X Double → Worker X Double
  start_indexing view_gen sqlite success x w = w
  start_indexing view_gen csv false x w = w
  start_indexing view_gen csv true x w = elim (src.row_count x) [
    | some total ↦ emit (index_progress view_gen total true none) w
    | none ↦ record w { timer_valid = true; queued = w.queued ++ view_gen ∷ [] }
  ]

  -- The end of `openDescriptor`: the view may have moved on.
  unfoldable pub answer_open :
      ℕ → ℕ → SourceKind → Bool × Option SourceError → X → Worker X Double → Worker X Double
  answer_open view_gen op_gen kind r x w =
      let w' = at_clock (w.clock + 2) w in
      let error = if r.0 then none else r.1 in
      let done = open_completed view_gen op_gen r.0 error (src.columns x) (src.can_sort x) in
      if is_stale now view_gen op_gen w.clock
      then w'
      else start_indexing view_gen kind r.0 x (emit done w')

  -- A CSV source goes on with its index for later requests: the number of this one does not
  -- cancel it.
  unfoldable pub call_open : ℕ → ℕ → SourceOpenDescriptor → Worker X Double → Worker X Double
  call_open view_gen op_gen desc w =
      let watch : Watch = record {
        view_gen = view_gen;
        op_gen = elim desc.kind [ sqlite ↦ some op_gen | csv ↦ none ];
        start_seq = (now w.clock).sequence;
      } in
      let (r, x, clock') =
        src.open_source desc (check_of now watch) w.clock (source_for desc w.source) in
      answer_open view_gen op_gen desc.kind r x
        (drop_pending (record w { source = some x; clock = clock' }))

  unfoldable pub open_descriptor : ℕ → ℕ → SourceOpenDescriptor → Worker X Double → Worker X Double
  open_descriptor view_gen op_gen desc w =
      let w' = at_clock (w.clock + 2) w in
      if is_stale now view_gen op_gen w.clock then w' else call_open view_gen op_gen desc w'

  unfoldable pub open_table : ℕ → ℕ → Bytes → Bytes → Worker X Double → Worker X Double
  open_table view_gen op_gen path table_name =
      open_descriptor view_gen op_gen
        (record { kind = sqlite; path = path; table_name = table_name; delimiter = 0 })

  -- One attempt of a sort, and what is to be said of it if it fails. `reason` is what is said of
  -- the attempt before it. Only the SQLite source has reasons of its own.
  unfoldable pub attempt_sort :
      ℕ
      → Bool
      → (ℕ → Bool)
      → ℕ
      → X × Option SourceError
      → (Bool × Option SourceError) × (X × Option SourceError) × ℕ
  attempt_sort column ascending check clock (x, reason) =
      let (r, x', clock') = src.sort column ascending check clock x in
      let own : Option SourceError = elim (src.kind_of x) [ sqlite ↦ r.1 | csv ↦ reason ] in
      let said : Option SourceError = elim own [
        | some e ↦ some e
        | none ↦
            if r.0
            then none
            else if src.can_sort x'
            then some sort_failed
            else some sort_unsupported
      ] in
      ((r.0, said), (x', said), clock')

  unfoldable pub call_sort : ℕ → ℕ → ℕ → Bool → X → Worker X Double → Worker X Double
  call_sort view_gen op_gen column ascending x w =
      let watch : Watch = record {
        view_gen = view_gen;
        op_gen = some op_gen;
        start_seq = (now w.clock).sequence;
      } in
      let (r, (x', said), clock') =
        execute_with_interrupt_retry now (λ r. not r.0 && is_cancellation r.1)
          (is_stale now view_gen op_gen) 2 (attempt_sort column ascending (check_of now watch))
          w.clock (x, none) in
      let total : ℤ = elim (src.row_count x') [ none ↦ pos 0 | some n ↦ n ] in
      let error = if r.0 then none else r.1 in
      emit_unless_stale now view_gen op_gen (sort_completed view_gen op_gen r.0 error total)
        (record w { source = some x'; clock = clock' })

  unfoldable pub sort : ℕ → ℕ → ℕ → Bool → Worker X Double → Worker X Double
  sort view_gen op_gen column ascending =
      guarded now view_gen op_gen (call_sort view_gen op_gen column ascending)

-- The object is deleted by the event loop.
unfoldable pub shutdown : {X Double : Type 0} → Worker X Double → Worker X Double
shutdown w = record w { pending = none; source = none }
