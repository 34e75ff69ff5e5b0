-- ===== src/Worker/Fresh.antt =====
-- A signal that the worker emits is about what the view wants: its generations are those that the
-- worker has just read.
use data_table_viewer.Prelude.{
  ℕ, ◌+◌, Bool, true, false, not, ◌&&◌, ◌||◌, ◌⊎◌, inl, inr, List, [], ◌∷◌, ◌++◌, Option, none,
  some, ◌≡◌, refl, sym, subst, arith, if◌then◌else◌, if_intro, option_intro,
}
use data_table_viewer.Prelude.Int.{ℤ, pos, ◌+ℤ◌}
use data_table_viewer.FileSource.State.{SourceError}
use data_table_viewer.FileSource.Indexing.{IndexProgress}
use data_table_viewer.FileSource.Paging.{PageToken, failed_page}
use data_table_viewer.FileSource.Refetching.{RefetchResult}
use data_table_viewer.Worker.{
  Moment, Watch, TableSource, Query, next_page, SourceOpenDescriptor, SourceKind, sqlite, csv,
  PendingPageRequest, Signal, open_completed, page_ready, sort_completed, refetch_completed,
  index_progress, Worker,
}
use data_table_viewer.Worker.Calls.{
  is_stale, is_view_stale, check_of, emit, drop_pending, at_clock, guarded, emit_unless_stale,
}
use data_table_viewer.Worker.Pages.{
  wait_page, has_no_number, is_pending, call_page, execute_page_query, request_page, first, next,
  prev, last,
}
use data_table_viewer.Worker.Slicing.{
  slice_bytes, call_slice, answer_pending, report_progress, resolve_pending, queue_slice,
  after_slice, index_slice,
}
use data_table_viewer.Worker.Opening.{
  start_indexing, answer_open, call_open, open_descriptor, call_sort, sort, shutdown,
}
use data_table_viewer.Worker.Copying.{Batch, batch_results, answer_rows, call_rows, refetch_rows}
use data_table_viewer.Worker.Events.{
  Event, on_open, on_first, on_next, on_prev, on_last, on_sort, on_refetch, on_slice, on_shutdown,
  handle, handle_all,
}

module _ (now : ℕ → Moment) where
  -- The two generations were current at the two moments before `clock`.
  abbrev pub Current : ℕ → ℕ → ℕ → Type 0
  Current clock view_gen op_gen =
      (t : ℕ) × (t + 2 ≡ clock) × ((now t).view_gen ≡ view_gen) × ((now (t + 1)).op_gen ≡ op_gen)

  -- The view was current at one of the two moments before `clock`.
  abbrev pub CurrentView : ℕ → ℕ → Type 0
  CurrentView clock view_gen =
      (t : ℕ) × ((t + 1 ≡ clock) ⊎ (t + 2 ≡ clock)) × ((now t).view_gen ≡ view_gen)

  -- A signal is fresh; an empty completion of a copy may come at any time.
  abbrev pub IsFresh : {Double : Type 0} → ℕ → Signal Double → Type 0
  IsFresh clock (open_completed v o success error columns can_sort) = Current clock v o
  IsFresh clock (page_ready v o result) = Current clock v o
  IsFresh clock (sort_completed v o success error total) = Current clock v o
  IsFresh clock (refetch_completed v request []) = Unit
  IsFresh clock (refetch_completed v request (r ∷ results)) = CurrentView clock v
  IsFresh clock (index_progress v total complete error) = CurrentView clock v

  abbrev pub AllFresh : {Double : Type 0} → List (ℕ × Signal Double) → Type 0
  AllFresh [] = Unit
  AllFresh ((clock, s) ∷ emitted) = IsFresh clock s × AllFresh emitted

  AllFresh-append :
      {Double : Type 0} (emitted : List (ℕ × Signal Double)) (clock : ℕ) (s : Signal Double)
      → AllFresh emitted
      → IsFresh clock s
      → AllFresh (emitted ++ (clock, s) ∷ [])
  AllFresh-append [] clock s h f = (f, tt)
  AllFresh-append ((t, first) ∷ emitted) clock s (g, h) f = (g, AllFresh-append emitted clock s h f)

  not_stale : (v o clock : ℕ) → is_stale now v o clock ≡ false → Current (clock + 2) v o
  unfolding is_stale
  not_stale v o clock h = (clock, refl, ground arith, ground arith)

  view_not_stale : (v clock : ℕ) → is_view_stale now v clock ≡ false → CurrentView (clock + 1) v
  unfolding is_view_stale
  view_not_stale v clock h = (clock, inl refl, ground arith)

  view_of : (v o clock : ℕ) → Current clock v o → CurrentView clock v
  view_of v o clock (t, e, p, q) = (t, inr e, p)

  copy-IsFresh :
      (Double : Type 0) (v request clock : ℕ) (results : List (ℤ × RefetchResult))
      → CurrentView clock v
      → IsFresh {Double = Double} clock (refetch_completed v request results)
  copy-IsFresh Double v request clock [] c = tt
  copy-IsFresh Double v request clock (r ∷ results) c = c

  -- All that the worker has emitted is fresh.
  pub record Fresh {X Double : Type 0} (w : Worker X Double) : Type 0 where
    pub all_fresh : AllFresh w.emitted

  module _ {X Double : Type 0} where
    -- What emits nothing.
    quiet : (w w' : Worker X Double) → w'.emitted ≡ w.emitted → Fresh w → Fresh w'
    quiet w w' e h = record { all_fresh = subst AllFresh (sym e) h.all_fresh }

    emit-Fresh :
        (s : Signal Double) (w : Worker X Double) → Fresh w → IsFresh w.clock s → Fresh (emit s w)
    emit-Fresh s w h f = record { all_fresh = AllFresh-append w.emitted w.clock s h.all_fresh f }

    guarded-Fresh :
        (v o : ℕ) (run : X → Worker X Double → Worker X Double) (w : Worker X Double)
        → Fresh w
        → ((x : X) → Fresh (at_clock (w.clock + 2) w) → Fresh (run x (at_clock (w.clock + 2) w)))
        → Fresh (guarded now v o run w)
    unfolding guarded
    guarded-Fresh v o run w h f =
        let w' = at_clock (w.clock + 2) w in
        let h' : Fresh w' = quiet w w' refl h in
        if_intro Fresh (is_stale now v o w.clock) w'
          (elim w.source [ none ↦ w' | some x ↦ run x w' ]) (λ _. h')
          (λ _. option_intro Fresh w.source w' (λ x. run x w') h' (λ x. f x h'))

    emit_unless_stale-Fresh :
        (v o : ℕ) (s : Signal Double) (w : Worker X Double)
        → Fresh w
        → (Current (w.clock + 2) v o → IsFresh (w.clock + 2) s)
        → Fresh (emit_unless_stale now v o s w)
    unfolding emit_unless_stale
    emit_unless_stale-Fresh v o s w h f =
        let w' = at_clock (w.clock + 2) w in
        let h' : Fresh w' = quiet w w' refl h in
        if_intro Fresh (is_stale now v o w.clock) w' (emit s w') (λ _. h')
          (λ e. emit-Fresh s w' h' (f (not_stale v o w.clock e)))

  module _ {X K Double : Type 0} (src : TableSource X K Double) where
    execute_page_query-Fresh :
        (v o : ℕ) (query : Query) (size : ℤ) (w : Worker X Double)
        → Fresh w
        → Fresh (execute_page_query src now v o query size w)
    unfolding execute_page_query call_page
    execute_page_query-Fresh v o query size w h =
        guarded-Fresh v o _ w h
          (λ x h'. emit_unless_stale-Fresh v o _ _ (quiet w _ refl h) (λ c. c))

    request_page-Fresh :
        (v o : ℕ) (target : ℤ) (query : Query) (size : ℤ) (x : X) (w : Worker X Double)
        → Fresh w
        → Fresh (request_page src now v o target query size x w)
    unfolding request_page
    request_page-Fresh v o target query size x w h =
        if_intro Fresh (src.is_indexable x && is_pending (src.readiness target size x))
          (wait_page v o target query size w)
          (execute_page_query src now v o query size (drop_pending w)) (λ _. quiet w _ refl h)
          (λ _. execute_page_query-Fresh v o query size (drop_pending w) (quiet w _ refl h))

    next-Fresh :
        (v o : ℕ) (token : PageToken) (size : ℤ) (w : Worker X Double)
        → Fresh w
        → Fresh (next src now v o token size w)
    unfolding next
    next-Fresh v o token size w h = guarded-Fresh v o _ w h (λ x h'.
        let w' = at_clock (w.clock + 2) w in
        if_intro Fresh (src.is_indexable x && has_no_number token size)
          (execute_page_query src now v o (next_page token) size (drop_pending w'))
          (request_page src now v o (token.offset +ℤ size) (next_page token) size x w')
          (λ _.
            execute_page_query-Fresh v o (next_page token) size (drop_pending w')
              (quiet w' _ refl h'))
          (λ _. request_page-Fresh v o (token.offset +ℤ size) (next_page token) size x w' h'))

    sort-Fresh :
        (v o column : ℕ) (ascending : Bool) (w : Worker X Double)
        → Fresh w
        → Fresh (sort src now v o column ascending w)
    unfolding sort call_sort
    sort-Fresh v o column ascending w h =
        guarded-Fresh v o _ w h
          (λ x h'. emit_unless_stale-Fresh v o _ _ (quiet w _ refl h) (λ c. c))

    start_indexing-Fresh :
        (v : ℕ) (kind : SourceKind) (success : Bool) (x : X) (w : Worker X Double)
        → Fresh w
        → CurrentView w.clock v
        → Fresh (start_indexing src now v kind success x w)
    unfolding start_indexing
    start_indexing-Fresh v sqlite success x w h c = h
    start_indexing-Fresh v csv false x w h c = h
    start_indexing-Fresh v csv true x w h c =
        option_intro Fresh (src.row_count x) _ (λ total. emit (index_progress v total true none) w)
          (quiet w _ refl h) (λ total. emit-Fresh (index_progress v total true none) w h c)

    answer_open-Fresh :
        (v o : ℕ) (kind : SourceKind) (r : Bool × Option SourceError) (x : X) (w : Worker X Double)
        → Fresh w
        → Fresh (answer_open src now v o kind r x w)
    unfolding answer_open
    answer_open-Fresh v o kind r x w h =
        let w' = at_clock (w.clock + 2) w in
        let error = if r.0 then none else r.1 in
        let done = open_completed v o r.0 error (src.columns x) (src.can_sort x) in
        if_intro Fresh (is_stale now v o w.clock) w'
          (start_indexing src now v kind r.0 x (emit done w')) (λ _. quiet w w' refl h)
          (λ e.
            start_indexing-Fresh v kind r.0 x (emit done w')
              (emit-Fresh done w' (quiet w w' refl h) (not_stale v o w.clock e))
              (view_of v o _ (not_stale v o w.clock e)))

    open_descriptor-Fresh :
        (v o : ℕ) (desc : SourceOpenDescriptor) (w : Worker X Double)
        → Fresh w
        → Fresh (open_descriptor src now v o desc w)
    unfolding open_descriptor call_open
    open_descriptor-Fresh v o desc w h =
        let w' = at_clock (w.clock + 2) w in
        if_intro Fresh (is_stale now v o w.clock) w' (call_open src now v o desc w')
          (λ _. quiet w w' refl h) (λ _. answer_open-Fresh v o desc.kind _ _ _ (quiet w _ refl h))

    report_progress-Fresh :
        (v : ℕ) (p : IndexProgress) (w : Worker X Double)
        → Fresh w
        → CurrentView w.clock v
        → Fresh (report_progress src now v p w)
    unfolding report_progress
    report_progress-Fresh v p w h c =
        let s = index_progress v (pos p.indexed_rows) p.complete p.error in
        if_intro Fresh _ (emit s (record w { timer_valid = true })) w
          (λ _. emit-Fresh s (record w { timer_valid = true }) (quiet w _ refl h) c) (λ _. h)

    answer_pending-Fresh :
        (r : PendingPageRequest) (p : IndexProgress) (x : X) (w : Worker X Double)
        → Fresh w
        → Current w.clock r.view_gen r.op_gen
        → Fresh (answer_pending src now r p x w)
    unfolding answer_pending
    answer_pending-Fresh r p x w h c =
        let w' = drop_pending w in
        let h' : Fresh w' = quiet w w' refl h in
        let query = execute_page_query src now r.view_gen r.op_gen r.query r.page_size w' in
        option_intro Fresh p.error
          (if is_pending (src.readiness r.first_ordinal r.page_size x) then w else query)
          (λ e. emit (page_ready r.view_gen r.op_gen (failed_page e)) w')
          (if_intro Fresh (is_pending (src.readiness r.first_ordinal r.page_size x)) w query
            (λ _. h) (λ _. execute_page_query-Fresh r.view_gen r.op_gen r.query r.page_size w' h'))
          (λ e. emit-Fresh (page_ready r.view_gen r.op_gen (failed_page e)) w' h' c)

    resolve_pending-Fresh :
        (p : IndexProgress) (x : X) (w : Worker X Double)
        → Fresh w
        → Fresh (resolve_pending src now p x w)
    unfolding resolve_pending
    resolve_pending-Fresh p x w h =
        let w' = at_clock (w.clock + 2) w in
        let h' : Fresh w' = quiet w w' refl h in
        option_intro Fresh w.pending w
          (λ r.
            if is_stale now r.view_gen r.op_gen w.clock
            then drop_pending w'
            else answer_pending src now r p x w')
          h
          (λ r.
            if_intro Fresh (is_stale now r.view_gen r.op_gen w.clock) (drop_pending w')
              (answer_pending src now r p x w') (λ _. quiet w _ refl h)
              (λ e. answer_pending-Fresh r p x w' h' (not_stale r.view_gen r.op_gen w.clock e)))

    queue_slice-Fresh :
        (v : ℕ) (p : IndexProgress) (w : Worker X Double)
        → Fresh w
        → Fresh (queue_slice src now v p w)
    unfolding queue_slice
    queue_slice-Fresh v p w h =
        let w' = at_clock (w.clock + 1) w in
        let more = record w' { queued = w.queued ++ v ∷ [] } in
        let stop = is_view_stale now v w.clock || (now w.clock).stop_requested in
        if_intro Fresh _ w (if stop then w' else more) (λ _. h)
          (λ _. if_intro Fresh stop w' more (λ _. quiet w _ refl h) (λ _. quiet w _ refl h))

    call_slice-Fresh :
        (v : ℕ) (x : X) (w : Worker X Double) → Fresh w → Fresh (call_slice src now v x w)
    unfolding call_slice after_slice
    call_slice-Fresh v x w h =
        let watch : Watch = record {
          view_gen = v;
          op_gen = none;
          start_seq = (now w.clock).sequence;
        } in
        let (p, x', clock') = src.advance_index slice_bytes (check_of now watch) w.clock x in
        let w' = record w { source = some x'; clock = clock' + 1 } in
        let h' : Fresh w' = quiet w w' refl h in
        if_intro Fresh (is_view_stale now v clock') w' (after_slice src now v p x' w') (λ _. h')
          (λ e. queue_slice-Fresh v p _ (
            resolve_pending-Fresh p x' _
              (report_progress-Fresh v p w' h' (view_not_stale v clock' e))))

    index_slice-Fresh : (v : ℕ) (w : Worker X Double) → Fresh w → Fresh (index_slice src now v w)
    unfolding index_slice
    index_slice-Fresh v w h =
        let w' = at_clock (w.clock + 1) w in
        let h' : Fresh w' = quiet w w' refl h in
        let stop = λ (x : X).
          is_view_stale now v w.clock
          || (not (src.is_indexable x) || (now w.clock).stop_requested) in
        option_intro Fresh w.source w' (λ x. if stop x then w' else call_slice src now v x w') h'
          (λ x.
            if_intro Fresh (stop x) w' (call_slice src now v x w') (λ _. h')
              (λ _. call_slice-Fresh v x w' h'))

    answer_rows-Fresh :
        (v request : ℕ) (b : Option Batch) (w : Worker X Double)
        → Fresh w
        → Fresh (answer_rows src now v request b w)
    unfolding answer_rows
    answer_rows-Fresh v request none w h = emit-Fresh (refetch_completed v request []) w h tt
    answer_rows-Fresh v request (some b) w h =
        let w' = at_clock (w.clock + 1) w in
        let h' : Fresh w' = quiet w w' refl h in
        let s = refetch_completed v request (batch_results b) in
        if_intro Fresh (is_view_stale now v w.clock) w' (emit s w') (λ _. h')
          (λ e. emit-Fresh s w' h' (
            copy-IsFresh Double v request (w.clock + 1) (batch_results b)
              (view_not_stale v w.clock e)))

    refetch_rows-Fresh :
        (v request : ℕ) (rows : List (ℤ × K)) (w : Worker X Double)
        → Fresh w
        → Fresh (refetch_rows src now v request rows w)
    unfolding refetch_rows call_rows
    refetch_rows-Fresh v request rows w h =
        let w' = at_clock (w.clock + 1) w in
        let h' : Fresh w' = quiet w w' refl h in
        let nothing = emit (refetch_completed v request []) w' in
        let n : Fresh nothing = emit-Fresh (refetch_completed v request []) w' h' tt in
        if_intro Fresh _ nothing
          (elim w.source [ none ↦ nothing | some x ↦ call_rows src now v request rows x w' ])
          (λ _. n)
          (λ _.
            option_intro Fresh w.source nothing (λ x. call_rows src now v request rows x w') n
              (λ x. answer_rows-Fresh v request _ _ (quiet w' _ refl h')))

    handle-Fresh : (e : Event K) (w : Worker X Double) → Fresh w → Fresh (handle src now e w)
    unfolding handle first prev last shutdown
    handle-Fresh (on_open v o desc) w h = open_descriptor-Fresh v o desc w h
    handle-Fresh (on_first v o size) w h =
        guarded-Fresh v o _ w h (λ x h'. request_page-Fresh v o _ _ size x _ h')
    handle-Fresh (on_next v o token size) w h = next-Fresh v o token size w h
    handle-Fresh (on_prev v o token size) w h =
        guarded-Fresh v o _ w h (λ x h'. request_page-Fresh v o _ _ size x _ h')
    handle-Fresh (on_last v o size total) w h =
        guarded-Fresh v o _ w h (λ x h'. request_page-Fresh v o _ _ size x _ h')
    handle-Fresh (on_sort v o column ascending) w h = sort-Fresh v o column ascending w h
    handle-Fresh (on_refetch v request rows) w h = refetch_rows-Fresh v request rows w h
    handle-Fresh (on_slice v) w h = index_slice-Fresh v w h
    handle-Fresh on_shutdown w h = quiet w _ refl h

    -- Whatever requests come, in whatever order, and whatever the other threads write meanwhile: a
    -- completion of an open, a page or a sort is emitted only if the worker has just read the two
    -- generations of its request as the current ones, and a report of the index or a copy that is
    -- not empty only if it has just read that of its view.
    pub handle_all-Fresh :
        (events : List (Event K)) (w : Worker X Double)
        → Fresh w
        → Fresh (handle_all src now events w)
    unfolding handle_all
    handle_all-Fresh [] w h = h
    handle_all-Fresh (e ∷ events) w h =
        handle_all-Fresh events (handle src now e w) (handle-Fresh e w h)
