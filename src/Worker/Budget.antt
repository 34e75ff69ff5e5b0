-- ===== src/Worker/Budget.antt =====
-- A copy: it is answered for every row in its order, within the budget, or dropped with its view.
use data_table_viewer.Prelude.{
  ℕ, ◌+◌, Bool, true, false, ◌||◌, ◌⊎◌, inl, inr, List, [], ◌∷◌, ◌++◌, Option, none, some, ◌≡◌, ◌≢◌,
  refl, ap, subst, arith, if_intro, option_intro_eq, Bool-cases,
}
use data_table_viewer.Prelude.Int.{ℤ}
use data_table_viewer.FileSource.Refetching.{RefetchResult}
use data_table_viewer.Worker.{Moment, TableSource, refetch_completed, Worker}
use data_table_viewer.Worker.Calls.{is_view_stale, check_of, emit, at_clock}
use data_table_viewer.Worker.Copying.{
  Batch, no_rows, batch_results, refetch_all, answer_rows, call_rows, refetch_rows,
}
use data_table_viewer.Worker.Reading.{
  rows_of, IsCopy, IsCounted, Rows, Overtaken, Refetched, Rows-rows_of, moved, batch_results-IsCopy,
  refetch_all-Refetched,
}

module _ {X K Double : Type 0} (src : TableSource X K Double) (now : ℕ → Moment) (v request : ℕ)
    (rows : List (ℤ × K)) (before : Worker X Double) where
  -- The cancel check of the copy: the view, and no interrupt after the guard.
  abbrev pub copy_check : ℕ → Bool
  copy_check =
      check_of now
        (record { view_gen = v; op_gen = none; start_seq = (now (before.clock + 1)).sequence })

  -- The guard has let the copy begin, with the source `x`.
  pub record Begun (x : X) : Type 0 where
    pub view_current : (now before.clock).view_gen ≡ v
    pub not_stopped : (now before.clock).stop_requested ≡ false
    pub source_is : before.source ≡ some x

  -- How a copy ends that finds the worker as `before` and leaves it as `w`.
  pub data Completion (w : Worker X Double) : Type 0 where
    not_begun :
        ((now before.clock).view_gen ≢ v)
          ⊎ (((now before.clock).stop_requested ≡ true) ⊎ (before.source ≡ none))
        → w.emitted ≡ before.emitted ++ (w.clock, refetch_completed v request []) ∷ []
        → Completion w
    overtaken :
        (x : X)
        → Begun x
        → Overtaken src now v copy_check (before.clock + 1) x 0 rows
        → w.emitted ≡ before.emitted ++ (w.clock, refetch_completed v request []) ∷ []
        → Completion w
    copied :
        (x : X) (read results : List (ℤ × RefetchResult))
        → Begun x
        → Rows src now v copy_check (before.clock + 1) x 0 rows read
        → IsCopy (rows_of rows) read results
        → w.emitted ≡ before.emitted ++ (w.clock, refetch_completed v request results) ∷ []
        → Completion w
    dropped :
        (x : X) (read : List (ℤ × RefetchResult)) (t : ℕ)
        → Begun x
        → Rows src now v copy_check (before.clock + 1) x 0 rows read
        → w.clock ≡ t + 1
        → (now t).view_gen ≢ v
        → w.emitted ≡ before.emitted
        → Completion w

  answer_rows-Completion :
      (x x' : X) (clock : ℕ) (o : Option Batch) (w : Worker X Double)
      → Begun x
      → w.emitted ≡ before.emitted
      → Refetched src now v copy_check (before.clock + 1) x 0 rows no_rows (o, x', clock)
      → Completion (answer_rows src now v request o w)
  unfolding answer_rows
  answer_rows-Completion x x' clock none w b e h =
      overtaken x b h (ap (λ s. s ++ (w.clock, refetch_completed v request []) ∷ []) e)
  answer_rows-Completion x x' clock (some batch) w b e h =
      let w' = at_clock (w.clock + 1) w in
      let s = refetch_completed v request (batch_results batch) in
      if_intro Completion (is_view_stale now v w.clock) w' (emit s w')
        (λ m. dropped x h.read w.clock b h.rows_read refl (moved src now v copy_check w.clock m) e)
        (λ _.
          copied x h.read (batch_results batch) b h.rows_read
            (batch_results-IsCopy (rows_of rows) h.read batch
              (Rows-rows_of src now v copy_check h.rows_read) h.results
              (subst (λ n. IsCounted batch n) (omega arith) h.is_counted))
            (ap (λ r. r ++ (w.clock + 1, s) ∷ []) e))

  call_rows-Completion :
      (x : X)
      → Begun x
      → Completion (call_rows src now v request rows x (at_clock (before.clock + 1) before))
  unfolding call_rows
  call_rows-Completion x b =
      let r = refetch_all src now v copy_check rows no_rows (before.clock + 1) x in
      answer_rows-Completion x r.1 r.2 r.0 _ b refl (
        refetch_all-Refetched src now v copy_check rows no_rows (before.clock + 1) x 0
          (record { counted = refl; judged = refl }))

  -- A copy that its guard lets begin reads the rows in their order, each by the source's own call,
  -- and no more of them once they exceed 64 MiB together. It is answered once, with one result for
  -- each row, which are those that were read, or failures alone where these exceed 64 MiB. It is
  -- answered with nothing if the view has moved on before one of the rows, or if the guard does not
  -- let it begin, as the view has moved on, the thread is to stop, or there is no source. It stays
  -- without an answer only if the view has moved on at the last moment, behind the last row.
  pub refetch_rows-Completion : Completion (refetch_rows src now v request rows before)
  unfolding refetch_rows is_view_stale
  refetch_rows-Completion =
      let w' = at_clock (before.clock + 1) before in
      let nothing = emit (refetch_completed v request []) w' in
      let stop = (now before.clock).stop_requested in
      if_intro Completion (is_view_stale now v before.clock || stop) nothing
        (elim before.source [ none ↦ nothing | some x ↦ call_rows src now v request rows x w' ])
        (λ e.
          not_begun
            (elim (Bool-cases stop) [ inl s ↦ inr (inl s) | inr s ↦ inl (λ same. ground arith) ])
            refl)
        (λ e.
          option_intro_eq Completion before.source nothing
            (λ x. call_rows src now v request rows x w') (λ n. not_begun (inr (inr n)) refl)
            (λ x s.
              call_rows-Completion x (record {
                view_current = ground arith;
                not_stopped = ground arith;
                source_is = s;
              })))
