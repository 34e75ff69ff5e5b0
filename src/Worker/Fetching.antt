-- ===== src/Worker/Fetching.antt =====
-- How the query of a page ends: `executePageQuery`, between two tests of the generations.
use data_table_viewer.Prelude.{
  ℕ, ◌+◌, true, false, not, ◌&&◌, ◌⊎◌, inl, inr, [], ◌∷◌, ◌++◌, none, some, ◌≡◌, ◌≢◌, refl, arith,
  if_intro, option_intro_eq, Bool-cases, ◌==◌,
}
use data_table_viewer.Prelude.Int.{ℤ}
use data_table_viewer.FileSource.Paging.{PageResult}
use data_table_viewer.Worker.{Moment, Call, TableSource, Query, page_ready, Worker}
use data_table_viewer.Worker.Calls.{
  is_cancellation, is_stale, check_of, execute_with_interrupt_retry, emit, at_clock, guarded,
  emit_unless_stale,
}
use data_table_viewer.Worker.Retry.{Retried, execute_with_interrupt_retry-Retried}
use data_table_viewer.Worker.Pages.{run_query, call_page, execute_page_query}

-- The generations of a request, at the two moments of one test.
module _ (now : ℕ → Moment) (v o : ℕ) where
  abbrev pub IsStale : ℕ → Type 0
  IsStale t = ((now t).view_gen ≢ v) ⊎ ((now (t + 1)).op_gen ≢ o)

  abbrev pub IsCurrent : ℕ → Type 0
  IsCurrent t = ((now t).view_gen ≡ v) × ((now (t + 1)).op_gen ≡ o)

  pub is_stale-IsStale : (t : ℕ) → is_stale now v o t ≡ true → IsStale t
  unfolding is_stale
  is_stale-IsStale t e = elim (Bool-cases ((now t).view_gen == v)) [
    | inl same ↦ inr (λ q. ground arith)
    | inr other ↦ inl (λ q. ground arith)
  ]

  pub is_stale-IsCurrent : (t : ℕ) → is_stale now v o t ≡ false → IsCurrent t
  unfolding is_stale
  is_stale-IsCurrent t e = (ground arith, ground arith)

-- What the source's call for a page comes to, at the moment `t` behind the guard.
abbrev pub Fetched :
    {X Double : Type 0} (now : ℕ → Moment) (v o : ℕ) (call : Call X (PageResult Double)) (t : ℕ)
    (x : X)
    → PageResult Double × X × ℕ
    → Type 0
Fetched now v o call t x =
    Retried now (λ r. not r.success && is_cancellation r.error) (is_stale now v o) 2
      (call (check_of now (record { view_gen = v; op_gen = some o; start_seq = (now t).sequence })))
      t x

module _ {X Double : Type 0} (now : ℕ → Moment) (v o : ℕ) (call : Call X (PageResult Double))
    (before : Worker X Double) where
  -- How a query of the generations `v` and `o` leaves the worker, which it finds as `before`: it
  -- emits one page, that of the call, or nothing.
  pub data Ran (w : Worker X Double) : Type 0 where
    stale_before_call :
        IsStale now v o before.clock
        → w.pending ≡ before.pending
        → w.queued ≡ before.queued
        → w.emitted ≡ before.emitted
        → Ran w
    without_source :
        before.source ≡ none
        → w.pending ≡ before.pending
        → w.queued ≡ before.queued
        → w.emitted ≡ before.emitted
        → Ran w
    stale_behind_call :
        (x : X) (a : PageResult Double × X × ℕ)
        → IsCurrent now v o before.clock
        → before.source ≡ some x
        → Fetched now v o call (before.clock + 2) x a
        → IsStale now v o a.2
        → w.pending ≡ before.pending
        → w.queued ≡ before.queued
        → w.emitted ≡ before.emitted
        → Ran w
    answered :
        (x : X) (a : PageResult Double × X × ℕ)
        → IsCurrent now v o before.clock
        → before.source ≡ some x
        → Fetched now v o call (before.clock + 2) x a
        → IsCurrent now v o a.2
        → w.pending ≡ before.pending
        → w.queued ≡ before.queued
        → w.emitted ≡ before.emitted ++ (a.2 + 2, page_ready v o a.0) ∷ []
        → Ran w

  pub Ran-pending : {w : Worker X Double} → Ran w → w.pending ≡ before.pending
  Ran-pending (stale_before_call s p q e) = p
  Ran-pending (without_source s p q e) = p
  Ran-pending (stale_behind_call x a c s f k p q e) = p
  Ran-pending (answered x a c s f k p q e) = p

  pub Ran-queued : {w : Worker X Double} → Ran w → w.queued ≡ before.queued
  Ran-queued (stale_before_call s p q e) = q
  Ran-queued (without_source s p q e) = q
  Ran-queued (stale_behind_call x a c s f k p q e) = q
  Ran-queued (answered x a c s f k p q e) = q

module _ {X K Double : Type 0} (src : TableSource X K Double) (now : ℕ → Moment) (v o : ℕ)
    (query : Query) (size : ℤ) (before : Worker X Double) where
  abbrev Result : Worker X Double → Type 0
  Result = Ran now v o (run_query src now query size) before

  call_page-Ran :
      (x : X)
      → IsCurrent now v o before.clock
      → before.source ≡ some x
      → Result (call_page src now v o query size x (at_clock (before.clock + 2) before))
  unfolding call_page emit_unless_stale
  call_page-Ran x c s =
      let t = before.clock + 2 in
      let call =
        run_query src now query size
          (check_of now (record { view_gen = v; op_gen = some o; start_seq = (now t).sequence })) in
      let is_cancelled = λ (r : PageResult Double). not r.success && is_cancellation r.error in
      let a = execute_with_interrupt_retry now is_cancelled (is_stale now v o) 2 call t x in
      let f = execute_with_interrupt_retry-Retried now is_cancelled (is_stale now v o) 2 call t x in
      let w' : Worker X Double = record before { source = some a.1; clock = a.2 + 2 } in
      if_intro Result (is_stale now v o a.2) w' (emit (page_ready v o a.0) w')
        (λ e. stale_behind_call x a c s f (is_stale-IsStale now v o a.2 e) refl refl refl)
        (λ e. answered x a c s f (is_stale-IsCurrent now v o a.2 e) refl refl refl)

  pub execute_page_query-Ran : Result (execute_page_query src now v o query size before)
  unfolding execute_page_query guarded
  execute_page_query-Ran =
      let w' = at_clock (before.clock + 2) before in
      let run = λ (x : X). call_page src now v o query size x w' in
      if_intro Result (is_stale now v o before.clock) w'
        (elim before.source [ none ↦ w' | some x ↦ run x ])
        (λ e. stale_before_call (is_stale-IsStale now v o before.clock e) refl refl refl)
        (λ e.
          option_intro_eq Result before.source w' run (λ n. without_source n refl refl refl)
            (λ x s. call_page-Ran x (is_stale-IsCurrent now v o before.clock e) s))
