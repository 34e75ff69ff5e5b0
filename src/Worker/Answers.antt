-- ===== src/Worker/Answers.antt =====
-- What becomes of a page request.
use data_table_viewer.Prelude.{
  ℕ, ◌+◌, ◌-◌, ◌^◌, Bool, true, false, not, ◌&&◌, ◌||◌, ◌⊎◌, inl, inr, none, some, ◌≡◌, refl, arith,
  if_intro, option_intro_eq, Bool-cases,
}
use data_table_viewer.Prelude.Int.{ℤ, pos, ◌+ℤ◌, ◌-ℤ◌, ltb_ℤ}
use data_table_viewer.FileSource.Paging.{PageToken, PageResult, at_least_zero}
use data_table_viewer.Worker.{
  Moment, Call, TableSource, Query, first_page, next_page, prev_page, last_page, Worker,
}
use data_table_viewer.Worker.Calls.{is_stale, drop_pending, at_clock, guarded}
use data_table_viewer.Worker.Targets.{IsLastStart, last_target-IsLastStart}
use data_table_viewer.Worker.Fetching.{
  IsStale, IsCurrent, is_stale-IsStale, is_stale-IsCurrent, Ran, execute_page_query-Ran,
}
use data_table_viewer.Worker.Pages.{
  is_pending, last_target, wait_page, has_no_number, run_query, execute_page_query, request_page,
  first, next, prev, last,
}

-- A page that has no row number of 64 bits, or no rows.
abbrev pub lacks_number : PageToken → ℤ → Bool
lacks_number token size = not (ltb_ℤ (pos 0) size) || ltb_ℤ (pos (2 ^ 63 - 1) -ℤ size) token.offset

module _ {X K Double : Type 0} (src : TableSource X K Double) (now : ℕ → Moment) (v o : ℕ)
    (query : Query) (call : Call X (PageResult Double)) (target size : ℤ) (unnumbered : Bool)
    (before : Worker X Double) where
  -- The request has passed its guard, with the source `x`.
  pub record Accepted (x : X) : Type 0 where
    pub is_current : IsCurrent now v o before.clock
    pub source_is : before.source ≡ some x

  -- The page need not wait: the source has no index that grows, or the page has no number, or the
  -- index has come to it.
  abbrev pub IsDirect : X → Type 0
  IsDirect x =
      (src.is_indexable x ≡ false)
      ⊎ ((unnumbered ≡ true) ⊎ (is_pending (src.readiness target size x) ≡ false))

  -- How a request for the page that `call` fetches leaves the worker, which it finds as `before`.
  pub data Outcome (w : Worker X Double) : Type 0 where
    stale_at_first :
        IsStale now v o before.clock
        → w.pending ≡ before.pending
        → w.emitted ≡ before.emitted
        → Outcome w
    no_source :
        IsCurrent now v o before.clock
        → before.source ≡ none
        → w.pending ≡ before.pending
        → w.emitted ≡ before.emitted
        → Outcome w
    waits :
        (x : X)
        → Accepted x
        → src.is_indexable x ≡ true
        → unnumbered ≡ false
        → is_pending (src.readiness target size x) ≡ true
        → w.pending
          ≡ some (record {
            view_gen = v;
            op_gen = o;
            first_ordinal = target;
            page_size = size;
            query = query;
          })
        → w.emitted ≡ before.emitted
        → Outcome w
    runs :
        (x : X)
        → Accepted x
        → IsDirect x
        → Ran now v o call (drop_pending (at_clock (before.clock + 2) before)) w
        → Outcome w

module _ {X K Double : Type 0} (src : TableSource X K Double) (now : ℕ → Moment) (v o : ℕ)
    (query : Query) (target size : ℤ) (unnumbered : Bool) (before : Worker X Double) where
  -- Such a request, by its query.
  abbrev Settled : Worker X Double → Type 0
  Settled = Outcome src now v o query (run_query src now query size) target size unnumbered before

  abbrev Direct : X → Type 0
  Direct = IsDirect src now v o query (run_query src now query size) target size unnumbered before

  abbrev Passed : X → Type 0
  Passed = Accepted src now v o query (run_query src now query size) target size unnumbered before

  abbrev passed_by : Worker X Double
  passed_by = at_clock (before.clock + 2) before

  guarded-Settled :
      (run : X → Worker X Double → Worker X Double)
      → ((x : X) → Passed x → Settled (run x passed_by))
      → Settled (guarded now v o run before)
  unfolding guarded
  guarded-Settled run h =
      if_intro Settled (is_stale now v o before.clock) passed_by
        (elim before.source [ none ↦ passed_by | some x ↦ run x passed_by ])
        (λ e. stale_at_first (is_stale-IsStale now v o before.clock e) refl refl)
        (λ e.
          let c = is_stale-IsCurrent now v o before.clock e in
          option_intro_eq Settled before.source passed_by (λ x. run x passed_by)
            (λ n. no_source c n refl refl) (λ x s. h x (record { is_current = c; source_is = s })))

  request-Settled :
      (x : X)
      → Passed x
      → (src.is_indexable x && unnumbered) ≡ false
      → Settled (request_page src now v o target query size x passed_by)
  unfolding request_page
  request-Settled x p n =
      let waiting = is_pending (src.readiness target size x) in
      if_intro Settled (src.is_indexable x && waiting) (wait_page v o target query size passed_by)
        (execute_page_query src now v o query size (drop_pending passed_by))
        (λ e. waits x p (ground arith) (ground arith) (ground arith) refl refl)
        (λ e.
          runs x p (elim (Bool-cases waiting) [ inl t ↦ inl (ground arith) | inr f ↦ inr (inr f) ])
            (execute_page_query-Ran src now v o query size (drop_pending passed_by)))

no_and : (b : Bool) → (b && false) ≡ false
no_and true = refl
no_and false = refl

module _ {X K Double : Type 0} (src : TableSource X K Double) (now : ℕ → Moment) where
  -- A page request, of any of the four kinds, waits for the index, in place of any other, exactly if
  -- the source says that its first row is still to come; else it is answered by one page, the
  -- source's own answer to the call of its kind, and none waits any more. It is dropped without a
  -- signal if its generations are not the current ones when it begins, before the call or behind
  -- the call, or if there is no source. The row that `last` waits for is the first of the last page.
  pub page_requests-Outcome :
      (v o : ℕ) (size : ℤ) (token : PageToken) (total : ℤ) (w : Worker X Double)
      → Outcome src now v o first_page
          (src.first size)
          (pos 0)
          size
          false
          w
          (first src now v o size w)
        × Outcome src now v o
            (next_page token)
            (src.next token size)
            (token.offset +ℤ size)
            size
            (lacks_number token size)
            w
            (next src now v o token size w)
        × Outcome src now v o
            (prev_page token)
            (src.prev token size)
            (at_least_zero (token.offset -ℤ size))
            size
            false
            w
            (prev src now v o token size w)
        × Outcome src now v o
            (last_page total)
            (src.last size (some total))
            (last_target size total)
            size
            false
            w
            (last src now v o size total w)
        × IsLastStart size total (last_target size total)
  unfolding first next prev last run_query
  page_requests-Outcome v o size token total w =
      let w' = at_clock (w.clock + 2) w in
      let n = lacks_number token size in
      let after = token.offset +ℤ size in
      let P = Outcome src now v o (next_page token) (src.next token size) after size n w in
      (
        guarded-Settled src now v o first_page (pos 0) size false w _ (λ x p.
            request-Settled src now v o first_page (pos 0) size false w x p
              (no_and (src.is_indexable x))),
        guarded-Settled src now v o (next_page token) after size n w _ (λ x p.
            if_intro P (src.is_indexable x && has_no_number token size)
              (execute_page_query src now v o (next_page token) size (drop_pending w'))
              (request_page src now v o after (next_page token) size x w')
              (λ e.
                runs x p (inr (inl (ground arith)))
                  (execute_page_query-Ran src now v o (next_page token) size (drop_pending w')))
              (λ e.
                request-Settled src now v o (next_page token) after size n w x p (ground arith))),
        guarded-Settled src now v o (prev_page token) _ size false w _ (λ x p.
            request-Settled src now v o (prev_page token) _ size false w x p
              (no_and (src.is_indexable x))),
        guarded-Settled src now v o (last_page total) _ size false w _ (λ x p.
            request-Settled src now v o (last_page total) _ size false w x p
              (no_and (src.is_indexable x))),
        last_target-IsLastStart size total,
      )
