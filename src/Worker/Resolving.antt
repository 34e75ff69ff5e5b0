-- ===== src/Worker/Resolving.antt =====
-- What a slice does for those who wait: it is reported, and the page request that waits is answered,
-- runs, waits on, or is dropped.
use data_table_viewer.Prelude.{
  ℕ, ◌+◌, true, false, not, ◌||◌, [], ◌∷◌, ◌++◌, none, some, ◌≡◌, refl, ◌∙◌, Option, arith,
  if◌then◌else◌, if_intro, option_intro_eq,
}
use data_table_viewer.Prelude.Int.{ℤ, pos}
use data_table_viewer.FileSource.State.{SourceError}
use data_table_viewer.FileSource.Indexing.{IndexProgress}
use data_table_viewer.FileSource.Paging.{failed_page}
use data_table_viewer.Worker.{
  Moment, TableSource, PendingPageRequest, page_ready, index_progress, Worker,
}
use data_table_viewer.Worker.Calls.{is_stale, emit, drop_pending, at_clock}
use data_table_viewer.Worker.Pages.{is_pending, run_query, execute_page_query}
use data_table_viewer.Worker.Slicing.{has_error, report_progress, answer_pending, resolve_pending}
use data_table_viewer.Worker.Fetching.{
  IsStale, IsCurrent, is_stale-IsStale, is_stale-IsCurrent, Ran, Ran-pending, Ran-queued,
  execute_page_query-Ran,
}

module _ {X Double : Type 0} where
  -- Nothing has become of the requests, nor of the signals.
  pub record Untouched (w0 w : Worker X Double) : Type 0 where
    pub pending_same : w.pending ≡ w0.pending
    pub queued_same : w.queued ≡ w0.queued
    pub emitted_same : w.emitted ≡ w0.emitted

module _ {X Double : Type 0} (now : ℕ → Moment) (v : ℕ) (p : IndexProgress)
    (w0 : Worker X Double) where
  -- A slice is reported, but not an ordinary one within 100 milliseconds of the last report.
  pub data Reported (w : Worker X Double) : Type 0 where
    silent :
        p.complete ≡ false
        → p.error ≡ none
        → (now w0.clock).timer_due ≡ false
        → w.clock ≡ w0.clock
        → Untouched w0 w
        → Reported w
    told :
        w.clock ≡ w0.clock
        → w.pending ≡ w0.pending
        → w.queued ≡ w0.queued
        → w.emitted
          ≡ w0.emitted ++ (w0.clock, index_progress v (pos p.indexed_rows) p.complete p.error) ∷ []
        → Reported w

no_error : (o : Option SourceError) → has_error o ≡ false → o ≡ none
no_error none h = refl
no_error (some m) h = ground arith

pub report_progress-Reported :
    {X K Double : Type 0} (src : TableSource X K Double) (now : ℕ → Moment) (v : ℕ)
    (p : IndexProgress) (w0 : Worker X Double)
    → Reported now v p w0 (report_progress src now v p w0)
unfolding report_progress
report_progress-Reported src now v p w0 =
    let due =
      p.complete || (has_error p.error || (not w0.timer_valid || (now w0.clock).timer_due)) in
    if_intro (Reported now v p w0) due _ w0 (λ _. told refl refl refl refl)
      (λ e.
        silent (ground arith) (no_error p.error (ground arith)) (ground arith) refl
          (record { pending_same = refl; queued_same = refl; emitted_same = refl }))

module _ {X K Double : Type 0} (src : TableSource X K Double) (now : ℕ → Moment) (p : IndexProgress)
    (x : X) (w1 : Worker X Double) where
  -- What becomes of the request that waits in `w1`, once a slice that reports `p` has left the
  -- source `x`.
  pub data Fate (w : Worker X Double) : Type 0 where
    no_request : w1.pending ≡ none → Untouched w1 w → Fate w
    outdated :
        (r : PendingPageRequest)
        → w1.pending ≡ some r
        → IsStale now r.view_gen r.op_gen w1.clock
        → w.pending ≡ none
        → w.queued ≡ w1.queued
        → w.emitted ≡ w1.emitted
        → Fate w
    failed_with :
        (r : PendingPageRequest) (e : SourceError)
        → w1.pending ≡ some r
        → IsCurrent now r.view_gen r.op_gen w1.clock
        → p.error ≡ some e
        → w.pending ≡ none
        → w.queued ≡ w1.queued
        → w.emitted
          ≡ w1.emitted ++ (w1.clock + 2, page_ready r.view_gen r.op_gen (failed_page e)) ∷ []
        → Fate w
    waits_on :
        (r : PendingPageRequest)
        → w1.pending ≡ some r
        → IsCurrent now r.view_gen r.op_gen w1.clock
        → p.error ≡ none
        → is_pending (src.readiness r.first_ordinal r.page_size x) ≡ true
        → Untouched w1 w
        → Fate w
    runs :
        (r : PendingPageRequest)
        → w1.pending ≡ some r
        → IsCurrent now r.view_gen r.op_gen w1.clock
        → p.error ≡ none
        → is_pending (src.readiness r.first_ordinal r.page_size x) ≡ false
        → Ran now r.view_gen r.op_gen
            (run_query src now r.query r.page_size)
            (drop_pending (at_clock (w1.clock + 2) w1))
            w
        → Fate w

  answer_pending-Fate :
      (r : PendingPageRequest)
      → w1.pending ≡ some r
      → IsCurrent now r.view_gen r.op_gen w1.clock
      → Fate (answer_pending src now r p x (at_clock (w1.clock + 2) w1))
  unfolding answer_pending
  answer_pending-Fate r s c =
      let w' = at_clock (w1.clock + 2) w1 in
      let waiting = is_pending (src.readiness r.first_ordinal r.page_size x) in
      let query =
        execute_page_query src now r.view_gen r.op_gen r.query r.page_size (drop_pending w') in
      option_intro_eq Fate p.error (if waiting then w' else query)
        (λ e. emit (page_ready r.view_gen r.op_gen (failed_page e)) (drop_pending w'))
        (λ n.
          if_intro Fate waiting w' query
            (λ t.
              waits_on r s c n t
                (record { pending_same = refl; queued_same = refl; emitted_same = refl }))
            (λ f. runs r s c n f (
              execute_page_query-Ran src now r.view_gen r.op_gen r.query r.page_size
                (drop_pending w'))))
        (λ e m. failed_with r e s c m refl refl refl)

  pub resolve_pending-Fate : Fate (resolve_pending src now p x w1)
  unfolding resolve_pending
  resolve_pending-Fate =
      let w' = at_clock (w1.clock + 2) w1 in
      let stale = λ (r : PendingPageRequest). is_stale now r.view_gen r.op_gen w1.clock in
      option_intro_eq Fate w1.pending w1
        (λ r. if stale r then drop_pending w' else answer_pending src now r p x w')
        (λ n.
          no_request n (record { pending_same = refl; queued_same = refl; emitted_same = refl }))
        (λ r s.
          if_intro Fate (stale r) (drop_pending w') (answer_pending src now r p x w')
            (λ e. outdated r s (is_stale-IsStale now r.view_gen r.op_gen w1.clock e) refl refl refl)
            (λ e. answer_pending-Fate r s (is_stale-IsCurrent now r.view_gen r.op_gen w1.clock e)))

  pub Fate-queued : {w : Worker X Double} → Fate w → w.queued ≡ w1.queued
  Fate-queued (no_request n u) = u.queued_same
  Fate-queued (outdated r s i n q e) = q
  Fate-queued (failed_with r m s c i n q e) = q
  Fate-queued (waits_on r s c n i u) = u.queued_same
  Fate-queued (runs r s c n i h) = Ran-queued now _ _ _ _ h

  -- The slice that is the last leaves no request.
  pub Fate-pending :
      {w : Worker X Double}
      → ((first size : ℤ)
          → p.error ≡ none
          → p.complete ≡ true
          → is_pending (src.readiness first size x) ≡ false)
      → (p.complete || has_error p.error) ≡ true
      → Fate w
      → w.pending ≡ none
  Fate-pending law l (no_request n u) = u.pending_same ∙ n
  Fate-pending law l (outdated r s i n q e) = n
  Fate-pending law l (failed_with r m s c i n q e) = n
  Fate-pending law l (waits_on r s c n i u) =
      let complete : p.complete ≡ true = ground arith in
      let f = law r.first_ordinal r.page_size n complete in ground arith
  Fate-pending law l (runs r s c n i h) = Ran-pending now _ _ _ _ h
