-- ===== src/Worker/Pages.antt =====
-- The page requests: `first`, `next`, `prev`, `last` and what runs their queries.
use data_table_viewer.Prelude.{
  ℕ, suc, ◌-◌, ◌%◌, ◌^◌, Bool, true, false, not, ◌&&◌, ◌||◌, some, ◌==◌, if◌then◌else◌,
}
use data_table_viewer.Prelude.Int.{ℤ, pos, ◌+ℤ◌, ◌-ℤ◌, ltb_ℤ}
use data_table_viewer.Source.{IndexReadiness, pending, ready, at_end, failed}
use data_table_viewer.FileSource.Paging.{PageToken, PageResult, at_least_zero}
use data_table_viewer.Worker.{
  Moment, Watch, Call, TableSource, Query, first_page, next_page, prev_page, last_page, page_ready,
  Worker,
}
use data_table_viewer.Worker.Calls.{
  is_cancellation, is_stale, check_of, execute_with_interrupt_retry, drop_pending, guarded,
  emit_unless_stale,
}

abbrev pub is_pending : IndexReadiness → Bool
is_pending pending = true
is_pending ready = false
is_pending at_end = false
is_pending failed = false

-- Where `last` expects the first row of the last page; C++ takes the remainder of two positive
-- numbers here.
unfoldable pub last_target : ℤ → ℤ → ℤ
last_target (pos (suc size)) (pos (suc total)) =
    let remainder = suc total % suc size in
    at_least_zero (
      if remainder == 0
      then pos (suc total) -ℤ pos (suc size)
      else pos (suc total) -ℤ pos remainder)
last_target page_size known_total = pos 0

abbrev pub wait_page :
    {X Double : Type 0} → ℕ → ℕ → ℤ → Query → ℤ → Worker X Double → Worker X Double
wait_page view_gen op_gen target query page_size w = record w {
  pending = some (record {
    view_gen = view_gen;
    op_gen = op_gen;
    first_ordinal = target;
    page_size = page_size;
    query = query;
  });
}

-- A page whose first row has no `int64_t` number, or that has no rows.
abbrev pub has_no_number : PageToken → ℤ → Bool
has_no_number token page_size =
    not (ltb_ℤ (pos 0) page_size) || ltb_ℤ (pos (2 ^ 63 - 1) -ℤ page_size) token.offset

module _ {X K Double : Type 0} (src : TableSource X K Double) (now : ℕ → Moment) where
  -- The `queryFunc` of a request.
  unfoldable pub run_query : Query → ℤ → Call X (PageResult Double)
  run_query first_page page_size = src.first page_size
  run_query (next_page token) page_size = src.next token page_size
  run_query (prev_page token) page_size = src.prev token page_size
  run_query (last_page known_total) page_size = src.last page_size (some known_total)

  unfoldable pub call_page : ℕ → ℕ → Query → ℤ → X → Worker X Double → Worker X Double
  call_page view_gen op_gen query page_size x w =
      let watch : Watch = record {
        view_gen = view_gen;
        op_gen = some op_gen;
        start_seq = (now w.clock).sequence;
      } in
      let (res, x', clock') =
        execute_with_interrupt_retry now (λ r. not r.success && is_cancellation r.error)
          (is_stale now view_gen op_gen) 2 (run_query query page_size (check_of now watch)) w.clock
          x in
      emit_unless_stale now view_gen op_gen (page_ready view_gen op_gen res)
        (record w { source = some x'; clock = clock' })

  unfoldable pub execute_page_query : ℕ → ℕ → Query → ℤ → Worker X Double → Worker X Double
  execute_page_query view_gen op_gen query page_size =
      guarded now view_gen op_gen (call_page view_gen op_gen query page_size)

  -- A request whose first row is `target` waits if the index has not come to it, in place of the
  -- one that waits already.
  unfoldable pub request_page : ℕ → ℕ → ℤ → Query → ℤ → X → Worker X Double → Worker X Double
  request_page view_gen op_gen target query page_size x w =
      if src.is_indexable x && is_pending (src.readiness target page_size x)
      then wait_page view_gen op_gen target query page_size w
      else execute_page_query view_gen op_gen query page_size (drop_pending w)

  unfoldable pub first : ℕ → ℕ → ℤ → Worker X Double → Worker X Double
  first view_gen op_gen page_size =
      guarded now view_gen op_gen (request_page view_gen op_gen (pos 0) first_page page_size)

  -- A page that has no number is for the source to refuse.
  unfoldable pub next : ℕ → ℕ → PageToken → ℤ → Worker X Double → Worker X Double
  next view_gen op_gen token page_size = guarded now view_gen op_gen (λ x w.
      if src.is_indexable x && has_no_number token page_size
      then execute_page_query view_gen op_gen (next_page token) page_size (drop_pending w)
      else request_page view_gen op_gen (token.offset +ℤ page_size) (next_page token) page_size x w)

  unfoldable pub prev : ℕ → ℕ → PageToken → ℤ → Worker X Double → Worker X Double
  prev view_gen op_gen token page_size = guarded now view_gen op_gen (
      request_page view_gen op_gen (at_least_zero (token.offset -ℤ page_size)) (prev_page token)
        page_size)

  unfoldable pub last : ℕ → ℕ → ℤ → ℤ → Worker X Double → Worker X Double
  last view_gen op_gen page_size known_total = guarded now view_gen op_gen (
      request_page view_gen op_gen (last_target page_size known_total) (last_page known_total)
        page_size)
