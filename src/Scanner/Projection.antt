-- ===== src/Scanner/Projection.antt =====
-- A scan seen through less: where the callbacks of two scans agree on a view of their states, so do
-- the scans.
use data_table_viewer.Prelude.{
  ℕ, ◌+◌, ◌-◌, Bool, true, false, List, [], ◌∷◌, ◌++◌, Option, none, some, ◌≡◌, refl, ap, ◌∙◌,
  length, take, drop, min, Bytes, arith, u64,
}
use data_table_viewer.Scanner.{
  Callbacks, CancelCheck, State, Cursor, Round, cancelled, stop, one, two, emit_fragment,
  flush_field, end_record,
}
use data_table_viewer.Scanner.Feed.{
  asks, Probe, waiting, failed, ready, first_start, resolve_cr, emit_span, close_field, tick,
  quoted_round, break_round, delimiter_round, quote_round, plain_round, ensure_start, round, finish,
  follow, loop, resolve_quote, feed_body, probe_filled, probe_buffered, probe, after_probe, feed,
}
use data_table_viewer.Scanner.Machine.{field, record_end}
use data_table_viewer.Scanner.Whole.{feed_all}

module _ {S T : Type 0} (f : S → T) where
  abbrev pub seen : State S → State T
  seen st = record { scanner = st.scanner; out = f st.out }

  abbrev pub seen_cursor : Cursor S → Cursor T
  seen_cursor k = record { state = seen k.state; offset = k.offset; span = k.span }

  abbrev seen_round : Round S → Round T
  seen_round (cancelled st) = cancelled (seen st)
  seen_round (stop k) = stop (seen_cursor k)
  seen_round (one k) = one (seen_cursor k)
  seen_round (two k) = two (seen_cursor k)

  abbrev seen_probe : Probe S → Probe T
  seen_probe (waiting st) = waiting (seen st)
  seen_probe (failed st) = failed (seen st)
  seen_probe (ready st offset bytes) = ready (seen st) offset bytes

  abbrev pub seen_result : Bool × State S → Bool × State T
  seen_result r = (r.0, seen r.1)

-- Callbacks, and a question whether to stop, that `f` carries over.
pub record IsView {S T : Type 0} (f : S → T) (cb : Callbacks S) (cb' : Callbacks T)
    (cancel : CancelCheck S) (cancel' : CancelCheck T) : Type 0 where
  pub on_field :
      (col : ℕ) (b : Bytes) (e : Bool) (s : S) → f (field cb col b e s) ≡ field cb' col b e (f s)
  pub on_row : (n a b : ℕ) (s : S) → f (record_end cb n a b s) ≡ record_end cb' n a b (f s)
  pub on_ask : (s : S) → asks cancel s ≡ asks cancel' (f s)

module _ {S T : Type 0} (f : S → T) (cb : Callbacks S) (cb' : Callbacks T) (cancel : CancelCheck S)
    (cancel' : CancelCheck T) (v : IsView f cb cb' cancel cancel') where
  fragment-seen :
      (st : State S) (b : Bytes) (e : Bool)
      → seen f (emit_fragment cb st b e) ≡ emit_fragment cb' (seen f st) b e
  unfolding emit_fragment field
  fragment-seen st b e = ground (arith, v.on_field st.scanner.col_index b e st.out)

  flush-seen : (st : State S) → seen f (flush_field cb st) ≡ flush_field cb' (seen f st)
  unfolding flush_field field
  flush-seen st = ground (arith, v.on_field st.scanner.col_index [] true st.out)

  row-seen : (st : State S) (n : ℕ) → seen f (end_record cb st n) ≡ end_record cb' (seen f st) n
  unfolding end_record record_end
  row-seen st n =
      ground (arith, v.on_row st.scanner.record_ordinal st.scanner.current_record_start n st.out)

  span-seen : (st : State S) (b : Bytes) → seen f (emit_span cb st b) ≡ emit_span cb' (seen f st) b
  unfolding emit_span
  span-seen st b = ground (arith, fragment-seen st b false)

  closed-seen :
      (st : State S) (b : Bytes) → seen f (close_field cb st b) ≡ close_field cb' (seen f st) b
  unfolding close_field
  closed-seen st b = ground (arith, fragment-seen st b true, flush-seen st)

  quoted-seen :
      (is_eof : Bool) (k : Cursor S) (c : ℕ) (next : Option ℕ)
      → seen_round f (quoted_round cb is_eof k c next)
        ≡ quoted_round cb' is_eof (seen_cursor f k) c next
  unfolding quoted_round
  quoted-seen is_eof k c next = ground (
    arith,
    span-seen k.state k.span,
    fragment-seen (emit_span cb k.state k.span) (b'"' ∷ []) false,
  )

  break-seen :
      (is_eof : Bool) (k : Cursor S) (c : ℕ) (next : Option ℕ)
      → seen_round f (break_round cb is_eof k c next)
        ≡ break_round cb' is_eof (seen_cursor f k) c next
  unfolding break_round
  break-seen is_eof k c next =
      ground
        (arith, closed-seen k.state k.span, row-seen (close_field cb k.state k.span) (u64 k.offset))

  plain-seen :
      (is_eof : Bool) (k : Cursor S) (c : ℕ) (next : Option ℕ)
      → seen_round f (plain_round cb is_eof k c next)
        ≡ plain_round cb' is_eof (seen_cursor f k) c next
  unfolding plain_round quote_round delimiter_round
  plain-seen is_eof k c next =
      ground
        (arith, closed-seen k.state k.span, span-seen k.state k.span, break-seen is_eof k c next)

  tick-seen :
      (st : State S)
      → (seen f (tick cb cancel st).0, (tick cb cancel st).1) ≡ tick cb' cancel' (seen f st)
  unfolding tick
  tick-seen st = ground (arith, v.on_ask st.out)

  start-seen :
      (k : Cursor S) → seen_cursor f (ensure_start cb k) ≡ ensure_start cb' (seen_cursor f k)
  unfolding ensure_start
  start-seen k = ground arith

  round-seen :
      (is_eof : Bool) (k : Cursor S) (c : ℕ) (next : Option ℕ)
      → seen_round f (round cb is_eof cancel k c next)
        ≡ round cb' is_eof cancel' (seen_cursor f k) c next
  unfolding round
  round-seen is_eof k c next =
      let k' = record k { state = (tick cb cancel k.state).0 } in
      ground (
        arith,
        tick-seen k.state,
        start-seen k',
        quoted-seen is_eof k' c next,
        plain-seen is_eof (ensure_start cb k') c next,
      )

  finish-seen :
      (is_eof : Bool) (chunk_end : ℕ) (k : Cursor S)
      → seen_result f (finish cb is_eof chunk_end k) ≡ finish cb' is_eof chunk_end (seen_cursor f k)
  unfolding finish
  finish-seen is_eof chunk_end k = ground (
    arith,
    span-seen k.state k.span,
    flush-seen (emit_span cb k.state k.span),
    row-seen (flush_field cb (emit_span cb k.state k.span)) (u64 chunk_end),
  )

  follow-seen :
      (is_eof : Bool) (chunk_end : ℕ) (g h : Cursor S → Bool × State S)
      (g' h' : Cursor T → Bool × State T)
      → ((k : Cursor S) → seen_result f (g k) ≡ g' (seen_cursor f k))
      → ((k : Cursor S) → seen_result f (h k) ≡ h' (seen_cursor f k))
      → (R : Round S)
      → seen_result f (follow cb is_eof chunk_end g h R)
        ≡ follow cb' is_eof chunk_end g' h' (seen_round f R)
  unfolding follow
  follow-seen is_eof chunk_end g h g' h' p q (cancelled st) = refl
  follow-seen is_eof chunk_end g h g' h' p q (stop k) = finish-seen is_eof chunk_end k
  follow-seen is_eof chunk_end g h g' h' p q (one k) = p k
  follow-seen is_eof chunk_end g h g' h' p q (two k) = q k

  loop-seen :
      (is_eof : Bool) (chunk_end : ℕ) (k : Cursor S) (bytes : Bytes)
      → seen_result f (loop cb is_eof cancel chunk_end k bytes)
        ≡ loop cb' is_eof cancel' chunk_end (seen_cursor f k) bytes
  unfolding loop
  loop-seen is_eof chunk_end k [] = finish-seen is_eof chunk_end k
  loop-seen is_eof chunk_end k (c ∷ []) =
      follow-seen is_eof chunk_end _ _ _ _ (finish-seen is_eof chunk_end)
        (finish-seen is_eof chunk_end) (round cb is_eof cancel k c none)
      ∙ ap (follow cb' is_eof chunk_end (finish cb' is_eof chunk_end) (finish cb' is_eof chunk_end))
          (round-seen is_eof k c none)
  loop-seen is_eof chunk_end k (c ∷ d ∷ rest) =
      follow-seen is_eof chunk_end _ _ _ _ (λ k'. loop-seen is_eof chunk_end k' (d ∷ rest))
        (λ k'. loop-seen is_eof chunk_end k' rest) (round cb is_eof cancel k c (some d))
      ∙ ap
          (follow cb' is_eof chunk_end (λ k'. loop cb' is_eof cancel' chunk_end k' (d ∷ rest))
            (λ k'. loop cb' is_eof cancel' chunk_end k' rest))
          (round-seen is_eof k c (some d))

  -- The same for a place of the scan, before the loop.
  abbrev seen_place : State S × ℕ × Bytes → State T × ℕ × Bytes
  seen_place t = (seen f t.0, t.1, t.2)

  cr-seen :
      (is_eof : Bool) (st : State S) (offset : ℕ) (bytes : Bytes)
      → seen_place (resolve_cr is_eof st offset bytes) ≡ resolve_cr is_eof (seen f st) offset bytes
  unfolding resolve_cr
  cr-seen is_eof st offset [] = ground arith
  cr-seen is_eof st offset (c ∷ rest) = ground arith

  quote-seen :
      (is_eof : Bool) (st : State S) (offset : ℕ) (bytes : Bytes)
      → seen_place (resolve_quote cb is_eof st offset bytes)
        ≡ resolve_quote cb' is_eof (seen f st) offset bytes
  unfolding resolve_quote
  quote-seen is_eof st offset [] = ground arith
  quote-seen is_eof st offset (c ∷ rest) = ground (
    arith,
    fragment-seen (record st { scanner = record (st.scanner) { pending_quote = false } })
        (b'"' ∷ []) false,
  )

  first-seen :
      (st : State S) (offset : ℕ) → seen f (first_start st offset) ≡ first_start (seen f st) offset
  unfolding first_start
  first-seen st offset = ground arith

  body-seen :
      (is_eof : Bool) (chunk_end : ℕ) (st : State S) (offset : ℕ) (bytes : Bytes)
      → seen_result f (feed_body cb is_eof cancel chunk_end st offset bytes)
        ≡ feed_body cb' is_eof cancel' chunk_end (seen f st) offset bytes
  unfolding feed_body
  body-seen is_eof chunk_end st offset bytes =
      let t = resolve_cr is_eof (first_start st offset) offset bytes in
      let q = resolve_quote cb is_eof t.0 t.1 t.2 in
      let at : State T × ℕ × Bytes → Bool × State T = λ p.
        loop cb' is_eof cancel' chunk_end (record { state = p.0; offset = p.1; span = [] }) p.2 in
      loop-seen is_eof chunk_end (record { state = q.0; offset = q.1; span = [] }) q.2
      ∙ ap at (
          quote-seen is_eof t.0 t.1 t.2
          ∙ ap (λ p. resolve_quote cb' is_eof p.0 p.1 p.2)
              (cr-seen is_eof (first_start st offset) offset bytes
                ∙ ap (λ y. resolve_cr is_eof y offset bytes) (first-seen st offset)))

  filled-seen :
      (is_eof : Bool) (st : State S) (b : Bytes) (offset : ℕ) (rest : Bytes)
      → seen_probe f (probe_filled cb is_eof cancel st b offset rest)
        ≡ probe_filled cb' is_eof cancel' (seen f st) b offset rest
  unfolding probe_filled
  filled-seen is_eof st b offset rest = ground (
    arith,
    body-seen false (length b)
        (record st {
          scanner = record (st.scanner) {
            bom_checked = true;
            has_record_start = true;
            bom_buffer = [];
            has_bom = false;
            current_record_start = 0;
          };
        })
        0 b,
  )

  probe-seen :
      (is_eof : Bool) (st : State S) (base : ℕ) (chunk : Bytes)
      → seen_probe f (probe cb is_eof cancel st base chunk)
        ≡ probe cb' is_eof cancel' (seen f st) base chunk
  unfolding probe probe_buffered
  probe-seen is_eof st base chunk =
      let buffer = st.scanner.bom_buffer in
      let taken = min (3 - length buffer) (length chunk) in
      ground (
        arith,
        filled-seen is_eof st (buffer ++ take taken chunk) (base + taken) (drop taken chunk),
      )

  -- A chunk fed with one set of callbacks, seen through the view, is the chunk fed with the other.
  pub feed-seen :
      (st : State S) (chunk : Bytes) (base : ℕ) (is_eof : Bool)
      → seen_result f (feed cb st chunk base is_eof cancel)
        ≡ feed cb' (seen f st) chunk base is_eof cancel'
  unfolding feed
  feed-seen st chunk base is_eof =
      go (probe cb is_eof cancel st base chunk)
      ∙ ap (after_probe cb' is_eof cancel' (base + length chunk)) (probe-seen is_eof st base chunk)
    where
      go :
          (q : Probe S)
          → seen_result f (after_probe cb is_eof cancel (base + length chunk) q)
            ≡ after_probe cb' is_eof cancel' (base + length chunk) (seen_probe f q)
      go (waiting st') = unfold after_probe in refl
      go (failed st') = unfold after_probe in refl
      go (ready st' offset bytes) =
          unfold after_probe in body-seen is_eof (base + length chunk) st' offset bytes

  -- The same of a source in chunks.
  pub feed_all-seen :
      (chunks : List Bytes) (st : State S) (base : ℕ)
      → seen_result f (feed_all cb cancel st base chunks)
        ≡ feed_all cb' cancel' (seen f st) base chunks
  unfolding feed_all
  feed_all-seen [] st base = refl
  feed_all-seen (c ∷ []) st base = feed-seen st c base true
  feed_all-seen (c ∷ e ∷ chunks) st base =
      go (feed cb st c base false cancel) (λ st'. feed_all-seen (e ∷ chunks) st' (base + length c))
      ∙ ap
          (λ r. elim r.0 [
            | true ↦ feed_all cb' cancel' r.1 (base + length c) (e ∷ chunks)
            | false ↦ r
          ])
          (feed-seen st c base false)
    where
      go :
          (r : Bool × State S)
          → ((st' : State S)
              → seen_result f (feed_all cb cancel st' (base + length c) (e ∷ chunks))
                ≡ feed_all cb' cancel' (seen f st') (base + length c) (e ∷ chunks))
          → seen_result f (elim r.0 [
            | true ↦ feed_all cb cancel r.1 (base + length c) (e ∷ chunks)
            | false ↦ r
          ])
            ≡ (elim r.0 [
              | true ↦ feed_all cb' cancel' (seen f r.1) (base + length c) (e ∷ chunks)
              | false ↦ seen_result f r
            ])
      go (true, st') ih = ih st'
      go (false, st') ih = refl
