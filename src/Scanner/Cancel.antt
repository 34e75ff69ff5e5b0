-- ===== src/Scanner/Cancel.antt =====
-- The request to stop: what the callbacks keep while `feed` runs, and when a request that depends on
-- what they have made is never met.
use data_table_viewer.Prelude.{
  ℕ, ◌+◌, Bool, true, false, [], ◌∷◌, ◌++◌, ◌≡◌, refl, ap, ◌∙◌, Option, none, some, length, Bytes,
  arith, if◌then◌else◌, ◌-◌, min, take, drop, ◌≤◌, Bool-cases, inl, inr, u64,
}
use data_table_viewer.Scanner.{
  Callbacks, CancelCheck, State, Cursor, Round, cancelled, stop, one, two, emit_fragment,
  flush_field, end_record, new, is_bom,
}
use data_table_viewer.Scanner.Feed.{
  asks, tick, emit_span, close_field, quoted_round, break_round, delimiter_round, quote_round,
  plain_round, ensure_start, round, finish, follow, loop, first_start, resolve_cr, resolve_quote,
  feed_body, probe_filled, probe_buffered, probe, Probe, waiting, failed, ready, after_probe, feed,
}
use data_table_viewer.Scanner.Probe.{opened}
use data_table_viewer.Scanner.Whole.{started}
use data_table_viewer.Scanner.Machine.{field, record_end}

module _ {S : Type 0} (cb : Callbacks S) (p : S → Bool) where
  -- No call of a callback leaves `p`.
  pub record IsKept : Type 0 where
    pub on_field :
        (col : ℕ) (b : Bytes) (e : Bool) (s : S) → p s ≡ true → p (field cb col b e s) ≡ true
    pub on_row : (n a b : ℕ) (s : S) → p s ≡ true → p (record_end cb n a b s) ≡ true

module _ {S : Type 0} (p : S → Bool) where
  -- What a round leaves its callbacks with.
  abbrev left : Round S → S
  left (cancelled st) = st.out
  left (stop k) = k.state.out
  left (one k) = k.state.out
  left (two k) = k.state.out

module _ {S : Type 0} (cb : Callbacks S) (p : S → Bool) (kept : IsKept cb p) where
  fragment-out :
      (st : State S) (b : Bytes) (e : Bool)
      → p st.out ≡ true
      → p (emit_fragment cb st b e).out ≡ true
  unfolding emit_fragment field
  fragment-out st b e h = ground (arith, kept.on_field st.scanner.col_index b e st.out)

  flush-out : (st : State S) → p st.out ≡ true → p (flush_field cb st).out ≡ true
  unfolding flush_field field
  flush-out st h = ground (arith, kept.on_field st.scanner.col_index [] true st.out)

  row-out : (st : State S) (n : ℕ) → p st.out ≡ true → p (end_record cb st n).out ≡ true
  unfolding end_record record_end
  row-out st n h = kept.on_row st.scanner.record_ordinal st.scanner.current_record_start n st.out h

  span-out : (st : State S) (b : Bytes) → p st.out ≡ true → p (emit_span cb st b).out ≡ true
  unfolding emit_span
  span-out st b h = ground (arith, fragment-out st b false)

  closed-out : (st : State S) (b : Bytes) → p st.out ≡ true → p (close_field cb st b).out ≡ true
  unfolding close_field
  closed-out st b h = ground (arith, fragment-out st b true, flush-out st)

  quoted-out :
      (is_eof : Bool) (k : Cursor S) (c : ℕ) (next : Option ℕ)
      → p k.state.out ≡ true
      → p (left p (quoted_round cb is_eof k c next)) ≡ true
  unfolding quoted_round
  quoted-out is_eof k c next h =
      ground (
        arith,
        span-out k.state k.span,
        fragment-out (emit_span cb k.state k.span) (b'"' ∷ []) false,
      )

  break-out :
      (is_eof : Bool) (k : Cursor S) (c : ℕ) (next : Option ℕ)
      → p k.state.out ≡ true
      → p (left p (break_round cb is_eof k c next)) ≡ true
  unfolding break_round
  break-out is_eof k c next h =
      ground
        (arith, closed-out k.state k.span, row-out (close_field cb k.state k.span) (u64 k.offset))

  plain-out :
      (is_eof : Bool) (k : Cursor S) (c : ℕ) (next : Option ℕ)
      → p k.state.out ≡ true
      → p (left p (plain_round cb is_eof k c next)) ≡ true
  unfolding plain_round quote_round delimiter_round
  plain-out is_eof k c next h =
      ground (arith, closed-out k.state k.span, span-out k.state k.span, break-out is_eof k c next)

  tick-out : (cancel : CancelCheck S) (st : State S) → (tick cb cancel st).0.out ≡ st.out
  unfolding tick
  tick-out cancel st = ground arith

  start-out : (k : Cursor S) → (ensure_start cb k).state.out ≡ k.state.out
  unfolding ensure_start
  start-out k = ground arith

  round-out :
      (is_eof : Bool) (cancel : CancelCheck S) (k : Cursor S) (c : ℕ) (next : Option ℕ)
      → p k.state.out ≡ true
      → p (left p (round cb is_eof cancel k c next)) ≡ true
  unfolding round
  round-out is_eof cancel k c next h =
      let k' = record k { state = (tick cb cancel k.state).0 } in
      ground (
        arith,
        tick-out cancel k.state,
        start-out k',
        quoted-out is_eof k' c next,
        plain-out is_eof (ensure_start cb k') c next,
      )

  finish-out :
      (is_eof : Bool) (chunk_end : ℕ) (k : Cursor S)
      → p k.state.out ≡ true
      → p (finish cb is_eof chunk_end k).1.out ≡ true
  unfolding finish
  finish-out is_eof chunk_end k h = ground (
    arith,
    span-out k.state k.span,
    flush-out (emit_span cb k.state k.span),
    row-out (flush_field cb (emit_span cb k.state k.span)) (u64 chunk_end),
  )

  follow-out :
      (is_eof : Bool) (chunk_end : ℕ) (f g : Cursor S → Bool × State S)
      → ((k : Cursor S) → p k.state.out ≡ true → p (f k).1.out ≡ true)
      → ((k : Cursor S) → p k.state.out ≡ true → p (g k).1.out ≡ true)
      → (R : Round S) → p (left p R) ≡ true
      → p (follow cb is_eof chunk_end f g R).1.out ≡ true
  unfolding follow
  follow-out is_eof chunk_end f g hf hg (cancelled st) h = h
  follow-out is_eof chunk_end f g hf hg (stop k) h = finish-out is_eof chunk_end k h
  follow-out is_eof chunk_end f g hf hg (one k) h = hf k h
  follow-out is_eof chunk_end f g hf hg (two k) h = hg k h

  loop-out :
      (is_eof : Bool) (cancel : CancelCheck S) (chunk_end : ℕ) (k : Cursor S) (bytes : Bytes)
      → p k.state.out ≡ true
      → p (loop cb is_eof cancel chunk_end k bytes).1.out ≡ true
  unfolding loop
  loop-out is_eof cancel chunk_end k [] h = finish-out is_eof chunk_end k h
  loop-out is_eof cancel chunk_end k (c ∷ []) h =
      follow-out is_eof chunk_end _ _ (finish-out is_eof chunk_end) (finish-out is_eof chunk_end) _
        (round-out is_eof cancel k c none h)
  loop-out is_eof cancel chunk_end k (c ∷ d ∷ rest) h =
      follow-out is_eof chunk_end _ _ (λ k' h'. loop-out is_eof cancel chunk_end k' (d ∷ rest) h')
        (λ k' h'. loop-out is_eof cancel chunk_end k' rest h') _
        (round-out is_eof cancel k c (some d) h)

  resolve-out :
      (is_eof : Bool) (st : State S) (offset : ℕ) (bytes : Bytes)
      → (resolve_cr is_eof st offset bytes).0.out ≡ st.out
  unfolding resolve_cr
  resolve-out is_eof st offset [] = ground arith
  resolve-out is_eof st offset (c ∷ rest) = ground arith

  quote-out :
      (is_eof : Bool) (st : State S) (offset : ℕ) (bytes : Bytes)
      → p st.out ≡ true
      → p (resolve_quote cb is_eof st offset bytes).0.out ≡ true
  unfolding resolve_quote
  quote-out is_eof st offset [] h = ground arith
  quote-out is_eof st offset (c ∷ rest) h = ground (
    arith,
    fragment-out (record st { scanner = record (st.scanner) { pending_quote = false } }) (b'"' ∷ [])
        false,
  )

  first-out : (st : State S) (offset : ℕ) → (first_start st offset).out ≡ st.out
  unfolding first_start
  first-out st offset = ground arith

  body-out :
      (is_eof : Bool) (cancel : CancelCheck S) (chunk_end : ℕ) (st : State S) (offset : ℕ)
      (bytes : Bytes)
      → p st.out ≡ true
      → p (feed_body cb is_eof cancel chunk_end st offset bytes).1.out ≡ true
  unfolding feed_body
  body-out is_eof cancel chunk_end st offset bytes h =
      let t = resolve_cr is_eof (first_start st offset) offset bytes in
      loop-out is_eof cancel chunk_end _ _ (
        quote-out is_eof t.0 t.1 t.2
          (rw (resolve-out is_eof (first_start st offset) offset bytes, first-out st offset) h))

  abbrev probed : Probe S → S
  probed (waiting st) = st.out
  probed (failed st) = st.out
  probed (ready st offset bytes) = st.out

  filled-out :
      (is_eof : Bool) (cancel : CancelCheck S) (st : State S) (b : Bytes) (offset : ℕ)
      (rest : Bytes)
      → p st.out ≡ true
      → p (probed (probe_filled cb is_eof cancel st b offset rest)) ≡ true
  unfolding probe_filled
  filled-out is_eof cancel st b offset rest h = ground (
    arith,
    body-out false cancel (length b)
        (record st {
          scanner = record (st.scanner) {
            bom_checked = true;
            has_record_start = true;
            bom_buffer = [];
            has_bom = false;
            current_record_start = 0;
          };
        })
        0 b,
  )

  probe-out :
      (is_eof : Bool) (cancel : CancelCheck S) (st : State S) (base : ℕ) (chunk : Bytes)
      → p st.out ≡ true
      → p (probed (probe cb is_eof cancel st base chunk)) ≡ true
  unfolding probe probe_buffered
  probe-out is_eof cancel st base chunk h =
      let buffer = st.scanner.bom_buffer in
      let taken = min (3 - length buffer) (length chunk) in
      ground (
        arith,
        filled-out is_eof cancel st (buffer ++ take taken chunk) (base + taken) (drop taken chunk),
      )

  -- Whatever the chunk and whenever a stop is asked for, what the callbacks keep is kept.
  pub feed-out :
      (st : State S) (chunk : Bytes) (base : ℕ) (is_eof : Bool) (cancel : CancelCheck S)
      → p st.out ≡ true
      → p (feed cb st chunk base is_eof cancel).1.out ≡ true
  unfolding feed
  feed-out st chunk base is_eof cancel h =
      go (probe cb is_eof cancel st base chunk) (probe-out is_eof cancel st base chunk h)
    where
      go :
          (q : Probe S)
          → p (probed q) ≡ true
          → p (after_probe cb is_eof cancel (base + length chunk) q).1.out ≡ true
      go (waiting st') h' = unfold after_probe in h'
      go (failed st') h' = unfold after_probe in h'
      go (ready st' offset bytes) h' =
          unfold after_probe in body-out is_eof cancel (base + length chunk) st' offset bytes h'

not_before :
    {S : Type 0} (p : S → Bool) (a b : S) → (p a ≡ true → p b ≡ true) → p b ≡ false → p a ≡ false
not_before p a b h e = elim (Bool-cases (p a)) [ inl t ↦ cc (h t) | inr f ↦ f ]

-- A request to stop that, once made, stays made.
module _ {S : Type 0} (cb : Callbacks S) (cancel : CancelCheck S)
    (kept : IsKept cb (asks cancel)) where
  round-same :
      (is_eof : Bool) (k : Cursor S) (c : ℕ) (next : Option ℕ)
      → asks cancel k.state.out ≡ false
      → round cb is_eof cancel k c next ≡ round cb is_eof none k c next
  unfolding round tick
  round-same is_eof k c next h = rw h refl

  follow-same :
      (is_eof : Bool) (chunk_end : ℕ) (f g f' g' : Cursor S → Bool × State S)
      → ((k : Cursor S) → asks cancel (f' k).1.out ≡ false → f k ≡ f' k)
      → ((k : Cursor S) → asks cancel (g' k).1.out ≡ false → g k ≡ g' k)
      → (R : Round S) → asks cancel (follow cb is_eof chunk_end f' g' R).1.out ≡ false
      → follow cb is_eof chunk_end f g R ≡ follow cb is_eof chunk_end f' g' R
  unfolding follow
  follow-same is_eof chunk_end f g f' g' hf hg (cancelled st) h = refl
  follow-same is_eof chunk_end f g f' g' hf hg (stop k) h = refl
  follow-same is_eof chunk_end f g f' g' hf hg (one k) h = hf k h
  follow-same is_eof chunk_end f g f' g' hf hg (two k) h = hg k h

  unasked :
      (is_eof : Bool) (chunk_end : ℕ) (k : Cursor S) (bytes : Bytes)
      → asks cancel (loop cb is_eof none chunk_end k bytes).1.out ≡ false
      → asks cancel k.state.out ≡ false
  unasked is_eof chunk_end k bytes h =
      not_before (asks cancel) k.state.out _
        (loop-out cb (asks cancel) kept is_eof none chunk_end k bytes) h

  loop-same :
      (is_eof : Bool) (chunk_end : ℕ) (k : Cursor S) (bytes : Bytes)
      → asks cancel (loop cb is_eof none chunk_end k bytes).1.out ≡ false
      → loop cb is_eof cancel chunk_end k bytes ≡ loop cb is_eof none chunk_end k bytes
  unfolding loop
  loop-same is_eof chunk_end k [] h = refl
  loop-same is_eof chunk_end k (c ∷ []) h =
      ap (follow cb is_eof chunk_end (finish cb is_eof chunk_end) (finish cb is_eof chunk_end))
        (round-same is_eof k c none (unasked is_eof chunk_end k (c ∷ []) h))
  loop-same is_eof chunk_end k (c ∷ d ∷ rest) h =
      ap
        (follow cb is_eof chunk_end (λ k'. loop cb is_eof cancel chunk_end k' (d ∷ rest))
          (λ k'. loop cb is_eof cancel chunk_end k' rest))
        (round-same is_eof k c (some d) (unasked is_eof chunk_end k (c ∷ d ∷ rest) h))
      ∙ follow-same is_eof chunk_end _ _ _ _ (λ k' h'. loop-same is_eof chunk_end k' (d ∷ rest) h')
          (λ k' h'. loop-same is_eof chunk_end k' rest h') _ h

  body-same :
      (is_eof : Bool) (chunk_end : ℕ) (st : State S) (offset : ℕ) (bytes : Bytes)
      → asks cancel (feed_body cb is_eof none chunk_end st offset bytes).1.out ≡ false
      → feed_body cb is_eof cancel chunk_end st offset bytes
        ≡ feed_body cb is_eof none chunk_end st offset bytes
  unfolding feed_body
  body-same is_eof chunk_end st offset bytes h = loop-same is_eof chunk_end _ _ h

  entered :
      (any : CancelCheck S) (d : ℕ) (s : S) (bytes : Bytes)
      → 3 ≤ length bytes
      → probe cb true any (started d s) 0 bytes ≡ (
          if is_bom bytes
          then ready (opened d s true 3) 3 (drop 3 bytes)
          else ready (opened d s false 0) 0 bytes)
  unfolding probe new
  entered any d s bytes n = ground arith

  after-same :
      (chunk_end : ℕ) (st : State S) (offset : ℕ) (rest : Bytes)
      → asks cancel (after_probe cb true none chunk_end (ready st offset rest)).1.out ≡ false
      → after_probe cb true cancel chunk_end (ready st offset rest)
        ≡ after_probe cb true none chunk_end (ready st offset rest)
  unfolding after_probe
  after-same chunk_end st offset rest h = body-same true chunk_end st offset rest h

  -- With callbacks that never take back a request to stop, a new scanner is fed a whole file of
  -- three bytes or more in one chunk. If what an unhindered scan makes of it asks for no stop, the
  -- scan that may be stopped has the same result and leaves the same state.
  pub feed-same :
      (d : ℕ) (s : S) (bytes : Bytes)
      → 3 ≤ length bytes
      → asks cancel (feed cb (started d s) bytes 0 true none).1.out ≡ false
      → feed cb (started d s) bytes 0 true cancel ≡ feed cb (started d s) bytes 0 true none
  unfolding feed
  feed-same d s bytes n h = elim (Bool-cases (is_bom bytes)) [
    | inl e ↦
        rw (entered cancel d s bytes n, entered none d s bytes n, e)
          (after-same _ _ _ _ (rw (entered none d s bytes n, e) at h))
    | inr e ↦
        rw (entered cancel d s bytes n, entered none d s bytes n, e)
          (after-same _ _ _ _ (rw (entered none d s bytes n, e) at h))
  ]
