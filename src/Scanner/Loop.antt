-- ===== src/Scanner/Loop.antt =====
-- The whole loop of `feed` on one chunk, with no request to stop: on a chunk that others follow it
-- leaves the scanner where the machine is, and on the last chunk it closes the file as the machine
-- does.
use data_table_viewer.Prelude.{
  ℕ, ◌+◌, Bool, true, false, [], ◌∷◌, ◌≡◌, refl, ap, subst, ◌∙◌, Option, none, some, leb,
  if◌then◌else◌, length, Bytes, arith, Bool-cases, inl, inr,
}
use data_table_viewer.Scanner.{
  Callbacks, CancelCheck, Scanner, State, Cursor, Round, cancelled, stop, one, two,
  cancel_check_interval,
}
use data_table_viewer.Scanner.Feed.{
  next_is, chunk_ends, quoted_round, plain_round, asks, tick, ensure_start, round, finish, follow,
  loop,
}
use data_table_viewer.Scanner.Machine.{Machine, IsStream, end_row, step_in, step, run, close}
use data_table_viewer.Scanner.Simulation.{
  view, IsReady, emit_span_lem, flush_field_lem, end_record_lem,
}
use data_table_viewer.Scanner.Rounds.{
  Agrees, same, quote_closed, cr_done, IsBetween, seen, took, Follows, quoted_round-Follows,
  plain_round-Follows,
}

-- Nobody asks to stop.
abbrev pub Never : {S : Type 0} → CancelCheck S → Type 0
Never {S} cancel = (s : S) → asks cancel s ≡ false

-- The scanner with its round counted.
abbrev ticked : {S : Type 0} → State S → State S
ticked st =
    let s = st.scanner in
    record st {
      scanner = record s {
        bytes_since_cancel_check =
            if leb cancel_check_interval (s.bytes_since_cancel_check + 1)
            then 0
            else s.bytes_since_cancel_check + 1;
      };
    }

module _ {S : Type 0} (cb : Callbacks S) where
  -- What a chunk that others follow leaves behind.
  abbrev pub Fed : ℕ → Machine S → Bool × State S → Type 0
  Fed delimiter m r =
      (r.0 ≡ true) × (r.1.scanner.delimiter ≡ delimiter) × IsBetween r.1.scanner × (view r.1 ≡ m)

  -- What the last chunk leaves behind.
  abbrev pub Closed : Machine S → ℕ → Bool × State S → Type 0
  Closed m offset r = (r.0 ≡ true) × (r.1.out ≡ close cb m offset)

module _ {S : Type 0} (cb : Callbacks S) (stream : IsStream cb) (cancel : CancelCheck S)
    (never : Never cancel) where
  tick-ticked : (st : State S) → tick cb cancel st ≡ (ticked st, false)
  unfolding tick
  tick-ticked st = ground (arith, never st.out)

  abbrev counted : Cursor S → Cursor S
  counted k = record k { state = ticked k.state }

  round-quoted :
      (is_eof : Bool) (k : Cursor S) (c : ℕ) (next : Option ℕ)
      → k.state.scanner.in_quotes ≡ true
      → round cb is_eof cancel k c next ≡ quoted_round cb is_eof (counted k) c next
  unfolding round
  round-quoted is_eof k c next q = rw (tick-ticked k.state) (ground arith)

  round-plain :
      (is_eof : Bool) (k : Cursor S) (c : ℕ) (next : Option ℕ)
      → IsReady k.state.scanner
      → k.state.scanner.in_quotes ≡ false
      → round cb is_eof cancel k c next ≡ plain_round cb is_eof (counted k) c next
  unfolding round ensure_start
  round-plain is_eof k c next r q = rw (tick-ticked k.state) (ground arith)

  ticked-IsReady : (st : State S) → IsReady st.scanner → IsReady (ticked st).scanner
  ticked-IsReady st r = record {
    no_cr = r.no_cr;
    no_quote = r.no_quote;
    started = r.started;
    checked = r.checked;
  }

  pub round-Follows :
      (is_eof : Bool) (k : Cursor S) (c : ℕ) (next : Option ℕ)
      → IsReady k.state.scanner
      → Follows cb is_eof k c next (round cb is_eof cancel k c next)
  round-Follows is_eof k c next r = elim (Bool-cases k.state.scanner.in_quotes) [
    | inl q ↦
        rw (round-quoted is_eof k c next q)
          (quoted_round-Follows cb stream is_eof (counted k) c next (ticked-IsReady k.state r) q)
    | inr q ↦
        rw (round-plain is_eof k c next r q)
          (plain_round-Follows cb stream is_eof (counted k) c next (ticked-IsReady k.state r) q)
  ]

  -- What was only looked at comes to the same with the next byte.
  Agrees-run :
      {is_eof : Bool} (d : ℕ) (next offset : ℕ) (rest : Bytes) {m' m : Machine S}
      → Agrees is_eof (some next) offset m' m
      → run cb d m' offset (next ∷ rest) ≡ run cb d m offset (next ∷ rest)
  unfolding run step_in next_is
  Agrees-run d next offset rest (same e) = rw e
  Agrees-run d next offset rest {m'} {m} (quote_closed e e' h _) = rw (e', e, h)
  Agrees-run d next offset rest {m'} {m} (cr_done e e' w h _) = rw (e', e, h)

  Agrees-close :
      {is_eof : Bool} (next : Option ℕ) (offset : ℕ) {m' m : Machine S}
      → Agrees is_eof next offset m' m
      → close cb m' offset ≡ close cb m offset
  unfolding close end_row
  Agrees-close next offset (same e) = rw e
  Agrees-close next offset {m'} {m} (quote_closed e e' h _) = rw (e', e)
  Agrees-close next offset {m'} {m} (cr_done e e' w h _) = rw (e', e, w)

  Agrees-same : {offset : ℕ} {m' m : Machine S} → Agrees false none offset m' m → m' ≡ m
  unfolding chunk_ends
  Agrees-same (same e) = e
  Agrees-same (quote_closed e e' h w) = cc
  Agrees-same (cr_done e e' x h w) = cc

  IsReady-IsBetween : {s : Scanner} → IsReady s → IsBetween s
  IsReady-IsBetween r = record {
    cr_outside = ground arith;
    started = ground arith;
    checked = r.checked;
  }

  pub finish-Fed :
      (chunk_end : ℕ) (k : Cursor S) {d : ℕ} {m : Machine S}
      → IsBetween k.state.scanner
      → k.state.scanner.delimiter ≡ d
      → seen cb k ≡ m
      → Fed cb d m (finish cb false chunk_end k)
  unfolding finish
  finish-Fed chunk_end k b e v = rw (emit_span_lem cb stream) (refl, e, b, v)

  pub finish-Closed :
      (chunk_end : ℕ) (k : Cursor S)
      → k.state.scanner.pending_cr ≡ false
      → k.state.scanner.pending_quote ≡ false
      → k.offset ≡ chunk_end
      → Closed cb (seen cb k) chunk_end (finish cb true chunk_end k)
  unfolding finish close end_row
  finish-Closed chunk_end k r r' e =
      rw (emit_span_lem cb stream, flush_field_lem cb stream, end_record_lem cb stream)
        (ground arith)

  last_round-Fed :
      (chunk_end : ℕ) (k : Cursor S) (c : ℕ) (R : Round S)
      → Follows cb false k c none R
      → Fed cb k.state.scanner.delimiter
          (took cb k c)
          (follow cb false chunk_end (finish cb false chunk_end) (finish cb false chunk_end) R)
  unfolding follow
  last_round-Fed chunk_end k c (cancelled st) f = absurd f
  last_round-Fed chunk_end k c (stop k') (_, e, b, v) = finish-Fed chunk_end k' b e v
  last_round-Fed chunk_end k c (one k') (r, o, e, a) =
      finish-Fed chunk_end k' (IsReady-IsBetween r) e (Agrees-same a)
  last_round-Fed chunk_end k c (two k') (r, o, e, d, n, v) = cc

  last_round-Closed :
      (chunk_end : ℕ) (k : Cursor S) (c : ℕ)
      → k.offset + 1 ≡ chunk_end
      → (R : Round S) → Follows cb true k c none R
      → Closed cb
          (took cb k c)
          chunk_end
          (follow cb true chunk_end (finish cb true chunk_end) (finish cb true chunk_end) R)
  unfolding follow chunk_ends
  last_round-Closed chunk_end k c h (cancelled st) f = absurd f
  last_round-Closed chunk_end k c h (stop k') f = cc (f.0)
  last_round-Closed chunk_end k c h (one k') (r, o, e, a) =
      let (fed, out) = finish-Closed chunk_end k' r.no_cr r.no_quote (o ∙ h) in
      (fed, out ∙ rw (← h) (Agrees-close none (k.offset + 1) a))
  last_round-Closed chunk_end k c h (two k') (r, o, e, d, n, v) = cc

  two_bytes :
      (k k' : Cursor S) (c d d' : ℕ) (rest : Bytes)
      → ◌≡◌ {A = Option ℕ} (some d) (some d')
      → seen cb k' ≡ step cb k.state.scanner.delimiter (took cb k c) (k.offset + 1) d'
      → run cb k.state.scanner.delimiter (seen cb k') (k.offset + 2) rest
        ≡ run cb k.state.scanner.delimiter (seen cb k) k.offset (c ∷ d ∷ rest)
  unfolding run
  two_bytes k k' c d d' rest n v =
      let e : d ≡ d' = ground arith in
      let o : k.offset + 1 + 1 ≡ k.offset + 2 = omega arith in rw (e, o, v)

  -- A round with a byte behind it, for either kind of chunk: `P` is what the loop must come to.
  round_step :
      (is_eof : Bool) (chunk_end : ℕ) (k : Cursor S) (c d : ℕ) (rest : Bytes)
      (P : Machine S → Bool × State S → Type 0) (on_one on_two : Cursor S → Bool × State S)
      → ((k' : Cursor S)
          → IsReady k'.state.scanner
          → k'.offset ≡ k.offset + 1
          → k'.state.scanner.delimiter ≡ k.state.scanner.delimiter
          → P (run cb k.state.scanner.delimiter (seen cb k') (k.offset + 1) (d ∷ rest)) (on_one k'))
      → ((k' : Cursor S)
          → IsReady k'.state.scanner
          → k'.offset ≡ k.offset + 2
          → k'.state.scanner.delimiter ≡ k.state.scanner.delimiter
          → P (run cb k.state.scanner.delimiter (seen cb k') (k.offset + 2) rest) (on_two k'))
      → (R : Round S) → Follows cb is_eof k c (some d) R
      → P
          (run cb k.state.scanner.delimiter (seen cb k) k.offset (c ∷ d ∷ rest))
          (follow cb is_eof chunk_end on_one on_two R)
  unfolding follow run chunk_ends
  round_step is_eof chunk_end k c d rest P on_one on_two h1 h2 (cancelled st) f = absurd f
  round_step is_eof chunk_end k c d rest P on_one on_two h1 h2 (stop k') f = cc (f.0)
  round_step is_eof chunk_end k c d rest P on_one on_two h1 h2 (one k') (r, o, e, a) =
      subst (λ m. P m (on_one k')) (Agrees-run k.state.scanner.delimiter d (k.offset + 1) rest a)
        (h1 k' r o e)
  round_step is_eof chunk_end k c d rest P on_one on_two h1 h2 (two k') (r, o, e, d', n, v) =
      subst (λ m. P m (on_two k')) (two_bytes k k' c d d' rest n v) (h2 k' r o e)

  run-at :
      {d' d : ℕ} (m : Machine S) {o' o : ℕ} (bytes : Bytes)
      → d' ≡ d
      → o' ≡ o
      → run cb d' m o' bytes ≡ run cb d m o bytes
  run-at m bytes e o = cc

  pub Fed-at :
      {d' d : ℕ} {m' m : Machine S} (r : Bool × State S)
      → d' ≡ d
      → m' ≡ m
      → Fed cb d' m' r
      → Fed cb d m r
  Fed-at r e v (fed, d, b, w) = (fed, d ∙ e, b, w ∙ v)

  pub loop-Fed :
      (chunk_end : ℕ) (k : Cursor S) (bytes : Bytes)
      → IsReady k.state.scanner
      → Fed cb k.state.scanner.delimiter
          (run cb k.state.scanner.delimiter (seen cb k) k.offset bytes)
          (loop cb false cancel chunk_end k bytes)
  unfolding loop run
  loop-Fed chunk_end k [] r = finish-Fed chunk_end k (IsReady-IsBetween r) refl refl
  loop-Fed chunk_end k (c ∷ []) r = last_round-Fed chunk_end k c _ (round-Follows false k c none r)
  loop-Fed chunk_end k (c ∷ d ∷ rest) r =
      round_step false chunk_end k c d rest (Fed cb k.state.scanner.delimiter) _ _
        (λ k' r' o e.
          Fed-at _ e (run-at (seen cb k') (d ∷ rest) e o) (loop-Fed chunk_end k' (d ∷ rest) r'))
        (λ k' r' o e. Fed-at _ e (run-at (seen cb k') rest e o) (loop-Fed chunk_end k' rest r')) _
        (round-Follows false k c (some d) r)

  pub loop-Closed :
      (chunk_end : ℕ) (k : Cursor S) (bytes : Bytes)
      → IsReady k.state.scanner
      → k.offset + length bytes ≡ chunk_end
      → Closed cb
          (run cb k.state.scanner.delimiter (seen cb k) k.offset bytes)
          chunk_end
          (loop cb true cancel chunk_end k bytes)
  unfolding loop run
  loop-Closed chunk_end k [] r h = finish-Closed chunk_end k r.no_cr r.no_quote (omega arith)
  loop-Closed chunk_end k (c ∷ []) r h =
      last_round-Closed chunk_end k c (omega arith) _ (round-Follows true k c none r)
  loop-Closed chunk_end k (c ∷ d ∷ rest) r h =
      round_step true chunk_end k c d rest (λ m. Closed cb m chunk_end) _ _
        (λ k' r' o e.
          let (fed, out) = loop-Closed chunk_end k' (d ∷ rest) r' (omega arith) in
          (fed, out ∙ ap (λ m. close cb m chunk_end) (run-at (seen cb k') (d ∷ rest) e o)))
        (λ k' r' o e.
          let (fed, out) = loop-Closed chunk_end k' rest r' (omega arith) in
          (fed, out ∙ ap (λ m. close cb m chunk_end) (run-at (seen cb k') rest e o)))
        _ (round-Follows true k c (some d) r)
