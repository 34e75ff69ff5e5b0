-- ===== src/Scanner/Chunks.antt =====
-- `feed` behind its probe, on one chunk: it does what the machine does with the chunk's bytes.
use data_table_viewer.Prelude.{
  ℕ, ◌+◌, Bool, true, false, not, ◌&&◌, [], ◌∷◌, ◌≡◌, refl, sym, ap, subst, ◌∙◌, length, Bytes,
  arith,
}
use data_table_viewer.Scanner.{Callbacks, CancelCheck, State}
use data_table_viewer.Scanner.Feed.{first_start, resolve_cr, resolve_quote, loop, feed_body}
use data_table_viewer.Scanner.Machine.{IsStream, run, close, end_row}
use data_table_viewer.Scanner.Simulation.{view}
use data_table_viewer.Scanner.Rounds.{IsBetween}
use data_table_viewer.Scanner.Loop.{
  Never, Fed, Closed, Fed-at, finish-Fed, finish-Closed, loop-Fed, loop-Closed,
}
use data_table_viewer.Scanner.Resolve.{
  view-first_start, delimiter-first_start, first_start-IsBetween, Resolved, resolved,
  resolved-Resolved, seen_fresh,
}

module _ {S : Type 0} (cb : Callbacks S) (stream : IsStream cb) (cancel : CancelCheck S)
    (never : Never cancel) where
  -- The loop where the two stages have left it.
  abbrev begun : Bool → ℕ → State S × ℕ × Bytes → Bool × State S
  begun is_eof chunk_end t =
      loop cb is_eof cancel chunk_end (record { state = t.0; offset = t.1; span = [] }) t.2

  begun-Fed :
      (chunk_end offset : ℕ) (st : State S) (bytes : Bytes) (t : State S × ℕ × Bytes)
      → Resolved cb stream st offset bytes t
      → Fed cb st.scanner.delimiter
          (run cb st.scanner.delimiter (view st) offset bytes)
          (begun false chunk_end t)
  begun-Fed chunk_end offset st bytes t (r, d, e, n) =
      Fed-at cb stream cancel never _ d
        (ap (λ m. run cb t.0.scanner.delimiter m t.1 t.2) (seen_fresh cb stream t.0 t.1)
          ∙ ap (λ x. run cb x (view t.0) t.1 t.2) d
          ∙ e)
        (loop-Fed cb stream cancel never chunk_end (record { state = t.0; offset = t.1; span = [] })
          t.2 r)

  begun-Closed :
      (chunk_end offset : ℕ) (st : State S) (bytes : Bytes) (t : State S × ℕ × Bytes)
      → Resolved cb stream st offset bytes t
      → offset + length bytes ≡ chunk_end
      → Closed cb
          (run cb st.scanner.delimiter (view st) offset bytes)
          chunk_end
          (begun true chunk_end t)
  begun-Closed chunk_end offset st bytes t (r, d, e, n) h =
      let (fed, out) =
        loop-Closed cb stream cancel never chunk_end
          (record { state = t.0; offset = t.1; span = [] }) t.2 r (n ∙ h) in
      (
        fed,
        out
            ∙ ap (λ m. close cb m chunk_end)
                (ap (λ m. run cb t.0.scanner.delimiter m t.1 t.2) (seen_fresh cb stream t.0 t.1)
                  ∙ ap (λ x. run cb x (view t.0) t.1 t.2) d
                  ∙ e),
      )

  resolved-none :
      (offset : ℕ) (st : State S) → resolved cb stream false st offset [] ≡ (st, offset, [])
  unfolding resolve_cr resolve_quote
  resolved-none offset st = ground arith

  waited-Fed :
      (chunk_end offset : ℕ) (st : State S)
      → IsBetween st.scanner
      → Fed cb st.scanner.delimiter
          (view st)
          (begun false chunk_end (resolved cb stream false st offset []))
  unfolding loop
  waited-Fed chunk_end offset st b =
      subst (λ t. Fed cb st.scanner.delimiter (view st) (begun false chunk_end t))
        (sym (resolved-none offset st))
        (finish-Fed cb stream cancel never chunk_end
          (record { state = st; offset = offset; span = [] }) b refl
          (seen_fresh cb stream st offset))

  -- At the end of the file nothing is pending any more.
  abbrev settled : State S → State S
  settled st =
      let s = st.scanner in
      record st {
        scanner = record s {
          pending_cr = false;
          pending_quote = false;
          in_quotes = not s.pending_quote && s.in_quotes;
        };
      }

  resolved-settled :
      (offset : ℕ) (st : State S) → resolved cb stream true st offset [] ≡ (settled st, offset, [])
  unfolding resolve_cr resolve_quote
  resolved-settled offset st = ground arith

  close-settled :
      (chunk_end : ℕ) (st : State S)
      → IsBetween st.scanner
      → close cb (view (settled st)) chunk_end ≡ close cb (view st) chunk_end
  unfolding close end_row
  close-settled chunk_end st b = ground arith

  settled-Closed :
      (chunk_end offset : ℕ) (st : State S)
      → IsBetween st.scanner
      → offset ≡ chunk_end
      → Closed cb (view st) chunk_end (begun true chunk_end (resolved cb stream true st offset []))
  unfolding loop
  settled-Closed chunk_end offset st b h =
      subst (λ t. Closed cb (view st) chunk_end (begun true chunk_end t))
        (sym (resolved-settled offset st))
        (let (fed, out) =
            finish-Closed cb stream cancel never chunk_end
              (record { state = settled st; offset = offset; span = [] }) refl refl h in
          (
            fed,
            out
                ∙ ap (λ m. close cb m chunk_end) (seen_fresh cb stream (settled st) offset)
                ∙ close-settled chunk_end st b,
          ))

  begin_at :
      (is_eof : Bool) (chunk_end offset : ℕ) (st : State S) (bytes : Bytes)
      → feed_body cb is_eof cancel chunk_end st offset bytes
        ≡ begun is_eof chunk_end (resolved cb stream is_eof (first_start st offset) offset bytes)
  unfolding feed_body
  begin_at is_eof chunk_end offset st bytes = refl

  -- A chunk that others follow takes the scanner where its bytes take the machine.
  pub feed_body-Fed :
      (chunk_end offset : ℕ) (st : State S) (bytes : Bytes)
      → IsBetween st.scanner
      → Fed cb st.scanner.delimiter
          (run cb st.scanner.delimiter (view st) offset bytes)
          (feed_body cb false cancel chunk_end st offset bytes)
  feed_body-Fed chunk_end offset st bytes b =
      subst (Fed cb st.scanner.delimiter (run cb st.scanner.delimiter (view st) offset bytes))
        (sym (begin_at false chunk_end offset st bytes))
        (Fed-at cb stream cancel never _ (delimiter-first_start st offset)
          (ap (λ m. run cb st'.scanner.delimiter m offset bytes) (view-first_start st offset b)
            ∙ ap (λ d. run cb d (view st) offset bytes) (delimiter-first_start st offset))
          (go bytes))
    where
      st' : State S
      st' = first_start st offset

      b' : IsBetween st'.scanner
      b' = first_start-IsBetween st offset b

      go :
          (bytes : Bytes)
          → Fed cb st'.scanner.delimiter
              (run cb st'.scanner.delimiter (view st') offset bytes)
              (begun false chunk_end (resolved cb stream false st' offset bytes))
      go [] = unfold run in waited-Fed chunk_end offset st' b'
      go (c ∷ rest) =
          begun-Fed chunk_end offset st' (c ∷ rest) _
            (resolved-Resolved cb stream false st' offset c rest b')

  -- The last chunk closes what the machine closes.
  pub feed_body-Closed :
      (chunk_end offset : ℕ) (st : State S) (bytes : Bytes)
      → IsBetween st.scanner
      → offset + length bytes ≡ chunk_end
      → Closed cb
          (run cb st.scanner.delimiter (view st) offset bytes)
          chunk_end
          (feed_body cb true cancel chunk_end st offset bytes)
  feed_body-Closed chunk_end offset st bytes b h =
      subst (Closed cb (run cb st.scanner.delimiter (view st) offset bytes) chunk_end)
        (sym (begin_at true chunk_end offset st bytes))
        (let (fed, out) = go bytes h in
          (
            fed,
            out
                ∙ ap (λ m. close cb m chunk_end)
                    (ap (λ m. run cb st'.scanner.delimiter m offset bytes)
                        (view-first_start st offset b)
                      ∙ ap (λ d. run cb d (view st) offset bytes)
                          (delimiter-first_start st offset)),
          ))
    where
      st' : State S
      st' = first_start st offset

      b' : IsBetween st'.scanner
      b' = first_start-IsBetween st offset b

      go :
          (bytes : Bytes)
          → offset + length bytes ≡ chunk_end
          → Closed cb
              (run cb st'.scanner.delimiter (view st') offset bytes)
              chunk_end
              (begun true chunk_end (resolved cb stream true st' offset bytes))
      go [] h = unfold run in settled-Closed chunk_end offset st' b' (omega arith)
      go (c ∷ rest) h =
          begun-Closed chunk_end offset st' (c ∷ rest) _
            (resolved-Resolved cb stream true st' offset c rest b') h
