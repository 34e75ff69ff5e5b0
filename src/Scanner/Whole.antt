-- ===== src/Scanner/Whole.antt =====
-- A whole file fed chunk by chunk, as `CsvFileSource::open` and `advanceIndex` feed it.
use data_table_viewer.Prelude.{
  ℕ, ◌+◌, ◌≤◌, ◌<◌, Bool, true, false, ◌∷◌, [], ◌++◌, List, ◌≡◌, refl, sym, ap, subst, ◌∙◌, length,
  Bytes, arith, append_assoc, append-nil, length-append, dec_lt,
}
use data_table_viewer.Scanner.{Callbacks, CancelCheck, State, new}
use data_table_viewer.Scanner.Feed.{ready, feed_body, probe, after_probe, feed}
use data_table_viewer.Scanner.Machine.{IsStream, run, close, read_prefix, reference}
use data_table_viewer.Scanner.Simulation.{view}
use data_table_viewer.Scanner.Rounds.{IsBetween}
use data_table_viewer.Scanner.Loop.{Never, Fed, Closed, Fed-at}
use data_table_viewer.Scanner.Chunks.{feed_body-Fed, feed_body-Closed}
use data_table_viewer.Scanner.Prefix.{read_prefix-append}
use data_table_viewer.Scanner.Probe.{buffering, delimiter_of, Ready, probe-Ready, probe-waiting}

-- A scanner as its constructor leaves it, with what its callbacks start from.
abbrev pub started : {S : Type 0} → ℕ → S → State S
started d s = record { scanner = new d; out = s }

abbrev pub concat : List Bytes → Bytes
concat [] = []
concat (c ∷ cs) = c ++ concat cs

module _ {S : Type 0} (cb : Callbacks S) (cancel : CancelCheck S) where
  -- The chunks in turn, the last one as the end of the file; a failure stops it.
  unfoldable pub feed_all : State S → ℕ → List Bytes → Bool × State S
  feed_all st base [] = (true, st)
  feed_all st base (c ∷ []) = feed cb st c base true cancel
  feed_all st base (c ∷ d ∷ cs) =
      let r = feed cb st c base false cancel in
      elim r.0 [ true ↦ feed_all r.1 (base + length c) (d ∷ cs) | false ↦ r ]

module _ {S : Type 0} (cb : Callbacks S) (stream : IsStream cb) (cancel : CancelCheck S)
    (never : Never cancel) (d : ℕ) (s : S) where
  -- The state of a scanner that has been fed `pre`, and not yet the end of the file.
  data Stage (pre : Bytes) (st : State S) : Type 0 where
    aside : st ≡ buffering d s pre → length pre < 3 → Stage pre st
    running :
        3 ≤ length pre
        → st.scanner.delimiter ≡ delimiter_of d
        → IsBetween st.scanner
        → view st ≡ read_prefix cb (delimiter_of d) s pre
        → Stage pre st

  feed-ready :
      (is_eof : Bool) (pre chunk : Bytes) {st : State S} {offset : ℕ} {rest : Bytes}
      → probe cb is_eof cancel (buffering d s pre) (length pre) chunk ≡ ready st offset rest
      → feed cb (buffering d s pre) chunk (length pre) is_eof cancel
        ≡ feed_body cb is_eof cancel (length (pre ++ chunk)) st offset rest
  unfolding feed after_probe
  feed-ready is_eof pre chunk e =
      rw (length-append pre chunk) (ap (after_probe cb is_eof cancel (length pre + length chunk)) e)

  feed-waiting :
      (pre chunk : Bytes)
      → length pre + length chunk < 3
      → feed cb (buffering d s pre) chunk (length pre) false cancel
        ≡ (true, buffering d s (pre ++ chunk))
  unfolding feed after_probe
  feed-waiting pre chunk h = rw (probe-waiting cb stream cancel never d s pre chunk h)

  -- The end of the file, fed to a scanner whose probe was not done.
  Ready-Closed :
      (pre chunk : Bytes)
      → Ready cb stream cancel never d s
          (pre ++ chunk)
          (probe cb true cancel (buffering d s pre) (length pre) chunk)
      → Closed cb
          (read_prefix cb (delimiter_of d) s (pre ++ chunk))
          (length (pre ++ chunk))
          (feed cb (buffering d s pre) chunk (length pre) true cancel)
  Ready-Closed pre chunk r =
      subst (Closed cb (read_prefix cb (delimiter_of d) s (pre ++ chunk)) (length (pre ++ chunk)))
        (sym (feed-ready true pre chunk r.probed))
        (let (fed, out) =
            feed_body-Closed cb stream cancel never _ r.offset r.state r.rest r.between r.ends in
          (
            fed,
            out
                ∙ ap (λ m. close cb m (length (pre ++ chunk)))
                    (ap (λ x. run cb x (view r.state) r.offset r.rest) r.delimits ∙ r.reads),
          ))

  Ready-Fed :
      (pre chunk : Bytes)
      → Ready cb stream cancel never d s
          (pre ++ chunk)
          (probe cb false cancel (buffering d s pre) (length pre) chunk)
      → Fed cb
          (delimiter_of d)
          (read_prefix cb (delimiter_of d) s (pre ++ chunk))
          (feed cb (buffering d s pre) chunk (length pre) false cancel)
  Ready-Fed pre chunk r =
      subst (Fed cb (delimiter_of d) (read_prefix cb (delimiter_of d) s (pre ++ chunk)))
        (sym (feed-ready false pre chunk r.probed))
        (Fed-at cb stream cancel never _ r.delimits
          (ap (λ x. run cb x (view r.state) r.offset r.rest) r.delimits ∙ r.reads)
          (feed_body-Fed cb stream cancel never _ r.offset r.state r.rest r.between))

  -- A scanner whose probe is done goes straight to `feed_body`.
  feed-checked :
      (st : State S) (chunk : Bytes) (base : ℕ) (is_eof : Bool)
      → st.scanner.bom_checked ≡ true
      → feed cb st chunk base is_eof cancel
        ≡ feed_body cb is_eof cancel (base + length chunk) st base chunk
  unfolding feed after_probe probe
  feed-checked st chunk base is_eof h = rw h

  Fed-running :
      (pre : Bytes) (r : Bool × State S)
      → 3 ≤ length pre
      → Fed cb (delimiter_of d) (read_prefix cb (delimiter_of d) s pre) r
      → (r.0 ≡ true) × Stage pre r.1
  Fed-running pre r n (fed, e, b, v) = (fed, running n e b v)

  -- A chunk that others follow.
  feed-Stage :
      (pre chunk : Bytes) (st : State S)
      → Stage pre st
      → (let r = feed cb st chunk (length pre) false cancel in
          (r.0 ≡ true) × Stage (pre ++ chunk) r.1)
  feed-Stage pre chunk st (aside e n) = elim (dec_lt (length pre + length chunk) 3) [
    | yes k ↦
        let whole : length (pre ++ chunk) < 3 = omega (arith, length-append pre chunk) in
        rw (e, feed-waiting pre chunk k) (refl, aside refl whole)
    | no k ↦ rw e (
        Fed-running (pre ++ chunk) _ (omega (arith, length-append pre chunk)) (
          Ready-Fed pre chunk (
            probe-Ready cb stream cancel never d s false pre chunk n
              (ground (arith, length-append pre chunk)))))
  ]
  feed-Stage pre chunk st (running n e b v) =
      rw (feed-checked st chunk (length pre) false b.checked) (
        Fed-running (pre ++ chunk) _ (omega (arith, length-append pre chunk)) (
          Fed-at cb stream cancel never _ e
            (ap (λ m. run cb st.scanner.delimiter m (length pre) chunk) v
              ∙ ap (λ x. run cb x (read_prefix cb (delimiter_of d) s pre) (length pre) chunk) e
              ∙ sym (read_prefix-append cb (delimiter_of d) s pre chunk n))
            (feed_body-Fed cb stream cancel never _ (length pre) st chunk b)))

  -- The end of the file.
  feed-Closed :
      (pre chunk : Bytes) (st : State S)
      → Stage pre st
      → Closed cb
          (read_prefix cb (delimiter_of d) s (pre ++ chunk))
          (length (pre ++ chunk))
          (feed cb st chunk (length pre) true cancel)
  feed-Closed pre chunk st (aside e n) = rw e (
      Ready-Closed pre chunk
        (probe-Ready cb stream cancel never d s true pre chunk n (ground arith)))
  feed-Closed pre chunk st (running n e b v) =
      rw (feed-checked st chunk (length pre) true b.checked) (
        let (fed, out) =
          feed_body-Closed cb stream cancel never (length pre + length chunk) (length pre) st chunk
            b refl in
        (
          fed,
          out
              ∙ ap (λ m. close cb m (length pre + length chunk))
                  (ap (λ m. run cb st.scanner.delimiter m (length pre) chunk) v
                    ∙ ap (λ x. run cb x (read_prefix cb (delimiter_of d) s pre) (length pre) chunk)
                        e
                    ∙ sym (read_prefix-append cb (delimiter_of d) s pre chunk n))
              ∙ ap (close cb (read_prefix cb (delimiter_of d) s (pre ++ chunk)))
                  (sym (length-append pre chunk)),
        ))

  feed_all-next :
      (st : State S) (base : ℕ) (c next : Bytes) (chunks : List Bytes)
      → (feed cb st c base false cancel).0 ≡ true
      → feed_all cb cancel st base (c ∷ next ∷ chunks)
        ≡ feed_all cb cancel (feed cb st c base false cancel).1 (base + length c) (next ∷ chunks)
  unfolding feed_all
  feed_all-next st base c next chunks e = rw (e, feed_all)

  feed_all-Closed :
      (pre chunk : Bytes) (chunks : List Bytes) (st : State S)
      → Stage pre st
      → (let r = feed_all cb cancel st (length pre) (chunk ∷ chunks) in
          (r.0 ≡ true)
          × (r.1.out ≡ reference cb (delimiter_of d) s (pre ++ concat (chunk ∷ chunks))))
  unfolding feed_all reference
  feed_all-Closed pre chunk [] st g = rw append-nil (feed-Closed pre chunk st g)
  feed_all-Closed pre chunk (next ∷ chunks) st g =
      let r = feed cb st chunk (length pre) false cancel in
      let (fed, g') = feed-Stage pre chunk st g in
      let rest = concat (next ∷ chunks) in
      subst
        (λ x. (x.0 ≡ true) × (x.1.out ≡ reference cb (delimiter_of d) s (pre ++ (chunk ++ rest))))
        (sym (feed_all-next st (length pre) chunk next chunks fed))
        (subst
          (λ w.
            (let x = feed_all cb cancel r.1 (length pre + length chunk) (next ∷ chunks) in
              (x.0 ≡ true) × (x.1.out ≡ reference cb (delimiter_of d) s w)))
          (append_assoc pre chunk rest)
          (subst
            (λ n.
              (let x = feed_all cb cancel r.1 n (next ∷ chunks) in
                (x.0 ≡ true)
                × (x.1.out ≡ reference cb (delimiter_of d) s ((pre ++ chunk) ++ rest))))
            (length-append pre chunk) (feed_all-Closed (pre ++ chunk) next chunks r.1 g')))

  buffering-nil : buffering d s [] ≡ started d s
  unfolding new
  buffering-nil = refl

  -- A new scanner that is fed a source in any chunks, the last of them as the end of the file, and
  -- is not asked to stop, reports success, and its callbacks have made of their state `s` what the
  -- byte machine makes of it on the whole source, byte order mark, quotes and line breaks across
  -- chunk borders included. The callbacks may not tell how a field is cut into fragments.
  pub feed_all_lem :
      (chunk : Bytes) (chunks : List Bytes)
      → (let r = feed_all cb cancel (started d s) 0 (chunk ∷ chunks) in
          (r.0 ≡ true) × (r.1.out ≡ reference cb (delimiter_of d) s (concat (chunk ∷ chunks))))
  feed_all_lem chunk chunks =
      feed_all-Closed [] chunk chunks (started d s) (aside (sym buffering-nil) (omega arith))
