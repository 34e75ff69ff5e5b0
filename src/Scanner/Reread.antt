-- ===== src/Scanner/Reread.antt =====
-- A record that is read again by its place alone, as pages and copies read it.
use data_table_viewer.Prelude.{
  ℕ, ◌+◌, ◌^◌, ◌<◌, true, false, ◌||◌, [], ◌∷◌, ◌++◌, ◌≤◌, some, ◌≡◌, refl, sym, ap, subst, ◌∙◌,
  if◌then◌else◌, lt→ltb, length, length-append, take, drop, Bytes, u64, u64-eq_of_lt, arith,
}
use data_table_viewer.Scanner.{Callbacks, CancelCheck, new}
use data_table_viewer.Scanner.Feed.{probe, after_probe, feed, feed_body, ready}
use data_table_viewer.Scanner.Machine.{
  record_end, field, IsStream, run, close, end_row, is_quoted, fresh,
}
use data_table_viewer.Scanner.Simulation.{view}
use data_table_viewer.Scanner.Loop.{Never, Closed}
use data_table_viewer.Scanner.Chunks.{feed_body-Closed}
use data_table_viewer.Scanner.Probe.{delimiter_of, opened, opened-IsBetween, view-opened}
use data_table_viewer.Scanner.Whole.{started}
use data_table_viewer.Scanner.Local.{
  Local, fresh_local, local_run, spread, Spread, run-Spread, cells_fold,
}
use data_table_viewer.Scanner.Records.{SourceRecord, row_fold, spread-fresh}
use data_table_viewer.Scanner.Contents.{StandsIn}

take-length : (b c : Bytes) → take (length b) (b ++ c) ≡ b
take-length [] c = refl
take-length (x ∷ b) c = ap (λ y. x ∷ y) (take-length b c)

drop-length : (a b : Bytes) → drop (length a) (a ++ b) ≡ b
drop-length [] b = refl
drop-length (x ∷ a) b = drop-length a b

-- The bytes from a record's start to its end are the record.
slice_lem :
    (content : Bytes) (d : ℕ) (r : SourceRecord)
    → StandsIn content d r
    → (take (length r.body) (drop r.start content) ≡ r.body)
      × (r.start + length r.body ≤ length content)
slice_lem content d r h =
    let cut : drop r.start content ≡ r.body ++ h.after =
      ap (λ n. drop n content) (sym h.place)
      ∙ ap (drop (length h.before)) h.content_is
      ∙ drop-length h.before (r.body ++ h.after) in
    (
      ap (take (length r.body)) cut ∙ take-length r.body h.after,
      omega (
        arith,
        h.place,
        ap length h.content_is,
        length-append h.before (r.body ++ h.after),
        length-append r.body h.after,
      ),
    )

module _ {S : Type 0} (cb : Callbacks S) (stream : IsStream cb) (cancel : CancelCheck S)
    (never : Never cancel) (d : ℕ) where
  -- Behind the start of a file there is no byte order mark to look for.
  probe-behind :
      (s : S) (body : Bytes) (base : ℕ)
      → 0 < base
      → probe cb true cancel (started d s) base body ≡ ready (opened d s false (u64 base)) base body
  unfolding probe new
  probe-behind s body base h = let e = lt→ltb 0 base h in rw e refl

  -- What the machine has made of the record at its end.
  closed-record :
      (s : S) (base : ℕ) (l : Local) (total : ℕ)
      → total < 2 ^ 64
      → close cb (spread cb stream (delimiter_of d) 0 base s l) total ≡ (
          if l.saw || is_quoted l.mode
          then record_end cb 0 base total (row_fold cb l s)
          else field cb l.col l.cell false (cells_fold cb 0 l.row s))
  unfolding close end_row row_fold
  closed-record s base l total k =
      ap
        (λ x.
          if l.saw || is_quoted l.mode
          then record_end cb 0 base x (row_fold cb l s)
          else field cb l.col l.cell false (cells_fold cb 0 l.row s))
        (u64-eq_of_lt total k)

  feed-record :
      (s : S) (body : Bytes) (base : ℕ) (l : Local)
      → 0 < base
      → base + length body < 2 ^ 64
      → local_run (delimiter_of d) fresh_local body ≡ some l
      → (l.saw || is_quoted l.mode) ≡ true
      → (let r = feed cb (started d s) body base true cancel in
          (r.0 ≡ true) × (r.1.out ≡ record_end cb 0 base (base + length body) (row_fold cb l s)))
  unfolding feed after_probe
  feed-record s body base l p k e h =
      let st = opened d s false (u64 base) in
      let begun : view st ≡ spread cb stream (delimiter_of d) 0 base s fresh_local =
        view-opened cb stream cancel never d s false (u64 base)
        ∙ ap (λ a. fresh a s) (u64-eq_of_lt base (omega arith))
        ∙ sym (spread-fresh cb stream (delimiter_of d) 0 base s) in
      let machine : run cb (delimiter_of d) (view st) base body
          ≡ spread cb stream (delimiter_of d) 0 base s l =
        ap (λ m. run cb (delimiter_of d) m base body) begun
        ∙ subst
            (Spread cb stream (delimiter_of d) 0 base s (
              run cb (delimiter_of d) (spread cb stream (delimiter_of d) 0 base s fresh_local) base
                body))
            e
            (run-Spread cb stream (delimiter_of d) 0 base body fresh_local s base refl
              (omega arith)) in
      let (ok, out) : Closed cb (run cb st.scanner.delimiter (view st) base body)
          (base + length body) (feed_body cb true cancel (base + length body) st base body) =
        feed_body-Closed cb stream cancel never (base + length body) base st body
          (opened-IsBetween cb stream cancel never d s false (u64 base)) refl in
      let shown : (if l.saw || is_quoted l.mode
            then record_end cb 0 base (base + length body) (row_fold cb l s)
            else field cb l.col l.cell false (cells_fold cb 0 l.row s))
          ≡ record_end cb 0 base (base + length body) (row_fold cb l s) =
        rw h refl in
      rw (probe-behind s body base p) (
        ok,
        out
            ∙ ap (λ m. close cb m (base + length body)) machine
            ∙ closed-record s base l (base + length body) k
            ∙ shown,
      )

  -- A record that stands in a source of less than 2^64 bytes, behind its first byte, and shows a cell or
  -- an open quote, gives a new scanner that is fed its bytes alone, at its place and as the end of
  -- a file, the cells that it has in the source, one by one, and then its end. The callbacks may
  -- not tell how a field is cut, and nobody asks to stop.
  pub feed-slice :
      (s : S) (content : Bytes) (r : SourceRecord)
      → StandsIn content (delimiter_of d) r
      → 0 < r.start
      → length content < 2 ^ 64
      → (r.local.saw || is_quoted r.local.mode) ≡ true
      → (let slice = take (length r.body) (drop r.start content) in
          let y = feed cb (started d s) slice r.start true cancel in
          (y.0 ≡ true)
          × (y.1.out ≡ record_end cb 0 r.start (r.start + length r.body) (row_fold cb r.local s)))
  feed-slice s content r h p k shows =
      let (slice_is, inside) = slice_lem content (delimiter_of d) r h in
      subst
        (λ b.
          let y = feed cb (started d s) b r.start true cancel in
          (y.0 ≡ true)
          × (y.1.out ≡ record_end cb 0 r.start (r.start + length r.body) (row_fold cb r.local s)))
        (sym slice_is) (feed-record s r.body r.start r.local p (omega arith) h.cells_are shows)
