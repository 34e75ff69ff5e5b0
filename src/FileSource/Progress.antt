-- ===== src/FileSource/Progress.antt =====
-- How `open` and `advanceIndex` get on: the rounds of the scan come to an end, and a slice that goes
-- well takes the scan further.
use data_table_viewer.Prelude.{
  ℕ, zero, suc, ◌+◌, ◌-◌, ◌≤◌, ◌<◌, min, Bool, true, false, not, ◌&&◌, ◌||◌, ◌⊎◌, Option, none,
  some, ◌≡◌, refl, ap, subst, leb, leb→le, if◌then◌else◌, length, Bytes, arith, Bool-cases, inl,
  inr,
}
use data_table_viewer.Scanner.{Scanner, CancelCheck}
use data_table_viewer.Scanner.Feed.{feed}
use data_table_viewer.Index.{FileOps}
use data_table_viewer.FileSource.State.{
  SourceOps, Intake, CsvFileSource, Outcome, ok, err, scan_stopped, read_bytes,
}
use data_table_viewer.FileSource.Sampling.{max_sample_rows, intake_callbacks}
use data_table_viewer.FileSource.Opening.{
  max_sample_scan_bytes, max_header_scan_bytes, chunk_size, ScanStep, broke, going, aborted, fail,
  after_chunk, feed_chunk, scan_round, scan_sample,
}

-- Where the scan stops without an error.
pub record Scanned {F H : Type 0} (size : ℕ) (x : CsvFileSource F H) : Type 0 where
  pub same_file : x.opened_as.size ≡ size
  pub within : x.scan_offset < max_sample_scan_bytes + chunk_size
  pub in_file : x.scan_offset ≤ size
  pub enough :
      (x.scan_offset ≡ size)
      ⊎ ((x.intake.has_scanned_header ≡ true)
          × ((max_sample_rows ≤ length x.intake.sample.rows)
              ⊎ (max_sample_scan_bytes ≤ x.scan_offset)))

-- What one round leaves, of a scan that has come to `offset`.
abbrev Advanced : {F H : Type 0} → ℕ → ℕ → ScanStep F H → Type 0
Advanced size offset (broke scanner x) = Scanned size x
Advanced size offset (going scanner x) =
    (x.opened_as.size ≡ size)
    × (offset < x.scan_offset)
    × (x.scan_offset < max_sample_scan_bytes)
    × (x.scan_offset ≤ size)
Advanced size offset (aborted x) = Unit

-- What the scan ends with.
abbrev pub Ended : {F H : Type 0} → ℕ → Option (ScanStep F H) → Type 0
Ended size none = ⊥
Ended size (some (broke scanner x)) = Scanned size x
Ended size (some (going scanner x)) = ⊥
Ended size (some (aborted x)) = Unit

module _ {F H : Type 0} (size offset : ℕ) where
  Advanced-if :
      (t : Bool) (a b : ScanStep F H)
      → (t ≡ true → Advanced size offset a)
      → (t ≡ false → Advanced size offset b)
      → Advanced size offset (if t then a else b)
  Advanced-if true a b p q = p refl
  Advanced-if false a b p q = q refl

  read-Advanced :
      (x : CsvFileSource F H) (k : Bytes → ScanStep F H) (o : Outcome Bytes)
      → ((chunk : Bytes) → Advanced size offset (k chunk))
      → Advanced size offset (elim o [ err e ↦ aborted (fail e x) | ok chunk ↦ k chunk ])
  read-Advanced x k (err e) h = tt
  read-Advanced x k (ok chunk) h = h chunk

-- What the test of a round says where it holds, and where it does not.
done_enough :
    (has : Bool) (rows offset : ℕ) (is_eof : Bool) (size : ℕ)
    → (is_eof ≡ true → offset ≡ size)
    → (has && (leb max_sample_rows rows || (is_eof || leb max_sample_scan_bytes offset))) ≡ true
    → (offset ≡ size)
      ⊎ ((has ≡ true) × ((max_sample_rows ≤ rows) ⊎ (max_sample_scan_bytes ≤ offset)))
done_enough has rows offset true size whole b = inl (whole refl)
done_enough has rows offset false size whole b = inr (elim (Bool-cases (leb max_sample_rows rows)) [
  | inl m ↦ (ground arith, inl (leb→le _ _ m))
  | inr m ↦ (ground arith, inr (leb→le _ _ (ground arith)))
])

not_enough :
    (has : Bool) (rows offset : ℕ) (is_eof : Bool)
    → (not has && leb max_header_scan_bytes offset) ≡ false
    → (has && (leb max_sample_rows rows || (is_eof || leb max_sample_scan_bytes offset))) ≡ false
    → offset < max_sample_scan_bytes
not_enough has rows offset is_eof h b = ground arith

module _ {F H : Type 0} where
  after_chunk-Advanced :
      (size offset : ℕ) (scanner : Scanner) (x : CsvFileSource F H) (is_eof : Bool)
      → x.opened_as.size ≡ size
      → offset < x.scan_offset
      → x.scan_offset < max_sample_scan_bytes + chunk_size
      → x.scan_offset ≤ size
      → (is_eof ≡ true → x.scan_offset ≡ size)
      → Advanced size offset (after_chunk is_eof scanner x)
  unfolding after_chunk
  after_chunk-Advanced size offset scanner x is_eof e lt within inside whole =
      let i = x.intake in
      let done =
        leb max_sample_rows (length i.sample.rows)
        || (is_eof || leb max_sample_scan_bytes x.scan_offset) in
      let lost = not i.has_scanned_header && leb max_header_scan_bytes x.scan_offset in
      let pick = Advanced-if {F = F} {H = H} size offset in
      pick i.scan_failed (aborted x) _ (λ _. tt)
        (λ _.
          pick lost (aborted (fail _ x)) _ (λ _. tt)
            (λ h.
              pick (i.has_scanned_header && done) (broke scanner x) (going scanner x)
                (λ b. record {
                  same_file = e;
                  within = within;
                  in_file = inside;
                  enough =
                      done_enough i.has_scanned_header (length i.sample.rows) x.scan_offset is_eof
                        size whole b;
                })
                (λ b. (
                  e,
                  lt,
                  not_enough i.has_scanned_header (length i.sample.rows) x.scan_offset is_eof h b,
                  inside,
                ))))

  -- A file that is read keeps what was found out of it when it was opened, and its scan.
  pub read_bytes-kept :
      (files : SourceOps H) (offset size : ℕ) (x : CsvFileSource F H)
      → ((read_bytes files offset size x).1.opened_as ≡ x.opened_as)
        × ((read_bytes files offset size x).1.scan_offset ≡ x.scan_offset)
  unfolding read_bytes
  read_bytes-kept files offset size x = ground arith

module _ {F H : Type 0} (ops : FileOps F) (files : SourceOps H)
    (cancel : CancelCheck (Intake F)) where
  feed_chunk-Advanced :
      (size offset : ℕ) (scanner : Scanner) (x : CsvFileSource F H) (chunk : Bytes)
      → x.opened_as.size ≡ size
      → x.scan_offset ≡ offset
      → offset < size
      → offset < max_sample_scan_bytes
      → let to_read = min chunk_size (size - offset) in
        Advanced size offset
          (feed_chunk ops files cancel scanner x chunk to_read (leb size (offset + to_read)))
  unfolding feed_chunk
  feed_chunk-Advanced size offset scanner x chunk e o lt m =
      let to_read = min chunk_size (size - offset) in
      let is_eof = leb size (offset + to_read) in
      let r =
        feed (intake_callbacks ops) (record { scanner = scanner; out = x.intake }) chunk
          x.scan_offset is_eof cancel in
      let x' : CsvFileSource F H = record x {
        intake = r.1.out;
        scan_offset = x.scan_offset + to_read;
      } in
      Advanced-if size offset r.0 (after_chunk is_eof r.1.scanner x')
        (aborted (fail scan_stopped (record x { intake = r.1.out })))
        (λ _.
          after_chunk-Advanced size offset r.1.scanner x' is_eof e (omega arith) (omega arith)
            (omega arith) (λ w. omega (arith, leb→le _ _ w)))
        (λ _. tt)

  round-Advanced :
      (scanner : Scanner) (x : CsvFileSource F H)
      → x.scan_offset < x.opened_as.size
      → x.scan_offset < max_sample_scan_bytes
      → Advanced x.opened_as.size x.scan_offset (scan_round ops files cancel scanner x)
  unfolding scan_round
  round-Advanced scanner x lt m =
      let to_read = min chunk_size (x.opened_as.size - x.scan_offset) in
      let r = read_bytes files x.scan_offset to_read x in
      let (same, at) = read_bytes-kept files x.scan_offset to_read x in
      read-Advanced x.opened_as.size x.scan_offset r.1 _ r.0 (λ chunk.
        feed_chunk-Advanced x.opened_as.size x.scan_offset scanner r.1 chunk (ap (λ i. i.size) same)
          at lt m)

  -- With as many rounds as the file has bytes left, the scan of the sample ends: with an error, or
  -- where `open` wants it to, at the end of the file or with enough of a sample behind the header
  -- record. It has then read at most 2 MiB and one chunk, and nothing beyond the file's end. It
  -- starts within its first 2 MiB, and within the file.
  pub scan_sample-Ended :
      (rounds : ℕ) (scanner : Scanner) (x : CsvFileSource F H)
      → x.scan_offset < max_sample_scan_bytes
      → x.scan_offset ≤ x.opened_as.size
      → x.opened_as.size ≤ x.scan_offset + rounds
      → Ended x.opened_as.size (scan_sample ops files cancel rounds scanner x)
  unfolding scan_sample
  scan_sample-Ended zero scanner x m inside fuel =
      let e : leb x.opened_as.size x.scan_offset ≡ true = ground arith in
      rw e (record {
        same_file = refl;
        within = omega arith;
        in_file = inside;
        enough = inl (omega arith);
      })
  scan_sample-Ended (suc rounds) scanner x m inside fuel =
      go (leb x.opened_as.size x.scan_offset) refl (scan_round ops files cancel scanner x)
        (λ lt. round-Advanced scanner x lt m)
        (λ scanner' x' same m' inside' fuel'.
          subst (λ n. Ended n (scan_sample ops files cancel rounds scanner' x')) same
            (scan_sample-Ended rounds scanner' x' m' inside' fuel'))
    where
      go :
          (t : Bool)
          → leb x.opened_as.size x.scan_offset ≡ t
          → (step : ScanStep F H)
          → (x.scan_offset < x.opened_as.size → Advanced x.opened_as.size x.scan_offset step)
          → ((scanner' : Scanner) (x' : CsvFileSource F H)
              → x'.opened_as.size ≡ x.opened_as.size
              → x'.scan_offset < max_sample_scan_bytes
              → x'.scan_offset ≤ x'.opened_as.size
              → x'.opened_as.size ≤ x'.scan_offset + rounds
              → Ended x.opened_as.size (scan_sample ops files cancel rounds scanner' x'))
          → Ended x.opened_as.size (
              if t then some (broke scanner x) else elim step [
                | broke scanner' x' ↦ some (broke scanner' x')
                | going scanner' x' ↦ scan_sample ops files cancel rounds scanner' x'
                | aborted x' ↦ some (aborted x')
              ])
      go true e step h ih = record {
        same_file = refl;
        within = omega arith;
        in_file = inside;
        enough = inl (omega (arith, leb→le _ _ e));
      }
      go false e (broke scanner' x') h ih = h (ground arith)
      go false e (going scanner' x') h ih =
          let (same, further, m', inside') = h (ground arith) in
          ih scanner' x' same m' (omega arith) (omega arith)
      go false e (aborted x') h ih = tt
