-- ===== src/FileSource/Slices.antt =====
-- The slices of `advanceIndex`, one after another as the worker asks for them.
use data_table_viewer.Prelude.{
  ℕ, zero, suc, ◌+◌, ◌-◌, ◌*◌, ◌≤◌, ◌<◌, min, Bool, true, false, Option, none, some, ◌≡◌, refl, ap,
  subst, ◌∙◌, ltb, leb, if◌then◌else◌, Bytes, arith,
}
use data_table_viewer.Scanner.{Scanner, CancelCheck}
use data_table_viewer.Scanner.Feed.{feed}
use data_table_viewer.Index.{FileOps, mark_complete, is_complete}
use data_table_viewer.Index.Complete.{mark_complete_lem}
use data_table_viewer.FileSource.State.{
  SourceOps, SourceError, Intake, CsvFileSource, Outcome, ok, err, read_bytes, verify_unchanged,
  source_changed_error, not_open, scan_stopped, append_failed, finalize_failed, index_broken,
}
use data_table_viewer.FileSource.Sampling.{intake_callbacks}
use data_table_viewer.FileSource.Indexing.{
  IndexProgress, min_slice_bytes, progress_of, stopped, scan_broken, after_slice, feed_slice,
  read_slice, advance_index,
}
use data_table_viewer.FileSource.Progress.{read_bytes-kept}

-- What a slice says of its error and its completeness, and of the source behind it, is true.
abbrev pub Sliced : {F H : Type 0} → ℕ → ℕ → Option SourceError → Bool → CsvFileSource F H → Type 0
Sliced size offset (some e) complete y = complete ≡ false
Sliced size offset none true y = is_complete y.intake.index ≡ true
Sliced size offset none false y =
    (y.opened_as.size ≡ size) × (offset + min_slice_bytes ≤ y.scan_offset) × (y.scan_offset < size)

-- The progress that a slice reports, with the source behind it.
abbrev pub IsSliced : {F H : Type 0} → ℕ → ℕ → IndexProgress × CsvFileSource F H → Type 0
IsSliced size offset r = Sliced size offset r.0.error r.0.complete r.1

-- The slices have come to their end.
abbrev pub Concluded : {F H : Type 0} → Option SourceError → Bool → CsvFileSource F H → Type 0
Concluded (some e) complete y = complete ≡ false
Concluded none complete y = (complete ≡ true) × (is_complete y.intake.index ≡ true)

module _ {F H : Type 0} (size offset : ℕ) where
  IsSliced-if :
      (t : Bool) (a b : IndexProgress × CsvFileSource F H)
      → (t ≡ true → IsSliced size offset a)
      → (t ≡ false → IsSliced size offset b)
      → IsSliced size offset (if t then a else b)
  IsSliced-if true a b p q = p refl
  IsSliced-if false a b p q = q refl

  stopped-IsSliced : (e : SourceError) (x : CsvFileSource F H) → IsSliced size offset (stopped e x)
  unfolding stopped progress_of
  stopped-IsSliced e x = refl

  broken-IsSliced :
      (e : SourceError) (x : CsvFileSource F H) → IsSliced size offset (scan_broken e x)
  unfolding scan_broken stopped progress_of
  broken-IsSliced e x = refl

  after_slice-IsSliced :
      (ops : FileOps F) (is_eof : Bool) (x : CsvFileSource F H)
      → (is_eof ≡ false
          → (x.opened_as.size ≡ size)
            × (offset + min_slice_bytes ≤ x.scan_offset)
            × (x.scan_offset < size))
      → IsSliced size offset (after_slice ops is_eof x)
  unfolding after_slice progress_of
  after_slice-IsSliced ops is_eof x h =
      let r = mark_complete ops x.intake.index in
      IsSliced-if x.intake.scan_failed _ _ (λ _. stopped-IsSliced append_failed x)
        (λ _.
          IsSliced-if is_eof _ _
            (λ _.
              IsSliced-if r.0 _ _ (λ e. mark_complete_lem ops x.intake.index ∙ e)
                (λ _. stopped-IsSliced finalize_failed _))
            (λ e. h e))

  read-IsSliced :
      (x : CsvFileSource F H) (k : Bytes → IndexProgress × CsvFileSource F H) (o : Outcome Bytes)
      → ((chunk : Bytes) → IsSliced size offset (k chunk))
      → IsSliced {F = F} {H = H} size offset
          (elim o [ err e ↦ scan_broken e x | ok chunk ↦ k chunk ])
  read-IsSliced x k (err e) h = broken-IsSliced e x
  read-IsSliced x k (ok chunk) h = h chunk

  -- A file is read only once it is known to be as it was.
  checked-IsSliced :
      (x y : CsvFileSource F H) (o : Option SourceError) (s : Option Scanner)
      (k : Scanner → IndexProgress × CsvFileSource F H)
      → ((scanner : Scanner) → IsSliced size offset (k scanner))
      → IsSliced {F = F} {H = H} size offset (elim s [
        | none ↦ stopped not_open x
        | some scanner ↦
            if x.intake.scan_failed
            then stopped scan_stopped x
            else elim o [ some e ↦ stopped e y | none ↦ k scanner ]
      ])
  checked-IsSliced x y o none k h = stopped-IsSliced not_open x
  checked-IsSliced x y (some e) (some scanner) k h =
      IsSliced-if x.intake.scan_failed _ _ (λ _. stopped-IsSliced scan_stopped x)
        (λ _. stopped-IsSliced e y)
  checked-IsSliced x y none (some scanner) k h =
      IsSliced-if x.intake.scan_failed _ _ (λ _. stopped-IsSliced scan_stopped x) (λ _. h scanner)

module _ {F H : Type 0} (ops : FileOps F) (files : SourceOps H)
    (cancel : CancelCheck (Intake F)) where
  feed_slice-IsSliced :
      (size offset budget : ℕ) (scanner : Scanner) (x : CsvFileSource F H) (chunk : Bytes)
      → x.opened_as.size ≡ size
      → x.scan_offset ≡ offset
      → min_slice_bytes ≤ budget
      → IsSliced size offset
          (feed_slice ops files cancel scanner x chunk (min budget (size - offset)))
  unfolding feed_slice
  feed_slice-IsSliced size offset budget scanner x chunk e o m =
      let to_read = min budget (size - offset) in
      let is_eof = leb x.opened_as.size (x.scan_offset + to_read) in
      let r =
        feed (intake_callbacks ops) (record { scanner = scanner; out = x.intake }) chunk
          x.scan_offset is_eof cancel in
      IsSliced-if size offset r.0 _ _
        (λ _. after_slice-IsSliced size offset ops is_eof _ (λ w. (e, ground arith, ground arith)))
        (λ _. broken-IsSliced size offset scan_stopped _)

  read_slice-IsSliced :
      (budget : ℕ) (scanner : Scanner) (x : CsvFileSource F H)
      → IsSliced x.opened_as.size x.scan_offset (read_slice ops files cancel budget scanner x)
  unfolding read_slice
  read_slice-IsSliced budget scanner x =
      let b = if ltb budget min_slice_bytes then min_slice_bytes else budget in
      let size = x.opened_as.size in
      let to_read = min b (size - x.scan_offset) in
      let r = read_bytes files x.scan_offset to_read x in
      let (same, at) = read_bytes-kept files x.scan_offset to_read x in
      read-IsSliced size x.scan_offset r.1 _ r.0 (λ chunk.
        feed_slice-IsSliced size x.scan_offset b scanner r.1 chunk (ap (λ i. i.size) same) at
          (ground arith))

  verify_unchanged-kept :
      (x : CsvFileSource F H)
      → ((verify_unchanged files x).1.opened_as ≡ x.opened_as)
        × ((verify_unchanged files x).1.scan_offset ≡ x.scan_offset)
  unfolding verify_unchanged
  verify_unchanged-kept x = ground arith

  -- A slice that reports an error does not report that it is done; one that reports that it is done
  -- leaves an index that is complete; and any other takes the scan 4096 bytes further at least,
  -- and leaves it short of the file's end.
  pub advance_index_lem :
      (budget : ℕ) (x : CsvFileSource F H)
      → IsSliced x.opened_as.size x.scan_offset (advance_index ops files cancel budget x)
  unfolding advance_index progress_of
  advance_index_lem budget x =
      let size = x.opened_as.size in
      let v = verify_unchanged files x in
      let (same, at) = verify_unchanged-kept x in
      let pick = IsSliced-if {F = F} {H = H} size x.scan_offset in
      pick x.source_changed _ _ (λ _. stopped-IsSliced size x.scan_offset source_changed_error x)
        (λ _.
          pick x.intake.index.failed _ _ (λ _. stopped-IsSliced size x.scan_offset index_broken x)
            (λ _.
              pick (is_complete x.intake.index) _ _ (λ c. c)
                (λ _. checked-IsSliced size x.scan_offset x v.1 v.0 x.index_scanner _ (λ scanner.
                  subst
                    (λ n. IsSliced n x.scan_offset (read_slice ops files cancel budget scanner v.1))
                    (ap (λ i. i.size) same)
                    (subst
                      (λ n.
                        IsSliced v.1.opened_as.size n
                          (read_slice ops files cancel budget scanner v.1))
                      at (read_slice-IsSliced budget scanner v.1))))))

  -- Slices one after another, until one reports an error or that it is done; `none` where there are
  -- more of them than the bound. The worker queues its slices so, but stops where the view has moved
  -- on or the thread is to stop: these are as many as there can be.
  unfoldable pub index_all : ℕ → ℕ → CsvFileSource F H → Option (IndexProgress × CsvFileSource F H)
  index_all budget zero x = none
  index_all budget (suc slices) x =
      let r = advance_index ops files cancel budget x in
      let more = index_all budget slices r.1 in
      if r.0.complete then some r else elim r.0.error [ some e ↦ some r | none ↦ more ]

  -- How the slices end.
  abbrev pub IsIndexed : Option (IndexProgress × CsvFileSource F H) → Type 0
  IsIndexed none = ⊥
  IsIndexed (some (p, y)) = Concluded p.error p.complete y

  slice-IsIndexed :
      (size offset : ℕ) (r : IndexProgress × CsvFileSource F H)
      (next : Option (IndexProgress × CsvFileSource F H)) (c : Bool)
      → r.0.complete ≡ c
      → (e : Option SourceError) → r.0.error ≡ e
      → Sliced size offset e c r.1
      → (Sliced size offset none false r.1 → IsIndexed next)
      → IsIndexed (if c then some r else elim e [ some _ ↦ some r | none ↦ next ])
  slice-IsIndexed size offset r next true p (some e) q h ih = rw (p, q) h
  slice-IsIndexed size offset r next true p none q h ih = rw (p, q) (refl, h)
  slice-IsIndexed size offset r next false p (some e) q h ih = rw (p, q) h
  slice-IsIndexed size offset r next false p none q h ih = ih h

  -- The worker's slices come to their end: where `slices` more slices of 4096 bytes reach the end of
  -- the file, one of the next `slices + 1` reports an error, or that all is indexed and the index
  -- is complete. The file may fail or change at any time.
  pub index_all-IsIndexed :
      (budget slices : ℕ) (x : CsvFileSource F H)
      → x.opened_as.size ≤ x.scan_offset + min_slice_bytes * (slices + 1)
      → IsIndexed (index_all budget (suc slices) x)
  unfolding index_all
  index_all-IsIndexed budget zero x h =
      let r = advance_index ops files cancel budget x in
      slice-IsIndexed x.opened_as.size x.scan_offset r _ r.0.complete refl r.0.error refl
        (advance_index_lem budget x) (λ (same, further, short). omega arith)
  index_all-IsIndexed budget (suc slices) x h =
      let r = advance_index ops files cancel budget x in
      slice-IsIndexed x.opened_as.size x.scan_offset r _ r.0.complete refl r.0.error refl
        (advance_index_lem budget x)
        (λ (same, further, short). index_all-IsIndexed budget slices r.1 (omega arith))
