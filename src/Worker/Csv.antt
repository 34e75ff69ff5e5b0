-- ===== src/Worker/Csv.antt =====
-- What the worker relies on of a source, for a CSV file.
use data_table_viewer.Prelude.{ℕ, zero, suc, ◌+◌, Bool, true, false, none, ◌≡◌, refl, subst, arith}
use data_table_viewer.Prelude.Int.{ℤ, pos, negsuc}
use data_table_viewer.Scanner.{CancelCheck}
use data_table_viewer.Index.{FileOps, Index, is_complete}
use data_table_viewer.Source.{readiness}
use data_table_viewer.FileSource.State.{SourceOps, Intake, CsvFileSource}
use data_table_viewer.FileSource.Indexing.{advance_index}
use data_table_viewer.FileSource.Slices.{Sliced, advance_index_lem}
use data_table_viewer.Worker.{TableSource}
use data_table_viewer.Worker.Pages.{is_pending}
use data_table_viewer.Worker.Slicing.{slice_bytes}
use data_table_viewer.Worker.Waiting.{IsIndexing}

module _ {F : Type 0} (x : Index F) (e : is_complete x ≡ true) where
  -- No page waits for an index that is complete.
  complete-readiness :
      (source_changed scan_failed : Bool) (first size : ℤ)
      → is_pending (readiness source_changed scan_failed x first size) ≡ false
  unfolding readiness is_complete
  complete-readiness source_changed scan_failed (negsuc first) size = refl
  complete-readiness source_changed scan_failed (pos first) (negsuc size) = refl
  complete-readiness source_changed scan_failed (pos first) (pos zero) = refl
  complete-readiness source_changed scan_failed (pos first) (pos (suc size)) = ground arith

module _ {F H : Type 0} (ops : FileOps F) (files : SourceOps H)
    (cancel : CancelCheck (Intake F)) where
  -- A CSV file keeps what the worker relies on: once a slice has reported that all is indexed, and
  -- no error, no page of the file is pending.
  pub advance_index-readiness :
      (budget : ℕ) (x : CsvFileSource F H) (first size : ℤ)
      → (advance_index ops files cancel budget x).0.error ≡ none
      → (advance_index ops files cancel budget x).0.complete ≡ true
      → let y = (advance_index ops files cancel budget x).1 in
        is_pending (readiness y.source_changed y.intake.scan_failed y.intake.index first size)
        ≡ false
  advance_index-readiness budget x first size e c =
      let r = advance_index ops files cancel budget x in
      let s : Sliced x.opened_as.size x.scan_offset none true r.1 =
        subst (λ b. Sliced x.opened_as.size x.scan_offset none b r.1) c
          (subst (λ o. Sliced x.opened_as.size x.scan_offset o r.0.complete r.1) e
            (advance_index_lem ops files cancel budget x)) in
      complete-readiness r.1.intake.index s r.1.source_changed r.1.intake.scan_failed first size

module _ {F H K Double : Type 0} (ops : FileOps F) (files : SourceOps H)
    (cancel_of : (ℕ → Bool) → ℕ → CancelCheck (Intake F)) (duration : ℕ)
    (base : TableSource (CsvFileSource F H) K Double) where
  -- A table source whose index is that of a CSV file: `advanceIndex` and `readiness` are those of
  -- `CsvFileSource`, all else that of `base`.
  abbrev pub csv_indexed : TableSource (CsvFileSource F H) K Double
  csv_indexed = record base {
    is_indexable = λ x. true;
    readiness =
        λ first size x. readiness x.source_changed x.intake.scan_failed x.intake.index first size;
    advance_index = λ budget check clock x.
        let r = advance_index ops files (cancel_of check clock) budget x in
        (r.0, r.1, clock + duration);
  }

  -- Such a source keeps the promise that the worker's slices rely on.
  pub csv_indexed-IsIndexing : IsIndexing csv_indexed
  csv_indexed-IsIndexing = record {
    complete_ready = λ check clock x first size e c.
        advance_index-readiness ops files (cancel_of check clock) slice_bytes x first size e c;
  }
