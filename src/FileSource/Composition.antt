-- ===== src/FileSource/Composition.antt =====
-- The scanner and the index together: after a file has been scanned, the index answers with the
-- places of its records.
use data_table_viewer.Prelude.{
  ℕ, ◌+◌, ◌^◌, ◌<◌, Bool, true, false, List, [], ◌∷◌, ◌++◌, none, some, ◌≡◌, refl, sym, ap, subst,
  ◌∙◌, ◌⊎◌, ltb, ◌==◌, if◌then◌else◌, if_intro, length, length-append, append_assoc, append-nil,
  Bytes, u64, u64-eq_of_lt, arith, inl, inr,
}
use data_table_viewer.Prelude.Int.{ℤ}
use data_table_viewer.Scanner.{Callbacks, CancelCheck, max_columns}
use data_table_viewer.Scanner.Loop.{Never}
use data_table_viewer.Scanner.Machine.{field, record_end, IsStream}
use data_table_viewer.Scanner.Probe.{delimiter_of}
use data_table_viewer.Scanner.Local.{cells_fold}
use data_table_viewer.Scanner.Records.{SourceRecord, row_fold, records_fold}
use data_table_viewer.Scanner.Contents.{records_of, length-records_of, feed_all-records}
use data_table_viewer.Scanner.Whole.{started, concat, feed_all}
use data_table_viewer.Scanner.Projection.{IsView, feed_all-seen}
use data_table_viewer.Index.{
  Span, FileOps, FileLaws, Index, append_span, set_header_byte_span, read_span,
}
use data_table_viewer.Index.Holds.{Holds}
use data_table_viewer.Index.Append.{add_span-Ends}
use data_table_viewer.Index.Read.{Reads, lookup, read_span-Reads}
use data_table_viewer.Index.Refinement.{append-good, read, exec, exec-failed}
use data_table_viewer.FileSource.State.{Intake}
use data_table_viewer.FileSource.Sampling.{
  on_sample_field, on_sample_record, take_header, take_row, take_sample, clear_sample, add_sample,
  intake_callbacks,
}

abbrev pub span_of : SourceRecord → Span
span_of r = record { start = r.start; end_offset = r.start + length r.body }

abbrev pub spans_of : List SourceRecord → List Span
spans_of [] = []
spans_of (r ∷ records) = span_of r ∷ spans_of records

-- The first record is the header.
abbrev pub data_spans : List SourceRecord → List Span
data_spans [] = []
data_spans (r ∷ records) = spans_of records

module _ {F : Type 0} (ops : FileOps F) where
  -- The scan, as far as the index sees it.
  abbrev index_record : ℕ → ℕ → ℕ → Index F → Index F
  index_record ordinal a b x =
      if ordinal == 0 then set_header_byte_span a b x else (append_span ops a b x).1

  abbrev index_callbacks : Callbacks (Index F)
  index_callbacks = record { on_record = some index_record; on_field_fragment = none }

  index-IsStream : IsStream index_callbacks
  unfolding field
  index-IsStream = record { field-nil = λ col s. refl; field-append = λ col a b e s. refl }

  abbrev index_of : Intake F → Index F
  index_of i = i.index

  field-index :
      (col : ℕ) (b : Bytes) (e : Bool) (i : Intake F) → (on_sample_field col b e i).index ≡ i.index
  unfolding on_sample_field add_sample
  field-index col b e i = ground arith

  record-index :
      (n a b : ℕ) (i : Intake F) → (on_sample_record ops n a b i).index ≡ index_record n a b i.index
  unfolding on_sample_record take_header take_row take_sample clear_sample
  record-index n a b i = ground arith

  index-IsView :
      (cancel : CancelCheck (Intake F))
      → Never cancel
      → IsView index_of (intake_callbacks ops) index_callbacks cancel none
  unfolding field record_end
  index-IsView cancel never = record {
    on_field = λ col b e s.
        if_intro (λ i. index_of i ≡ index_of s) (ltb col max_columns) (on_sample_field col b e s) s
          (λ _. field-index col b e s) (λ _. refl);
    on_row = λ n a b s. record-index n a b s;
    on_ask = λ s. never s;
  }

  -- What the records leave of an index: the header's place, and the spans of the others in turn.
  unfoldable append_all : List SourceRecord → Index F → Index F
  append_all [] x = x
  append_all (r ∷ records) x =
      append_all records (append_span ops r.start (r.start + length r.body) x).1

  cells_fold-index :
      (cells : List Bytes) (col : ℕ) (x : Index F) → cells_fold index_callbacks col cells x ≡ x
  unfolding cells_fold field
  cells_fold-index [] col x = refl
  cells_fold-index (cell ∷ cells) col x = cells_fold-index cells (col + 1) x

  row_fold-index : (r : SourceRecord) (x : Index F) → row_fold index_callbacks r.local x ≡ x
  unfolding row_fold field
  row_fold-index r x = cells_fold-index r.local.row 0 x

  fold-append_all :
      (records : List SourceRecord) (n : ℕ) (x : Index F)
      → 0 < n
      → n + length records < 2 ^ 64
      → records_fold index_callbacks n x records ≡ append_all records x
  unfolding records_fold append_all record_end
  fold-append_all [] n x p k = refl
  fold-append_all (r ∷ records) n x p k =
      let e : (n == 0) ≡ false = ground arith in
      let w : u64 (n + 1) ≡ n + 1 = u64-eq_of_lt (n + 1) (omega arith) in
      rw (row_fold-index r x, e, w) (fold-append_all records (n + 1) _ (omega arith) (omega arith))

  record-append :
      (r : SourceRecord) (x : Index F) (laws : FileLaws ops) (spans : List Span)
      → Holds ops laws x spans
      → length spans + 1 < 2 ^ 59
      → (let y = (append_span ops r.start (r.start + length r.body) x).1 in
          (y.failed ≡ true) ⊎ Holds ops laws y (spans ++ span_of r ∷ []))
  record-append r x laws spans v h =
      let e : ltb (r.start + length r.body) r.start ≡ false = ground arith in
      let q = append-good ops laws r.start (r.start + length r.body) x v.sound e in
      rw q (elim (add_span-Ends ops laws (span_of r) x spans v h) [
        | inl (b, f) ↦ inl f
        | inr (b, v') ↦ inr v'
      ])

  append-failed :
      (a b : ℕ) (x : Index F) → x.failed ≡ true → (append_span ops a b x).1.failed ≡ true
  unfolding append_span
  append-failed a b x e = ground arith

  append_all-failed :
      (records : List SourceRecord) (x : Index F)
      → x.failed ≡ true
      → (append_all records x).failed ≡ true
  unfolding append_all
  append_all-failed [] x e = e
  append_all-failed (r ∷ records) x e =
      append_all-failed records _ (append-failed r.start (r.start + length r.body) x e)

  append_all-Holds :
      (laws : FileLaws ops) (records : List SourceRecord) (x : Index F) (spans : List Span)
      → Holds ops laws x spans
      → length spans + length records < 2 ^ 59
      → ((append_all records x).failed ≡ true)
        ⊎ Holds ops laws (append_all records x) (spans ++ spans_of records)
  unfolding append_all
  append_all-Holds laws [] x spans v h = inr (subst (Holds ops laws x) (sym (append-nil spans)) v)
  append_all-Holds laws (r ∷ records) x spans v h =
      elim (record-append r x laws spans v (omega arith)) [
        | inl f ↦ inl (append_all-failed records _ f)
        | inr v' ↦
            elim (append_all-Holds laws records _ (spans ++ span_of r ∷ []) v'
              (omega (arith, length-append spans (span_of r ∷ [])))) [
                | inl f ↦ inl f
                | inr v'' ↦ inr (
                    subst (Holds ops laws _)
                      (append_assoc spans (span_of r ∷ []) (spans_of records)) v'')
              ]
      ]

  after_header-Holds :
      (laws : FileLaws ops) (records : List SourceRecord) (x : Index F)
      → Holds ops laws x []
      → length records < 2 ^ 59
      → (let y = records_fold index_callbacks 0 x records in
          (y.failed ≡ true) ⊎ Holds ops laws y (data_spans records))
  unfolding records_fold record_end set_header_byte_span
  after_header-Holds laws [] x v h = inr v
  after_header-Holds laws (r ∷ records) x v h =
      let b = r.start + length r.body in
      let x' = set_header_byte_span r.start b x in
      let v' : Holds ops laws x' [] = record {
        sound = v.sound;
        counted = v.counted;
        bounded = v.bounded;
        cached = v.cached;
        disk = v.disk;
        split = v.split;
        on_disk = v.on_disk;
        windowed = v.windowed;
      } in
      let w : u64 (0 + 1) ≡ 1 = u64-eq_of_lt 1 (omega arith) in
      let e : records_fold index_callbacks 0 x (r ∷ records) ≡ append_all records x' =
        rw (row_fold-index r x) (
          ap (λ n. records_fold index_callbacks n x' records) w
          ∙ fold-append_all records 1 x' (omega arith) (omega arith)) in
      subst (λ y. (y.failed ≡ true) ⊎ Holds ops laws y (spans_of records)) (sym e)
        (append_all-Holds laws records x' [] v' (omega arith))

-- An index that has been given a file answers like the list `spans`, or has failed.
abbrev pub Answers : {F : Type 0} → FileOps F → Index F → List Span → ℤ → Type 0
Answers ops x spans ordinal =
    let r = read_span ops ordinal x in
    (r.0 ≡ lookup ordinal spans) ⊎ ((r.0 ≡ none) × (r.1.failed ≡ true))

failed-Answers :
    {F : Type 0} (ops : FileOps F) (x : Index F) (spans : List Span) (ordinal : ℤ)
    → x.failed ≡ true
    → Answers ops x spans ordinal
unfolding exec
failed-Answers ops x spans ordinal f = inr (exec-failed ops (read ordinal) x f)

Reads-Answers :
    {F : Type 0} (ops : FileOps F) (laws : FileLaws ops) (x : Index F) (spans : List Span)
    (ordinal : ℤ)
    → Reads ops laws (read_span ops ordinal x) (lookup ordinal spans) spans
    → Answers ops x spans ordinal
Reads-Answers ops laws x spans ordinal (inl f) = inr f
Reads-Answers ops laws x spans ordinal (inr (e, v)) = inl e

-- A file of less than 2^58 bytes that goes through the scanner of `open`, in any chunks, the last of
-- them as the end of the file, and with no request to stop, leaves an index that was empty to
-- answer for each ordinal with the place of the record of that number behind the header, and with
-- nothing for any other; or it has failed, and answers with nothing.
pub scan-Answers :
    {F : Type 0} (ops : FileOps F) (laws : FileLaws ops) (cancel : CancelCheck (Intake F))
    (never : Never cancel) (d : ℕ) (i : Intake F) (chunk : Bytes) (chunks : List Bytes)
    (ordinal : ℤ)
    → Holds ops laws i.index []
    → length (concat (chunk ∷ chunks)) < 2 ^ 58
    → (let r = feed_all (intake_callbacks ops) cancel (started d i) 0 (chunk ∷ chunks) in
        (r.0 ≡ true)
        × Answers ops r.1.out.index
            (data_spans (records_of (delimiter_of d) (concat (chunk ∷ chunks))))
            ordinal)
scan-Answers ops laws cancel never d i chunk chunks ordinal v k =
    let content = concat (chunk ∷ chunks) in
    let records = records_of (delimiter_of d) content in
    let r = feed_all (intake_callbacks ops) cancel (started d i) 0 (chunk ∷ chunks) in
    let same =
      feed_all-seen (index_of ops) (intake_callbacks ops) (index_callbacks ops) cancel none
        (index-IsView ops cancel never) (chunk ∷ chunks) (started d i) 0 in
    let (ok, out, _) =
      feed_all-records (index_callbacks ops) (index-IsStream ops) none (λ s. refl) d i.index chunk
        chunks (omega arith) in
    let index_is : r.1.out.index ≡ records_fold (index_callbacks ops) 0 i.index records =
      ap (λ x. x.1.out) same ∙ out in
    (
      ap (λ x. x.0) same ∙ ok,
      subst (λ x. Answers ops x (data_spans records) ordinal) (sym index_is)
          (elim (after_header-Holds ops laws records i.index v
            (omega (arith, length-records_of (delimiter_of d) content))) [
              | inl f ↦ failed-Answers ops _ (data_spans records) ordinal f
              | inr h ↦
                  Reads-Answers ops laws _ (data_spans records) ordinal
                    (read_span-Reads ops laws ordinal _ (data_spans records) h)
            ]),
    )
