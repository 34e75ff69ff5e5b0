-- ===== src/Tests/Store.antt =====
-- The record index on a file that holds what is written to it.
use data_table_viewer.Prelude.{
  ℕ, zero, suc, ◌+◌, ◌-◌, ◌*◌, ◌/◌, ◌≤◌, ◌<◌, true, false, List, [], ◌∷◌, Option, none, some, ◌≡◌,
  refl, sym, ap, subst, ◌∙◌, inl, inr, Option-cases, arith, length, get_elem?, ltb, if◌then◌else◌,
}
use data_table_viewer.Prelude.Int.{pos, negsuc}
use data_table_viewer.Index.{
  Span, Index, FileOps, FileLaws, empty_header, init, put_header, mark_complete, is_complete,
}
use data_table_viewer.Index.Complete.{mark_complete_lem}
use data_table_viewer.Index.Refinement.{
  Op, append, read, complete, spec_all, Agrees, exec_all, exec_all_lem,
}

-- A file as the span that starts at each place. What is written ends it.
abbrev pub File : Type 0
File = ℕ → Option Span

unfoldable pub overwrite : File → ℕ → List Span → File
overwrite f offset spans k = if ltb k offset then f k else get_elem? spans ((k - offset) / 16)

unfoldable pub block : File → ℕ → ℕ → Option (List Span)
block f offset zero = some []
block f offset (suc count) =
    let rest = block f (offset + 16) count in
    elim (f offset) [
      | none ↦ none
      | some span ↦ elim rest [ none ↦ none | some spans ↦ some (span ∷ spans) ]
    ]

abbrev pub file_ops : FileOps File
file_ops = record {
  write_spans = λ f offset spans. (true, overwrite f offset spans);
  read_block = λ f offset count. (block f offset count, f);
  write_header = λ f h. (true, f);
}

block-cons :
    (f : File) (offset count : ℕ) (span : Span) (rest : List Span)
    → f offset ≡ some span
    → ((i : ℕ) → i < count → get_elem? rest i ≡ f (offset + 16 + i * 16))
    → (i : ℕ) → i < suc count
    → get_elem? (span ∷ rest) i ≡ f (offset + i * 16)
block-cons f offset count span rest h right zero k = sym h ∙ ap f (omega arith)
block-cons f offset count span rest h right (suc i) k = right i (omega arith) ∙ ap f (omega arith)

block-right :
    (f : File) (offset count : ℕ) (spans : List Span)
    → block f offset count ≡ some spans
    → (length spans ≡ count) × ((i : ℕ) → i < count → get_elem? spans i ≡ f (offset + i * 16))
unfolding block
block-right f offset zero spans e =
    let e' : [] ≡ spans = cc e in (omega (arith, ap length e'), λ i h. absurd (omega arith))
block-right f offset (suc count) spans e = elim (Option-cases (f offset)) [
  | inl n ↦ let e' : none ≡ some spans = rw (block, n) at e in absurd (cc e')
  | inr (span, h) ↦ elim (Option-cases (block f (offset + 16) count)) [
    | inl n ↦ let e' : none ≡ some spans = rw (block, h, n) at e in absurd (cc e')
    | inr (rest, r) ↦
        let e' : some (span ∷ rest) ≡ some spans = rw (block, h, r) at e in
        let e'' : span ∷ rest ≡ spans = cc e' in
        let (l, right) = block-right f (offset + 16) count rest r in
        subst
          (λ s.
            (length s ≡ suc count)
            × ((i : ℕ) → i < suc count → get_elem? s i ≡ f (offset + i * 16)))
          e'' (ap suc l, block-cons f offset count span rest h right)
  ]
]

overwrite-in :
    (f : File) (offset : ℕ) (spans : List Span) (i : ℕ)
    → overwrite f offset spans (offset + i * 16) ≡ get_elem? spans i
unfolding overwrite
overwrite-in f offset spans i =
    let e : ltb (offset + i * 16) offset ≡ false = ground arith in
    rw e (ap (get_elem? spans) (omega arith))

overwrite-below :
    (f : File) (offset : ℕ) (spans : List Span) (k : ℕ)
    → k + 16 ≤ offset
    → overwrite f offset spans k ≡ f k
unfolding overwrite
overwrite-below f offset spans k h = let e : ltb k offset ≡ true = ground arith in rw e refl

pub file_laws : FileLaws file_ops
file_laws = record {
  span_at = λ f k. f k;
  written = λ f offset spans e i h. overwrite-in f offset spans i;
  untouched = overwrite-below;
  read_right = λ f offset count spans e. block-right f offset count spans e;
  read_keeps = λ f offset count k. refl;
  header_keeps = λ f h k e. refl;
}

abbrev closed : Index File
closed = record {
  header = empty_header;
  file = none;
  ram_cache = [];
  write_buffer = [];
  block_cache = [];
  block_start = none;
  failed = true;
  error = none;
}

abbrev pub empty_file : File
empty_file k = none

abbrev script : List Op
script = append 0 3 ∷ append 9 4 ∷ append 4 9 ∷ read (pos 1) ∷ read (negsuc 0) ∷ complete ∷ []

opens : (init file_ops (some empty_file) closed).0 ≡ true
unfolding init put_header
opens = refl

exec_all_lem_example :
    Agrees
      (exec_all file_ops script (init file_ops (some empty_file) closed).1)
      (spec_all script [])
exec_all_lem_example =
    exec_all_lem file_ops file_laws (some empty_file) closed script opens (omega arith)

mark_complete_lem_example :
    is_complete (mark_complete file_ops closed).1 ≡ (mark_complete file_ops closed).0
mark_complete_lem_example = mark_complete_lem file_ops closed
