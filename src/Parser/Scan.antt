-- ===== src/Parser/Scan.antt =====
-- What any scan makes of a rendered table: each cell is one field, and each row one record.
use data_table_viewer.Prelude.{
  ℕ, ◌+◌, ◌^◌, ◌<◌, Bool, true, false, List, [], ◌∷◌, ◌++◌, ◌≡◌, refl, sym, ap, ◌∙◌, append-nil,
  append_assoc, arith, ◌==◌, length, Bytes, u64, u64-eq_of_lt, Bool-cases, inl, inr,
}
use data_table_viewer.Scanner.{Callbacks}
use data_table_viewer.Scanner.Machine.{
  Mode, Machine, plain, quoted, field, record_end, IsStream, end_row, plain_byte, quoted_byte,
  step_in, run,
}
use data_table_viewer.Parser.Render.{escape, quote_cell, render_row, render, cells_done, rows_done}

abbrev pub at : {S : Type 0} → Mode → ℕ → ℕ → Bool → ℕ → S → Machine S
at mode n a saw col s = record {
  mode = mode;
  ordinal = n;
  start = a;
  saw = saw;
  col = col;
  out = s;
}

-- Rows that the scanner can count the columns of.
abbrev pub Narrow : List (Bytes × List Bytes) → Type 0
Narrow [] = Unit
Narrow ((cell, cells) ∷ rows) = (length cells < 2 ^ 64) × Narrow rows

module _ {S : Type 0} (cb : Callbacks S) (stream : IsStream cb) (d : ℕ) where
  field-cons :
      (col c : ℕ) (cs : Bytes) (s : S)
      → field cb col cs false (field cb col (c ∷ []) false s) ≡ field cb col (c ∷ cs) false s
  field-cons col c cs s = sym (stream.field-append col (c ∷ []) cs false s)

  quoted-other :
      (c : ℕ) (rest : Bytes) (n a : ℕ) (saw : Bool) (col : ℕ) (s : S) (o : ℕ)
      → (c == b'"') ≡ false
      → run cb d (at quoted n a saw col s) o (c ∷ rest)
        ≡ run cb d (at quoted n a saw col (field cb col (c ∷ []) false s)) (o + 1) rest
  unfolding run step_in quoted_byte
  quoted-other c rest n a saw col s o e = rw e

  quoted-double :
      (rest : Bytes) (n a : ℕ) (saw : Bool) (col : ℕ) (s : S) (o : ℕ)
      → run cb d (at quoted n a saw col s) o (b'"' ∷ b'"' ∷ rest)
        ≡ run cb d (at quoted n a saw col (field cb col (b'"' ∷ []) false s)) (o + 1 + 1) rest
  unfolding run step_in quoted_byte
  quoted-double rest n a saw col s o = refl

  plain-open :
      (rest : Bytes) (n a : ℕ) (saw : Bool) (col : ℕ) (s : S) (o : ℕ)
      → run cb d (at plain n a saw col s) o (b'"' ∷ rest)
        ≡ run cb d (at quoted n a true col s) (o + 1) rest
  unfolding run step_in plain_byte
  plain-open rest n a saw col s o = refl

  quoted-delimiter :
      (rest : Bytes) (n a : ℕ) (saw : Bool) (col : ℕ) (s : S) (o : ℕ)
      → (d == b'"') ≡ false
      → run cb d (at quoted n a saw col s) o (b'"' ∷ d ∷ rest)
        ≡ run cb d (at plain n a true (u64 (col + 1)) (field cb col [] true s)) (o + 1 + 1) rest
  unfolding run step_in quoted_byte plain_byte
  quoted-delimiter rest n a saw col s o e = let e' : (d == d) ≡ true = ground arith in rw (e, e')

  quoted-lf :
      (rest : Bytes) (n a : ℕ) (saw : Bool) (col : ℕ) (s : S) (o : ℕ)
      → (b'\n' == d) ≡ false
      → run cb d (at quoted n a saw col s) o (b'"' ∷ b'\n' ∷ rest)
        ≡ run cb d
            (at plain
              (u64 (n + 1))
              (u64 (o + 1 + 1))
              false
              0
              (record_end cb n a (u64 (o + 1)) (field cb col [] true s)))
            (o + 1 + 1)
            rest
  unfolding run step_in quoted_byte plain_byte end_row
  quoted-lf rest n a saw col s o e = rw e

  -- The inside of a cell.
  run-escape :
      (cell rest : Bytes) (n a : ℕ) (saw : Bool) (col : ℕ) (s : S) (o : ℕ)
      → (o' : ℕ) × (run cb d (at quoted n a saw col s) o (escape cell ++ rest)
          ≡ run cb d (at quoted n a saw col (field cb col cell false s)) o' rest)
  unfolding escape
  run-escape [] rest n a saw col s o =
      (o, ap (λ x. run cb d (at quoted n a saw col x) o rest) (sym (stream.field-nil col s)))
  run-escape (c ∷ cs) rest n a saw col s o = elim (Bool-cases (c == b'"')) [
    | inl e ↦
        let e' : c ≡ b'"' = ground arith in
        let (o', h) =
          run-escape cs rest n a saw col (field cb col (b'"' ∷ []) false s) (o + 1 + 1) in
        (
          o',
          rw e' (
              quoted-double (escape cs ++ rest) n a saw col s o
              ∙ h
              ∙ ap (λ x. run cb d (at quoted n a saw col x) o' rest) (field-cons col b'"' cs s)),
        )
    | inr e ↦
        let (o', h) = run-escape cs rest n a saw col (field cb col (c ∷ []) false s) (o + 1) in
        (
          o',
          rw e (
              quoted-other c (escape cs ++ rest) n a saw col s o e
              ∙ h
              ∙ ap (λ x. run cb d (at quoted n a saw col x) o' rest) (field-cons col c cs s)),
        )
  ]

  -- A cell in quotes, up to its closing quote.
  run-quote_cell :
      (cell rest : Bytes) (n a : ℕ) (saw : Bool) (col : ℕ) (s : S) (o : ℕ)
      → (o' : ℕ) × (run cb d (at plain n a saw col s) o (quote_cell cell ++ rest)
          ≡ run cb d (at quoted n a true col (field cb col cell false s)) o' (b'"' ∷ rest))
  unfolding quote_cell
  run-quote_cell cell rest n a saw col s o =
      let (o', h) = run-escape cell (b'"' ∷ rest) n a true col s (o + 1) in
      (o', rw append_assoc (plain-open (escape cell ++ b'"' ∷ rest) n a saw col s o ∙ h))

  whole_field :
      (col : ℕ) (cell : Bytes) (s : S)
      → field cb col [] true (field cb col cell false s) ≡ field cb col cell true s
  whole_field col cell s =
      sym (stream.field-append col cell [] true s)
      ∙ ap (λ b. field cb col b true s) (append-nil cell)

  -- The callbacks do not look at where a record stands.
  module _ (placeless : (n a b : ℕ) (s : S) → record_end cb n a b s ≡ record_end cb 0 0 0 s)
      (no_quote : (d == b'"') ≡ false) (no_lf : (b'\n' == d) ≡ false) where
    -- What a row leads to: the start of the next one.
    abbrev RowRead : ℕ → ℕ → Bool → ℕ → S → ℕ → Bytes → Bytes → S → Type 0
    RowRead n a saw col s o row rest s' =
        (n' : ℕ) × (a' : ℕ) × (o' : ℕ) × (run cb d (at plain n a saw col s) o (row ++ rest)
          ≡ run cb d (at plain n' a' false 0 s') o' rest)

    run-render_row :
        (cells : List Bytes) (cell rest : Bytes) (n a : ℕ) (saw : Bool) (col : ℕ) (s : S) (o : ℕ)
        → col + length cells < 2 ^ 64
        → RowRead n a saw col s o
            (render_row d cell cells)
            rest
            (record_end cb 0 0 0 (cells_done cb col cell cells s))
    unfolding render_row cells_done
    run-render_row [] cell rest n a saw col s o h =
        let (o', e) = run-quote_cell cell (b'\n' ∷ rest) n a saw col s o in
        (
          u64 (n + 1),
          u64 (o' + 1 + 1),
          o' + 1 + 1,
          rw append_assoc (
              e
              ∙ quoted-lf rest n a true col (field cb col cell false s) o' no_lf
              ∙ rw (whole_field col cell s) (rw (placeless n a (u64 (o' + 1))))),
        )
    run-render_row (next ∷ cells) cell rest n a saw col s o h =
        let (o', e) = run-quote_cell cell (d ∷ (render_row d next cells ++ rest)) n a saw col s o in
        let (n', a', o'', e') =
          run-render_row cells next rest n a true (col + 1) (field cb col cell true s) (o' + 1 + 1)
            (omega arith) in
        (
          n',
          a',
          o'',
          rw append_assoc (
              e
              ∙ quoted-delimiter (render_row d next cells ++ rest) n a true col
                  (field cb col cell false s) o' no_quote
              ∙ rw (whole_field col cell s, u64-eq_of_lt (col + 1) (omega arith)) e'),
        )

    -- A rendered table, from the start of a row.
    pub run-render :
        (rows : List (Bytes × List Bytes)) (n a : ℕ) (s : S) (o : ℕ)
        → Narrow rows
        → (n' : ℕ) × (a' : ℕ) × (o' : ℕ) × (run cb d (at plain n a false 0 s) o (render d rows)
            ≡ at plain n' a' false 0 (rows_done cb rows s))
    unfolding render rows_done
    run-render [] n a s o h = (n, a, o, unfold run in refl)
    run-render ((cell, cells) ∷ rows) n a s o (h, hs) =
        let (n', a', o', e) =
          run-render_row cells cell (render d rows) n a false 0 s o (omega arith) in
        let (n'', a'', o'', e') = run-render rows n' a' _ o' hs in (n'', a'', o'', e ∙ e')
