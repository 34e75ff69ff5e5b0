-- ===== src/Scanner/Local.antt =====
-- The machine inside one record: what it has of the record's cells, wherever the record stands.
use data_table_viewer.Prelude.{
  ℕ, suc, ◌+◌, ◌^◌, ◌≤◌, ◌<◌, min, Bool, true, false, ◌||◌, List, [], ◌∷◌, ◌++◌, Option, none, some,
  ◌≡◌, refl, sym, ap, subst, ◌∙◌, ltb, ◌==◌, if◌then◌else◌, length, length-append, append-nil,
  ltb→lt, Bytes, u64, u64-eq_of_lt, arith, Bool-cases, inl, inr,
}
use native.Mathlib.Nat.{zero-add}
use data_table_viewer.Scanner.{Callbacks, max_columns}
use data_table_viewer.Scanner.Machine.{
  Mode, plain, quoted, quote_seen, cr_seen, Machine, field, IsStream, plain_byte, quoted_byte,
  step_in, run,
}

-- `row` has the cells that are done, as far as they are kept, and `cell` the one at hand.
pub record Local : Type 0 where
  pub mode : Mode
  pub saw : Bool
  pub col : ℕ
  pub row : List Bytes
  pub cell : Bytes

abbrev pub fresh_local : Local
fresh_local = record { mode = plain; saw = false; col = 0; row = []; cell = [] }

-- A byte of the cell at hand.
abbrev pub add_byte : ℕ → Local → Local
add_byte c l = record l { cell = if ltb l.col max_columns then l.cell ++ c ∷ [] else l.cell }

abbrev pub end_cell : Local → Local
end_cell l = record l {
  row = if ltb l.col max_columns then l.row ++ l.cell ∷ [] else l.row;
  cell = [];
  col = u64 (l.col + 1);
  saw = true;
}

-- `none` where the record ends.
unfoldable pub local_plain : ℕ → Local → ℕ → Option Local
local_plain d l c =
    if c == b'"'
    then some (record l { mode = quoted; saw = true })
    else if c == d
    then some (end_cell l)
    else if c == b'\r' || c == b'\n'
    then none
    else some (record (add_byte c l) { saw = true })

unfoldable pub local_step : Mode → ℕ → Local → ℕ → Option Local
unfolding local_plain
local_step plain d l c = local_plain d l c
local_step quoted d l c =
    if c == b'"' then some (record l { mode = quote_seen }) else some (add_byte c l)
local_step quote_seen d l c =
    if c == b'"'
    then some (record (add_byte c l) { mode = quoted })
    else local_plain d (record l { mode = plain }) c
local_step cr_seen d l c = none

unfoldable pub local_run : ℕ → Local → Bytes → Option Local
local_run d l [] = some l
local_run d l (c ∷ rest) = elim (local_step l.mode d l c) [
  | none ↦ none
  | some l' ↦ local_run d l' rest
]

-- Each cell of a row as one complete field, from column `col` on.
unfoldable pub cells_fold : {S : Type 0} → Callbacks S → ℕ → List Bytes → S → S
cells_fold cb col [] s = s
cells_fold cb col (cell ∷ cells) s = cells_fold cb (col + 1) cells (field cb col cell true s)

-- The cells are as many as the columns, as far as they are kept.
abbrev pub Counted : Local → Type 0
Counted l = length l.row ≡ min l.col max_columns

-- A step keeps the count, and takes one column more at most.
abbrev pub Kept : ℕ → Option Local → Type 0
Kept col none = Unit
Kept col (some l) = Counted l × (l.col ≤ col + 1)

Kept-if :
    (col : ℕ) (t : Bool) (a b : Option Local)
    → Kept col a
    → Kept col b
    → Kept col (if t then a else b)
Kept-if col true a b p q = p
Kept-if col false a b p q = q

end_cell-Counted :
    (l : Local)
    → Counted l
    → l.col + 1 < 2 ^ 64
    → Counted (end_cell l) × (u64 (l.col + 1) ≤ l.col + 1)
end_cell-Counted l h k = elim (Bool-cases (ltb l.col max_columns)) [
  | inl e ↦
      rw (e, u64-eq_of_lt (l.col + 1) k)
        (omega (arith, length-append l.row (l.cell ∷ []), ltb→lt _ _ e), omega arith)
  | inr e ↦
      let more : max_columns ≤ l.col = ground arith in
      rw (e, u64-eq_of_lt (l.col + 1) k) (omega arith, omega arith)
]

local_plain-Kept :
    (d : ℕ) (l : Local) (c : ℕ) → Counted l → l.col + 1 < 2 ^ 64 → Kept l.col (local_plain d l c)
unfolding local_plain
local_plain-Kept d l c h k = elim (Bool-cases (c == b'"')) [
  | inl q ↦ simp q (h, omega arith)
  | inr q ↦ elim (Bool-cases (c == d)) [
    | inl e ↦ simp (q, e) (end_cell-Counted l h k)
    | inr e ↦ elim (Bool-cases (c == b'\r' || c == b'\n')) [
      | inl r ↦ simp (q, e, r) tt
      | inr r ↦ simp (q, e, r) (h, omega arith)
    ]
  ]
]

pub local_step-Kept :
    (mode : Mode) (d : ℕ) (l : Local) (c : ℕ)
    → Counted l
    → l.col + 1 < 2 ^ 64
    → Kept l.col (local_step mode d l c)
unfolding local_step
local_step-Kept plain d l c h k = local_plain-Kept d l c h k
local_step-Kept quoted d l c h k = Kept-if l.col (c == b'"') _ _ (h, omega arith) (h, omega arith)
local_step-Kept quote_seen d l c h k =
    Kept-if l.col (c == b'"') _ _ (h, omega arith)
      (local_plain-Kept d (record l { mode = plain }) c h k)
local_step-Kept cr_seen d l c h k = tt

module _ {S : Type 0} (cb : Callbacks S) (stream : IsStream cb) (d n a : ℕ) where
  cells_fold-append :
      (cells : List Bytes) (cell : Bytes) (col : ℕ) (s : S)
      → cells_fold cb col (cells ++ cell ∷ []) s
        ≡ field cb (col + length cells) cell true (cells_fold cb col cells s)
  unfolding cells_fold
  cells_fold-append [] cell col s = let e : col + 0 ≡ col = omega arith in rw e
  cells_fold-append (first ∷ cells) cell col s =
      let e : col + suc (length cells) ≡ col + 1 + length cells = omega arith in
      rw e (cells_fold-append cells cell (col + 1) (field cb col first true s))

  -- The machine with a local state, of a record at ordinal `n` that starts at `a`.
  abbrev pub spread : S → Local → Machine S
  spread s l = record {
    mode = l.mode;
    ordinal = n;
    start = a;
    saw = l.saw;
    col = l.col;
    out = field cb l.col l.cell false (cells_fold cb 0 l.row s);
  }

  field-beyond :
      (col : ℕ) (b : Bytes) (e : Bool) (s : S)
      → ltb col max_columns ≡ false
      → field cb col b e s ≡ s
  unfolding field
  field-beyond col b e s h = ground arith

  -- The cell at hand, with a byte more.
  out-add_byte :
      (c : ℕ) (l : Local) (s : S)
      → field cb l.col (c ∷ []) false (field cb l.col l.cell false (cells_fold cb 0 l.row s))
        ≡ field cb l.col (add_byte c l).cell false (cells_fold cb 0 l.row s)
  out-add_byte c l s = elim (Bool-cases (ltb l.col max_columns)) [
    | inl e ↦
        simp e (sym (stream.field-append l.col l.cell (c ∷ []) false (cells_fold cb 0 l.row s)))
    | inr e ↦ simp e (field-beyond l.col (c ∷ []) false _ e)
  ]

  -- The cell at hand, ended.
  out-end_cell :
      (l : Local) (s : S)
      → Counted l
      → field cb l.col [] true (field cb l.col l.cell false (cells_fold cb 0 l.row s))
        ≡ field cb (u64 (l.col + 1)) [] false (cells_fold cb 0 (end_cell l).row s)
  out-end_cell l s h =
      let x = cells_fold cb 0 l.row s in
      let whole : field cb l.col [] true (field cb l.col l.cell false x)
          ≡ field cb l.col l.cell true x =
        sym (stream.field-append l.col l.cell [] true x)
        ∙ ap (λ b. field cb l.col b true x) (append-nil l.cell) in
      whole ∙ elim (Bool-cases (ltb l.col max_columns)) [
        | inl e ↦
            let k : length l.row ≡ l.col = omega (arith, ltb→lt _ _ e) in
            simp e (
              ap (λ j. field cb j l.cell true x) (sym k ∙ sym (zero-add (length l.row)))
              ∙ sym (cells_fold-append l.row l.cell 0 s)
              ∙ sym (stream.field-nil (u64 (l.col + 1)) _))
        | inr e ↦
            simp e (field-beyond l.col l.cell true x e ∙ sym (stream.field-nil (u64 (l.col + 1)) _))
      ]

  -- Where the record goes on, the machine is where the local step says.
  abbrev pub Spread : S → Machine S → Option Local → Type 0
  Spread s m none = Unit
  Spread s m (some l) = m ≡ spread s l

  plain-Spread :
      (l : Local) (s : S) (o c : ℕ)
      → Counted l
      → Spread s (plain_byte cb d (spread s l) o c) (local_plain d l c)
  unfolding local_plain plain_byte
  plain-Spread l s o c h = elim (Bool-cases (c == b'"')) [
    | inl q ↦ simp q refl
    | inr q ↦ elim (Bool-cases (c == d)) [
      | inl e ↦
          simp (q, e)
            (ap (λ x. record (spread s l) { saw = true; col = u64 (l.col + 1); out = x })
              (out-end_cell l s h))
      | inr e ↦ elim (Bool-cases (c == b'\r')) [
        | inl r ↦ simp (q, e, r) tt
        | inr r ↦ elim (Bool-cases (c == b'\n')) [
          | inl f ↦ simp (q, e, r, f) tt
          | inr f ↦
              simp (q, e, r, f)
                (ap (λ x. record (spread s l) { saw = true; out = x }) (out-add_byte c l s))
        ]
      ]
    ]
  ]

  Spread-if :
      (s : S) (t : Bool) (x y : Machine S) (a b : Option Local)
      → Spread s x a
      → Spread s y b
      → Spread s (if t then x else y) (if t then a else b)
  Spread-if s true x y a b p q = p
  Spread-if s false x y a b p q = q

  pub step-Spread :
      (mode : Mode) (l : Local) (s : S) (o c : ℕ)
      → Counted l
      → Spread s (step_in cb mode d (spread s l) o c) (local_step mode d l c)
  unfolding step_in local_step quoted_byte
  step-Spread plain l s o c h = plain-Spread l s o c h
  step-Spread quoted l s o c h =
      Spread-if s (c == b'"') _ _ _ _ refl
        (ap (λ x. record (spread s l) { out = x }) (out-add_byte c l s))
  step-Spread quote_seen l s o c h =
      Spread-if s (c == b'"') _ _ _ _
        (ap (λ x. record (spread s l) { mode = quoted; out = x }) (out-add_byte c l s))
        (plain-Spread (record l { mode = plain }) s o c h)
  step-Spread cr_seen l s o c h = tt

  -- Over the bytes of one record, with columns that the machine can count.
  pub run-Spread :
      (bytes : Bytes) (l : Local) (s : S) (o : ℕ)
      → Counted l
      → l.col + length bytes < 2 ^ 64
      → Spread s (run cb d (spread s l) o bytes) (local_run d l bytes)
  unfolding run local_run
  run-Spread [] l s o h k = refl
  run-Spread (c ∷ rest) l s o h k =
      go (local_step l.mode d l c) (step-Spread l.mode l s o c h)
        (local_step-Kept l.mode d l c h (omega arith))
        (λ l' h' k'. run-Spread rest l' s (o + 1) h' k')
    where
      go :
          (r : Option Local)
          → Spread s (step_in cb l.mode d (spread s l) o c) r
          → Kept l.col r
          → ((l' : Local)
              → Counted l'
              → l'.col + length rest < 2 ^ 64
              → Spread s (run cb d (spread s l') (o + 1) rest) (local_run d l' rest))
          → Spread s
              (run cb d (step_in cb l.mode d (spread s l) o c) (o + 1) rest)
              (elim r [ none ↦ none | some l' ↦ local_run d l' rest ])
      go none e w ih = tt
      go (some l') e (h', k') ih =
          subst (λ m. Spread s (run cb d m (o + 1) rest) (local_run d l' rest)) (sym e)
            (ih l' h' (omega arith))
