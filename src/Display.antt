-- ===== src/Display.antt =====
-- `singleLineDisplayText` of src/ui/cell_text.h: what the table shows of a cell that has line breaks.
-- A `QString` is the list of its UTF-16 units.
use data_table_viewer.Prelude.{
  ℕ, Bool, true, false, ◌||◌, [], ◌∷◌, ◌≡◌, refl, arith, ◌==◌, if◌then◌else◌, Bytes, ◌⊎◌, inl, inr,
  ◌≢◌, if_intro, Bool-cases,
}

abbrev pub is_break : ℕ → Bool
is_break c = c == b'\r' || c == b'\n'

-- `contains`, of either break.
unfoldable pub has_breaks : Bytes → Bool
has_breaks [] = false
has_breaks (c ∷ text) = is_break c || has_breaks text

-- `previous_was_newline` says whether the break before has its space already.
unfoldable pub fold_breaks : Bool → Bytes → Bytes
fold_breaks previous_was_newline [] = []
fold_breaks previous_was_newline (c ∷ text) =
    let more = fold_breaks true text in
    let other = fold_breaks false text in
    if is_break c then (if previous_was_newline then more else b' ' ∷ more) else c ∷ other

unfoldable pub single_line_display_text : Bytes → Bytes
single_line_display_text text = if has_breaks text then fold_breaks false text else text

-- No unit is a carriage return or a line feed.
abbrev pub IsSingleLine : Bytes → Type 0
IsSingleLine [] = Unit
IsSingleLine (c ∷ text) = (c ≢ b'\r') × (c ≢ b'\n') × IsSingleLine text

abbrev IsBreak : ℕ → Type 0
IsBreak c = (c ≡ b'\r') ⊎ (c ≡ b'\n')

-- The second text is the first with one space for each run of breaks, and with all else kept. The
-- Boolean says whether a run has begun just before.
pub data Folded : Bool → Bytes → Bytes → Type 0 where
  ended : (p : Bool) → Folded p [] []
  kept :
      (p : Bool) (c : ℕ) (text shown : Bytes)
      → c ≢ b'\r'
      → c ≢ b'\n'
      → Folded false text shown
      → Folded p (c ∷ text) (c ∷ shown)
  run_begins :
      (c : ℕ) (text shown : Bytes)
      → IsBreak c
      → Folded true text shown
      → Folded false (c ∷ text) (b' ' ∷ shown)
  run_goes_on :
      (c : ℕ) (text shown : Bytes)
      → IsBreak c
      → Folded true text shown
      → Folded true (c ∷ text) shown

is_break-IsBreak : (c : ℕ) → is_break c ≡ true → IsBreak c
is_break-IsBreak c e = elim (Bool-cases (c == b'\r')) [
  | inl r ↦ inl (ground arith)
  | inr n ↦ inr (ground arith)
]

other_than : (c b : ℕ) → (c == b) ≡ false → c ≢ b
other_than c b e = λ same. ground arith

no_return : (c : ℕ) → is_break c ≡ false → c ≢ b'\r'
no_return c e = other_than c b'\r' (ground arith)

no_feed : (c : ℕ) → is_break c ≡ false → c ≢ b'\n'
no_feed c e = other_than c b'\n' (ground arith)

-- A break, in front of what folds to `shown`.
break_first :
    (p : Bool) (c : ℕ) (text shown : Bytes)
    → IsBreak c
    → Folded true text shown
    → Folded p (c ∷ text) (if p then shown else b' ' ∷ shown)
break_first false c text shown b f = run_begins c text shown b f
break_first true c text shown b f = run_goes_on c text shown b f

fold_breaks-Folded : (p : Bool) (text : Bytes) → Folded p text (fold_breaks p text)
unfolding fold_breaks
fold_breaks-Folded p [] = ended p
fold_breaks-Folded p (c ∷ text) =
    let more = fold_breaks true text in
    let other = fold_breaks false text in
    if_intro (Folded p (c ∷ text)) (is_break c) (if p then more else b' ' ∷ more) (c ∷ other)
      (λ e. break_first p c text more (is_break-IsBreak c e) (fold_breaks-Folded true text))
      (λ e. kept p c text other (no_return c e) (no_feed c e) (fold_breaks-Folded false text))

Folded-IsSingleLine : {p : Bool} {text shown : Bytes} → Folded p text shown → IsSingleLine shown
Folded-IsSingleLine (ended p) = tt
Folded-IsSingleLine (kept p c text shown r n f) = (r, n, Folded-IsSingleLine f)
Folded-IsSingleLine (run_begins c text shown b f) =
    (other_than b' ' b'\r' refl, other_than b' ' b'\n' refl, Folded-IsSingleLine f)
Folded-IsSingleLine (run_goes_on c text shown b f) = Folded-IsSingleLine f

-- A text that the guard finds no break in has none.
unbroken : (p : Bool) (text : Bytes) → has_breaks text ≡ false → Folded p text text
unfolding has_breaks
unbroken p [] e = ended p
unbroken p (c ∷ text) e =
    kept p c text text (no_return c (ground arith)) (no_feed c (ground arith))
      (unbroken false text (ground arith))

IsSingleLine-has_breaks : (text : Bytes) → IsSingleLine text → has_breaks text ≡ false
unfolding has_breaks
IsSingleLine-has_breaks [] h = refl
IsSingleLine-has_breaks (c ∷ text) (r, n, h) = ground (arith, IsSingleLine-has_breaks text h)

-- What is shown of a cell has no carriage return and no line feed. It is the cell with one space for
-- each run of these, and with all else kept. What has been shown already is shown as it is.
pub single_line_display_text_lem :
    (text : Bytes)
    → IsSingleLine (single_line_display_text text)
      × Folded false text (single_line_display_text text)
      × (single_line_display_text (single_line_display_text text) ≡ single_line_display_text text)
unfolding single_line_display_text
single_line_display_text_lem text =
    let shown = if has_breaks text then fold_breaks false text else text in
    let f : Folded false text shown =
      if_intro (Folded false text) (has_breaks text) (fold_breaks false text) text
        (λ _. fold_breaks-Folded false text) (λ e. unbroken false text e) in
    let clean = IsSingleLine-has_breaks shown (Folded-IsSingleLine f) in
    (Folded-IsSingleLine f, f, rw clean refl)
