-- ===== src/Source/Thinning.antt =====
-- What a page shows of one cell, whatever fragments it comes in.
use data_table_viewer.Prelude.{
  ℕ, zero, suc, ◌-◌, ◌≤◌, ◌<◌, ◌⊎◌, inl, inr, Bool, true, false, [], ◌∷◌, ◌++◌, ◌≡◌, refl, sym,
  subst, ap, append-nil, arith, ltb, length, length-append, length-take, take, is_empty, Bytes,
  if◌then◌else◌, if_intro,
}
use data_table_viewer.Source.{utf8_safe_length, PageRow, add_fragment}
use data_table_viewer.Source.Cells.{utf8_safe_length_lem}

-- The second text is the first, or the first with some bytes left out.
pub data Thinned : Bytes → Bytes → Type 0 where
  ended : Thinned [] []
  kept : (c : ℕ) (whole shown : Bytes) → Thinned whole shown → Thinned (c ∷ whole) (c ∷ shown)
  left_out : (c : ℕ) (whole shown : Bytes) → Thinned whole shown → Thinned (c ∷ whole) shown

-- What a page shows of a cell, `whole`: at most `cap` bytes. Without the flag it is the whole cell,
-- and with the flag it is shorter, and has bytes of the cell alone, in their order.
abbrev pub Clamped : ℕ → Bytes → Bytes → Bool → Type 0
Clamped cap whole shown flag =
    (length shown ≤ cap)
    × Thinned whole shown
    × (((flag ≡ false) × (shown ≡ whole)) ⊎ ((flag ≡ true) × (length shown < length whole)))

Thinned-append : {a b c d : Bytes} → Thinned a b → Thinned c d → Thinned (a ++ c) (b ++ d)
Thinned-append ended k = k
Thinned-append (kept c whole shown h) k = kept c _ _ (Thinned-append h k)
Thinned-append (left_out c whole shown h) k = left_out c _ _ (Thinned-append h k)

Thinned-none : (bytes : Bytes) → Thinned bytes []
Thinned-none [] = ended
Thinned-none (c ∷ bytes) = left_out c bytes [] (Thinned-none bytes)

Thinned-take : (n : ℕ) (bytes : Bytes) → Thinned bytes (take n bytes)
Thinned-take zero bytes = Thinned-none bytes
Thinned-take (suc n) [] = ended
Thinned-take (suc n) (c ∷ bytes) = kept c bytes (take n bytes) (Thinned-take n bytes)

take-whole : (n : ℕ) (bytes : Bytes) → length bytes ≤ n → take n bytes ≡ bytes
take-whole zero [] h = refl
take-whole zero (c ∷ bytes) h = ground arith
take-whole (suc n) [] h = refl
take-whole (suc n) (c ∷ bytes) h = ap (λ more. c ∷ more) (take-whole n bytes (omega arith))

-- One more piece of a cell, of which `n` bytes are taken.
taken-Clamped :
    (cap n : ℕ) (fragment field cell : Bytes) (flag : Bool)
    → n ≤ cap - length cell
    → Clamped cap field cell flag
    → Clamped cap
        (field ++ fragment)
        (cell ++ take n fragment)
        (if ltb n (length fragment) then true else flag)
taken-Clamped cap n fragment field cell flag fits (le, thin, truth) =
    let shown = cell ++ take n fragment in
    let whole = field ++ fragment in
    let no_longer : length cell ≤ length field = elim truth [
      | inl (f, e) ↦ rw e (omega arith)
      | inr (f, l) ↦ omega arith
    ] in
    (
      omega (arith, length-append cell (take n fragment), length-take n fragment),
      Thinned-append thin (Thinned-take n fragment),
      if_intro
          (λ (b : Bool).
            ((b ≡ false) × (shown ≡ whole)) ⊎ ((b ≡ true) × (length shown < length whole)))
          (ltb n (length fragment)) true flag
          (λ cut.
            let less : n < length fragment = ground arith in
            inr (
              refl,
              omega (
                arith,
                length-append cell (take n fragment),
                length-append field fragment,
                length-take n fragment,
              ),
            ))
          (λ uncut.
            let all : take n fragment ≡ fragment = take-whole n fragment (ground arith) in
            elim truth [
              | inl (f, e) ↦ inl (f, rw (e, all) refl)
              | inr (f, l) ↦ inr (
                f,
                rw all (omega (arith, length-append cell fragment, length-append field fragment)),
              )
            ]),
    )

-- One more piece of a cell that is full.
full-Clamped :
    (cap : ℕ) (fragment field cell : Bytes) (flag : Bool)
    → Clamped cap field cell flag
    → Clamped cap (field ++ fragment) cell (if is_empty fragment then flag else true)
full-Clamped cap [] field cell flag h =
    subst (λ whole. Clamped cap whole cell flag) (sym (append-nil field)) h
full-Clamped cap (c ∷ fragment) field cell flag (le, thin, truth) = (
  le,
  subst (λ shown. Thinned (field ++ c ∷ fragment) shown) (append-nil cell)
      (Thinned-append thin (Thinned-none (c ∷ fragment))),
  inr (
    refl,
    elim truth [
      | inl (f, e) ↦ rw e (omega (arith, length-append field (c ∷ fragment)))
      | inr (f, l) ↦ omega (arith, length-append field (c ∷ fragment))
    ],
  ),
)

pub add_fragment-Clamped :
    (cap : ℕ) (fragment field : Bytes) (r : PageRow)
    → Clamped cap field r.cell r.cell_clamped
    → let r' = add_fragment cap fragment r in
      Clamped cap (field ++ fragment) r'.cell r'.cell_clamped
unfolding add_fragment
add_fragment-Clamped cap fragment field r h =
    let safe = utf8_safe_length fragment (cap - length r.cell) in
    let added : PageRow = record r {
      cell = r.cell ++ take safe fragment;
      cell_clamped = if ltb safe (length fragment) then true else r.cell_clamped;
    } in
    let left : PageRow = record r {
      cell_clamped = if is_empty fragment then r.cell_clamped else true;
    } in
    if_intro (λ (r' : PageRow). Clamped cap (field ++ fragment) r'.cell r'.cell_clamped)
      (ltb (length r.cell) cap) added left
      (λ _.
        taken-Clamped cap safe fragment field r.cell r.cell_clamped
          (utf8_safe_length_lem fragment (cap - length r.cell)).0 h)
      (λ _. full-Clamped cap fragment field r.cell r.cell_clamped h)
