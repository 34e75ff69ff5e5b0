-- ===== src/Source/Cells.antt =====
-- Bounds on what a page keeps of its cells.
use data_table_viewer.Prelude.{
  ℕ, zero, suc, ◌-◌, ◌*◌, ◌/◌, ◌≤◌, ◌<◌, ◌⊎◌, min, max, Bool, true, false, ◌||◌, List, [], ◌∷◌,
  ◌++◌, ◌≡◌, refl, sym, subst, inl, inr, Bool-cases, arith, ltb, leb, leb→le, ◌==◌, length,
  length-append, length-take, take, dec_lt, Bytes,
}
use native.Mathlib.Nat.{div-add-mod', mul-le-mul_right}
use data_table_viewer.Prelude.Int.{pos}
use data_table_viewer.Source.{
  is_continuation, byte_at, back_up, utf8_safe_length, compute_per_cell_cap, min_cell_cap,
  page_byte_budget, default_cell_cap, PageRow, add_fragment, page_fragment,
}

-- A place where a character of `s` starts, or `s` ends.
abbrev pub IsBoundary : Bytes → ℕ → Type 0
IsBoundary s n = (n ≡ 0) ⊎ ((n ≡ length s) ⊎ (is_continuation (byte_at s n) ≡ false))

back_up_lem : (s : Bytes) (n : ℕ) → (back_up s n ≤ n) × IsBoundary s (back_up s n)
unfolding back_up
back_up_lem s zero = (omega arith, inl refl)
back_up_lem s (suc n) =
    let (le, b) = back_up_lem s n in
    elim (Bool-cases (is_continuation (byte_at s (suc n)))) [
      | inl e ↦ rw e (omega arith, b)
      | inr e ↦ rw e (omega arith, inr (inr e))
    ]

-- The safe length of a text is at most the limit and its own length, and no character of the text
-- is cut there.
pub utf8_safe_length_lem :
    (s : Bytes) (max_bytes : ℕ)
    → (utf8_safe_length s max_bytes ≤ max_bytes)
      × (utf8_safe_length s max_bytes ≤ length s)
      × IsBoundary s (utf8_safe_length s max_bytes)
unfolding utf8_safe_length
utf8_safe_length_lem s max_bytes = elim (Bool-cases (leb (length s) max_bytes)) [
  | inl e ↦ rw e (leb→le _ _ e, omega arith, inr (inl refl))
  | inr e ↦
      let (le, b) = back_up_lem s max_bytes in
      let more : max_bytes < length s = ground arith in rw e (le, omega arith, b)
]

-- The cells of a row within the cap, each with its flag.
abbrev pub AllWithin : ℕ → List Bytes → Type 0
AllWithin cap [] = Unit
AllWithin cap (v ∷ values) = (length v ≤ cap) × AllWithin cap values

pub record Within (cap : ℕ) (r : PageRow) : Type 0 where
  pub flagged : length r.clamped ≡ length r.values
  pub values : AllWithin cap r.values
  pub cell : length r.cell ≤ cap

AllWithin-append :
    (cap : ℕ) (values : List Bytes) (v : Bytes)
    → AllWithin cap values
    → length v ≤ cap
    → AllWithin cap (values ++ v ∷ [])
AllWithin-append cap [] v h k = (k, tt)
AllWithin-append cap (w ∷ values) v (h, hs) k = (h, AllWithin-append cap values v hs k)

add_fragment-Within :
    (cap : ℕ) (fragment : Bytes) (r : PageRow)
    → Within cap r
    → Within cap (add_fragment cap fragment r)
unfolding add_fragment
add_fragment-Within cap fragment r v =
    let safe = utf8_safe_length fragment (cap - length r.cell) in
    let (le, _, _) = utf8_safe_length_lem fragment (cap - length r.cell) in
    elim (Bool-cases (ltb (length r.cell) cap)) [
      | inl e ↦ rw e (record {
        flagged = v.flagged;
        values = v.values;
        cell =
            omega
              (arith, length-append r.cell (take safe fragment), length-take safe fragment, v.cell);
      })
      | inr e ↦ rw e (record { flagged = v.flagged; values = v.values; cell = v.cell })
    ]

-- A fragment keeps the cells of a row within the cap.
pub page_fragment-Within :
    (columns cap col : ℕ) (fragment : Bytes) (is_end : Bool) (r : PageRow)
    → Within cap r
    → Within cap (page_fragment columns cap col fragment is_end r)
unfolding page_fragment
page_fragment-Within columns cap col fragment is_end r v =
    let r' = add_fragment cap fragment r in
    let v' = add_fragment-Within cap fragment r v in
    elim (Bool-cases (ltb col columns)) [
      | inr e ↦ rw e v
      | inl e ↦ elim (Bool-cases is_end) [
        | inr e' ↦ rw (e, e') v'
        | inl e' ↦
            rw (e, e')
              (record {
                flagged = omega (
                  arith,
                  length-append r'.clamped (r'.cell_clamped ∷ []),
                  length-append r'.values (r'.cell ∷ []),
                  v'.flagged,
                );
                values = AllWithin-append cap r'.values r'.cell v'.values v'.cell;
                cell = omega arith;
              })
      ]
    ]

-- A cap from a quotient.
cap_lem :
    (q m : ℕ)
    → q * m ≤ page_byte_budget
    → (let cap = min default_cell_cap (max min_cell_cap q) in
        (min_cell_cap ≤ cap)
        × (cap ≤ default_cell_cap)
        × ((cap ≡ min_cell_cap) ⊎ (cap * m ≤ page_byte_budget)))
cap_lem q m h =
    let cap = min default_cell_cap (max min_cell_cap q) in
    (
      omega arith,
      omega arith,
      elim (dec_lt min_cell_cap q) [
        | yes p ↦
            let le : cap ≤ q = omega arith in
            let k : cap * m ≤ q * m = mul-le-mul_right m le in inr (omega arith)
        | no p ↦ inl (omega arith)
      ],
    )

none_of_page : (n columns : ℕ) → (n == 0 || columns == 0) ≡ true → n * columns ≡ 0
none_of_page zero columns h = omega arith
none_of_page (suc n) columns h =
    let e : columns ≡ 0 = ground arith in subst (λ c. suc n * c ≡ 0) (sym e) (omega arith)

-- A cell of a page of `n` rows may keep from 16 bytes to 4096, and all cells of the page together
-- keep 32 MiB at most, unless each may keep no more than 16 bytes.
pub compute_per_cell_cap_lem :
    (n columns : ℕ)
    → (let cap = compute_per_cell_cap (pos n) columns in
        (min_cell_cap ≤ cap)
        × (cap ≤ default_cell_cap)
        × ((cap ≡ min_cell_cap) ⊎ (cap * (n * columns) ≤ page_byte_budget)))
unfolding compute_per_cell_cap
compute_per_cell_cap_lem n columns = elim (Bool-cases (n == 0 || columns == 0)) [
  | inl e ↦
      let z = none_of_page n columns e in rw e (omega arith, omega arith, inr (rw z (omega arith)))
  | inr e ↦
      let d = div-add-mod' page_byte_budget (n * columns) in
      rw e (cap_lem (page_byte_budget / (n * columns)) (n * columns) (omega arith))
]
