-- ===== src/Pager/Pages.antt =====
-- What the number of pages means.
use data_table_viewer.Prelude.{
  ℕ, suc, ◌+◌, ◌*◌, ◌/◌, ◌%◌, ◌≤◌, ◌<◌, true, not, Option, none, some, ◌≡◌, refl, sym, ap, subst,
  ◌∙◌, ◌↔◌, inl, inr, Bool-cases, arith, ltb, ◌==◌, if◌then◌else◌, dec_lt, Bytes, length,
  Option-cases,
}
use native.Mathlib.Nat.{mod-lt, div-add-mod', mul-le-mul_right}
use data_table_viewer.Prelude.Int.{ℤ, pos, ◌+ℤ◌, ◌-ℤ◌, ◌*ℤ◌, ◌≤ℤ◌, ltb_ℤ}
use data_table_viewer.Pager.{
  PagerState, first_row_on_page, pages_of, pages, can_next, can_last, normalize_page_rows,
  normalize_page_text,
}

unfoldable ceil : ℕ → ℕ → ℕ
ceil t s = t / s + (if not (t % s == 0) then 1 else 0)

abbrev pub PageInRange : ℤ → Type 0
PageInRange z = (pos 100 ≤ℤ z) × (z ≤ℤ pos 3000)

normalize_rows-InRange : (o : Option ℤ) → PageInRange (normalize_page_rows o)
unfolding normalize_page_rows
normalize_rows-InRange none = (omega arith, omega arith)
normalize_rows-InRange (some z) = (ground arith, ground arith)

pages_of-pos :
    (t n : ℕ)
    → pages_of (pos t) (pos (suc n)) ≡ pos (if ltb 1 (ceil t (suc n)) then ceil t (suc n) else 1)
unfolding pages_of ceil ◌+ℤ◌
pages_of-pos t n = ground arith

-- `ceil` is the number of parts of length `s` that `t` takes.
ceil_mono : (t s k : ℕ) → 1 ≤ s → k < ceil t s → k * s < t
unfolding ceil
ceil_mono t s k one h =
    let d = div-add-mod' t s in
    elim (Bool-cases (t % s == 0)) [
      | inl e ↦
          let le : k + 1 ≤ t / s = omega (arith, (rw e at h)) in
          let m : (k + 1) * s ≤ t / s * s = mul-le-mul_right s le in
          let x : (k + 1) * s ≡ k * s + s = omega arith in omega arith
      | inr e ↦
          let le : k ≤ t / s = omega (arith, (rw e at h)) in
          let m : k * s ≤ t / s * s = mul-le-mul_right s le in
          let z : 1 ≤ t % s = ground arith in omega arith
    ]

ceil_anti : (t s k : ℕ) → 1 ≤ s → k * s < t → k < ceil t s
unfolding ceil
ceil_anti t s k one h = elim (dec_lt k (ceil t s)) [
  | yes p ↦ p
  | no p ↦
      let d = div-add-mod' t s in
      let r = mod-lt t {m = s} (omega arith) in
      elim (Bool-cases (t % s == 0)) [
        | inl e ↦
            let q : ceil t s ≡ t / s = rw (ceil, e) (omega arith) in
            let m : t / s * s ≤ k * s = mul-le-mul_right s (omega arith) in
            let z : t % s ≡ 0 = ground arith in absurd (omega arith)
        | inr e ↦
            let q : ceil t s ≡ t / s + 1 = rw (ceil, e) refl in
            let m : (t / s + 1) * s ≤ k * s = mul-le-mul_right s (omega arith) in
            let x : (t / s + 1) * s ≡ t / s * s + s = omega arith in absurd (omega arith)
      ]
]

first_row-next :
    (k n : ℕ) → first_row_on_page (pos (suc (suc k))) (pos (suc n)) ≡ pos (suc k * suc n + 1)
unfolding first_row_on_page ◌+ℤ◌ ◌-ℤ◌ ◌*ℤ◌
first_row-next k n = ground arith

next-pages :
    (t n k : ℕ)
    → (ltb_ℤ (pos (suc k)) (pages_of (pos t) (pos (suc n))) ≡ true)
      ↔ (pos (suc k * suc n + 1) ≤ℤ pos t)
next-pages t n k =
    let up = ceil_mono t (suc n) (suc k) (omega arith) in
    let down = ceil_anti t (suc n) (suc k) (omega arith) in rw (pages_of-pos t n) (ground arith)

can_next-known :
    (p : PagerState) (total : ℤ)
    → p.total ≡ some total
    → (can_next p ≡ ltb_ℤ p.page (pages_of total p.page_size)) × (can_last p ≡ can_next p)
unfolding can_next can_last pages
can_next-known p total e = rw e (refl, refl)

-- With a known number of rows, a page that is the first or a later one, and a page size that is
-- positive, there is a next page exactly when the row that it would begin with exists, and
-- `canLast` says the same.
pub can_next_lem :
    (p : PagerState) (t n k : ℕ)
    → p.total ≡ some (pos t)
    → p.page_size ≡ pos (suc n)
    → p.page ≡ pos (suc k)
    → ((can_next p ≡ true) ↔ (first_row_on_page (pos (suc (suc k))) (pos (suc n)) ≤ℤ pos t))
      × (can_last p ≡ can_next p)
can_next_lem p t n k e size here =
    let (next, last) = can_next-known p (pos t) e in
    let here' = ap (λ a. ltb_ℤ a (pages_of (pos t) p.page_size)) here in
    let size' = ap (λ b. ltb_ℤ (pos (suc k)) (pages_of (pos t) b)) size in
    (
      subst (λ b. (b ≡ true) ↔ (first_row_on_page (pos (suc (suc k))) (pos (suc n)) ≤ℤ pos t))
          (sym (next ∙ here' ∙ size'))
          (subst (λ z. (ltb_ℤ (pos (suc k)) (pages_of (pos t) (pos (suc n))) ≡ true) ↔ (z ≤ℤ pos t))
            (sym (first_row-next k n)) (next-pages t n k)),
      last,
    )

-- Whatever a setting holds, and however it is read, a page has from 100 to 3000 rows.
pub normalize_text-InRange :
    (stoll : Bytes → Option (ℤ × ℕ)) (value : Bytes) → PageInRange (normalize_page_text stoll value)
unfolding normalize_page_text
normalize_text-InRange stoll value = elim (Option-cases (stoll value)) [
  | inl e ↦ rw (normalize_page_text, e) (omega arith, omega arith)
  | inr ((z, used), e) ↦
      rw (normalize_page_text, e)
        (elim (Bool-cases (used == length value)) [
          | inl h ↦ rw h (normalize_rows-InRange (some z))
          | inr h ↦ rw h (omega arith, omega arith)
        ])
]
