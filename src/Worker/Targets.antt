-- ===== src/Worker/Targets.antt =====
-- The row that `last` waits for.
use data_table_viewer.Prelude.{
  ℕ, zero, suc, ◌+◌, ◌-◌, ◌*◌, ◌/◌, ◌%◌, ◌≤◌, ◌<◌, ◌≡◌, refl, sym, ap, subst, arith, ◌==◌, if_intro,
}
use native.Mathlib.Nat.{mod-lt, div-add-mod'}
use data_table_viewer.Prelude.Int.{ℤ, pos, negsuc, ◌-ℤ◌}
use data_table_viewer.FileSource.Paging.{at_least_zero}
use data_table_viewer.Worker.Pages.{last_target}

-- The first row of the last page: a whole number of pages lies before it, and the last of `total`
-- rows is on the page that begins with it. Without rows, or without a size, it is row 0.
abbrev pub IsLastStart : ℤ → ℤ → ℤ → Type 0
IsLastStart (pos (suc size)) (pos (suc total)) target =
    (pages : ℕ) × (target ≡ pos (pages * suc size))
    × (pages * suc size ≤ total)
    × (total < pages * suc size + suc size)
IsLastStart size total target = target ≡ pos 0

less : (a b : ℕ) → b ≤ a → at_least_zero (pos a -ℤ pos b) ≡ pos (a - b)
unfolding ◌-ℤ◌
less a b h = ground arith

whole_pages :
    (size total q : ℕ)
    → q * suc size ≡ suc total
    → IsLastStart (pos (suc size)) (pos (suc total)) (pos (suc total - suc size))
whole_pages size total zero e = absurd (ground arith)
whole_pages size total (suc k) e =
    let m : suc k * suc size ≡ k * suc size + suc size = omega arith in
    (k, ap pos (omega (arith, e, m)), omega (arith, e, m), omega (arith, e, m))

page_fits : (size total q : ℕ) → q * suc size ≡ suc total → suc size ≤ suc total
page_fits size total zero e = absurd (ground arith)
page_fits size total (suc k) e =
    let m : suc k * suc size ≡ k * suc size + suc size = omega arith in omega (arith, e, m)

pub last_target-IsLastStart : (size total : ℤ) → IsLastStart size total (last_target size total)
unfolding last_target
last_target-IsLastStart (negsuc size) total = refl
last_target-IsLastStart (pos zero) total = refl
last_target-IsLastStart (pos (suc size)) (negsuc total) = refl
last_target-IsLastStart (pos (suc size)) (pos zero) = refl
last_target-IsLastStart (pos (suc size)) (pos (suc total)) =
    let r = suc total % suc size in
    let q = suc total / suc size in
    let d = div-add-mod' (suc total) (suc size) in
    let l : r < suc size = mod-lt (suc total) {m = suc size} (omega arith) in
    let P : ℤ → Type 0 = IsLastStart (pos (suc size)) (pos (suc total)) in
    if_intro (λ t. P (at_least_zero t)) (r == 0) (pos (suc total) -ℤ pos (suc size))
      (pos (suc total) -ℤ pos r)
      (λ e.
        let z : q * suc size ≡ suc total = ground arith in
        subst P (sym (less (suc total) (suc size) (page_fits size total q z)))
          (whole_pages size total q z))
      (λ e.
        let p : 0 < r = ground arith in
        let s : suc total - r ≡ q * suc size = omega arith in
        subst P (sym (less (suc total) r (omega arith))) (q, ap pos s, omega arith, omega arith))
