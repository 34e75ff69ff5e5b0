-- ===== src/Source/Selection.antt =====
-- What `resolveTargetColumns` selects.
use data_table_viewer.Prelude.{
  ℕ, zero, suc, ◌+◌, ◌≤◌, ◌<◌, Bool, true, false, not, ◌&&◌, List, [], ◌∷◌, ◌≡◌, ◌≢◌, inl, inr,
  Bool-cases, arith, ltb, set, replicate,
}
use data_table_viewer.Prelude.Int.{ℤ, pos, negsuc}
use data_table_viewer.Source.{indices, selected_at, select_columns, resolve_target_columns}

-- Each column is one that `P` holds of.
abbrev AllOf : (ℕ → Type 0) → List ℕ → Type 0
AllOf P [] = Unit
AllOf P (c ∷ columns) = P c × AllOf P columns

AllOf-imp :
    (P Q : ℕ → Type 0) (columns : List ℕ)
    → ((c : ℕ) → P c → Q c)
    → AllOf P columns
    → AllOf Q columns
AllOf-imp P Q [] f h = tt
AllOf-imp P Q (c ∷ columns) f (h, hs) = (f c h, AllOf-imp P Q columns f hs)

-- No column stands twice in the list, and each is below `count`.
abbrev pub IsSelection : ℕ → List ℕ → Type 0
IsSelection count [] = Unit
IsSelection count (c ∷ columns) =
    (c < count) × AllOf (λ d. d ≢ c) columns × IsSelection count columns

set-selected :
    (selected : List Bool) (c d : ℕ)
    → selected_at (set selected c true) d ≡ false
    → (selected_at selected d ≡ false) × (d ≢ c)
set-selected [] c d h = absurd (cc h)
set-selected (b ∷ bs) zero zero h = absurd (cc h)
set-selected (b ∷ bs) zero (suc d) h = (h, λ e. absurd (omega arith))
set-selected (b ∷ bs) (suc c) zero h = (h, λ e. absurd (omega arith))
set-selected (b ∷ bs) (suc c) (suc d) h =
    let (s, n) = set-selected bs c d h in (s, λ e. n (omega arith))

select_columns_lem :
    (requested : List ℤ) (count : ℕ) (selected : List Bool)
    → (let columns = (select_columns requested count selected).0 in
        IsSelection count columns × AllOf (λ c. selected_at selected c ≡ false) columns)
unfolding select_columns
select_columns_lem [] count selected = (tt, tt)
select_columns_lem (negsuc c ∷ requested) count selected =
    select_columns_lem requested count selected
select_columns_lem (pos c ∷ requested) count selected =
    elim (Bool-cases (ltb c count && not (selected_at selected c))) [
      | inr e ↦ rw e (select_columns_lem requested count selected)
      | inl e ↦
          let below : c < count = ground arith in
          let fresh : selected_at selected c ≡ false = ground arith in
          let columns = (select_columns requested count (set selected c true)).0 in
          let (s, a) = select_columns_lem requested count (set selected c true) in
          rw e (
            (below, AllOf-imp _ (λ d. d ≢ c) columns (λ d h. (set-selected selected c d h).1) a, s),
            (
              fresh,
              AllOf-imp _ (λ d. selected_at selected d ≡ false) columns
                  (λ d h. (set-selected selected c d h).0) a,
            ),
          )
    ]

indices_lem :
    (col n count : ℕ)
    → col + n ≤ count
    → IsSelection count (indices col n) × AllOf (λ c. col ≤ c) (indices col n)
unfolding indices
indices_lem col zero count h = (tt, tt)
indices_lem col (suc n) count h =
    let (s, a) = indices_lem (col + 1) n count (omega arith) in
    (
      (
        omega arith,
        AllOf-imp (λ c. col + 1 ≤ c) (λ c. c ≢ col) (indices (col + 1) n)
            (λ c k e. absurd (omega arith)) a,
        s,
      ),
      (
        omega arith,
        AllOf-imp (λ c. col + 1 ≤ c) (λ c. col ≤ c) (indices (col + 1) n) (λ c k. omega arith) a,
      ),
    )

-- Whatever columns are requested, negative ones, ones out of range and repetitions included, the
-- columns selected are columns of the table, and none of them is selected twice.
pub resolve_target_columns_lem :
    (requested : List ℤ) (count : ℕ) → IsSelection count (resolve_target_columns requested count).0
unfolding resolve_target_columns
resolve_target_columns_lem [] count = (indices_lem 0 count count (omega arith)).0
resolve_target_columns_lem (c ∷ requested) count =
    (select_columns_lem (c ∷ requested) count (replicate count false)).0
