-- ===== src/Source/Clamping.antt =====
-- What the clamp flags of a page row say of its cells.
use data_table_viewer.Prelude.{
  ℕ, inl, Bool, true, false, List, [], ◌∷◌, ◌++◌, ◌≡◌, refl, sym, subst, append_assoc, append-nil,
  arith, ltb, length, Bytes, if◌then◌else◌, if_intro,
}
use data_table_viewer.Source.{PageRow, add_fragment, page_fragment}
use data_table_viewer.Source.Thinning.{Clamped, ended, add_fragment-Clamped}

-- The same for the cells of a row, one after another.
abbrev pub AllClamped : ℕ → List Bytes → List Bytes → List Bool → Type 0
AllClamped cap [] [] [] = Unit
AllClamped cap (w ∷ whole) (s ∷ shown) (f ∷ flags) =
    Clamped cap w s f × AllClamped cap whole shown flags
AllClamped cap _ _ _ = ⊥

-- A fragment that the scanner hands on: its column, its bytes, and whether the field ends there.
abbrev pub Fragment : Type 0
Fragment = ℕ × Bytes × Bool

-- The fields of the columns that are kept, each with its fragments joined, where `field` has begun.
abbrev pub joined : ℕ → List Fragment → Bytes → List Bytes
joined columns [] field = []
joined columns ((col, fragment, is_end) ∷ fragments) field =
    let closed = joined columns fragments [] in
    let longer = joined columns fragments (field ++ fragment) in
    let other = joined columns fragments field in
    if ltb col columns then (if is_end then (field ++ fragment) ∷ closed else longer) else other

-- What the callback of `readPage` makes of fragments.
abbrev pub gathered : ℕ → ℕ → List Fragment → PageRow → PageRow
gathered columns cap [] r = r
gathered columns cap ((col, fragment, is_end) ∷ fragments) r =
    gathered columns cap fragments (page_fragment columns cap col fragment is_end r)

AllClamped-append :
    (cap : ℕ) (whole shown : List Bytes) (flags : List Bool) (w s : Bytes) (f : Bool)
    → AllClamped cap whole shown flags
    → Clamped cap w s f
    → AllClamped cap (whole ++ w ∷ []) (shown ++ s ∷ []) (flags ++ f ∷ [])
AllClamped-append cap [] [] [] w s f h k = (k, tt)
AllClamped-append cap [] [] (c ∷ flags) w s f h k = elim h [ ]
AllClamped-append cap [] (b ∷ shown) flags w s f h k = elim h [ ]
AllClamped-append cap (a ∷ whole) [] flags w s f h k = elim h [ ]
AllClamped-append cap (a ∷ whole) (b ∷ shown) [] w s f h k = elim h [ ]
AllClamped-append cap (a ∷ whole) (b ∷ shown) (c ∷ flags) w s f (h, hs) k =
    (h, AllClamped-append cap whole shown flags w s f hs k)

-- A row whose closed cells are `closed`, and whose open one has come to `field`.
pub record Faithful (cap : ℕ) (closed : List Bytes) (field : Bytes) (r : PageRow) : Type 0 where
  pub values : AllClamped cap closed r.values r.clamped
  pub cell : Clamped cap field r.cell r.cell_clamped

-- A fragment leaves the closed cells alone.
add_fragment-values :
    (cap : ℕ) (fragment : Bytes) (r : PageRow) (closed : List Bytes)
    → AllClamped cap closed r.values r.clamped
    → let r' = add_fragment cap fragment r in AllClamped cap closed r'.values r'.clamped
unfolding add_fragment
add_fragment-values cap fragment r closed h =
    if_intro (λ (r' : PageRow). AllClamped cap closed r'.values r'.clamped)
      (ltb (length r.cell) cap) _ _ (λ _. h) (λ _. h)

-- Two tests of one condition.
if_pair :
    {A B : Type 0} (P : A → B → Type 0) (b : Bool) (x y : A) (x' y' : B)
    → (b ≡ true → P x x')
    → (b ≡ false → P y y')
    → P (if b then x else y) (if b then x' else y')
if_pair P true x y x' y' h k = h refl
if_pair P false x y x' y' h k = k refl

gathered-Clamped :
    (columns cap : ℕ) (fragments : List Fragment) (closed : List Bytes) (field : Bytes)
    (r : PageRow)
    → Faithful cap closed field r
    → let r' = gathered columns cap fragments r in
      AllClamped cap (closed ++ joined columns fragments field) r'.values r'.clamped
unfolding page_fragment
gathered-Clamped columns cap [] closed field r h =
    subst (λ whole. AllClamped cap whole r.values r.clamped) (sym (append-nil closed)) h.values
gathered-Clamped columns cap ((col, fragment, is_end) ∷ fragments) closed field r h =
    let r' = add_fragment cap fragment r in
    let c = add_fragment-Clamped cap fragment field r h.cell in
    let v = add_fragment-values cap fragment r closed h.values in
    let P : PageRow → List Bytes → Type 0 = λ row more.
      let last = gathered columns cap fragments row in
      AllClamped cap (closed ++ more) last.values last.clamped in
    let next : PageRow = record r' {
      values = r'.values ++ r'.cell ∷ [];
      clamped = r'.clamped ++ r'.cell_clamped ∷ [];
      cell = [];
      cell_clamped = false;
    } in
    let more = joined columns fragments [] in
    let longer = joined columns fragments (field ++ fragment) in
    let whole = field ++ fragment in
    if_pair P (ltb col columns) (if is_end then next else r') r
      (if is_end then whole ∷ more else longer) (joined columns fragments field)
      (λ _.
        if_pair P is_end next r' (whole ∷ more) longer
          (λ _.
            subst
              (λ cells.
                AllClamped cap cells (gathered columns cap fragments next).values
                  (gathered columns cap fragments next).clamped)
              (append_assoc closed (whole ∷ []) more)
              (gathered-Clamped columns cap fragments (closed ++ whole ∷ []) [] next (record {
                values =
                    AllClamped-append cap closed r'.values r'.clamped whole r'.cell r'.cell_clamped
                      v c;
                cell = (omega arith, ended, inl (refl, refl));
              })))
          (λ _.
            gathered-Clamped columns cap fragments closed whole r'
              (record { values = v; cell = c })))
      (λ _. gathered-Clamped columns cap fragments closed field r h)

abbrev pub unread : PageRow
unread = record { values = []; clamped = []; cell = []; cell_clamped = false }

-- Whatever fragments the scanner hands to a page for a record, in any cut: the row has one cell for
-- each field that ends in one of its columns, of `cap` bytes at most, which has bytes of that field
-- alone, in their order. A cell without the clamp flag is the whole field, and one with the flag
-- is shorter.
pub gathered-AllClamped :
    (columns cap : ℕ) (fragments : List Fragment)
    → let r = gathered columns cap fragments unread in
      AllClamped cap (joined columns fragments []) r.values r.clamped
gathered-AllClamped columns cap fragments =
    gathered-Clamped columns cap fragments [] [] unread
      (record { values = tt; cell = (omega arith, ended, inl (refl, refl)) })
