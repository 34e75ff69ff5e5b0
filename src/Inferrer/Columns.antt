-- ===== src/Inferrer/Columns.antt =====
-- What the type of a column says of its cells.
use data_table_viewer.Prelude.{
  ℕ, zero, suc, ◌<◌, Bool, true, false, not, ◌&&◌, List, [], ◌∷◌, some, ◌≡◌, refl, subst, ◌∙◌,
  arith, if◌then◌else◌, get_elem?, get_elem?-take, take, Bytes,
}
use data_table_viewer.Table.{ColumnType, string, integer, float, boolean}
use data_table_viewer.Inferrer.{
  inference_sample_rows, cell_at, is_boolean, is_integer, is_float, Survey, no_survey, survey_cell,
  survey_rows, kind_of, column_kind,
}

-- The test that belongs to a type.
abbrev pub Suits : ColumnType → Bytes → Type 0
Suits string cell = Unit
Suits integer cell = is_integer cell ≡ true
Suits float cell = (is_float cell).0 ≡ true
Suits boolean cell = is_boolean cell ≡ true

-- What a survey has ruled out stays so.
abbrev Below : Survey → Survey → Type 0
Below w v =
    (w.all_bool ≡ true → v.all_bool ≡ true)
    × (w.all_int ≡ true → v.all_int ≡ true)
    × (w.all_float ≡ true → v.all_float ≡ true)

survey_cell-Below : (v : Survey) (cell : Bytes) → Below (survey_cell v cell) v
unfolding survey_cell
survey_cell-Below v cell = (ground arith, ground arith, ground arith)

-- A survey that rules nothing out after a cell has found the cell to suit.
survey_cell-Suits :
    (v : Survey) (cell : Bytes)
    → ((survey_cell v cell).all_bool ≡ true → is_boolean cell ≡ true)
      × ((survey_cell v cell).all_int ≡ true → is_integer cell ≡ true)
      × ((survey_cell v cell).all_float ≡ true → (is_float cell).0 ≡ true)
unfolding survey_cell
survey_cell-Suits v [] =
    (λ h. unfold is_boolean in refl, λ h. unfold is_integer in refl, λ h. unfold is_float in refl)
survey_cell-Suits v (c ∷ cs) = (ground arith, ground arith, ground arith)

survey_rows-Below :
    (col : ℕ) (v : Survey) (rows : List (List Bytes)) → Below (survey_rows col v rows) v
unfolding survey_rows
survey_rows-Below col v [] = (λ h. h, λ h. h, λ h. h)
survey_rows-Below col v (row ∷ rows) =
    let (a, b, c) = survey_rows-Below col (survey_cell v (cell_at row col)) rows in
    let (a', b', c') = survey_cell-Below v (cell_at row col) in
    (λ h. a' (a h), λ h. b' (b h), λ h. c' (c h))

survey_rows-Suits :
    (col : ℕ) (v : Survey) (rows : List (List Bytes)) (i : ℕ) (row : List Bytes)
    → get_elem? rows i ≡ some row
    → (let w = survey_rows col v rows in
        (w.all_bool ≡ true → is_boolean (cell_at row col) ≡ true)
        × (w.all_int ≡ true → is_integer (cell_at row col) ≡ true)
        × (w.all_float ≡ true → (is_float (cell_at row col)).0 ≡ true))
unfolding survey_rows
survey_rows-Suits col v [] i row e = absurd (cc e)
survey_rows-Suits col v (first ∷ rows) zero row e =
    let e' : first ≡ row = cc e in
    let (a, b, c) = survey_rows-Below col (survey_cell v (cell_at first col)) rows in
    let (a', b', c') = survey_cell-Suits v (cell_at first col) in
    subst
      (λ r.
        (let w = survey_rows col (survey_cell v (cell_at first col)) rows in
          (w.all_bool ≡ true → is_boolean (cell_at r col) ≡ true)
          × (w.all_int ≡ true → is_integer (cell_at r col) ≡ true)
          × (w.all_float ≡ true → (is_float (cell_at r col)).0 ≡ true)))
      e' (λ h. a' (a h), λ h. b' (b h), λ h. c' (c h))
survey_rows-Suits col v (first ∷ rows) (suc i) row e =
    survey_rows-Suits col (survey_cell v (cell_at first col)) rows i row e

Suits-if :
    (t : Bool) (x y : ColumnType) (cell : Bytes)
    → (t ≡ true → Suits x cell)
    → Suits y cell
    → Suits (if t then x else y) cell
Suits-if true x y cell p q = p refl
Suits-if false x y cell p q = q

kind-Suits :
    (v : Survey) (cell : Bytes)
    → (v.all_bool ≡ true → is_boolean cell ≡ true)
      × (v.all_int ≡ true → is_integer cell ≡ true)
      × (v.all_float ≡ true → (is_float cell).0 ≡ true)
    → Suits (kind_of v) cell
unfolding kind_of
kind-Suits v cell (a, b, c) =
    Suits-if (not v.non_empty) string _ cell (λ h. tt)
      (Suits-if v.all_bool boolean _ cell a (
        Suits-if v.all_int integer _ cell b
          (Suits-if (v.all_float && v.float_marker) float string cell (λ h. c (ground arith)) tt)))

-- Of the first 200 rows of a table, each one's cell in a column passes the test of the type that
-- the column is given: a column of integers holds integers, one of floats holds floats, and one of
-- Booleans holds Booleans, empty and missing cells aside.
pub column_kind-Suits :
    (rows : List (List Bytes)) (col i : ℕ) (row : List Bytes)
    → i < inference_sample_rows
    → get_elem? rows i ≡ some row
    → Suits (column_kind rows col) (cell_at row col)
unfolding column_kind
column_kind-Suits rows col i row h e =
    let sample = take inference_sample_rows rows in
    kind-Suits (survey_rows col no_survey sample) (cell_at row col) (
      survey_rows-Suits col no_survey sample i row
        (get_elem?-take rows inference_sample_rows i h ∙ e))
