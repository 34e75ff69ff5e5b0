-- ===== src/Inferrer.antt =====
-- `TypeInferrer` of src/core/type_inferrer.cpp. `tolower` and `isdigit` are those of the C locale.
pub mod Numerals
pub mod Columns
use data_table_viewer.Prelude.{
  ℕ, zero, suc, ◌+◌, ◌-◌, min, Bool, true, false, not, ◌&&◌, ◌||◌, List, [], ◌∷◌, ◌++◌, Option,
  none, some, ltb, leb, ◌==◌, if◌then◌else◌, length, is_empty, get_elem?, take, Bytes,
}
use data_table_viewer.Table.{ColumnMeta, ColumnType, string, integer, float, boolean, TableData}

abbrev pub inference_sample_rows : ℕ
inference_sample_rows = 200

-- A missing cell reads as an empty one.
unfoldable pub cell_at : List Bytes → ℕ → Bytes
cell_at row col = elim (get_elem? row col) [ none ↦ [] | some cell ↦ cell ]

unfoldable pub to_lower : ℕ → ℕ
to_lower c = if leb b'A' c && leb c b'Z' then c + 32 else c

unfoldable pub lower : Bytes → Bytes
lower [] = []
lower (c ∷ cs) = to_lower c ∷ lower cs

unfoldable pub is_digit : ℕ → Bool
is_digit c = leb b'0' c && leb c b'9'

unfoldable pub is_sign : ℕ → Bool
is_sign c = c == b'-' || c == b'+'

-- `==` on strings
unfoldable pub equal_bytes : Bytes → Bytes → Bool
equal_bytes [] [] = true
equal_bytes [] (b ∷ bs) = false
equal_bytes (a ∷ xs) [] = false
equal_bytes (a ∷ xs) (b ∷ bs) = a == b && equal_bytes xs bs

abbrev word_true : Bytes
word_true = b't' ∷ b'r' ∷ b'u' ∷ b'e' ∷ []

abbrev word_false : Bytes
word_false = b'f' ∷ b'a' ∷ b'l' ∷ b's' ∷ b'e' ∷ []

abbrev word_yes : Bytes
word_yes = b'y' ∷ b'e' ∷ b's' ∷ []

abbrev word_no : Bytes
word_no = b'n' ∷ b'o' ∷ []

abbrev word_nan : Bytes
word_nan = b'n' ∷ b'a' ∷ b'n' ∷ []

abbrev word_inf : Bytes
word_inf = b'i' ∷ b'n' ∷ b'f' ∷ []

abbrev word_infinity : Bytes
word_infinity = b'i' ∷ b'n' ∷ b'f' ∷ b'i' ∷ b'n' ∷ b'i' ∷ b't' ∷ b'y' ∷ []

unfoldable pub is_boolean : Bytes → Bool
is_boolean s =
    let l = lower s in
    is_empty s
    || (equal_bytes l word_true
        || equal_bytes l word_false
        || equal_bytes l (b'1' ∷ [])
        || equal_bytes l (b'0' ∷ [])
        || equal_bytes l word_yes
        || equal_bytes l word_no)

unfoldable pub all_digits : Bytes → Bool
all_digits [] = true
all_digits (c ∷ cs) = if is_digit c then all_digits cs else false

unfoldable pub is_integer : Bytes → Bool
is_integer [] = true
is_integer (c ∷ cs) =
    if is_sign c then (if is_empty cs then false else all_digits cs) else all_digits (c ∷ cs)

-- `hasDecimal`, `hasExponent` and `hasDigits`.
pub record Marks : Type 0 where
  pub decimal : Bool
  pub exponent : Bool
  pub digits : Bool

-- The loop of `isFloat` from some place on: what it has seen at the end, if it gets there.
unfoldable pub float_scan : Marks → Bytes → Option Marks
float_scan m [] = some m
float_scan m (c ∷ []) =
    if is_digit c
    then some (record m { digits = true })
    else if c == b'.'
    then (if m.decimal || m.exponent then none else some (record m { decimal = true }))
    else if c == b'e' || c == b'E'
    then (if m.exponent || not m.digits then none else some (record m { exponent = true }))
    else none
float_scan m (c ∷ d ∷ rest) =
    let digit = float_scan (record m { digits = true }) (d ∷ rest) in
    let point = float_scan (record m { decimal = true }) (d ∷ rest) in
    let signed = float_scan (record m { exponent = true }) rest in
    let unsigned = float_scan (record m { exponent = true }) (d ∷ rest) in
    if is_digit c
    then digit
    else if c == b'.'
    then (if m.decimal || m.exponent then none else point)
    else if c == b'e' || c == b'E'
    then (if m.exponent || not m.digits then none else if is_sign d then signed else unsigned)
    else none

unfoldable pub without_sign : Bytes → Bytes
without_sign [] = []
without_sign (c ∷ cs) = if is_sign c then cs else c ∷ cs

-- `nan`, `inf` and the like.
unfoldable pub is_special : Bytes → Bool
is_special s =
    let l = lower s in
    leb 3 (length s)
    && (equal_bytes l word_nan
        || equal_bytes l word_inf
        || equal_bytes l (b'-' ∷ word_inf)
        || equal_bytes l (b'+' ∷ word_inf)
        || equal_bytes l word_infinity
        || equal_bytes l (b'-' ∷ word_infinity))

abbrev pub no_marks : Marks
no_marks = record { decimal = false; exponent = false; digits = false }

-- The result, and `outHasDecimalOrExponent`, which starts as false.
unfoldable pub is_float : Bytes → Bool × Bool
is_float s =
    if is_empty s
    then (true, false)
    else if is_special s
    then (true, true)
    else elim (float_scan no_marks (without_sign s)) [
      | none ↦ (false, false)
      | some m ↦ (m.digits, m.decimal || m.exponent)
    ]

-- What `infer` has found in the cells of a column so far.
pub record Survey : Type 0 where
  pub all_bool : Bool
  pub all_int : Bool
  pub all_float : Bool
  pub non_empty : Bool
  pub float_marker : Bool

abbrev pub no_survey : Survey
no_survey = record {
  all_bool = true;
  all_int = true;
  all_float = true;
  non_empty = false;
  float_marker = false;
}

unfoldable pub survey_cell : Survey → Bytes → Survey
survey_cell v cell = if is_empty cell then v else record v {
  non_empty = true;
  all_bool = if v.all_bool && not (is_boolean cell) then false else v.all_bool;
  all_int = if v.all_int && not (is_integer cell) then false else v.all_int;
  all_float = if v.all_float && not (is_float cell).0 then false else v.all_float;
  float_marker =
      if v.all_float && (is_float cell).0 && (is_float cell).1 then true else v.float_marker;
}

unfoldable pub survey_rows : ℕ → Survey → List (List Bytes) → Survey
survey_rows col v [] = v
survey_rows col v (row ∷ rows) = survey_rows col (survey_cell v (cell_at row col)) rows

unfoldable pub kind_of : Survey → ColumnType
kind_of v =
    if not v.non_empty
    then string
    else if v.all_bool
    then boolean
    else if v.all_int
    then integer
    else if v.all_float && v.float_marker
    then float
    else string

unfoldable pub column_kind : List (List Bytes) → ℕ → ColumnType
column_kind rows col = kind_of (survey_rows col no_survey (take inference_sample_rows rows))

unfoldable pub is_numeric : ColumnType → Bool
is_numeric string = false
is_numeric integer = true
is_numeric float = true
is_numeric boolean = false

-- `strtod` is the C library's: the value, and how much of the text it takes.
module _ {Double : Type 0} (strtod : Bytes → Double × ℕ) (nan : Double) where
  unfoldable pub numeric_value : List Bytes → ℕ → Double
  numeric_value row col = elim (get_elem? row col) [
    | none ↦ nan
    | some cell ↦
        let r = strtod cell in
        if is_empty cell then nan else if r.1 == length cell then r.0 else nan
  ]

  unfoldable pub numeric_values : ℕ → List (List Bytes) → List Double
  numeric_values col [] = []
  numeric_values col (row ∷ rows) = numeric_value row col ∷ numeric_values col rows

  -- `by_column[col]`, with `values` pushed to its end.
  unfoldable pub push_values : ℕ → List Double → List (ℕ × List Double) → List (ℕ × List Double)
  push_values col values [] = (col, values) ∷ []
  push_values col values ((c, cached) ∷ caches) =
      let rest = push_values col values caches in
      if c == col then (c, cached ++ values) ∷ caches else (c, cached) ∷ rest

  -- The columns from index `col` on: with their types, and the caches.
  unfoldable pub infer_columns :
      ℕ
      → List (List Bytes)
      → List ColumnMeta
      → List (ℕ × List Double)
      → List ColumnMeta × List (ℕ × List Double)
  infer_columns col rows [] caches = ([], caches)
  infer_columns col rows (column ∷ columns) caches =
      let kind = column_kind rows col in
      let caches' =
        if is_numeric kind then push_values col (numeric_values col rows) caches else caches in
      let r = infer_columns (col + 1) rows columns caches' in
      (record column { kind = kind } ∷ r.0, r.1)

  unfoldable pub infer : TableData Double → TableData Double
  infer data_in =
      let r = infer_columns 0 data_in.rows data_in.columns data_in.numeric_cache in
      if is_empty data_in.columns
      then data_in
      else record data_in { columns = r.0; numeric_cache = r.1 }
