-- ===== src/FileSource/Pages.antt =====
-- The rows that a page of `readPage` reads: how wide they are, and how long their cells.
use data_table_viewer.Prelude.{
  ℕ, zero, suc, ◌+◌, ◌-◌, ◌≤◌, Bool, true, false, ◌&&◌, List, [], ◌∷◌, ◌++◌, Option, some, ◌≡◌,
  refl, arith, ltb, leb, ◌==◌, length, length-append, length-take, length-replicate, replicate,
  take, Bytes, if◌then◌else◌, if_intro,
}
use data_table_viewer.Scanner.{Scanner, reset, max_columns}
use data_table_viewer.Scanner.Feed.{feed}
use data_table_viewer.Scanner.Cancel.{IsKept, feed-out}
use data_table_viewer.Scanner.Machine.{field, record_end}
use data_table_viewer.Index.{Span}
use data_table_viewer.Source.{PageRow, page_fragment, fit_row}
use data_table_viewer.Source.Cells.{AllWithin, Within, page_fragment-Within}
use data_table_viewer.FileSource.State.{
  SourceOps, SourceError, page_cancelled, CsvFileSource, Outcome, ok, err, read_bytes,
}
use data_table_viewer.FileSource.Paging.{
  PageStops, Row, blank_row, page_callbacks, finish_row, read_row, read_rows,
}

-- A row of `columns` cells, each within the cap, and one flag for each.
abbrev pub IsShaped : ℕ → ℕ → Row → Type 0
IsShaped columns cap (values, flags) =
    (length values ≡ columns) × (length flags ≡ columns) × AllWithin cap values

abbrev pub AllShaped : ℕ → ℕ → List Row → Type 0
AllShaped columns cap [] = Unit
AllShaped columns cap (row ∷ rows) = IsShaped columns cap row × AllShaped columns cap rows

length-fit_row :
    {A : Type 0} (columns : ℕ) (a : A) (row : List A) → length (fit_row columns a row) ≡ columns
unfolding fit_row
length-fit_row columns a row =
    let n = columns - length row in
    omega (
      arith,
      length-take columns (row ++ replicate n a),
      length-append row (replicate n a),
      length-replicate n a,
    )

AllWithin-blanks :
    (cap n : ℕ) (row : List Bytes) → AllWithin cap row → AllWithin cap (row ++ replicate n [])
AllWithin-blanks cap zero [] h = tt
AllWithin-blanks cap (suc n) [] h = (omega arith, AllWithin-blanks cap n [] tt)
AllWithin-blanks cap n (v ∷ row) (h, hs) = (h, AllWithin-blanks cap n row hs)

AllWithin-take : (cap n : ℕ) (row : List Bytes) → AllWithin cap row → AllWithin cap (take n row)
AllWithin-take cap zero row h = tt
AllWithin-take cap (suc n) [] h = tt
AllWithin-take cap (suc n) (v ∷ row) (h, hs) = (h, AllWithin-take cap n row hs)

-- The test that no fragment takes back.
abbrev all_short : ℕ → List Bytes → Bool
all_short cap [] = true
all_short cap (v ∷ values) = leb (length v) cap && all_short cap values

abbrev is_short : ℕ → PageRow → Bool
is_short cap r =
    (length r.clamped == length r.values) && (all_short cap r.values && leb (length r.cell) cap)

all_short-AllWithin :
    (cap : ℕ) (values : List Bytes) → all_short cap values ≡ true → AllWithin cap values
all_short-AllWithin cap [] h = tt
all_short-AllWithin cap (v ∷ values) h =
    (ground arith, all_short-AllWithin cap values (ground arith))

AllWithin-all_short :
    (cap : ℕ) (values : List Bytes) → AllWithin cap values → all_short cap values ≡ true
AllWithin-all_short cap [] h = refl
AllWithin-all_short cap (v ∷ values) (h, hs) = ground (arith, AllWithin-all_short cap values hs)

is_short-Within : (cap : ℕ) (r : PageRow) → is_short cap r ≡ true → Within cap r
is_short-Within cap r h = record {
  flagged = ground arith;
  values = all_short-AllWithin cap r.values (ground arith);
  cell = ground arith;
}

Within-is_short : (cap : ℕ) (r : PageRow) → Within cap r → is_short cap r ≡ true
Within-is_short cap r h =
    ground (arith, h.flagged, h.cell, AllWithin-all_short cap r.values h.values)

page_callbacks-IsKept : (columns cap : ℕ) → IsKept (page_callbacks columns cap) (is_short cap)
unfolding field record_end
page_callbacks-IsKept columns cap = record {
  on_field = λ col b e r h.
      if_intro (λ (r' : PageRow). is_short cap r' ≡ true) (ltb col max_columns) _ r
        (λ _.
          Within-is_short cap (page_fragment columns cap col b e r)
            (page_fragment-Within columns cap col b e r (is_short-Within cap r h)))
        (λ _. h);
  on_row = λ n a b r h. h;
}

finish_row-IsShaped :
    (columns cap : ℕ) (r : PageRow)
    → is_short cap r ≡ true
    → IsShaped columns cap (finish_row columns r)
unfolding finish_row
finish_row-IsShaped columns cap r h = (
  length-fit_row columns [] r.values,
  length-fit_row columns false r.clamped,
  unfold fit_row in
      AllWithin-take cap columns _ (
        AllWithin-blanks cap (columns - length r.values) r.values (is_short-Within cap r h).values),
)

-- A row that was read, if it was.
abbrev RowShaped : ℕ → ℕ → Outcome (Row × Scanner) → Type 0
RowShaped columns cap (err e) = Unit
RowShaped columns cap (ok (row, scanner)) = IsShaped columns cap row

outcome_intro :
    {A B : Type 0} (P : B → Type 0) (o : Outcome A) (f : SourceError → B) (g : A → B)
    → ((e : SourceError) → P (f e))
    → ((a : A) → P (g a))
    → P (elim o [ err e ↦ f e | ok a ↦ g a ])
outcome_intro P (err e) f g h k = h e
outcome_intro P (ok a) f g h k = k a

stopped_or :
    {columns cap : ℕ} {B : Type 0} (P : B → Type 0) (stop : Bool) (b : B)
    (o : Outcome (Row × Scanner)) (f : SourceError → B) (g : Row × Scanner → B)
    → P b
    → ((e : SourceError) → P (f e))
    → ((p : Row × Scanner) → IsShaped columns cap p.0 → P (g p))
    → RowShaped columns cap o
    → P (elim stop [ true ↦ b | false ↦ elim o [ err e ↦ f e | ok p ↦ g p ] ])
stopped_or P true b o f g hb hf hg h = hb
stopped_or P false b (err e) f g hb hf hg h = hf e
stopped_or P false b (ok p) f g hb hf hg h = hg p h

module _ {F H : Type 0} (files : SourceOps H) (stops : PageStops) (columns cap : ℕ) where
  read_row-RowShaped :
      (scanner : Scanner) (span : Span) (x : CsvFileSource F H)
      → RowShaped columns cap (read_row files stops columns cap scanner span x).0
  unfolding read_row
  read_row-RowShaped scanner span x =
      let bytes = read_bytes files span.start (span.end_offset - span.start) x in
      let P : Outcome (Row × Scanner) × CsvFileSource F H → Type 0 =
        λ q. RowShaped columns cap q.0 in
      let scan = λ (raw : Bytes).
        feed (page_callbacks columns cap) (record { scanner = scanner; out = blank_row }) raw
          span.start true stops.in_scan in
      outcome_intro P bytes.0 (λ e. (err e, bytes.1))
        (λ raw.
          if (scan raw).0
          then (ok (finish_row columns (scan raw).1.out, reset (scan raw).1.scanner), bytes.1)
          else (err page_cancelled, bytes.1))
        (λ e. tt)
        (λ raw.
          if_intro P (scan raw).0 _ (err page_cancelled, bytes.1)
            (λ _. finish_row-IsShaped columns cap (scan raw).1.out (
              feed-out (page_callbacks columns cap) (is_short cap)
                (page_callbacks-IsKept columns cap) _ raw span.start true stops.in_scan
                (ground arith)))
            (λ _. tt))

  pub read_rows-AllShaped :
      (scanner : Scanner) (i : ℕ) (spans : List Span) (x : CsvFileSource F H)
      → let r = read_rows files stops columns cap scanner i spans x in
        AllShaped columns cap r.0 × (length r.0 ≤ length spans)
  unfolding read_rows
  read_rows-AllShaped scanner i [] x = (tt, omega arith)
  read_rows-AllShaped scanner i (span ∷ spans) x =
      let r = read_row files stops columns cap scanner span x in
      let P : List Row × Option SourceError × CsvFileSource F H → Type 0 =
        λ q. AllShaped columns cap q.0 × (length q.0 ≤ suc (length spans)) in
      stopped_or P (stops.at_row i) ([], some page_cancelled, x) r.0 (λ e. ([], some e, r.1))
        (λ p.
          let q = read_rows files stops columns cap p.1 (i + 1) spans r.1 in (p.0 ∷ q.0, q.1, q.2))
        (tt, omega arith) (λ e. (tt, omega arith))
        (λ p s. let (h, n) = read_rows-AllShaped p.1 (i + 1) spans r.1 in ((s, h), omega arith))
        (read_row-RowShaped scanner span x)
