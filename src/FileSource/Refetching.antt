-- ===== src/FileSource/Refetching.antt =====
-- `CsvFileSource::refetch`: whole cells of one record, for a copy.
use data_table_viewer.Prelude.{
  ℕ, ◌+◌, ◌-◌, Bool, true, false, ◌&&◌, ◌||◌, List, [], ◌∷◌, ◌++◌, Option, none, some, ltb,
  if◌then◌else◌, length, get_elem?, set, replicate, Bytes, u64,
}
use data_table_viewer.Prelude.Int.{ℤ}
use data_table_viewer.Scanner.{Callbacks, CancelCheck}
use data_table_viewer.Scanner
use data_table_viewer.Scanner.Feed.{asks, feed}
use data_table_viewer.Index.{FileOps, Span, read_span}
use data_table_viewer.Source.{resolve_target_columns}
use data_table_viewer.FileSource.State.{
  SourceOps, SourceError, page_cancelled, missing_ordinal, out_of_range, budget_exceeded,
  CsvFileSource, ok, err, read_bytes, verify_unchanged,
}

-- `core::kMaxCopyBudgetBytes`
abbrev pub max_copy_budget_bytes : ℕ
max_copy_budget_bytes = 67108864

-- `core::RefetchKey`, as far as a CSV file has one.
pub record RefetchKey : Type 0 where
  pub csv_ordinal : Option ℤ
  pub selected_columns : List ℤ

-- `core::RefetchResult`
pub record RefetchResult : Type 0 where
  pub success : Bool
  pub error : Option SourceError
  pub columns : List ℕ
  pub values : List Bytes

abbrev pub failed_refetch : SourceError → RefetchResult
failed_refetch e = record { success = false; error = some e; columns = []; values = [] }

-- What the callback writes to: `totalBytes`, `budgetExceeded` and `allValues`.
pub record Refetched : Type 0 where
  pub total_bytes : ℕ
  pub exceeded : Bool
  pub values : List Bytes

abbrev pub value_at : List Bytes → ℕ → Bytes
value_at values col = elim (get_elem? values col) [ none ↦ [] | some v ↦ v ]

-- Whether a column is selected; one out of range is not.
abbrev pub is_selected : List Bool → ℕ → Bool
is_selected selected col = elim (get_elem? selected col) [ none ↦ false | some b ↦ b ]

unfoldable pub refetch_fragment : ℕ → List Bool → ℕ → Bytes → Bool → Refetched → Refetched
refetch_fragment columns selected col fragment is_end r =
    let total = u64 (r.total_bytes + length fragment) in
    if r.exceeded
    then r
    else if ltb col columns && is_selected selected col
    then if ltb max_copy_budget_bytes total
      then record r { total_bytes = total; exceeded = true }
      else record r {
        total_bytes = total;
        values = set r.values col (value_at r.values col ++ fragment);
      }
    else r

abbrev pub refetch_callbacks : ℕ → List Bool → Callbacks Refetched
refetch_callbacks columns selected = record {
  on_record = none;
  on_field_fragment = some (refetch_fragment columns selected);
}

-- The values of the columns that are asked for, in the order of the request.
unfoldable pub pick : List ℕ → List Bytes → List Bytes
pick [] values = []
pick (col ∷ cols) values = value_at values col ∷ pick cols values

unfoldable pub nothing_refetched : ℕ → Refetched
nothing_refetched columns = record {
  total_bytes = 0;
  exceeded = false;
  values = replicate columns [];
}

-- A scan stops when the budget is spent, and whenever `cancelCheck` asks for it.
abbrev pub cancel_refetch : CancelCheck Refetched → CancelCheck Refetched
cancel_refetch cancel = some (λ r. r.exceeded || asks cancel r)

unfoldable pub conclude_refetch : Bool → List ℕ → Refetched → RefetchResult
conclude_refetch fed targets r =
    if r.exceeded
    then failed_refetch budget_exceeded
    else if fed
    then record { success = true; error = none; columns = targets; values = pick targets r.values }
    else failed_refetch page_cancelled

-- `stop` is what `cancelCheck` answers before the record is read, and `cancel` while it is scanned.
module _ {F H : Type 0} (ops : FileOps F) (files : SourceOps H) (stop : Bool)
    (cancel : CancelCheck Refetched) where
  unfoldable pub refetch_record :
      List ℤ → Span → CsvFileSource F H → RefetchResult × CsvFileSource F H
  refetch_record requested span x =
      let columns = length x.columns in
      let chosen = resolve_target_columns requested columns in
      let bytes = read_bytes files span.start (span.end_offset - span.start) x in
      elim bytes.0 [
        | err e ↦ (failed_refetch e, bytes.1)
        | ok raw ↦
            let r =
              feed (refetch_callbacks columns chosen.1)
                (record { scanner = Scanner.new x.delimiter; out = nothing_refetched columns }) raw
                span.start true (cancel_refetch cancel) in
            (conclude_refetch r.0 chosen.0 r.1.out, bytes.1)
      ]

  unfoldable pub refetch_ordinal :
      ℤ → List ℤ → CsvFileSource F H → RefetchResult × CsvFileSource F H
  refetch_ordinal ordinal requested x =
      let r = read_span ops ordinal x.intake.index in
      let x' = record x { intake = record (x.intake) { index = r.1 } } in
      if stop then (failed_refetch page_cancelled, x) else elim r.0 [
        | none ↦ (failed_refetch out_of_range, x')
        | some span ↦ refetch_record requested span x'
      ]

  unfoldable pub refetch : RefetchKey → CsvFileSource F H → RefetchResult × CsvFileSource F H
  refetch key x =
      let v = verify_unchanged files x in
      elim key.csv_ordinal [
        | none ↦ (failed_refetch missing_ordinal, x)
        | some ordinal ↦ elim v.0 [
          | some e ↦ (failed_refetch e, v.1)
          | none ↦ refetch_ordinal ordinal key.selected_columns v.1
        ]
      ]
