-- ===== src/FileSource/Sampling.antt =====
-- The callbacks of `open`'s scanner: the first record names the columns, each later one gets a span
-- in the index, and the first 200 of them are kept as a sample for the types.
use data_table_viewer.Prelude.{
  ℕ, ◌+◌, ◌-◌, Bool, true, false, not, ◌&&◌, ◌||◌, List, [], ◌∷◌, ◌++◌, some, ltb, leb, ◌==◌,
  if◌then◌else◌, length, set, take, replicate, Bytes,
}
use data_table_viewer.Scanner.{Callbacks, max_columns}
use data_table_viewer.Parser.{column_name, pad}
use data_table_viewer.Table.{ColumnMeta, string}
use data_table_viewer.Index.{FileOps, append_span, set_header_byte_span}
use data_table_viewer.Source.{utf8_safe_length}
use data_table_viewer.FileSource.State.{Intake, append_failed, no_flags}

abbrev pub max_sample_rows : ℕ
max_sample_rows = 200

abbrev pub max_sample_cell_bytes : ℕ
max_sample_cell_bytes = 64

abbrev pub max_header_name_bytes : ℕ
max_header_name_bytes = 4096

-- How much of a cell the sample keeps: more of a header name than of a value.
unfoldable pub sample_limit : Bool → ℕ
sample_limit has_scanned_header =
    if has_scanned_header then max_sample_cell_bytes else max_header_name_bytes

module _ {F : Type 0} where
  unfoldable pub add_sample : ℕ → Bytes → Intake F → Intake F
  add_sample col fragment i =
      let trimmed = sample_limit i.has_scanned_header in
      let stored = length i.sample_cell in
      let room = if ltb stored trimmed then trimmed - stored else 0 in
      let taken = utf8_safe_length fragment room in
      record i {
        sample_cell = i.sample_cell ++ take taken fragment;
        trimmed_sample_cells =
            if ltb taken (length fragment)
            then set i.trimmed_sample_cells col true
            else i.trimmed_sample_cells;
      }

  unfoldable pub on_sample_field : ℕ → Bytes → Bool → Intake F → Intake F
  on_sample_field col fragment is_end i =
      let i' = add_sample col fragment i in
      if not i.sampling || leb max_columns col
      then i
      else if is_end
      then record i' { sample_row = i'.sample_row ++ i'.sample_cell ∷ []; sample_cell = [] }
      else i'

  -- What every record that is taken in ends with.
  unfoldable pub clear_sample : Intake F → Intake F
  clear_sample i = record i { sample_row = []; sample_cell = []; trimmed_sample_cells = no_flags }

-- A header name within its limit, or the name of a column without one.
unfoldable pub frozen_name : ℕ → Bytes → Bytes
frozen_name i name = column_name i (
    if ltb max_header_name_bytes (length name)
    then take (utf8_safe_length name max_header_name_bytes) name
    else name)

unfoldable pub frozen_columns : ℕ → List Bytes → List ColumnMeta
frozen_columns i [] = []
frozen_columns i (name ∷ names) =
    record { name = frozen_name i name; kind = string } ∷ frozen_columns (i + 1) names

-- The columns whose cell in a sample row is long, or has been cut.
unfoldable pub mark_long : List Bytes → List Bool → List Bool → List Bool
mark_long [] trimmed long = long
mark_long (cell ∷ cells) trimmed [] = []
mark_long (cell ∷ cells) [] (l ∷ long) =
    (if ltb max_sample_cell_bytes (length cell) then true else l) ∷ mark_long cells [] long
mark_long (cell ∷ cells) (t ∷ trimmed) (l ∷ long) =
    (if ltb max_sample_cell_bytes (length cell) || t then true else l)
    ∷ mark_long cells trimmed long

module _ {F : Type 0} where
  unfoldable pub take_header : ℕ → ℕ → Intake F → Intake F
  take_header start end_offset i =
      let columns = i.sample.columns ++ frozen_columns 0 i.sample_row in
      clear_sample (record i {
        index = set_header_byte_span start end_offset i.index;
        sample = record (i.sample) { columns = columns };
        long_sample_cells = replicate (length columns) false;
        has_scanned_header = true;
      })

  unfoldable pub take_sample : Intake F → Intake F
  take_sample i =
      let row = pad (length i.long_sample_cells) i.sample_row in
      if i.sampling && ltb (length i.sample.rows) max_sample_rows
      then record i {
        long_sample_cells = mark_long row i.trimmed_sample_cells i.long_sample_cells;
        sample = record (i.sample) { rows = i.sample.rows ++ row ∷ [] };
      }
      else i

module _ {F : Type 0} (ops : FileOps F) where
  -- A record that does not get its span leaves the row where it is.
  unfoldable pub take_row : ℕ → ℕ → Intake F → Intake F
  take_row start end_offset i =
      let r = append_span ops start end_offset i.index in
      if r.0
      then clear_sample (take_sample (record i { index = r.1 }))
      else record i { index = r.1; scan_failed = true; error = some append_failed }

  unfoldable pub on_sample_record : ℕ → ℕ → ℕ → Intake F → Intake F
  on_sample_record ordinal start end_offset i =
      if ordinal == 0 then take_header start end_offset i else take_row start end_offset i

  abbrev pub intake_callbacks : Callbacks (Intake F)
  intake_callbacks = record {
    on_record = some on_sample_record;
    on_field_fragment = some on_sample_field;
  }
