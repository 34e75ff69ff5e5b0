-- ===== src/Scanner/Delimiter.antt =====
-- `CsvRecordScanner::detectDelimiter` of src/parsers/csv_record_scanner.cpp.
use data_table_viewer.Prelude.{
  ℕ, zero, suc, ◌+◌, ◌*◌, Bool, true, false, ◌&&◌, [], ◌∷◌, ltb, ◌==◌, if◌then◌else◌, take, drop,
  Bytes,
}
use data_table_viewer.Scanner.{is_bom}

-- `commaCount` and `tabCount`.
pub record Counts : Type 0 where
  pub commas : ℕ
  pub tabs : ℕ

-- The scan of one line: inside quotes, a doubled quote is stepped over.
unfoldable pub count_line : Bool → Counts → Bytes → Counts
count_line in_quotes n [] = n
count_line true n (c ∷ []) = n
count_line true n (c ∷ d ∷ rest) = elim (c == b'"') [
  | true ↦ elim (d == b'"') [
    | true ↦ count_line true n rest
    | false ↦ count_line false n (d ∷ rest)
  ]
  | false ↦ count_line true n (d ∷ rest)
]
count_line false n (c ∷ rest) = elim (c == b'"') [
  | true ↦ count_line true n rest
  | false ↦
      count_line false
        (if c == b','
          then record n { commas = n.commas + 1 }
          else if c == b'\t'
          then record n { tabs = n.tabs + 1 }
          else n)
        rest
]

-- `sample.find('\n', pos)`: the line, and what lies behind its line feed.
unfoldable pub split_line : Bytes → Bytes × Bytes
split_line [] = ([], [])
split_line (c ∷ rest) =
    let (line, later) = split_line rest in if c == b'\n' then ([], rest) else (c ∷ line, later)

-- The outer loop. The first number bounds the rounds: each one takes a byte at least. The second
-- is the lines that may still be counted, `10 - lines`; an empty line does not count.
unfoldable pub count_lines : ℕ → ℕ → Counts → Bytes → Counts
unfolding split_line count_line
count_lines rounds lines n [] = n
count_lines zero lines n (c ∷ rest) = n
count_lines (suc rounds) zero n (c ∷ rest) = n
count_lines (suc rounds) (suc lines) n (c ∷ rest) =
    let (line, later) = split_line (c ∷ rest) in
    elim line [
      | [] ↦ count_lines rounds (suc lines) n later
      | b ∷ bs ↦ count_lines rounds lines (count_line false n (b ∷ bs)) later
    ]

abbrev pub sample_bytes : ℕ
sample_bytes = 4096

unfoldable pub detect_delimiter : Bytes → ℕ
unfolding count_lines is_bom
detect_delimiter bytes =
    let head = take sample_bytes bytes in
    let sample = if is_bom head then drop 3 head else head in
    let n = count_lines sample_bytes 10 (record { commas = 0; tabs = 0 }) sample in
    if ltb (n.commas * 2) n.tabs && ltb 0 n.tabs then b'\t' else b','
