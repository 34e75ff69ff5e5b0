-- ===== src/Lib.antt =====
-- DataTableViewer: a viewer for CSV, TSV and SQLite tables. Modelled here is the part of it that
-- turns the bytes of a text file into pages of cells.
--
-- The parts and how they interact:
--   * Scanner (src/parsers/csv_record_scanner.cpp): `CsvRecordScanner`. `feed` takes a chunk of the
--     file and calls back with fragments of fields and ends of records. Its state is the record
--     `Scanner`; a `State` adds what the callbacks write to, which is of any type. Scanner/Feed has
--     one function for each part of `feed`, and Scanner/Delimiter has `detectDelimiter`.
--     Scanner/Machine is the description that `feed` is held against: a machine that reads one byte
--     at a time. Simulation, Rounds, Loop, Resolve, Chunks, Prefix, Probe and Whole lead from one
--     round of the loop to whole files; Cancel is about scans that are stopped, Projection about two
--     scans of which one sees less, Local about the machine inside one record, Records and
--     Contents about a source as the list of its records, and Reread about one record read again.
--   * Parser (src/parsers/csv_parser.cpp): `CsvParser::parse` feeds a whole file in one chunk, with
--     callbacks that build a table. Parser/Render is a writer to read back, and Parser/Filling about
--     names and short rows.
--   * Index (src/parsers/csv_record_index.cpp): `CsvRecordIndex`, which keeps where each record
--     stands, in memory and in a temporary file. Index/Holds says what it is for an index to hold a
--     list of spans; Append, Flush, Complete and Read are about the operations, and
--     Index/Refinement about any sequence of them.
--   * Source (src/parsers/csv_file_source.cpp): the rules of a page of `CsvFileSource`, which columns
--     it has, how much it keeps of a cell, and when it is ready. Source/Thinning and Source/Clamping are
--     about the cells that are cut.
--   * FileSource (src/parsers/csv_file_source.cpp): `CsvFileSource` itself. State has its fields and
--     the reads of the file; Sampling the callbacks of the scan, Opening `open`, Indexing
--     `advanceIndex`, Paging `readPage` with `first`, `next`, `prev` and `last`, and Refetching
--     `refetch`. Progress is about the scan in `open`, Slices about `advanceIndex`, and Pages and
--     PageBudget about the rows of a page.
--     Composition has the scanner and the index together.
--   * Worker (src/workers/source_worker.cpp): `SourceWorker`, which owns a source behind the interface
--     `ITableSource` (src/core/table_source.h), answers requests by signals, and slices the index.
--     Calls has what every request uses, Pages, Slicing, Opening and Copying the slots, and Events
--     their sequence. Retry, Fetching, Reading and Resolving say what a call of the source, the query
--     of a page, the rows of a copy and a slice for those who wait come to, and Targets which row is
--     the first of the last page; Fresh, Budget, Waiting and
--     Answers are about whole requests, and Csv is about a CSV file as the worker's source.
--   * Sqlite (src/parsers/sqlite_common.cpp): the quoting of names and the types of declared columns.
--     Sqlite/Quoting has the rule of SQL that the quoting is held against.
--   * Display (src/ui/cell_text.h): the text that is shown of a cell.
--   * Inferrer (src/core/type_inferrer.cpp): the types of columns and the numeric cache.
--   * Pager (src/core/pager_state.h): the paging rules of the viewer.
--   * Table (src/core/table_data.h): the table that these parts hand on.
--   * Prelude: lists, tests, words and integers that all of them share. Tests: concrete runs.
--
-- How the code is read:
--   * A byte is a number, text is a list of bytes, and `uint64_t` wraps where the source stores it:
--     ordinals, offsets, column counters and counts are taken by `u64`. A `bool` result beside a
--     changed object is a pair.
--   * The loop of `feed` is recursion on the bytes that are left, one byte or two in a round.
--     `count_lines` has a bound on its rounds, 4096: the sample has no more bytes, and each round
--     takes one. `digits` has a bound of 20 digits, of which a column index needs three.
--   * Callbacks are functions on a state of the client's. `cancel` is a test of that state.
--   * The index file is a parameter, `FileOps`, with what the C library promises of it, `FileLaws`:
--     a file holds what has been written to it. Seeking and reading or writing is one call. A file
--     handle is null or open. `stoll` and `strtod` are parameters, and so is `double`.
--   * The source file is a parameter too, `SourceOps`: each call of it may change what the file is and
--     may fail. The loop of `open` has a bound on its rounds, the size of the file, which is enough:
--     a round takes a byte at least. `index_all`, which runs slices without the worker between them,
--     has a bound on them, of which one for each 4096 bytes and one more are enough. What the cancel check of a page answers is `PageStops`.
--   * What other threads write is a stream of moments. The worker reads the generations and the
--     interrupt sequence at its own moment, which each reading and each call of the source takes
--     further; a reading may meet any change. `emit` notes the moment of a signal, and a queued call
--     of `indexSlice` is a view in a list. A `queryFunc` closure is one of the four queries.
--   * `blockStartOrdinal` is -1 for none in the source, and an `Option` here.
--
-- Not modelled: the creation and removal of the index file and moving an index, which only move a
-- pointer; the SQLite sources but for names and declared types, which stand on a library that is
-- not here; `MaterializedTableSource`; the workers that count rows or read one table; the hooks of
-- `SourceWorker`, which only unit tests install; and the Qt interface but for the text of a cell.
pub mod Prelude
pub mod Table
pub mod Scanner
pub mod Parser
pub mod Index
pub mod Pager
pub mod Inferrer
pub mod Source
pub mod FileSource
pub mod Worker
pub mod Sqlite
pub mod Display
pub mod Tests
