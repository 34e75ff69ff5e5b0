-- ===== src/FileSource.antt =====
-- `CsvFileSource` of src/parsers/csv_file_source.cpp: a CSV file that is indexed slice by slice and
-- read page by page. The children stand in the order of the code's operations.
pub mod State
pub mod Sampling
pub mod Opening
pub mod Indexing
pub mod Paging
pub mod Refetching
pub mod Progress
pub mod Slices
pub mod Pages
pub mod PageBudget
pub mod Composition
