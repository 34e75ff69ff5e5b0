-- ===== src/Tests.antt =====
-- Concrete runs of the models, and the theorems at concrete inputs.
mod Scan
mod Store
mod Paging
mod Files
mod Work
mod Waits
mod Names
