-- ===== src/Store.antt =====
-- The statements that the SQLite store runs (internal/store/sqlite/search.go): the text of each with the
-- arguments that are bound to it. SQLite itself is an argument of the operations.
pub mod Results
pub mod Search
pub mod Conditions
pub mod Cursors
pub mod Globs
pub mod Pages
pub mod Placeholders
pub mod Statements
mod Samples
