-- ===== src/Shared.antt =====
-- What the components share: library names and tests, lists, integers, tables, the database monad,
-- the rows of account_db, and the operations of float64 that are not exact.
pub mod Tests
pub mod Lists
pub mod Int
pub mod Cents
pub mod Table
pub mod Rows
pub mod Database
pub mod Replies
pub mod Ensures
pub mod Sparse
pub mod Account
pub mod Float
pub mod Text
pub mod Branches
pub mod Dropped
