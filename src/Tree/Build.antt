-- ===== src/Tree/Build.antt =====
-- crates/lovely-tree/src/build.rs: the tree from the rows of the database.
mod Tests
pub mod Rows
pub mod Siblings
pub mod Load
pub mod Salvage
pub mod ChainOrder
