-- ===== src/Tree.antt =====
-- crates/lovely-tree: the arena-backed tree of page elements.
mod Tests
pub mod Errors
pub mod Tags
pub mod Attrs
pub mod Arena
pub mod Iter
pub mod Render
pub mod Forest
pub mod Build
