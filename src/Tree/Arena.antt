-- ===== src/Tree/Arena.antt =====
-- crates/lovely-tree/src/arena.rs: the tree of elements on a slot map. The slot map is not part of
-- the repository: `nodes` is the partial map from keys to nodes that it documents, and an operation
-- that inserts takes the key that the slot map hands out, `fresh`. The checks that run in debug
-- builds alone (`debug_assert_invariants`) are left out. Loops run on fuel.
pub mod Monad
pub mod Ops
pub mod Links
pub mod Splice
pub mod Insert
pub mod Keep
pub mod Refusals
pub mod Children
pub mod Order
pub mod Detach
pub mod Moves
pub mod Update
