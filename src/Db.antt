-- ===== src/Db.antt =====
-- crates/lovely-db: the components over the database.
mod Tests
pub mod Errors
pub mod Identifier
pub mod Intent
pub mod Revisions
pub mod Pages
pub mod Collections
pub mod Schema
pub mod Elements
