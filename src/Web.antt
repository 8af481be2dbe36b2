-- ===== src/Web.antt =====
-- crates/lovely-web: the parts of the web layer that compute.
mod Tests
pub mod Errors
pub mod Csrf
pub mod Pages
pub mod Elements
