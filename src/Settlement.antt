-- ===== src/Settlement.antt =====
-- settlement/: what one settled step of engine v2 decides.
pub mod Scope
pub mod Rows
pub mod Policy
