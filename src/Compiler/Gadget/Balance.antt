-- ===== src/Compiler/Gadget/Balance.antt =====
-- The balance of the gadget that gadget.ts builds: what its transitions take and write.
pub mod Places
pub mod Starts
pub mod Runs
pub mod Routes
pub mod Skips
pub mod Arms
pub mod Steps
