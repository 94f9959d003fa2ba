-- ===== src/Tests.antt =====
-- The theorems at concrete workflows.
pub mod Analysis
pub mod Policy
pub mod Tools
pub mod Settlement
pub mod Rows
pub mod Scheduler
pub mod Gadget
pub mod Compile
pub mod Depth
