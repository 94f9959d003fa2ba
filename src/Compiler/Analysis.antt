-- ===== src/Compiler/Analysis.antt =====
-- typescript/src/compiler/analysis: the phases of `analyse` on the main-connection graph.
pub mod Worklist
pub mod Reachability
pub mod References
pub mod SkipObservers
pub mod Depth
pub mod DeadInputs
pub mod Inputs
pub mod KSafety
pub mod Connections
pub mod Tools
