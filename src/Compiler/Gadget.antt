-- ===== src/Compiler/Gadget.antt =====
-- compiler/gadget/: the gadget of one node of the v1 profile, as a list of transitions.
pub mod Net
pub mod Shapes
pub mod Declare
pub mod Outputs
pub mod Failure
pub mod Runs
pub mod Steps
pub mod Skips
pub mod Build
pub mod Weights
pub mod Parts
pub mod Routed
pub mod Outlets
pub mod Balance
pub mod Invariant
pub mod Combinations
