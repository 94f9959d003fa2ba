-- ===== src/Compiler/Policy.antt =====
-- compiler/policy.ts and compiler/policy/: the execution policy that a workflow declares.
pub mod Problems
pub mod Values
pub mod OnFailure
pub mod Admission
pub mod Parse
pub mod Extends
pub mod Chains
pub mod Validity
pub mod Merging
