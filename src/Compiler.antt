-- ===== src/Compiler.antt =====
-- typescript/src/compiler: the workflow analysis and the execution policy.
pub mod Types
pub mod Errors
pub mod Policy
pub mod FailureChain
pub mod Analysis
pub mod Names
pub mod Gadget
pub mod Compile
