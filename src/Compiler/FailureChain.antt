-- ===== src/Compiler/FailureChain.antt =====
-- compiler/failure-chain.ts and failure-chain/: the `onFailure` chain of a node, its outputs
-- resolved to indexes.
pub mod Targets
pub mod Resolve
pub mod Steps
pub mod Resolved
