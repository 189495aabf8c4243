-- ===== src/Store.antt =====
-- aisecure/store.py: the local store of snapshots, response proposals and the audit chain.
pub mod State
pub mod Audit
pub mod Snapshots
pub mod Report
pub mod Proposals
pub mod Approvals
pub mod Execution
pub mod Calls
pub mod Integrity
pub mod Lifecycle
pub mod Dispatch
pub mod Checks
pub mod Answers
pub mod Atomic
pub mod Attested
pub mod Ready
