-- ===== src/Kernel.antt =====
-- internal/kernel: facts are events of one ledger, and every read replays it.
pub mod Types
pub mod Ledger
pub mod Refs
pub mod Memory
pub mod Work
pub mod TaskGraph
pub mod Approval
pub mod LoopGuard
pub mod Schedule
pub mod Authority
mod Examples
