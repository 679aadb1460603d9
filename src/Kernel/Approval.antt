-- ===== src/Kernel/Approval.antt =====
-- approval.go, authority/types.go: approvals of blocked shell operations.
pub mod Types
pub mod Replay
pub mod Request
pub mod Decide
pub mod Authorize
pub mod Guards
pub mod Final
