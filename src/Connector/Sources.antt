-- ===== src/Connector/Sources.antt =====
-- source_types.go, source_lifecycle_*.go: the runs of event sources, their attempts, cursors,
-- verifications, and what operators do with them.
pub mod Types
pub mod Normalize
pub mod Store
pub mod Operator
pub mod Cursors
pub mod Started
