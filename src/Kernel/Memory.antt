-- ===== src/Kernel/Memory.antt =====
-- memory.go: memory candidates, their review, and their replay from the ledger.
pub mod Requests
pub mod Replay
pub mod Review
pub mod Supersede
