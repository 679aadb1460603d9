-- ===== src/Connector/Inbound.antt =====
-- inbound_*.go: external events, their reservation in the inbound store, and the turns made of them.
pub mod Types
pub mod Event
pub mod Store
pub mod Process
pub mod Once
pub mod Duplicate
