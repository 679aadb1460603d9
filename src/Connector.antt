-- ===== src/Connector.antt =====
-- The connector runtime (internal/applications/connector_runtime).
pub mod Types
pub mod Ids
pub mod Policy
pub mod Safety
pub mod Store
pub mod Claims
pub mod Operator
pub mod Inbound
pub mod Sources
pub mod Execute
mod Examples
