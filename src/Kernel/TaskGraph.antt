-- ===== src/Kernel/TaskGraph.antt =====
-- task_graph.go, task_graph_types.go: the task graphs of a session, replayed from the ledger.
pub mod Types
pub mod Nodes
pub mod Cycle
pub mod Search
pub mod Replay
pub mod Edit
pub mod Ids
pub mod Acyclic
pub mod Dependencies
