-- ===== src/Durable.antt =====
-- packages/durable: the durable execution engine.
pub mod Types
pub mod Engine
pub mod Nodes
pub mod Runner
pub mod Workflow
pub mod Snapshot
pub mod Returns
pub mod Invariant
