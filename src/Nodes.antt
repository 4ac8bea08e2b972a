-- ===== src/Nodes.antt =====
-- node-storage and latest/src/node_activation.rs: the nodes of the contract, and their life cycle.
pub mod Config
pub mod Activation
pub mod Rollback
