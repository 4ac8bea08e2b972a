-- ===== src/Examples.antt =====
-- Runs of the model on small inputs, and the theorems applied to them.
pub mod Storage
mod Funds
mod Swaps
mod Codec
mod Contract
mod Staking
mod Reachable
