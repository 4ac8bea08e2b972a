-- ===== src/Contract.antt =====
-- latest/src and the two contracts: the storage of the whole contract, and its endpoints.
pub mod State
pub mod Settings
pub mod View
pub mod RewardState
pub mod Stake
pub mod StakeEndpoints
pub mod Checkpoint
pub mod CheckpointEndpoints
pub mod DustCleanup
pub mod NodeEndpoints
pub mod Deploy
