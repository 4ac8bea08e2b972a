-- ===== src/Funds.antt =====
-- user-fund-storage: fund items, their lists, and the operations on them.
pub mod Types
pub mod Store
pub mod Create
pub mod Delete
pub mod Convert
pub mod AffectedUsers
pub mod Query
pub mod Transf
pub mod Links
pub mod Repr
pub mod Reachable
