-- ===== src/Backlog.antt =====
-- spectrum-offchain/src/backlog.rs, backlog/data.rs and backlog/persistence.rs.
pub mod Queue
pub mod Store
pub mod Service
pub mod Pop
pub mod Revisit
pub mod Put
pub mod Lifecycle
