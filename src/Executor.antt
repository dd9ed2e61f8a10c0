-- ===== src/Executor.antt =====
-- spectrum-offchain/src/executor.rs and backlog/process.rs: who pops orders, and who puts them.
pub mod Order
pub mod Submit
pub mod Invalidations
