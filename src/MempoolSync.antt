-- ===== src/MempoolSync.antt =====
-- ergo-mempool-sync/src/lib.rs: the projection of the node's memory pool, and the updates to it.
pub mod State
pub mod Fetch
pub mod Projection
pub mod Accept
pub mod Window
pub mod Interleave
