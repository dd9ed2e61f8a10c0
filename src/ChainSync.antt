-- ===== src/ChainSync.antt =====
-- ergo-chain-sync/src: the cache of blocks, and the stream that follows the chain of the node.
pub mod Cache
pub mod Sync
pub mod Rocks
pub mod Links
pub mod Steps
pub mod Replay
