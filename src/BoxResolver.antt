-- ===== src/BoxResolver.antt =====
-- spectrum-offchain/src/box_resolver.rs and box_resolver/: the states of on-chain entities.
pub mod Repo
pub mod View
pub mod Writes
pub mod Refinement
pub mod Resolve
pub mod Invalidate
pub mod Predict
