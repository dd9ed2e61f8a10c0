-- ===== src/Lm.antt =====
-- spectrum-offchain-lm/src: the liquidity mining pools.
pub mod Types
pub mod Pool
pub mod Moves
pub mod RoundTrip
pub mod Epochs
pub mod Schedules
pub mod Ticks
pub mod Peek
pub mod Published
pub mod Funding
pub mod Rewards
pub mod Bundles
pub mod Programs
pub mod Executor
pub mod Handlers
pub mod Progress
pub mod Orders
pub mod Distribution
