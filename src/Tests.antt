-- ===== src/Tests.antt =====
-- Concrete parameters that meet the assumed laws, and the theorems at concrete inputs.
mod Rocks
mod Queues
mod Backlog
mod BoxResolver
mod ChainSync
mod Events
mod Lm
mod Schedules
mod Funding
mod Rewards
mod Blocks
mod Bundles
mod Distribution
mod Handlers
mod Executor
