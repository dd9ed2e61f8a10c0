-- ===== src/Lm/Handlers.antt =====
-- the event handlers of spectrum-offchain-lm/src/event_sink/handlers
pub mod Funding
pub mod Schedule
