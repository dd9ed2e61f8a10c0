-- ===== src/Events.antt =====
-- spectrum-offchain/src/event_source.rs and event_sink.rs: the events of transactions, and the
-- handlers that turn them into updates of orders and entities.
pub mod Source
pub mod Sink
pub mod Transitions
pub mod Pairing
pub mod Entity
pub mod Order
pub mod Rollback
