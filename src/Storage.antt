-- ===== src/Storage.antt =====
-- The two third-party crates below every repository: `rocksdb`, a key-value store ordered by key,
-- and `bincode`, which writes keys and values as bytes. They are parameters of the model. The laws
-- are those of their documentation: a write is read back until it is overwritten or deleted, an
-- iterator lists what is stored, and a value that was written is parsed back.
-- A transaction collects writes and applies them in order when it commits. The code commits before
-- any other use of the store, so the model applies the writes in order.
mod Keys
unfoldable pub use Keys.*
