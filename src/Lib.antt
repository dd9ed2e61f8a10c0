-- ===== src/Lib.antt =====
-- spectrum-offchain-ergo: off-chain services for the Ergo blockchain. They follow the chain and the
-- memory pool of a node, keep the orders and entities they see, and execute orders against
-- entities, among them the liquidity mining pools of spectrum-offchain-lm.
--
-- The parts, in the order in which data flows:
--   ChainSync    ergo-chain-sync/src/lib.rs, model.rs, cache/chain_cache.rs, cache/rocksdb.rs. The
--                cache holds a chain of blocks; `try_upgrade` asks the node for the block at the next
--                height, and rolls forward or backward. ChainCache is the interface, which InMemory
--                fills. Rocks is the cache in RocksDB, one function for each of its methods.
--   MempoolSync  ergo-mempool-sync/src/lib.rs. `sync` compares the pool of the node with a
--                projection, and queues updates; `sync_ledger` keeps the latest blocks. An Event
--                is one step of one of the two streams that share the state.
--   Events       spectrum-offchain/src/event_source.rs, event_sink.rs, event_sink/handlers/, and
--                box_resolver/process.rs. Blocks become events of transactions; handlers turn
--                them into updates of orders and of entities.
--   Backlog      spectrum-offchain/src/backlog.rs, backlog/persistence.rs. Store has the orders in
--                RocksDB, Service the queues over it.
--   BoxResolver  spectrum-offchain/src/box_resolver.rs, box_resolver/rocksdb.rs. Repo has the states
--                of entities in RocksDB, View the five maps that this promises, Resolve the state
--                that an order is run against.
--   Executor     spectrum-offchain/src/executor.rs, backlog/process.rs. Pops an order, resolves its
--                entity, runs it and submits; what a rejected transaction invalidates.
--   Lm           spectrum-offchain-lm/src: the liquidity mining pools. Types and Pool (ergo.rs, data/,
--                data/pool.rs) have deposits, redeems and epochs, Rewards the distribution of rewards,
--                Orders (data/order.rs) the transactions of the three orders. Schedules (scheduler.rs)
--                keeps the ticks in RocksDB, Bundles (bundle.rs, bundle/rocksdb.rs, bundle/process.rs)
--                the staking bundles, Funding (funding.rs, funding/process.rs) the boxes that pay for
--                distributions, Programs (program/rocksdb.rs) the configurations. Progress is what is
--                left of a program, Handlers (event_sink/handlers/) follows funding and schedules, and
--                Distribution (scheduler/process.rs) turns a tick that is due into compoundings.
--                Executor (executor.rs) runs the orders and keeps the three repositories up to date.
--   Data, Storage  spectrum-offchain/src/data.rs, data/, combinators.rs, binary.rs: the types shared,
--                and the keys of the stores. Prelude has the helpers, Tests the concrete inputs.
--
-- State is passed explicitly: a method with `&mut self` is a function that returns the state. Locks
-- and `await` make each handler one step; where steps of two streams interleave, the sequence of
-- steps is an argument. Logs and timers are left out. A panic is an outcome of its own where a
-- theorem depends on it (a division by zero in the pool), and elsewhere the `unwrap` of a storage
-- error is left out. Identifiers and scripts are 32-byte digests and trees that the code compares and
-- copies: numbers. Arithmetic of u32, u64 and usize wraps, as in a release build.
--
-- Parameters stand for RocksDB, bincode, the priority_queue crate, the clients of the node, the
-- clock, the random draw, the order logic of the generic executor, the identifiers of boxes and the
-- parsers of boxes, with what their documentation promises as laws; Tests has a concrete one of each. The order in which a HashSet is
-- gone through is a parameter too.
--
-- Fuel: `pop_loop` gets one more than the length of its queue, which `try_pop_max_order` passes;
-- `is_linking` gets more than a rank that goes down along the links, which excludes a cycle of
-- predictions; the pages of `fetch_pool` and the clients of the streams are lists of answers. The
-- theorems say that these are enough.
--
-- Not modelled: the handler of bundles; `parse_err`, which reads the text of an error; parsing of boxes and
-- the binary form of transactions, which is the work of ergo_lib; the retry of a transaction of RocksDB that conflicts with another; HTTP
-- clients, configuration, logging.
pub mod Prelude
pub mod Data
pub mod Storage
pub mod Backlog
pub mod BoxResolver
pub mod ChainSync
pub mod MempoolSync
pub mod Events
pub mod Executor
pub mod Lm
pub mod Tests
