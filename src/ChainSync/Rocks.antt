-- ===== src/ChainSync/Rocks.antt =====
-- cache/rocksdb.rs of ergo-chain-sync: the cache of blocks in RocksDB.
use mathlib.Core.Option
use spectrum_offchain_ergo.Prelude.{
  ℕ, ◌+◌, ◌-◌, ◌%◌, ◌^◌, ◌≤◌, ◌<◌, ◌≡◌, Bool, false, ◌&&◌, Option, none, some, List, [], ◌∷◌, ◌++◌,
  map, ◌==◌, if◌then◌else◌, is_some, bytes_eq, length,
}
use spectrum_offchain_ergo.Storage.{Bytes, RocksDb, Bincode, Codec, codes}
use spectrum_offchain_ergo.ChainSync.Cache.{Block, BlockRecord}
pub mod Reads
pub mod Take
pub mod Write
pub mod RoundTrip

-- How blocks are written: `bincode` for identifiers, heights, lists of identifiers and records, the
-- node's own format for transactions. Identifiers have one width, and are longer than the names of
-- the two records; a string takes some bytes.
pub record Format (Tx : Type 0) (B : Bincode) : Type 0 where
  pub tx_id : Tx → ℕ
  pub heights : Codec ℕ
  pub id_lists : Codec (List ℕ)
  pub transactions : Codec Tx
  pub records : Codec BlockRecord
  pub ser_id-append :
      (i j : ℕ) (a b : Bytes)
      → bytes_eq (B.ser_id i ++ a) (B.ser_id j ++ b) ≡ ((i == j) && bytes_eq a b)
  pub length-ser_str : (s : Bytes) → 0 < length (B.ser_str s)
  pub ser_id_apart :
      (i : ℕ) (a s : Bytes)
      → length s ≤ 12
      → (bytes_eq (B.ser_id i ++ a) (B.ser_str s) ≡ false)
        × (bytes_eq (B.ser_str s) (B.ser_id i ++ a) ≡ false)

abbrev pub best_block : Bytes
best_block = codes "BEST_BLOCK"

abbrev pub oldest_block : Bytes
oldest_block = codes "OLDEST_BLOCK"

abbrev pub parent_postfix : Bytes
parent_postfix = codes ":p"

abbrev pub child_postfix : Bytes
child_postfix = codes ":c"

abbrev pub height_postfix : Bytes
height_postfix = codes ":h"

abbrev pub transaction_postfix : Bytes
transaction_postfix = codes ":t"

module _ {Tx : Type 0} (R : RocksDb) (B : Bincode) (F : Format Tx B) where
  open R use {Db, get, put, delete}
  open B use {ser_str, ser_id, de_id}
  open F use {tx_id, heights, id_lists, transactions, records}

  unfoldable pub postfixed_key : ℕ → Bytes → Bytes
  postfixed_key block_id s = ser_id block_id ++ ser_str s

  unfoldable pub tx_key : ℕ → Bytes
  tx_key id = ser_id id

  unfoldable pub put_transactions : Db → List Tx → Db
  put_transactions db [] = db
  put_transactions db (tx ∷ txs) =
      put_transactions (put db (tx_key (tx_id tx)) (transactions.serialize tx)) txs

  -- the writes of `append_block` up to that of the best block
  unfoldable pub write_block : Db → Block Tx → Db
  unfolding postfixed_key put_transactions
  write_block db block =
      let db1 = put db (postfixed_key block.id parent_postfix) (ser_id block.parent_id) in
      let db2 = put db1 (postfixed_key block.parent_id child_postfix) (ser_id block.id) in
      let db3 = put db2 (postfixed_key block.id height_postfix) (heights.serialize block.height) in
      let tx_ids = map tx_id block.transactions in
      let db4 = put db3 (postfixed_key block.id transaction_postfix) (id_lists.serialize tx_ids) in
      let db5 = put_transactions db4 block.transactions in
      put db5 (ser_str best_block)
        (records.serialize (record { id = block.id; height = block.height }))

  unfoldable pub delete_transactions : Db → List ℕ → Db
  delete_transactions db [] = db
  delete_transactions db (id ∷ ids) = delete_transactions (delete db (tx_key id)) ids

  -- The child of the oldest block becomes the oldest, and the data of the old one is deleted; `none`
  -- where an `unwrap` panics.
  unfoldable pub evict : Db → BlockRecord → Option Db
  unfolding postfixed_key delete_transactions
  evict db old =
      Option.bind (Option.bind (get db (postfixed_key old.id child_postfix)) de_id) λ child.
        let new_oldest : BlockRecord = record { id = child; height = (old.height + 1) % 2 ^ 32 } in
        let db1 = put db (ser_str oldest_block) (records.serialize new_oldest) in
        Option.bind
          (Option.bind (get db1 (postfixed_key old.id transaction_postfix)) id_lists.deserialize)
          λ tx_ids.
            let db2 = delete_transactions db1 tx_ids in
            let db3 = delete db2 (postfixed_key old.id transaction_postfix) in
            let db4 = delete db3 (postfixed_key old.id height_postfix) in
            let db5 = delete db4 (postfixed_key old.id parent_postfix) in
            some (delete db5 (postfixed_key old.id child_postfix))

  -- `append_block`; a difference of u32 wraps
  unfoldable pub append_block : ℕ → Db → Block Tx → Option Db
  unfolding write_block evict
  append_block max_rollback_depth db block =
      let db1 = write_block db block in
      elim (get db1 (ser_str oldest_block)) [
        | none ↦ some (
            put db1 (ser_str oldest_block)
              (records.serialize (record { id = block.id; height = block.height })))
        | some bytes ↦ elim (records.deserialize bytes) [
          | none ↦ none
          | some old ↦
              if (block.height + (2 ^ 32 - old.height)) % 2 ^ 32 == max_rollback_depth
              then evict db1 old
              else some db1
        ]
      ]

  unfoldable pub exists : Db → ℕ → Bool
  unfolding postfixed_key
  exists db block_id = is_some (get db (postfixed_key block_id height_postfix))

  unfoldable pub get_best_block : Db → Option BlockRecord
  get_best_block db = Option.bind (get db (ser_str best_block)) records.deserialize

  -- the loop of `take_best_block` over the transactions
  unfoldable pub take_transactions : Db → List ℕ → Option (List Tx × Db)
  unfolding tx_key
  take_transactions db [] = some ([], db)
  take_transactions db (id ∷ ids) =
      elim (Option.bind (get db (tx_key id)) transactions.deserialize) [
        | none ↦ none
        | some tx ↦ elim (take_transactions (delete db (tx_key id)) ids) [
          | none ↦ none
          | some (txs, db') ↦ some (tx ∷ txs, db')
        ]
      ]

  -- the parent becomes the best block, if it is in the cache
  unfoldable pub new_best : Db → ℕ → Option Db
  unfolding postfixed_key
  new_best db parent_id = elim (get db (postfixed_key parent_id parent_postfix)) [
    | none ↦ some db
    | some _ ↦
        Option.map
          (λ parent_height.
            put db (ser_str best_block)
              (records.serialize (record { id = parent_id; height = parent_height })))
          (Option.bind (get db (postfixed_key parent_id height_postfix)) heights.deserialize)
  ]

  -- the part of `take_best_block` that has the identifiers of the transactions
  unfoldable pub take_block : Db → BlockRecord → List ℕ → Option (Option (Block Tx) × Db)
  unfolding take_transactions new_best
  take_block db best tx_ids = elim (take_transactions db tx_ids) [
    | none ↦ none
    | some (txs, db1) ↦
        Option.bind (Option.bind (get db1 (postfixed_key best.id parent_postfix)) de_id)
          λ parent_id.
            Option.map
              (λ db2. (
                some (record {
                  id = best.id;
                  parent_id = parent_id;
                  height = best.height;
                  timestamp = 0;
                  transactions = txs;
                }),
                db2,
              ))
              (new_best (delete db1 (ser_str best_block)) parent_id)
  ]

  -- `take_best_block`, for a transaction that commits; `none` where an `unwrap` panics
  unfoldable pub take_best_block : Db → Option (Option (Block Tx) × Db)
  unfolding take_block postfixed_key
  take_best_block db = elim (get db (ser_str best_block)) [
    | none ↦ some (none, db)
    | some bytes ↦ elim (records.deserialize bytes) [
      | none ↦ none
      | some best ↦ elim (get db (postfixed_key best.id transaction_postfix)) [
        | none ↦ some (none, db)
        | some ids ↦ Option.bind (id_lists.deserialize ids) λ tx_ids. take_block db best tx_ids
      ]
    ]
  ]
