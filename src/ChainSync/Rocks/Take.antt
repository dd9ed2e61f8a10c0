-- ===== src/ChainSync/Rocks/Take.antt =====
-- `take_best_block` of cache/rocksdb.rs in ergo-chain-sync.
use mathlib.Core.Option
use spectrum_offchain_ergo.Prelude.{
  ℕ, ◌≡◌, ap, inl, inr, Option, some, is_some, List, arith, Option-cases,
}
use spectrum_offchain_ergo.Storage.{Bytes, RocksDb, Bincode}
use spectrum_offchain_ergo.ChainSync.Cache.{Block, BlockRecord}
use spectrum_offchain_ergo.ChainSync.Rocks.{
  Format, best_block, postfixed_key, parent_postfix, height_postfix, transaction_postfix, exists,
  take_transactions, new_best, take_block, take_best_block,
}
use spectrum_offchain_ergo.ChainSync.Rocks.Reads.{
  block_key, name_apart, take_transactions-apart, block_key-IsApart,
}

module _ {Tx : Type 0} (R : RocksDb) (B : Bincode) (F : Format Tx B) where
  open R use {Db, get, put, delete, get-put, get-delete}
  open B use {ser_str, de_id}
  open F use {heights, id_lists, records}

  new_best-block_key :
      (db db' : Db) (parent_id i : ℕ) (s : Bytes)
      → new_best R B F db parent_id ≡ some db'
      → get db' (block_key R B F i s) ≡ get db (block_key R B F i s)
  unfolding new_best
  new_best-block_key db db' parent_id i s e =
      let height_bytes = get db (block_key R B F parent_id height_postfix) in
      elim (Option-cases (get db (block_key R B F parent_id parent_postfix))) [
        | inl z ↦ ground (arith, e, z)
        | inr (v, z) ↦ elim (Option-cases (Option.bind height_bytes heights.deserialize)) [
          | inl y ↦ ground (arith, e, z, y)
          | inr (h, y) ↦
              let best : BlockRecord = record { id = parent_id; height = h } in
              ground (
                arith,
                e,
                z,
                y,
                get-put db (ser_str best_block) (records.serialize best) (block_key R B F i s),
                (name_apart R B F i s best_block (omega arith)).1,
              )
        ]
      ]

  take_block-block_key :
      (db db' : Db) (best : BlockRecord) (ids : List ℕ) (r : Option (Block Tx)) (i : ℕ) (s : Bytes)
      → take_block R B F db best ids ≡ some (r, db')
      → get db' (block_key R B F i s) ≡ get db (block_key R B F i s)
  unfolding take_block Option.bind
  take_block-block_key db db' best ids r i s e =
      elim (Option-cases (take_transactions R B F db ids)) [
        | inl z ↦ ground (arith, e, z)
        | inr ((txs, db1), z) ↦
            let parent = Option.bind (get db1 (block_key R B F best.id parent_postfix)) de_id in
            let kept =
              take_transactions-apart R B F (block_key R B F i s) ids db db1 txs
                (block_key-IsApart R B F i s) z in
            elim (Option-cases parent) [
              | inl y ↦ ground (arith, e, z, y)
              | inr (parent_id, y) ↦
                  elim (Option-cases (new_best R B F (delete db1 (ser_str best_block)) parent_id)) [
                    | inl x ↦ ground (arith, e, z, y, x)
                    | inr (db2, x) ↦ ground (
                      arith,
                      e,
                      z,
                      y,
                      x,
                      kept,
                      new_best-block_key (delete db1 (ser_str best_block)) db2 parent_id i s x,
                      get-delete db1 (ser_str best_block) (block_key R B F i s),
                      (name_apart R B F i s best_block (omega arith)).1,
                    )
                  ]
            ]
      ]

  take_best_block-block_key :
      (db db' : Db) (r : Option (Block Tx)) (i : ℕ) (s : Bytes)
      → take_best_block R B F db ≡ some (r, db')
      → get db' (block_key R B F i s) ≡ get db (block_key R B F i s)
  unfolding take_best_block Option.bind
  take_best_block-block_key db db' r i s e = elim (Option-cases (get db (ser_str best_block))) [
    | inl z ↦ ground (arith, e, z)
    | inr (bytes, z) ↦ elim (Option-cases (records.deserialize bytes)) [
      | inl y ↦ ground (arith, e, z, y)
      | inr (best, y) ↦ elim (Option-cases (get db (block_key R B F best.id transaction_postfix))) [
        | inl x ↦ ground (arith, e, z, y, x)
        | inr (ids, x) ↦ elim (Option-cases (id_lists.deserialize ids)) [
          | inl w ↦ ground (arith, e, z, y, x, w)
          | inr (tx_ids, w) ↦
              let taken : take_block R B F db best tx_ids ≡ some (r, db') =
                ground (arith, e, z, y, x, w) in
              take_block-block_key db db' best tx_ids r i s taken
        ]
      ]
    ]
  ]

  -- `take_best_block`, where it does not panic, leaves every key of every block as it is, with its
  -- value: those of the parent, the child, the height and the transactions. So a block that it has
  -- taken still exists in the cache.
  pub exists-take_best_block :
      (db db' : Db) (r : Option (Block Tx)) (i : ℕ)
      → take_best_block R B F db ≡ some (r, db')
      → ((s : Bytes) → get db' (postfixed_key R B F i s) ≡ get db (postfixed_key R B F i s))
        × (exists R B F db' i ≡ exists R B F db i)
  unfolding exists postfixed_key
  exists-take_best_block db db' r i e = (
    (λ s. take_best_block-block_key db db' r i s e),
    ap is_some (take_best_block-block_key db db' r i height_postfix e),
  )
