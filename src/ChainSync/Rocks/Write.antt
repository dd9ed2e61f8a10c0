-- ===== src/ChainSync/Rocks/Write.antt =====
-- What `append_block` of cache/rocksdb.rs in ergo-chain-sync leaves in the store.
use spectrum_offchain_ergo.Prelude.{
  ℕ, ◌≡◌, refl, ◌∙◌, false, ◌&&◌, some, List, [], ◌∷◌, map, arith, ◌==◌, if◌then◌else◌, bytes_eq,
  bytes_eq_iff, contains,
}
use spectrum_offchain_ergo.Storage.{Bytes, RocksDb, Bincode}
use spectrum_offchain_ergo.ChainSync.Cache.{Block, BlockRecord}
use spectrum_offchain_ergo.ChainSync.Rocks.{
  Format, best_block, oldest_block, parent_postfix, child_postfix, height_postfix,
  transaction_postfix, tx_key, put_transactions, write_block,
}
use spectrum_offchain_ergo.ChainSync.Rocks.Reads.{
  bytes_eq-ser_str, block_key, tx_at, bytes_eq-postfixed_key, name_apart, put_transactions-apart,
  block_key-IsApart, name-IsApart,
}

-- no identifier is there twice
abbrev pub Distinct : List ℕ → Type 0
Distinct [] = Unit
Distinct (i ∷ is) = (contains i is ≡ false) × Distinct is

module _ {Tx : Type 0} (R : RocksDb) (B : Bincode) (F : Format Tx B) where
  open R use {Db, get, put, delete, get-put, get-delete}
  open B use {ser_str, ser_id, bytes_eq-ser_id}
  open F use {tx_id, heights, id_lists, transactions, records}

  -- the transactions are stored
  abbrev pub Stored : Db → List Tx → Type 0
  Stored db [] = Unit
  Stored db (tx ∷ txs) =
      (get db (tx_at R B F (tx_id tx)) ≡ some (transactions.serialize tx)) × Stored db txs

  pub bytes_eq-tx_at : (i j : ℕ) → bytes_eq (tx_at R B F i) (tx_at R B F j) ≡ (i == j)
  unfolding tx_key
  bytes_eq-tx_at i j = bytes_eq-ser_id i j

  put_transactions-other :
      (i : ℕ) (db : Db) (txs : List Tx)
      → contains i (map tx_id txs) ≡ false
      → get (put_transactions R B F db txs) (tx_at R B F i) ≡ get db (tx_at R B F i)
  unfolding put_transactions contains
  put_transactions-other i db [] h = refl
  put_transactions-other i db (tx ∷ txs) h =
      let db' = put db (tx_at R B F (tx_id tx)) (transactions.serialize tx) in
      ground (
        arith,
        h,
        put_transactions-other i db' txs,
        get-put db (tx_at R B F (tx_id tx)) (transactions.serialize tx) (tx_at R B F i),
        bytes_eq-tx_at (tx_id tx) i,
      )

  put_transactions-Stored :
      (db : Db) (txs : List Tx)
      → Distinct (map tx_id txs)
      → Stored (put_transactions R B F db txs) txs
  unfolding put_transactions
  put_transactions-Stored db [] h = tt
  put_transactions-Stored db (tx ∷ txs) (fresh, h) =
      let k = tx_at R B F (tx_id tx) in
      let db' = put db k (transactions.serialize tx) in
      (
        ground (
          arith,
          put_transactions-other (tx_id tx) db' txs fresh,
          get-put db k (transactions.serialize tx) k,
          bytes_eq_iff k k,
        ),
        put_transactions-Stored db' txs h,
      )

  -- a write elsewhere keeps what is stored
  pub Stored-eq :
      (db db' : Db) (txs : List Tx)
      → ((i : ℕ) → get db' (tx_at R B F i) ≡ get db (tx_at R B F i))
      → Stored db txs
      → Stored db' txs
  Stored-eq db db' [] same h = tt
  Stored-eq db db' (tx ∷ txs) same h = (same (tx_id tx) ∙ h.0, Stored-eq db db' txs same h.1)

  -- what the store has of a block that is the best one
  pub record HasBest (db : Db) (b : Block Tx) : Type 0 where
    pub best :
        get db (ser_str best_block)
        ≡ some (records.serialize (record { id = b.id; height = b.height }))
    pub ids :
        get db (block_key R B F b.id transaction_postfix)
        ≡ some (id_lists.serialize (map tx_id b.transactions))
    pub parent : get db (block_key R B F b.id parent_postfix) ≡ some (ser_id b.parent_id)
    pub height : get db (block_key R B F b.id height_postfix) ≡ some (heights.serialize b.height)
    pub stored : Stored db b.transactions

  pub names_differ :
      (bytes_eq (ser_str best_block) (ser_str oldest_block) ≡ false)
      × (bytes_eq (ser_str oldest_block) (ser_str best_block) ≡ false)
  unfolding bytes_eq
  names_differ = (
    bytes_eq-ser_str R B F best_block oldest_block,
    bytes_eq-ser_str R B F oldest_block best_block,
  )

  module _ (db : Db) (b : Block Tx) where
    before_txs : Db
    before_txs =
        let db1 = put db (block_key R B F b.id parent_postfix) (ser_id b.parent_id) in
        let db2 = put db1 (block_key R B F b.parent_id child_postfix) (ser_id b.id) in
        let db3 = put db2 (block_key R B F b.id height_postfix) (heights.serialize b.height) in
        put db3 (block_key R B F b.id transaction_postfix)
          (id_lists.serialize (map tx_id b.transactions))

    before_txs-get :
        (k : Bytes)
        → get before_txs k ≡ (
            if bytes_eq (block_key R B F b.id transaction_postfix) k
            then some (id_lists.serialize (map tx_id b.transactions))
            else if bytes_eq (block_key R B F b.id height_postfix) k
            then some (heights.serialize b.height)
            else if bytes_eq (block_key R B F b.parent_id child_postfix) k
            then some (ser_id b.id)
            else if bytes_eq (block_key R B F b.id parent_postfix) k
            then some (ser_id b.parent_id)
            else get db k)
    unfolding before_txs
    before_txs-get k =
        let p = block_key R B F b.id parent_postfix in
        let c = block_key R B F b.parent_id child_postfix in
        let h = block_key R B F b.id height_postfix in
        let db1 = put db p (ser_id b.parent_id) in
        let db2 = put db1 c (ser_id b.id) in
        let db3 = put db2 h (heights.serialize b.height) in
        ground (
          arith,
          get-put db p (ser_id b.parent_id) k,
          get-put db1 c (ser_id b.id) k,
          get-put db2 h (heights.serialize b.height) k,
          get-put db3 (block_key R B F b.id transaction_postfix)
              (id_lists.serialize (map tx_id b.transactions)) k,
        )

    pub write_block-block_key :
        (i : ℕ) (s : Bytes)
        → get (write_block R B F db b) (block_key R B F i s) ≡ (
            if (b.id == i) && bytes_eq transaction_postfix s
            then some (id_lists.serialize (map tx_id b.transactions))
            else if (b.id == i) && bytes_eq height_postfix s
            then some (heights.serialize b.height)
            else if (b.parent_id == i) && bytes_eq child_postfix s
            then some (ser_id b.id)
            else if (b.id == i) && bytes_eq parent_postfix s
            then some (ser_id b.parent_id)
            else get db (block_key R B F i s))
    unfolding write_block before_txs
    write_block-block_key i s =
        let k = block_key R B F i s in
        let txs = put_transactions R B F before_txs b.transactions in
        let best : BlockRecord = record { id = b.id; height = b.height } in
        ground (
          arith,
          get-put txs (ser_str best_block) (records.serialize best) k,
          (name_apart R B F i s best_block (omega arith)).1,
          put_transactions-apart R B F k before_txs b.transactions (block_key-IsApart R B F i s),
          before_txs-get k,
          bytes_eq-postfixed_key R B F b.id i transaction_postfix s,
          bytes_eq-postfixed_key R B F b.id i height_postfix s,
          bytes_eq-postfixed_key R B F b.parent_id i child_postfix s,
          bytes_eq-postfixed_key R B F b.id i parent_postfix s,
        )

    write_block-tx :
        (i : ℕ)
        → get (write_block R B F db b) (tx_at R B F i)
          ≡ get (put_transactions R B F before_txs b.transactions) (tx_at R B F i)
    unfolding write_block before_txs
    write_block-tx i =
        let best : BlockRecord = record { id = b.id; height = b.height } in
        ground (
          arith,
          get-put (put_transactions R B F before_txs b.transactions) (ser_str best_block)
              (records.serialize best) (tx_at R B F i),
          (name_apart R B F i [] best_block (omega arith)).3,
        )

    write_block-best :
        get (write_block R B F db b) (ser_str best_block)
        ≡ some (records.serialize (record { id = b.id; height = b.height }))
    unfolding write_block
    write_block-best =
        let best : BlockRecord = record { id = b.id; height = b.height } in
        let k = ser_str best_block in
        get-put _ k (records.serialize best) k ∙ rw ((bytes_eq_iff k k).1 refl) refl

    pub write_block-HasBest :
        Distinct (map tx_id b.transactions) → HasBest (write_block R B F db b) b
    unfolding bytes_eq
    write_block-HasBest distinct = record {
      best = write_block-best;
      ids = ground (arith, write_block-block_key b.id transaction_postfix);
      parent = ground (arith, write_block-block_key b.id parent_postfix);
      height = ground (arith, write_block-block_key b.id height_postfix);
      stored =
          Stored-eq (put_transactions R B F before_txs b.transactions) (write_block R B F db b)
            b.transactions write_block-tx
            (put_transactions-Stored before_txs b.transactions distinct);
    }

    -- `append_block` writes nothing to the record of the oldest block before it looks at it
    pub write_block-oldest :
        get (write_block R B F db b) (ser_str oldest_block) ≡ get db (ser_str oldest_block)
    unfolding write_block before_txs bytes_eq
    write_block-oldest =
        let k = ser_str oldest_block in
        let best : BlockRecord = record { id = b.id; height = b.height } in
        ground (
          arith,
          get-put (put_transactions R B F before_txs b.transactions) (ser_str best_block)
              (records.serialize best) k,
          names_differ,
          put_transactions-apart R B F k before_txs b.transactions
              (name-IsApart R B F oldest_block (omega arith)),
          before_txs-get k,
          (name_apart R B F b.id transaction_postfix oldest_block (omega arith)).0,
          (name_apart R B F b.id height_postfix oldest_block (omega arith)).0,
          (name_apart R B F b.parent_id child_postfix oldest_block (omega arith)).0,
          (name_apart R B F b.id parent_postfix oldest_block (omega arith)).0,
        )
