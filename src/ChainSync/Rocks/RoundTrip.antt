-- ===== src/ChainSync/Rocks/RoundTrip.antt =====
-- `append_block` followed by `take_best_block`, in cache/rocksdb.rs of ergo-chain-sync.
use mathlib.Core.Option
use spectrum_offchain_ergo.Prelude.{
  ℕ, ◌+◌, ◌-◌, ◌%◌, ◌^◌, ◌≡◌, ◌≢◌, ◌⊎◌, inl, inr, refl, sym, ◌∙◌, false, Option, none, some, List,
  [], ◌∷◌, map, arith, ◌==◌, bytes_eq, bytes_eq_iff, contains,
}
use spectrum_offchain_ergo.Storage.{Bytes, RocksDb, Bincode}
use spectrum_offchain_ergo.ChainSync.Cache.{Block, BlockRecord}
use spectrum_offchain_ergo.ChainSync.Rocks.{
  Format, best_block, oldest_block, parent_postfix, height_postfix, transaction_postfix,
  write_block, append_block, get_best_block, take_transactions, new_best, take_block,
  take_best_block,
}
use spectrum_offchain_ergo.ChainSync.Rocks.Reads.{
  block_key, tx_at, name_apart, take_transactions-apart, block_key-IsApart,
}
use spectrum_offchain_ergo.ChainSync.Rocks.Write.{
  Distinct, Stored, Stored-eq, bytes_eq-tx_at, HasBest, names_differ, write_block-block_key,
  write_block-HasBest, write_block-oldest,
}

module _ {Tx : Type 0} (R : RocksDb) (B : Bincode) (F : Format Tx B) where
  open R use {Db, get, put, delete, get-put, get-delete}
  open B use {ser_str, ser_id, de_id, de_id-ser_id}
  open F use {tx_id, heights, id_lists, transactions, records}

  Stored-delete :
      (db : Db) (i : ℕ) (txs : List Tx)
      → contains i (map tx_id txs) ≡ false
      → Stored R B F db txs
      → Stored R B F (delete db (tx_at R B F i)) txs
  unfolding contains
  Stored-delete db i [] fresh h = tt
  Stored-delete db i (tx ∷ txs) fresh h = (
    ground (
      arith,
      fresh,
      h.0,
      get-delete db (tx_at R B F i) (tx_at R B F (tx_id tx)),
      bytes_eq-tx_at R B F i (tx_id tx),
    ),
    Stored-delete db i txs (ground (arith, fresh)) h.1,
  )

  take_transactions_lem :
      (db : Db) (txs : List Tx)
      → Distinct (map tx_id txs)
      → Stored R B F db txs
      → (db' : Db) × (take_transactions R B F db (map tx_id txs) ≡ some (txs, db'))
  unfolding take_transactions Option.bind
  take_transactions_lem db [] d h = (db, refl)
  take_transactions_lem db (tx ∷ txs) (fresh, d) (at, h) =
      let i = tx_id tx in
      let (db', e) =
        take_transactions_lem (delete db (tx_at R B F i)) txs d (Stored-delete db i txs fresh h) in
      (
        db',
        rw (at, take_transactions, transactions.deserialize-serialize tx)
            (rw (e, take_transactions) refl),
      )

  -- what the best block becomes when a block with this parent is taken: the parent, if the store has
  -- it, at the height that is stored
  abbrev pub ParentBest : Db → ℕ → Option BlockRecord → Type 0
  ParentBest db parent_id best =
      ((get db (block_key R B F parent_id parent_postfix) ≡ none) × (best ≡ none))
      ⊎ ((v : Bytes) × (h : ℕ) × (get db (block_key R B F parent_id parent_postfix) ≡ some v)
          × (get db (block_key R B F parent_id height_postfix) ≡ some (heights.serialize h))
          × (best ≡ some (record { id = parent_id; height = h })))

  new_best_lem :
      (db : Db) (parent_id : ℕ) (best : Option BlockRecord)
      → get db (ser_str best_block) ≡ none
      → ParentBest db parent_id best
      → (db' : Db) × (new_best R B F db parent_id ≡ some db') × (get_best_block R B F db' ≡ best)
  unfolding new_best get_best_block Option.bind
  new_best_lem db parent_id best gone (inl (no_parent, is)) =
      (db, rw (no_parent, new_best) refl, rw (gone, get_best_block) (sym is))
  new_best_lem db parent_id best gone (inr (v, h, parent, height, is)) =
      let k = ser_str best_block in
      let r : BlockRecord = record { id = parent_id; height = h } in
      (
        put db k (records.serialize r),
        rw (parent, new_best, height, heights.deserialize-serialize h) refl,
        ground (
          arith,
          is,
          get-put db k (records.serialize r) k,
          bytes_eq_iff k k,
          records.deserialize-serialize r,
        ),
      )

  ParentBest-eq :
      (db db' : Db) (parent_id : ℕ) (best : Option BlockRecord)
      → get db' (block_key R B F parent_id parent_postfix)
        ≡ get db (block_key R B F parent_id parent_postfix)
      → get db' (block_key R B F parent_id height_postfix)
        ≡ get db (block_key R B F parent_id height_postfix)
      → ParentBest db parent_id best
      → ParentBest db' parent_id best
  ParentBest-eq db db' p best parent height h = rw (parent, height) h

  take_best_block-HasBest :
      (db : Db) (b : Block Tx) (best : Option BlockRecord)
      → Distinct (map tx_id b.transactions)
      → HasBest R B F db b
      → ParentBest db b.parent_id best
      → (db' : Db) × (take_best_block R B F db ≡ some (some (record b { timestamp = 0 }), db'))
        × (get_best_block R B F db' ≡ best)
  unfolding take_best_block take_block Option.bind
  take_best_block-HasBest db b best distinct has parent =
      let r : BlockRecord = record { id = b.id; height = b.height } in
      let k = ser_str best_block in
      let (db1, taken) = take_transactions_lem db b.transactions distinct has.stored in
      let kept = λ (i : ℕ) (s : Bytes).
        take_transactions-apart R B F (block_key R B F i s) (map tx_id b.transactions) db db1
          b.transactions (block_key-IsApart R B F i s) taken in
      let db2 = delete db1 k in
      let gone : get db2 k ≡ none = ground (arith, get-delete db1 k k, bytes_eq_iff k k) in
      let same = λ (s : Bytes).
        let at = block_key R B F b.parent_id s in
        let e : get db2 at ≡ get db at = ground (
          arith,
          kept b.parent_id s,
          get-delete db1 k at,
          (name_apart R B F b.parent_id s best_block (omega arith)).1,
        ) in
        e in
      let (db3, new, is) = new_best_lem db2 b.parent_id best gone (
        ParentBest-eq db db2 b.parent_id best (same parent_postfix) (same height_postfix) parent) in
      let own : get db1 (block_key R B F b.id parent_postfix) ≡ some (ser_id b.parent_id) =
        kept b.id parent_postfix ∙ has.parent in
      let block : take_block R B F db r (map tx_id b.transactions)
          ≡ some (some (record b { timestamp = 0 }), db3) =
        rw (taken, take_block) (rw (own, de_id-ser_id b.parent_id) (rw new refl)) in
      (
        db3,
        rw (has.best, take_best_block, records.deserialize-serialize r)
            (rw (has.ids, take_best_block)
              (rw (id_lists.deserialize-serialize (map tx_id b.transactions)) block)),
        is,
      )

  -- the store is empty, or not at its bound with the block
  abbrev pub HasRoom : ℕ → Db → Block Tx → Type 0
  HasRoom max_rollback_depth db b =
      (get db (ser_str oldest_block) ≡ none)
      ⊎ ((bytes : Bytes) × (old : BlockRecord) × (get db (ser_str oldest_block) ≡ some bytes)
          × (records.deserialize bytes ≡ some old)
          × (((b.height + (2 ^ 32 - old.height)) % 2 ^ 32 == max_rollback_depth) ≡ false))

  HasBest-oldest :
      (db : Db) (b : Block Tx) (v : Bytes)
      → HasBest R B F db b
      → HasBest R B F (put db (ser_str oldest_block) v) b
  HasBest-oldest db b v has =
      let k = ser_str oldest_block in
      let apart = λ (s : Bytes). (name_apart R B F b.id s oldest_block (omega arith)).1 in
      let tx_kept = λ (i : ℕ).
        let e : get (put db k v) (tx_at R B F i) ≡ get db (tx_at R B F i) = ground (
          arith,
          get-put db k v (tx_at R B F i),
          (name_apart R B F i [] oldest_block (omega arith)).3,
        ) in
        e in
      record {
        best = ground (arith, has.best, get-put db k v (ser_str best_block), names_differ R B F);
        ids = ground (
          arith,
          has.ids,
          get-put db k v (block_key R B F b.id transaction_postfix),
          apart transaction_postfix,
        );
        parent = ground (
          arith,
          has.parent,
          get-put db k v (block_key R B F b.id parent_postfix),
          apart parent_postfix,
        );
        height = ground (
          arith,
          has.height,
          get-put db k v (block_key R B F b.id height_postfix),
          apart height_postfix,
        );
        stored = Stored-eq R B F db (put db k v) b.transactions tx_kept has.stored;
      }

  -- Where a store with room is put a block whose transactions are all different and whose parent is
  -- not itself, `take_best_block` takes it off again, with the timestamp 0, and the best block is the
  -- parent if that was in the store, and else none.
  pub take_best_block-append_block :
      (max_rollback_depth : ℕ) (db : Db) (b : Block Tx) (best : Option BlockRecord)
      → Distinct (map tx_id b.transactions)
      → b.parent_id ≢ b.id
      → HasRoom max_rollback_depth db b
      → ParentBest db b.parent_id best
      → (db1 db2 : Db) × (append_block R B F max_rollback_depth db b ≡ some db1)
        × (take_best_block R B F db1 ≡ some (some (record b { timestamp = 0 }), db2))
        × (get_best_block R B F db2 ≡ best)
  unfolding append_block bytes_eq
  take_best_block-append_block max_rollback_depth db b best distinct ne room parent =
      let w = write_block R B F db b in
      let has = write_block-HasBest R B F db b distinct in
      let p = b.parent_id in
      let parent_w : ParentBest w p best =
        ParentBest-eq db w p best
          (ground (arith, ne, write_block-block_key R B F db b p parent_postfix))
          (ground (arith, ne, write_block-block_key R B F db b p height_postfix)) parent in
      let oldest = write_block-oldest R B F db b in
      elim room [
        | inl first ↦
            let k = ser_str oldest_block in
            let v = records.serialize (record { id = b.id; height = b.height }) in
            let parent_at = λ (s : Bytes).
              let e : get (put w k v) (block_key R B F p s) ≡ get w (block_key R B F p s) = ground (
                arith,
                get-put w k v (block_key R B F p s),
                (name_apart R B F p s oldest_block (omega arith)).1,
              ) in
              e in
            let (db2, taken, is) =
              take_best_block-HasBest (put w k v) b best distinct (HasBest-oldest w b v has) (
                ParentBest-eq w (put w k v) p best (parent_at parent_postfix)
                  (parent_at height_postfix) parent_w) in
            (put w k v, db2, rw (oldest ∙ first, append_block) refl, taken, is)
        | inr (bytes, old, stored, parsed, below) ↦
            let (db2, taken, is) = take_best_block-HasBest w b best distinct has parent_w in
            (
              w,
              db2,
              rw (oldest ∙ stored, append_block) (rw (parsed, append_block) (rw below refl)),
              taken,
              is,
            )
      ]
