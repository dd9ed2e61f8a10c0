-- ===== src/ChainSync/Rocks/Reads.antt =====
-- The keys of cache/rocksdb.rs in ergo-chain-sync, and what is read after the writes of a block.
use mathlib.Core.Option
use spectrum_offchain_ergo.Prelude.{
  ℕ, ◌≤◌, ◌<◌, ◌≡◌, inl, inr, refl, true, false, ◌&&◌, some, List, [], ◌∷◌, ◌++◌, arith, ◌==◌,
  bytes_eq, length, append_nil, Option-cases,
}
use spectrum_offchain_ergo.Storage.{Bytes, RocksDb, Bincode}
use spectrum_offchain_ergo.ChainSync.Rocks.{
  Format, postfixed_key, tx_key, put_transactions, delete_transactions, take_transactions,
}

bytes_eq_nil : (b : Bytes) → 0 < length b → (bytes_eq [] b ≡ false) × (bytes_eq b [] ≡ false)
unfolding bytes_eq
bytes_eq_nil [] h = absurd (omega (arith, h))
bytes_eq_nil (x ∷ b) h = (refl, refl)

module _ {Tx : Type 0} (R : RocksDb) (B : Bincode) (F : Format Tx B) where
  open R use {Db, get, put, delete, get-put, get-delete}
  open B use {ser_str, ser_id, de_id, ser_str-append, bytes_eq-ser_id, de_id-ser_id}
  open F use {
    tx_id, heights, id_lists, transactions, records, ser_id-append, ser_id_apart, length-ser_str,
  }

  abbrev pub block_key : ℕ → Bytes → Bytes
  block_key = postfixed_key R B F

  abbrev pub tx_at : ℕ → Bytes
  tx_at = tx_key R B F

  pub bytes_eq-ser_str : (s t : Bytes) → bytes_eq (ser_str s) (ser_str t) ≡ bytes_eq s t
  unfolding bytes_eq
  bytes_eq-ser_str s t =
      let e = ser_str-append s t [] [] in
      let e' : bytes_eq (ser_str s) (ser_str t) ≡ (bytes_eq s t && true) =
        rw (append_nil (ser_str s), append_nil (ser_str t)) at e in
      ground (arith, e')

  pub bytes_eq-postfixed_key :
      (i j : ℕ) (s t : Bytes)
      → bytes_eq (block_key i s) (block_key j t) ≡ ((i == j) && bytes_eq s t)
  unfolding postfixed_key
  bytes_eq-postfixed_key i j s t =
      ground (arith, ser_id-append i j (ser_str s) (ser_str t), bytes_eq-ser_str s t)

  pub bytes_eq-tx_key :
      (i j : ℕ) (s : Bytes)
      → (bytes_eq (tx_at i) (block_key j s) ≡ false) × (bytes_eq (block_key j s) (tx_at i) ≡ false)
  unfolding postfixed_key tx_key
  bytes_eq-tx_key i j s =
      let (l, r) = bytes_eq_nil (ser_str s) (length-ser_str s) in
      let id = append_nil (ser_id i) in
      let from : bytes_eq (ser_id i) (ser_id j ++ ser_str s)
          ≡ ((i == j) && bytes_eq [] (ser_str s)) =
        rw id at (ser_id-append i j [] (ser_str s)) in
      let to : bytes_eq (ser_id j ++ ser_str s) (ser_id i) ≡ ((j == i) && bytes_eq (ser_str s) []) =
        rw id at (ser_id-append j i (ser_str s) []) in
      (ground (arith, from, l), ground (arith, to, r))

  -- the names of the two records are no other keys
  pub name_apart :
      (i : ℕ) (s name : Bytes)
      → length name ≤ 12
      → (bytes_eq (block_key i s) (ser_str name) ≡ false)
        × (bytes_eq (ser_str name) (block_key i s) ≡ false)
        × (bytes_eq (tx_at i) (ser_str name) ≡ false)
        × (bytes_eq (ser_str name) (tx_at i) ≡ false)
  unfolding postfixed_key tx_key
  name_apart i s name short =
      let (a, b) = ser_id_apart i (ser_str s) name short in
      let tx = ser_id_apart i [] name short in
      let (c, d) = rw (append_nil (ser_id i)) at tx in (a, b, c, d)

  -- a key that is none of those of the transactions
  abbrev pub IsApart : Bytes → Type 0
  IsApart k = (i : ℕ) → bytes_eq (tx_at i) k ≡ false

  pub put_transactions-apart :
      (k : Bytes) (db : Db) (txs : List Tx)
      → IsApart k
      → get (put_transactions R B F db txs) k ≡ get db k
  unfolding put_transactions
  put_transactions-apart k db [] h = refl
  put_transactions-apart k db (tx ∷ txs) h =
      let db' = put db (tx_at (tx_id tx)) (transactions.serialize tx) in
      ground (
        arith,
        put_transactions-apart k db' txs h,
        get-put db (tx_at (tx_id tx)) (transactions.serialize tx) k,
        h (tx_id tx),
      )

  pub delete_transactions-apart :
      (k : Bytes) (db : Db) (ids : List ℕ)
      → IsApart k
      → get (delete_transactions R B F db ids) k ≡ get db k
  unfolding delete_transactions
  delete_transactions-apart k db [] h = refl
  delete_transactions-apart k db (id ∷ ids) h = ground (
    arith,
    delete_transactions-apart k (delete db (tx_at id)) ids h,
    get-delete db (tx_at id) k,
    h id,
  )

  pub take_transactions-apart :
      (k : Bytes) (ids : List ℕ) (db db' : Db) (txs : List Tx)
      → IsApart k
      → take_transactions R B F db ids ≡ some (txs, db')
      → get db' k ≡ get db k
  unfolding take_transactions
  take_transactions-apart k [] db db' txs h e = ground (arith, e)
  take_transactions-apart k (id ∷ ids) db db' txs h e =
      elim (Option-cases (Option.bind (get db (tx_at id)) transactions.deserialize)) [
        | inl z ↦ ground (arith, e, z)
        | inr (tx, z) ↦ elim (Option-cases (take_transactions R B F (delete db (tx_at id)) ids)) [
          | inl y ↦ ground (arith, e, z, y)
          | inr ((rest, db''), y) ↦ ground (
            arith,
            e,
            z,
            y,
            take_transactions-apart k ids (delete db (tx_at id)) db'' rest h y,
            get-delete db (tx_at id) k,
            h id,
          )
        ]
      ]

  pub block_key-IsApart : (i : ℕ) (s : Bytes) → IsApart (block_key i s)
  block_key-IsApart i s j = (bytes_eq-tx_key j i s).0

  pub name-IsApart : (name : Bytes) → length name ≤ 12 → IsApart (ser_str name)
  name-IsApart name short j = (name_apart j [] name short).2
