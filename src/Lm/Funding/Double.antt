-- ===== src/Lm/Funding/Double.antt =====
-- Writes and removals of funding.rs in spectrum-offchain-lm/src.
use spectrum_offchain_ergo.Prelude.{
  ℕ, ◌≡◌, true, false, ◌&&◌, ◌||◌, none, some, ◌++◌, arith, ◌==◌, if◌then◌else◌, bytes_eq,
  bytes_eq_iff, Elem,
}
use spectrum_offchain_ergo.Storage.{
  Bytes, RocksDb, Bincode, Codec, prefixed_key, starts_with, starts_with-append,
}
use spectrum_offchain_ergo.Lm.Types.{AsBox, sub_wrap, max_value}
use spectrum_offchain_ergo.Lm.Funding.{
  DistributionFunding, FixedInts, funding_key_prefix, funding_key_index_prefix, confirmed_priority,
  predicted_priority, funding_key, put_funding, put_confirmed, put_predicted, remove,
}
use spectrum_offchain_ergo.Lm.Funding.Collect.{boxes, boxes-Elem}

module _ (R : RocksDb) (B : Bincode) (F : FixedInts) (C : Codec (AsBox DistributionFunding)) where
  open R use {Db, get, put, delete, iterate, get-put, get-delete, iterate_lem}
  open B use {ser_str, ser_id, ser_str-append, bytes_eq-ser_id}
  open F use {ser_u64, ser_u64-append}
  open C use {serialize, deserialize-serialize}

  abbrev pub entry_key : ℕ → DistributionFunding → Bytes
  entry_key priority df = funding_key R B F C funding_key_prefix priority df.erg_value df.id

  abbrev pub index_key : ℕ → Bytes
  index_key id = prefixed_key B funding_key_index_prefix id

  pub bytes_eq-entry_key :
      (p q : ℕ) (df df' : DistributionFunding)
      → bytes_eq (entry_key p df) (entry_key q df') ≡ (
          (p == q)
          && ((sub_wrap max_value df.erg_value == sub_wrap max_value df'.erg_value)
              && (df.id == df'.id)))
  unfolding funding_key bytes_eq
  bytes_eq-entry_key p q df df' =
      let v = sub_wrap max_value df.erg_value in
      let v' = sub_wrap max_value df'.erg_value in
      let tail = ser_u64 v ++ ser_id df.id in
      let tail' = ser_u64 v' ++ ser_id df'.id in
      ground (
        arith,
        ser_str-append funding_key_prefix funding_key_prefix (ser_u64 p ++ tail)
            (ser_u64 q ++ tail'),
        ser_u64-append p q tail tail',
        ser_u64-append v v' (ser_id df.id) (ser_id df'.id),
        bytes_eq-ser_id df.id df'.id,
      )

  pub bytes_eq-index_key :
      (p i : ℕ) (df : DistributionFunding)
      → (bytes_eq (entry_key p df) (index_key i) ≡ false)
        × (bytes_eq (index_key i) (entry_key p df) ≡ false)
  unfolding funding_key prefixed_key bytes_eq
  bytes_eq-index_key p i df =
      let v = sub_wrap max_value df.erg_value in
      let tail = ser_u64 p ++ (ser_u64 v ++ ser_id df.id) in
      (
        ser_str-append funding_key_prefix funding_key_index_prefix tail (ser_id i),
        ser_str-append funding_key_index_prefix funding_key_prefix (ser_id i) tail,
      )

  entry_key-prefix :
      (p : ℕ) (df : DistributionFunding)
      → starts_with (ser_str funding_key_prefix) (entry_key p df) ≡ true
  unfolding funding_key
  entry_key-prefix p df = starts_with-append (ser_str funding_key_prefix) _

  put_funding-get :
      (p : ℕ) (db : Db) (df : AsBox DistributionFunding) (k : Bytes)
      → get (put_funding R B F C p db df) k ≡ (
          if bytes_eq (index_key df.entity.id) k
          then some (entry_key p df.entity)
          else if bytes_eq (entry_key p df.entity) k
          then some (serialize df)
          else get db k)
  unfolding put_funding
  put_funding-get p db df k =
      let key = entry_key p df.entity in
      ground (
        arith,
        get-put (put db key (serialize df)) (index_key df.entity.id) key k,
        get-put db key (serialize df) k,
      )

  remove-get :
      (db : Db) (id : ℕ) (key k : Bytes)
      → get db (index_key id) ≡ some key
      → get (remove R B F C db id) k
        ≡ (if bytes_eq key k || bytes_eq (index_key id) k then none else get db k)
  unfolding remove
  remove-get db id key k e =
      ground (arith, e, get-delete (delete db (index_key id)) key k, get-delete db (index_key id) k)

  put_funding_index :
      (p : ℕ) (db : Db) (df : AsBox DistributionFunding)
      → get (put_funding R B F C p db df) (index_key df.entity.id) ≡ some (entry_key p df.entity)
  put_funding_index p db df =
      let index = index_key df.entity.id in
      ground (arith, put_funding-get p db df index, bytes_eq_iff index index)

  -- A box that is put, at any priority, and removed is gone from the store with its index, and
  -- every other key reads as before.
  pub remove-put_funding :
      (p : ℕ) (db : Db) (df : AsBox DistributionFunding) (k : Bytes)
      → get (remove R B F C (put_funding R B F C p db df) df.entity.id) k ≡ (
          if bytes_eq (entry_key p df.entity) k || bytes_eq (index_key df.entity.id) k
          then none
          else get db k)
  remove-put_funding p db df k = ground (
    arith,
    remove-get (put_funding R B F C p db df) df.entity.id (entry_key p df.entity) k
        (put_funding_index p db df),
    put_funding-get p db df k,
  )

  -- A box that is predicted, then confirmed, and then removed because it is spent, is still among
  -- the boxes that `collect` goes through, whatever the store held before.
  pub remove-put_confirmed-put_predicted :
      (db : Db) (df : AsBox DistributionFunding)
      → let after =
          remove R B F C (put_confirmed R B F C (put_predicted R B F C db df) df) df.entity.id in
        Elem df (boxes R B F C (iterate after (ser_str funding_key_prefix)))
  unfolding put_confirmed put_predicted
  remove-put_confirmed-put_predicted db df =
      let key = entry_key predicted_priority df.entity in
      let confirmed = entry_key confirmed_priority df.entity in
      let index = index_key df.entity.id in
      let db1 = put_predicted R B F C db df in
      let after = remove R B F C (put_confirmed R B F C db1 df) df.entity.id in
      let apart = bytes_eq-index_key predicted_priority df.entity.id df.entity in
      let priorities =
        bytes_eq-entry_key confirmed_priority predicted_priority df.entity df.entity in
      let before : get db1 key ≡ some (serialize df) =
        ground
          (arith, put_funding-get predicted_priority db df key, bytes_eq_iff key key, apart.1) in
      let kept : get after key ≡ some (serialize df) =
        ground
          (arith, before, remove-put_funding confirmed_priority db1 df key, priorities, apart.1) in
      let listed =
        (iterate_lem after (ser_str funding_key_prefix) key (serialize df)).1
          (kept, entry_key-prefix predicted_priority df.entity) in
      boxes-Elem R B F C key (serialize df) df _ (deserialize-serialize df) listed
