-- ===== src/Lm/Bundles/Reads.antt =====
-- What the repository of bundle/rocksdb.rs in spectrum-offchain-lm/src reads after its writes.
use mathlib.Core.Option
use spectrum_offchain_ergo.Prelude.{
  ℕ, ◌-◌, ◌≡◌, refl, false, ◌&&◌, ◌||◌, none, some, [], ◌∷◌, ◌++◌, arith, ◌==◌, if◌then◌else◌,
  bytes_eq, append_assoc,
}
use spectrum_offchain_ergo.Data.{Traced}
use spectrum_offchain_ergo.Storage.{
  Bytes, RocksDb, Bincode, Codec, prefixed_key, bytes_eq-prefixed_key,
}
use spectrum_offchain_ergo.Lm.Types.{AsBox}
use spectrum_offchain_ergo.Lm.Bundles.{
  IndexedBundle, plain, Words, state_prefix, prediction_link_prefix, last_predicted_prefix,
  last_confirmed_prefix, pool_epoch_prefix, key, epoch_index_prefix, epoch_index_key, put_state,
  put_confirmed, put_predicted, invalidate, get_last, get_prediction_predecessor,
}

module _ (R : RocksDb) (B : Bincode) (U : Words) (C : Codec (AsBox IndexedBundle)) where
  open R use {Db, get, put, delete, get-put, get-delete}
  open B use {ser_str, ser_id, de_id, ser_str-append, de_id-ser_id}
  open U use {ser_u32}
  open C use {serialize, deserialize, deserialize-serialize}

  abbrev at : Bytes → ℕ → Bytes
  at = key R B U C

  -- an index of an epoch is no other key
  pub apart :
      (p e b : ℕ) (q : Bytes) (j : ℕ)
      → bytes_eq pool_epoch_prefix q ≡ false
      → bytes_eq (epoch_index_key R B U C p e b) (at q j) ≡ false
  unfolding epoch_index_key epoch_index_prefix prefixed_key
  apart p e b q j ne =
      let tail = ser_id p ++ ser_u32 (4294967295 - e) in
      rw (append_assoc (ser_str pool_epoch_prefix) tail (ser_id b))
        (ground (arith, ne, ser_str-append pool_epoch_prefix q (tail ++ ser_id b) (ser_id j)))

  pub put_state-get :
      (prefix : Bytes) (db : Db) (st : AsBox IndexedBundle) (q : Bytes) (j : ℕ)
      → bytes_eq pool_epoch_prefix q ≡ false
      → get (put_state R B U C prefix db st) (at q j) ≡ (
          if bytes_eq prefix q && (st.entity.bundle.bundle_key_id == j)
          then some (ser_id st.entity.bundle.state_id)
          else if bytes_eq state_prefix q && (st.entity.bundle.state_id == j)
          then some (serialize st)
          else get db (at q j))
  unfolding put_state
  put_state-get prefix db st q j ne =
      let b = st.entity.bundle in
      let state_key = at state_prefix b.state_id in
      let index_key = at prefix b.bundle_key_id in
      let epoch_key = epoch_index_key R B U C b.pool_id st.entity.lower_epoch_ix b.bundle_key_id in
      let db1 = put db state_key (serialize st) in
      let db2 = put db1 index_key (ser_id b.state_id) in
      ground (
        arith,
        get-put db2 epoch_key (0 ∷ []) (at q j),
        get-put db1 index_key (ser_id b.state_id) (at q j),
        get-put db state_key (serialize st) (at q j),
        apart b.pool_id st.entity.lower_epoch_ix b.bundle_key_id q j ne,
        bytes_eq-prefixed_key B prefix q b.bundle_key_id j,
        bytes_eq-prefixed_key B state_prefix q b.state_id j,
      )

  pub put_confirmed-get :
      (db : Db) (st : AsBox IndexedBundle) (q : Bytes) (j : ℕ)
      → bytes_eq pool_epoch_prefix q ≡ false
      → get (put_confirmed R B U C db st) (at q j) ≡ (
          if bytes_eq last_confirmed_prefix q && (st.entity.bundle.bundle_key_id == j)
          then some (ser_id st.entity.bundle.state_id)
          else if bytes_eq state_prefix q && (st.entity.bundle.state_id == j)
          then some (serialize st)
          else get db (at q j))
  unfolding put_confirmed
  put_confirmed-get db st q j ne =
      let b = st.entity.bundle in
      let before = st.entity.lower_epoch_ix - 1 in
      ground (
        arith,
        get-delete (put_state R B U C last_confirmed_prefix db st)
            (epoch_index_key R B U C b.pool_id before b.bundle_key_id) (at q j),
        apart b.pool_id before b.bundle_key_id q j ne,
        put_state-get last_confirmed_prefix db st q j ne,
      )

  pub put_predicted-get :
      (db : Db) (t : Traced (AsBox IndexedBundle)) (q : Bytes) (j prev : ℕ)
      → t.prev_state_id ≡ some prev
      → bytes_eq pool_epoch_prefix q ≡ false
      → get (put_predicted R B U C db t) (at q j) ≡ (
          if bytes_eq prediction_link_prefix q && (t.state.entity.bundle.state_id == j)
          then some (ser_id prev)
          else if bytes_eq last_predicted_prefix q && (t.state.entity.bundle.bundle_key_id == j)
          then some (ser_id t.state.entity.bundle.state_id)
          else if bytes_eq state_prefix q && (t.state.entity.bundle.state_id == j)
          then some (serialize t.state)
          else get db (at q j))
  unfolding put_predicted
  put_predicted-get db t q j prev e ne =
      let sid = t.state.entity.bundle.state_id in
      ground (
        arith,
        e,
        get-put (put_state R B U C last_predicted_prefix db t.state) (at prediction_link_prefix sid)
            (ser_id prev) (at q j),
        bytes_eq-prefixed_key B prediction_link_prefix q sid j,
        put_state-get last_predicted_prefix db t.state q j ne,
      )

  pub get_last_lem :
      (prefix : Bytes) (db : Db) (id sid : ℕ) (st : AsBox IndexedBundle)
      → get db (at prefix id) ≡ some (ser_id sid)
      → get db (at state_prefix sid) ≡ some (serialize st)
      → get_last R B U C prefix db id ≡ some (plain st)
  unfolding get_last Option.bind
  get_last_lem prefix db id sid st index state =
      rw (index, get_last, de_id-ser_id sid, state, deserialize-serialize st) refl

  pub get_prediction_predecessor_lem :
      (db : Db) (sid prev : ℕ)
      → get db (at prediction_link_prefix sid) ≡ some (ser_id prev)
      → get_prediction_predecessor R B U C db sid ≡ some prev
  unfolding get_prediction_predecessor Option.bind
  get_prediction_predecessor_lem db sid prev e =
      rw (e, get_prediction_predecessor) (de_id-ser_id prev)

  get-delete_at :
      (db : Db) (prefix q : Bytes) (id j : ℕ)
      → get (delete db (at prefix id)) (at q j)
        ≡ (if bytes_eq prefix q && (id == j) then none else get db (at q j))
  get-delete_at db prefix q id j =
      ground (arith, get-delete db (at prefix id) (at q j), bytes_eq-prefixed_key B prefix q id j)

  pub invalidate-get :
      (db : Db) (sid : ℕ) (q : Bytes) (j : ℕ)
      → get (invalidate R B U C db sid) (at q j) ≡ (
          if (bytes_eq prediction_link_prefix q || bytes_eq state_prefix q) && (sid == j)
          then none
          else get db (at q j))
  unfolding invalidate
  invalidate-get db sid q j = ground (
    arith,
    get-delete_at (delete db (at state_prefix sid)) prediction_link_prefix q sid j,
    get-delete_at db state_prefix q sid j,
  )
