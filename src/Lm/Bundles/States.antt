-- ===== src/Lm/Bundles/States.antt =====
-- What bundle/rocksdb.rs in spectrum-offchain-lm/src keeps of the keys of states.
use spectrum_offchain_ergo.Prelude.{
  ℕ, ◌≡◌, refl, sym, ◌∙◌, inl, inr, some, arith, ◌==◌, if◌then◌else◌, bytes_eq, Option-cases,
  Bool-cases,
}
use spectrum_offchain_ergo.Data.{Traced}
use spectrum_offchain_ergo.Storage.{Bytes, RocksDb, Bincode, Codec, bytes_eq-prefixed_key}
use spectrum_offchain_ergo.Lm.Types.{AsBox}
use spectrum_offchain_ergo.Lm.Bundles.{
  IndexedBundle, Words, state_prefix, last_predicted_prefix, last_confirmed_prefix, key,
  epoch_index_key, put_confirmed, put_predicted, invalidate, eliminate,
}
use spectrum_offchain_ergo.Lm.Bundles.Reads.{
  apart, put_state-get, put_confirmed-get, put_predicted-get, invalidate-get,
}
use spectrum_offchain_ergo.Lm.Bundles.Resolve.{StatesParse}

module _ (R : RocksDb) (B : Bincode) (U : Words) (C : Codec (AsBox IndexedBundle)) where
  open R use {Db, get, put, delete, get-put, get-delete}
  open C use {serialize, deserialize, deserialize-serialize}

  abbrev state_at : ℕ → Bytes
  state_at = key R B U C state_prefix

  -- a write that puts one state at its key, or none
  StatesParse-write :
      (db db' : Db) (st : AsBox IndexedBundle)
      → ((j : ℕ)
          → get db' (state_at j)
            ≡ (if st.entity.bundle.state_id == j then some (serialize st) else get db (state_at j)))
      → StatesParse R B U C db
      → StatesParse R B U C db'
  StatesParse-write db db' st written parse sid v st' at is =
      elim (Bool-cases (st.entity.bundle.state_id == sid)) [
        | inl t ↦
            let stored : some (serialize st) ≡ some v = ground (arith, at, written sid, t) in
            let same : some st ≡ some st' = ground (arith, stored, deserialize-serialize st, is) in
            ground (arith, same, t)
        | inr f ↦ parse sid v st' (ground (arith, at, written sid, f)) is
      ]

  StatesParse-forget :
      (db db' : Db)
      → ((j : ℕ) (v : Bytes) → get db' (state_at j) ≡ some v → get db (state_at j) ≡ some v)
      → StatesParse R B U C db
      → StatesParse R B U C db'
  StatesParse-forget db db' kept parse sid v st at is = parse sid v st (kept sid v at) is

  put_predicted-state :
      (db : Db) (t : Traced (AsBox IndexedBundle)) (j : ℕ)
      → get (put_predicted R B U C db t) (state_at j) ≡ (
          if t.state.entity.bundle.state_id == j
          then some (serialize t.state)
          else get db (state_at j))
  unfolding put_predicted bytes_eq
  put_predicted-state db t j = elim (Option-cases t.prev_state_id) [
    | inl e ↦
        ground
          (arith, e, put_state-get R B U C last_predicted_prefix db t.state state_prefix j refl)
    | inr (prev, e) ↦ ground (arith, e, put_predicted-get R B U C db t state_prefix j prev e refl)
  ]

  put_confirmed-state :
      (db : Db) (st : AsBox IndexedBundle) (j : ℕ)
      → get (put_confirmed R B U C db st) (state_at j)
        ≡ (if st.entity.bundle.state_id == j then some (serialize st) else get db (state_at j))
  unfolding bytes_eq
  put_confirmed-state db st j = ground (arith, put_confirmed-get R B U C db st state_prefix j refl)

  invalidate-state :
      (db : Db) (sid j : ℕ) (v : Bytes)
      → get (invalidate R B U C db sid) (state_at j) ≡ some v
      → get db (state_at j) ≡ some v
  unfolding bytes_eq
  invalidate-state db sid j v e = ground (arith, e, invalidate-get R B U C db sid state_prefix j)

  eliminate-state :
      (db : Db) (st : IndexedBundle) (j : ℕ)
      → get (eliminate R B U C db st) (state_at j) ≡ get db (state_at j)
  unfolding eliminate bytes_eq
  eliminate-state db st j =
      let bid = st.bundle.bundle_key_id in
      let confirmed = key R B U C last_confirmed_prefix bid in
      let predicted = key R B U C last_predicted_prefix bid in
      let epoch = epoch_index_key R B U C st.bundle.pool_id st.lower_epoch_ix bid in
      let db1 = delete db confirmed in
      let db2 = delete db1 predicted in
      ground (
        arith,
        get-delete db2 epoch (state_at j),
        get-delete db1 predicted (state_at j),
        get-delete db confirmed (state_at j),
        apart R B U C st.bundle.pool_id st.lower_epoch_ix bid state_prefix j refl,
        bytes_eq-prefixed_key B last_confirmed_prefix state_prefix bid j,
        bytes_eq-prefixed_key B last_predicted_prefix state_prefix bid j,
      )

  -- Every operation of the repository of bundles keeps the states at the keys of their identifiers.
  pub StatesParse-operations :
      (db : Db) (st : AsBox IndexedBundle) (t : Traced (AsBox IndexedBundle)) (sid : ℕ)
      → StatesParse R B U C db
      → StatesParse R B U C (put_confirmed R B U C db st)
        × StatesParse R B U C (put_predicted R B U C db t)
        × StatesParse R B U C (invalidate R B U C db sid)
        × StatesParse R B U C (eliminate R B U C db st.entity)
  StatesParse-operations db st t sid parse = (
    StatesParse-write db (put_confirmed R B U C db st) st (put_confirmed-state db st) parse,
    StatesParse-write db (put_predicted R B U C db t) t.state (put_predicted-state db t) parse,
    StatesParse-forget db (invalidate R B U C db sid) (invalidate-state db sid) parse,
    StatesParse-forget db (eliminate R B U C db st.entity)
        (λ j v e. sym (eliminate-state db st.entity j) ∙ e) parse,
  )
