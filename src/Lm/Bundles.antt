-- ===== src/Lm/Bundles.antt =====
-- bundle.rs, bundle/rocksdb.rs, bundle/process.rs and the index of data/bundle.rs of
-- spectrum-offchain-lm/src: the repository of staking bundles.
use mathlib.Core.Option
use spectrum_offchain_ergo.Prelude.{
  ℕ, ◌+◌, ◌-◌, ◌/◌, ◌%◌, ◌^◌, ◌≡◌, Bool, ◌&&◌, not, Option, none, some, List, [], ◌∷◌, ◌++◌, ◌==◌,
  if◌then◌else◌, length, take, drop, contains,
}
use spectrum_offchain_ergo.Data.{
  OnChainEntity, Traced, left, right, both, StateUpdate, transition, transition_rollback,
}
use spectrum_offchain_ergo.Storage.{Bytes, RocksDb, Bincode, Codec, codes, prefixed_key}
use spectrum_offchain_ergo.BoxResolver.Resolve.{is_linking}
use spectrum_offchain_ergo.Lm.Types.{AsBox, map_box, StakingBundle}
use spectrum_offchain_ergo.Lm.Pool.{ProgramConfig}
pub mod Reads
pub mod Resolve
pub mod States

pub record IndexedBundle : Type 0 where
  pub bundle : StakingBundle
  pub lower_epoch_ix : ℕ

-- `IndexedBundle::new`; `none` where a division by zero panics. u32 wraps.
unfoldable pub index_bundle : StakingBundle → ProgramConfig → Option IndexedBundle
index_bundle bundle conf =
    let tmp_amount : ℕ = elim bundle.tmp [ none ↦ 0 | some t ↦ t.amount ] in
    if bundle.vlq.amount == 0
    then none
    else some (record {
      bundle = bundle;
      lower_epoch_ix =
          (conf.epoch_num + (2 ^ 32 - tmp_amount / bundle.vlq.amount % 2 ^ 32) + 1) % 2 ^ 32;
    })

-- `impl OnChainEntity for AsBox<StakingBundle>`
abbrev pub bundle_entity : OnChainEntity (AsBox StakingBundle)
bundle_entity = record {
  get_self_ref = λ b. b.entity.bundle_key_id;
  get_self_state_ref = λ b. b.entity.state_id;
}

abbrev pub plain : AsBox IndexedBundle → AsBox StakingBundle
plain = map_box (λ b. b.bundle)

abbrev pub state_prefix : Bytes
state_prefix = codes "state"

abbrev pub prediction_link_prefix : Bytes
prediction_link_prefix = codes "p:link"

abbrev pub last_predicted_prefix : Bytes
last_predicted_prefix = codes "p:last"

abbrev pub last_confirmed_prefix : Bytes
last_confirmed_prefix = codes "c:last"

abbrev pub pool_epoch_prefix : Bytes
pool_epoch_prefix = codes "pl:epix"

abbrev pub pool_epoch_key_len : ℕ
pool_epoch_key_len = 83

-- What `bincode` says of a u32: four bytes, which are read back.
pub record Words : Type 0 where
  pub ser_u32 : ℕ → Bytes
  pub de_u32 : Bytes → Option ℕ
  pub de_u32-ser_u32 : (n : ℕ) → de_u32 (ser_u32 n) ≡ some n

module _ (R : RocksDb) (B : Bincode) (U : Words) (C : Codec (AsBox IndexedBundle)) where
  open R use {Db, get, put, delete, key_may_exist, iterate}
  open B use {ser_str, ser_id, de_id}
  open U use {ser_u32, de_u32}
  open C use {serialize, deserialize}

  abbrev pub key : Bytes → ℕ → Bytes
  key = prefixed_key B

  -- a difference of u32
  unfoldable pub epoch_index_prefix : ℕ → ℕ → Bytes
  epoch_index_prefix pool_id epoch_ix =
      ser_str pool_epoch_prefix ++ (ser_id pool_id ++ ser_u32 (2 ^ 32 - 1 - epoch_ix))

  unfoldable pub epoch_index_key : ℕ → ℕ → ℕ → Bytes
  unfolding epoch_index_prefix
  epoch_index_key pool_id init_epoch_ix bundle_id =
      epoch_index_prefix pool_id init_epoch_ix ++ ser_id bundle_id

  unfoldable pub destructure_epoch_index_key : Bytes → Option (ℕ × ℕ × ℕ)
  destructure_epoch_index_key k =
      let parts = Option.bind (de_id (take 32 (drop 15 k))) λ pool_id.
        Option.bind (de_id (drop (pool_epoch_key_len - 32) k)) λ bundle_id.
          Option.bind (de_u32 (take 4 (drop 47 k)))
            λ neg_epoch_ix. some (pool_id, bundle_id, 2 ^ 32 - 1 - neg_epoch_ix) in
      if length k == pool_epoch_key_len then parts else none

  -- The loop of `select`; `none` where the assertion panics.
  unfoldable pub select_loop : ℕ → ℕ → List (Bytes × Bytes) → List ℕ → Option (List ℕ)
  select_loop pool_id epoch_ix [] acc = some acc
  select_loop pool_id epoch_ix ((k, v) ∷ entries) acc = elim (destructure_epoch_index_key k) [
    | none ↦ some acc
    | some (pid, bundle_id, init_epoch_ix) ↦
        let rest = select_loop pool_id epoch_ix entries (acc ++ (bundle_id ∷ [])) in
        if not (init_epoch_ix == epoch_ix)
        then none
        else if (pid == pool_id) && not (contains bundle_id acc)
        then rest
        else some acc
  ]

  unfoldable pub select : Db → ℕ → ℕ → Option (List ℕ)
  unfolding select_loop epoch_index_prefix
  select db pool_id epoch_ix =
      select_loop pool_id epoch_ix (iterate db (epoch_index_prefix pool_id epoch_ix)) []

  unfoldable pub may_exist : Db → ℕ → Bool
  may_exist db sid = key_may_exist db (key state_prefix sid)

  unfoldable pub get_state : Db → ℕ → Option (AsBox IndexedBundle)
  get_state db state_id = Option.bind (get db (key state_prefix state_id)) deserialize

  unfoldable pub invalidate : Db → ℕ → Db
  invalidate db state_id =
      delete (delete db (key state_prefix state_id)) (key prediction_link_prefix state_id)

  unfoldable pub eliminate : Db → IndexedBundle → Db
  unfolding epoch_index_key
  eliminate db st =
      let bid = st.bundle.bundle_key_id in
      let db1 = delete db (key last_confirmed_prefix bid) in
      let db2 = delete db1 (key last_predicted_prefix bid) in
      delete db2 (epoch_index_key st.bundle.pool_id st.lower_epoch_ix bid)

  -- the writes that `put_confirmed` and `put_predicted` share: the state, the index with a prefix,
  -- and the epoch index
  unfoldable pub put_state : Bytes → Db → AsBox IndexedBundle → Db
  unfolding epoch_index_key
  put_state prefix db st =
      let bundle = st.entity.bundle in
      let db1 = put db (key state_prefix bundle.state_id) (serialize st) in
      let db2 = put db1 (key prefix bundle.bundle_key_id) (ser_id bundle.state_id) in
      put db2 (epoch_index_key bundle.pool_id st.entity.lower_epoch_ix bundle.bundle_key_id)
        (0 ∷ [])

  unfoldable pub put_confirmed : Db → AsBox IndexedBundle → Db
  unfolding put_state epoch_index_key
  put_confirmed db st = delete (put_state last_confirmed_prefix db st) (
      epoch_index_key st.entity.bundle.pool_id (st.entity.lower_epoch_ix - 1)
        st.entity.bundle.bundle_key_id)

  unfoldable pub put_predicted : Db → Traced (AsBox IndexedBundle) → Db
  unfolding put_state
  put_predicted db t =
      let db1 = put_state last_predicted_prefix db t.state in
      elim t.prev_state_id [
        | none ↦ db1
        | some prev_sid ↦
            put db1 (key prediction_link_prefix t.state.entity.bundle.state_id) (ser_id prev_sid)
      ]

  -- `get_last_confirmed` and `get_last_predicted`, which differ in the prefix
  unfoldable pub get_last : Bytes → Db → ℕ → Option (AsBox StakingBundle)
  get_last prefix db id = Option.map plain (
      Option.bind
        (Option.bind (Option.bind (get db (key prefix id)) de_id)
          λ sid. get db (key state_prefix sid))
        deserialize)

  unfoldable pub get_last_confirmed : Db → ℕ → Option (AsBox StakingBundle)
  unfolding get_last
  get_last_confirmed db id = get_last last_confirmed_prefix db id

  unfoldable pub get_last_predicted : Db → ℕ → Option (AsBox StakingBundle)
  unfolding get_last
  get_last_predicted db id = get_last last_predicted_prefix db id

  unfoldable pub get_prediction_predecessor : Db → ℕ → Option ℕ
  get_prediction_predecessor db id = Option.bind (get db (key prediction_link_prefix id)) de_id

  -- the `match` of `resolve_bundle_state`; the outer `none` is that of the fuel for `is_linking`,
  -- whose loop is that of spectrum-offchain/src/box_resolver.rs
  unfoldable pub resolve_match :
      ℕ
      → (ℕ → Option ℕ)
      → Option (AsBox StakingBundle)
      → Option (AsBox StakingBundle)
      → Option (Option (AsBox StakingBundle))
  resolve_match fuel links (some conf) (some pred) =
      let predicted_sid = pred.entity.state_id in
      let anchoring_sid = conf.entity.state_id in
      if predicted_sid == anchoring_sid
      then some (some pred)
      else Option.map (λ linked. some (if linked then pred else conf))
          (is_linking fuel links predicted_sid anchoring_sid)
  resolve_match fuel links (some conf) none = some (some conf)
  resolve_match fuel links none (some pred) = some none
  resolve_match fuel links none none = some none

  unfoldable pub resolve_bundle_state : ℕ → Db → ℕ → Option (Option (AsBox StakingBundle))
  unfolding resolve_match get_last_confirmed get_last_predicted get_prediction_predecessor
  resolve_bundle_state fuel db bundle_id =
      resolve_match fuel (get_prediction_predecessor db) (get_last_confirmed db bundle_id)
        (get_last_predicted db bundle_id)

  -- the body of `bundle_update_stream`
  unfoldable pub bundle_update : Db → StateUpdate (AsBox IndexedBundle) → Db
  bundle_update db (transition (right st)) = put_confirmed db st
  bundle_update db (transition (both _ st)) = put_confirmed db st
  bundle_update db (transition_rollback (right st)) = put_confirmed db st
  bundle_update db (transition_rollback (both _ st)) = put_confirmed db st
  bundle_update db (transition (left st)) = eliminate db st.entity
  bundle_update db (transition_rollback (left st)) = invalidate db st.entity.bundle.state_id
