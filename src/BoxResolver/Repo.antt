-- ===== src/BoxResolver/Repo.antt =====
-- box_resolver/rocksdb.rs: `EntityRepo for EntityRepoRocksDB`.
use mathlib.Core.Option
use spectrum_offchain_ergo.Prelude.{ℕ, Bool, Option, none, some, if◌then◌else◌, is_some}
use spectrum_offchain_ergo.Data.{OnChainEntity, Traced}
use spectrum_offchain_ergo.Storage.{Bytes, RocksDb, Bincode, Codec, codes, prefixed_key}

abbrev pub state_prefix : Bytes
state_prefix = codes "state"

abbrev pub prediction_link_prefix : Bytes
prediction_link_prefix = codes "prediction:link"

abbrev pub last_predicted_prefix : Bytes
last_predicted_prefix = codes "predicted:last"

abbrev pub last_confirmed_prefix : Bytes
last_confirmed_prefix = codes "confirmed:last"

abbrev pub last_unconfirmed_prefix : Bytes
last_unconfirmed_prefix = codes "unconfirmed:last"

module _ {TEntity : Type 0} (O : OnChainEntity TEntity) (R : RocksDb) (B : Bincode)
    (C : Codec TEntity) where
  open R use {Db, get, put, delete, key_may_exist}
  open B use {ser_id, de_id}
  open C use {serialize, deserialize}
  open O use {get_self_ref, get_self_state_ref}

  abbrev pub key : Bytes → ℕ → Bytes
  key = prefixed_key B

  unfoldable pub get_prediction_predecessor : Db → ℕ → Option ℕ
  get_prediction_predecessor db sid = Option.bind (get db (key prediction_link_prefix sid)) de_id

  unfoldable pub get_state : Db → ℕ → Option TEntity
  get_state db sid = Option.bind (get db (key state_prefix sid)) deserialize

  unfoldable pub may_exist : Db → ℕ → Bool
  may_exist db sid = key_may_exist db (key state_prefix sid)

  -- the state of the last prediction, if its link is there
  unfoldable pub get_last_predicted : Db → ℕ → Option TEntity
  get_last_predicted db id =
      Option.bind
        (Option.bind (Option.bind (get db (key last_predicted_prefix id)) de_id) λ sid.
          if is_some (get db (key prediction_link_prefix sid))
          then get db (key state_prefix sid)
          else none)
        deserialize

  -- `get_last_confirmed` and `get_last_unconfirmed`, which differ in the prefix of the index
  abbrev pub get_last : Bytes → Db → ℕ → Option TEntity
  get_last prefix db id =
      Option.bind
        (Option.bind (Option.bind (get db (key prefix id)) de_id)
          λ sid. if is_some (get db (key prefix id)) then get db (key state_prefix sid) else none)
        deserialize

  unfoldable pub get_last_confirmed : Db → ℕ → Option TEntity
  get_last_confirmed db id = get_last last_confirmed_prefix db id

  unfoldable pub get_last_unconfirmed : Db → ℕ → Option TEntity
  get_last_unconfirmed db id = get_last last_unconfirmed_prefix db id

  -- the two writes that the three operations `put_` share: the state, and the index with a prefix
  abbrev pub put_state : Bytes → Db → TEntity → Db
  put_state prefix db entity =
      put (put db (key state_prefix (get_self_state_ref entity)) (serialize entity))
        (key prefix (get_self_ref entity)) (ser_id (get_self_state_ref entity))

  unfoldable pub put_predicted : Db → Traced TEntity → Db
  put_predicted db t =
      let db1 = put_state last_predicted_prefix db t.state in
      elim t.prev_state_id [
        | none ↦ db1
        | some prev ↦
            put db1 (key prediction_link_prefix (get_self_state_ref t.state)) (ser_id prev)
      ]

  unfoldable pub put_confirmed : Db → TEntity → Db
  put_confirmed db entity = put_state last_confirmed_prefix db entity

  unfoldable pub put_unconfirmed : Db → TEntity → Db
  put_unconfirmed db entity = put_state last_unconfirmed_prefix db entity

  -- the confirmed index goes back to the predecessor, if there is one
  abbrev pub rollback : Db → ℕ → Option ℕ → Db
  rollback db eid none = delete db (key last_confirmed_prefix eid)
  rollback db eid (some predecessor) = put db (key last_confirmed_prefix eid) (ser_id predecessor)

  unfoldable pub invalidate : Db → ℕ → ℕ → Db
  unfolding get_prediction_predecessor
  invalidate db sid eid =
      let db1 = rollback db eid (get_prediction_predecessor db sid) in
      delete (delete db1 (key prediction_link_prefix sid)) (key last_unconfirmed_prefix eid)

  unfoldable pub eliminate : Db → TEntity → Db
  eliminate db entity =
      let db1 = delete db (key prediction_link_prefix (get_self_state_ref entity)) in
      let db2 = delete db1 (key last_predicted_prefix (get_self_ref entity)) in
      let db3 = delete db2 (key last_confirmed_prefix (get_self_ref entity)) in
      delete db3 (key last_unconfirmed_prefix (get_self_ref entity))
