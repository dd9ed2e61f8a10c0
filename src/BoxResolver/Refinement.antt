-- ===== src/BoxResolver/Refinement.antt =====
-- The repository in RocksDB implements the five maps: the reads, and the writes that Writes has.
use mathlib.Core.Option
use spectrum_offchain_ergo.Prelude.{
  ℕ, ◌≡◌, refl, false, Option, none, some, arith, if◌then◌else◌, is_some, bytes_eq, Bool-cases,
  Option-cases, inl, inr,
}
use spectrum_offchain_ergo.Data.{OnChainEntity, Traced}
use spectrum_offchain_ergo.Storage.{
  Bytes, RocksDb, Bincode, Codec, prefixed_key, bytes_eq-prefixed_key,
}
use spectrum_offchain_ergo.BoxResolver.Repo
use spectrum_offchain_ergo.BoxResolver.View
use spectrum_offchain_ergo.BoxResolver.View.{View}
use spectrum_offchain_ergo.BoxResolver.Repo.{
  state_prefix, prediction_link_prefix, last_predicted_prefix, last_confirmed_prefix,
  last_unconfirmed_prefix,
}
use spectrum_offchain_ergo.BoxResolver.Writes.{
  read, view, view-put_predicted, view-put_confirmed, view-put_unconfirmed, view-invalidate,
  view-eliminate,
}

module _ {TEntity : Type 0} (O : OnChainEntity TEntity) (R : RocksDb) (B : Bincode)
    (C : Codec TEntity) where
  open R use {Db, get, put, delete, get-put, get-delete}
  open B use {ser_id, de_id, de_id-ser_id}
  open C use {serialize, deserialize, deserialize-serialize}
  open O use {get_self_ref, get_self_state_ref}

  -- the reads
  view-get_last :
      (prefix : Bytes) (db : Db) (id : ℕ)
      → Repo.get_last O R B C prefix db id
        ≡ Option.bind (read O R B C de_id prefix db id) (read O R B C deserialize state_prefix db)
  unfolding read Option.bind
  view-get_last prefix db id = ground arith

  -- Every link parses, as all that `put_predicted` has written do.
  abbrev pub LinksParse : Db → Type 0
  LinksParse db =
      (sid : ℕ) (v : Bytes)
      → get db (prefixed_key B prediction_link_prefix sid) ≡ some v
      → (prev : ℕ) × (de_id v ≡ some prev)

  predicted_chain :
      (index : Option ℕ) (link state : ℕ → Option Bytes)
      → ((sid : ℕ) (v : Bytes) → link sid ≡ some v → (prev : ℕ) × (de_id v ≡ some prev))
      → Option.bind
          (Option.bind index λ sid. if is_some (link sid) then state sid else none)
          deserialize
        ≡ Option.bind index λ sid.
          Option.bind (Option.bind (link sid) de_id) λ prev. Option.bind (state sid) deserialize
  unfolding Option.bind
  predicted_chain none link state parse = refl
  predicted_chain (some sid) link state parse = elim (Option-cases (link sid)) [
    | inl e ↦ ground (arith, e)
    | inr (v, e) ↦ let (prev, parsed) = parse sid v e in ground (arith, e, parsed)
  ]

  LinksParse-put :
      (db : Db) (p : Bytes) (i : ℕ) (v : Bytes)
      → bytes_eq p prediction_link_prefix ≡ false
      → LinksParse db
      → LinksParse (put db (prefixed_key B p i) v)
  LinksParse-put db p i v other parse sid w e = parse sid w (
      ground (
        arith,
        e,
        get-put db (prefixed_key B p i) v (prefixed_key B prediction_link_prefix sid),
        bytes_eq-prefixed_key B p prediction_link_prefix i sid,
      ))

  LinksParse-link :
      (db : Db) (i prev : ℕ)
      → LinksParse db
      → LinksParse (put db (prefixed_key B prediction_link_prefix i) (ser_id prev))
  LinksParse-link db i prev parse sid w e =
      let k = prefixed_key B prediction_link_prefix i in
      let j = prefixed_key B prediction_link_prefix sid in
      elim (Bool-cases (bytes_eq k j)) [
        | inl t ↦ (prev, ground (arith, e, t, get-put db k (ser_id prev) j, de_id-ser_id prev))
        | inr f ↦ parse sid w (ground (arith, e, f, get-put db k (ser_id prev) j))
      ]

  LinksParse-delete : (db : Db) (k : Bytes) → LinksParse db → LinksParse (delete db k)
  LinksParse-delete db k parse sid w e =
      parse sid w (ground (arith, e, get-delete db k (prefixed_key B prediction_link_prefix sid)))

  LinksParse-put_state :
      (db : Db) (p : Bytes) (e : TEntity)
      → bytes_eq p prediction_link_prefix ≡ false
      → LinksParse db
      → LinksParse (Repo.put_state O R B C p db e)
  unfolding bytes_eq
  LinksParse-put_state db p e other parse =
      LinksParse-put _ p (get_self_ref e) _ other
        (LinksParse-put db state_prefix (get_self_state_ref e) _ refl parse)

  pub LinksParse-put_predicted :
      (db : Db) (e : TEntity) (prev : Option ℕ)
      → LinksParse db
      → LinksParse (Repo.put_predicted O R B C db (record { state = e; prev_state_id = prev }))
  unfolding Repo.put_predicted bytes_eq
  LinksParse-put_predicted db e none parse =
      LinksParse-put_state db last_predicted_prefix e refl parse
  LinksParse-put_predicted db e (some prev) parse =
      LinksParse-link _ (get_self_state_ref e) prev
        (LinksParse-put_state db last_predicted_prefix e refl parse)

  LinksParse-rollback :
      (db : Db) (eid : ℕ) (predecessor : Option ℕ)
      → LinksParse db
      → LinksParse (Repo.rollback O R B C db eid predecessor)
  unfolding bytes_eq
  LinksParse-rollback db eid none parse = LinksParse-delete db _ parse
  LinksParse-rollback db eid (some predecessor) parse =
      LinksParse-put db last_confirmed_prefix eid (ser_id predecessor) refl parse

  pub LinksParse-invalidate :
      (db : Db) (sid eid : ℕ) → LinksParse db → LinksParse (Repo.invalidate O R B C db sid eid)
  unfolding Repo.invalidate
  LinksParse-invalidate db sid eid parse =
      LinksParse-delete _ _ (LinksParse-delete _ _ (LinksParse-rollback db eid _ parse))

  -- Each of the five writes of the repository in RocksDB keeps all prediction links readable.
  pub LinksParse-operations :
      (db : Db) (t : Traced TEntity) (e : TEntity) (sid eid : ℕ)
      → LinksParse db
      → LinksParse (Repo.put_predicted O R B C db t)
        × LinksParse (Repo.put_confirmed O R B C db e)
        × LinksParse (Repo.put_unconfirmed O R B C db e)
        × LinksParse (Repo.invalidate O R B C db sid eid)
        × LinksParse (Repo.eliminate O R B C db e)
  unfolding Repo.put_confirmed Repo.put_unconfirmed Repo.eliminate bytes_eq
  LinksParse-operations db t e sid eid parse = (
    LinksParse-put_predicted db t.state t.prev_state_id parse,
    LinksParse-put_state db last_confirmed_prefix e refl parse,
    LinksParse-put_state db last_unconfirmed_prefix e refl parse,
    LinksParse-invalidate db sid eid parse,
    LinksParse-delete _ _
        (LinksParse-delete _ _ (LinksParse-delete _ _ (LinksParse-delete _ _ parse))),
  )

  pub get_last_confirmed-View :
      (db : Db) (id : ℕ)
      → Repo.get_last_confirmed O R B C db id ≡ View.get_last_confirmed O (view O R B C db) id
  unfolding view Repo.get_last_confirmed
  get_last_confirmed-View db id = view-get_last last_confirmed_prefix db id

  pub get_last_unconfirmed-View :
      (db : Db) (id : ℕ)
      → Repo.get_last_unconfirmed O R B C db id ≡ View.get_last_unconfirmed O (view O R B C db) id
  unfolding view Repo.get_last_unconfirmed
  get_last_unconfirmed-View db id = view-get_last last_unconfirmed_prefix db id

  pub get_last_predicted-View :
      (db : Db) (id : ℕ)
      → LinksParse db
      → Repo.get_last_predicted O R B C db id ≡ View.get_last_predicted O (view O R B C db) id
  unfolding view read Repo.get_last_predicted
  get_last_predicted-View db id parse = predicted_chain _ _ _ parse

  pub get_state-View :
      (db : Db) (sid : ℕ)
      → (Repo.get_state O R B C db sid ≡ (view O R B C db).state sid)
        × (Repo.get_prediction_predecessor O R B C db sid ≡ (view O R B C db).link sid)
  unfolding view read Repo.get_state Repo.get_prediction_predecessor
  get_state-View db sid = (refl, refl)

  -- While the prediction links are readable, each of the five writes of the repository in RocksDB is
  -- the write on the five maps that it shows, and each of its five reads of states reads those.
  pub EntityRepo-View :
      (db : Db) (t : Traced TEntity) (e : TEntity) (sid id : ℕ)
      → LinksParse db
      → (view O R B C (Repo.put_predicted O R B C db t) ≡ View.put_predicted O (view O R B C db) t)
        × (view O R B C (Repo.put_confirmed O R B C db e)
            ≡ View.put_confirmed O (view O R B C db) e)
        × (view O R B C (Repo.put_unconfirmed O R B C db e)
            ≡ View.put_unconfirmed O (view O R B C db) e)
        × (view O R B C (Repo.invalidate O R B C db sid id)
            ≡ View.invalidate O (view O R B C db) sid id)
        × (view O R B C (Repo.eliminate O R B C db e) ≡ View.eliminate O (view O R B C db) e)
        × (Repo.get_state O R B C db sid ≡ (view O R B C db).state sid)
        × (Repo.get_prediction_predecessor O R B C db sid ≡ (view O R B C db).link sid)
        × (Repo.get_last_predicted O R B C db id ≡ View.get_last_predicted O (view O R B C db) id)
        × (Repo.get_last_confirmed O R B C db id ≡ View.get_last_confirmed O (view O R B C db) id)
        × (Repo.get_last_unconfirmed O R B C db id
            ≡ View.get_last_unconfirmed O (view O R B C db) id)
  EntityRepo-View db t e sid id parse = (
    view-put_predicted O R B C db t,
    view-put_confirmed O R B C db e,
    view-put_unconfirmed O R B C db e,
    view-invalidate O R B C db sid id,
    view-eliminate O R B C db e,
    (get_state-View db sid).0,
    (get_state-View db sid).1,
    get_last_predicted-View db id parse,
    get_last_confirmed-View db id,
    get_last_unconfirmed-View db id,
  )
