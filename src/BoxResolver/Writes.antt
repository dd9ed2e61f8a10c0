-- ===== src/BoxResolver/Writes.antt =====
-- The writes of the repository in RocksDB, as writes on the five maps.
use mathlib.Core.Option
use mathlib.Core.Path.{fun_ext}
use spectrum_offchain_ergo.Prelude.{
  ℕ, ◌≡◌, ◌&&◌, Option, none, some, arith, ◌==◌, if◌then◌else◌, bytes_eq,
}
use spectrum_offchain_ergo.Data.{OnChainEntity, Traced}
use spectrum_offchain_ergo.Storage.{
  Bytes, RocksDb, Bincode, Codec, prefixed_key, bytes_eq-prefixed_key,
}
use spectrum_offchain_ergo.BoxResolver.Repo
use spectrum_offchain_ergo.BoxResolver.View
use spectrum_offchain_ergo.BoxResolver.View.{View}
use spectrum_offchain_ergo.BoxResolver.Repo.{
  state_prefix, prediction_link_prefix, last_predicted_prefix, last_confirmed_prefix,
  last_unconfirmed_prefix,
}

View-eq :
    {T : Type 0} (v w : View T)
    → ((i : ℕ) → v.state i ≡ w.state i)
    → ((i : ℕ) → v.link i ≡ w.link i)
    → ((i : ℕ) → v.predicted i ≡ w.predicted i)
    → ((i : ℕ) → v.confirmed i ≡ w.confirmed i)
    → ((i : ℕ) → v.unconfirmed i ≡ w.unconfirmed i)
    → v ≡ w
View-eq v w s l p c u = λ i. record {
  state = fun_ext s i;
  link = fun_ext l i;
  predicted = fun_ext p i;
  confirmed = fun_ext c i;
  unconfirmed = fun_ext u i;
}

module _ {TEntity : Type 0} (O : OnChainEntity TEntity) (R : RocksDb) (B : Bincode)
    (C : Codec TEntity) where
  open R use {Db, get, put, delete, get-put, get-delete}
  open B use {ser_id, de_id, de_id-ser_id}
  open C use {serialize, deserialize, deserialize-serialize}
  open O use {get_self_ref, get_self_state_ref}

  -- a value at a key, parsed
  unfoldable pub read : {A : Type 0} → (Bytes → Option A) → Bytes → Db → ℕ → Option A
  read parse prefix db id = Option.bind (get db (prefixed_key B prefix id)) parse

  read-put :
      {A : Type 0} (parse : Bytes → Option A) (p q : Bytes) (db : Db) (i j : ℕ) (v : Bytes)
      → read parse q (put db (prefixed_key B p i) v) j
        ≡ (if bytes_eq p q && (i == j) then parse v else read parse q db j)
  unfolding read Option.bind
  read-put parse p q db i j v = ground (
    arith,
    get-put db (prefixed_key B p i) v (prefixed_key B q j),
    bytes_eq-prefixed_key B p q i j,
  )

  read-delete :
      {A : Type 0} (parse : Bytes → Option A) (p q : Bytes) (db : Db) (i j : ℕ)
      → read parse q (delete db (prefixed_key B p i)) j
        ≡ (if bytes_eq p q && (i == j) then none else read parse q db j)
  unfolding read Option.bind
  read-delete parse p q db i j = ground (
    arith,
    get-delete db (prefixed_key B p i) (prefixed_key B q j),
    bytes_eq-prefixed_key B p q i j,
  )

  parse_id : (i : ℕ) → de_id (ser_id i) ≡ some i
  parse_id = de_id-ser_id

  parse_state : (e : TEntity) → deserialize (serialize e) ≡ some e
  parse_state = deserialize-serialize

  ruleset reads = (read-put, read-delete, parse_id, parse_state)

  unfoldable pub view : Db → View TEntity
  view db = record {
    state = read deserialize state_prefix db;
    link = read de_id prediction_link_prefix db;
    predicted = read de_id last_predicted_prefix db;
    confirmed = read de_id last_confirmed_prefix db;
    unconfirmed = read de_id last_unconfirmed_prefix db;
  }

  pub view-put_confirmed :
      (db : Db) (e : TEntity)
      → view (Repo.put_confirmed O R B C db e) ≡ View.put_confirmed O (view db) e
  unfolding view Repo.put_confirmed bytes_eq
  view-put_confirmed db e =
      View-eq _ _ (λ i. simp reads) (λ i. simp reads) (λ i. simp reads) (λ i. simp reads)
        (λ i. simp reads)

  pub view-put_unconfirmed :
      (db : Db) (e : TEntity)
      → view (Repo.put_unconfirmed O R B C db e) ≡ View.put_unconfirmed O (view db) e
  unfolding view Repo.put_unconfirmed bytes_eq
  view-put_unconfirmed db e =
      View-eq _ _ (λ i. simp reads) (λ i. simp reads) (λ i. simp reads) (λ i. simp reads)
        (λ i. simp reads)

  put_predicted_at :
      (db : Db) (e : TEntity) (prev : Option ℕ)
      → view (Repo.put_predicted O R B C db (record { state = e; prev_state_id = prev }))
        ≡ View.put_predicted O (view db) (record { state = e; prev_state_id = prev })
  unfolding view Repo.put_predicted bytes_eq
  put_predicted_at db e none =
      View-eq _ _ (λ i. simp reads) (λ i. simp reads) (λ i. simp reads) (λ i. simp reads)
        (λ i. simp reads)
  put_predicted_at db e (some prev) =
      View-eq _ _ (λ i. simp reads) (λ i. simp reads) (λ i. simp reads) (λ i. simp reads)
        (λ i. simp reads)

  pub view-put_predicted :
      (db : Db) (t : Traced TEntity)
      → view (Repo.put_predicted O R B C db t) ≡ View.put_predicted O (view db) t
  view-put_predicted db t = put_predicted_at db t.state t.prev_state_id

  pub view-eliminate :
      (db : Db) (e : TEntity) → view (Repo.eliminate O R B C db e) ≡ View.eliminate O (view db) e
  unfolding view Repo.eliminate bytes_eq
  view-eliminate db e =
      View-eq _ _ (λ i. simp reads) (λ i. simp reads) (λ i. simp reads) (λ i. simp reads)
        (λ i. simp reads)

  invalidate_at :
      (db : Db) (sid eid : ℕ) (predecessor : Option ℕ)
      → view (
          delete
            (delete
              (Repo.rollback O R B C db eid predecessor)
              (prefixed_key B prediction_link_prefix sid))
            (prefixed_key B last_unconfirmed_prefix eid))
        ≡ record (view db) {
          link = View.at sid none (read de_id prediction_link_prefix db);
          confirmed = View.at eid predecessor (read de_id last_confirmed_prefix db);
          unconfirmed = View.at eid none (read de_id last_unconfirmed_prefix db);
        }
  unfolding view bytes_eq
  invalidate_at db sid eid none =
      View-eq _ _ (λ i. simp reads) (λ i. simp reads) (λ i. simp reads) (λ i. simp reads)
        (λ i. simp reads)
  invalidate_at db sid eid (some predecessor) =
      View-eq _ _ (λ i. simp reads) (λ i. simp reads) (λ i. simp reads) (λ i. simp reads)
        (λ i. simp reads)

  pub view-invalidate :
      (db : Db) (sid eid : ℕ)
      → view (Repo.invalidate O R B C db sid eid) ≡ View.invalidate O (view db) sid eid
  unfolding view read Repo.invalidate
  view-invalidate db sid eid =
      invalidate_at db sid eid (Repo.get_prediction_predecessor O R B C db sid)
