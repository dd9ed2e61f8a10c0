-- ===== src/Lm/Programs.antt =====
-- program/rocksdb.rs and event_sink/handlers/program.rs of spectrum-offchain-lm/src: the registry of
-- programs, and the handler that fills it.
use mathlib.Core.Option
use spectrum_offchain_ergo.Prelude.{
  ℕ, ◌≡◌, inl, inr, refl, ◌∙◌, Bool, true, false, Option, none, some, List, [], ◌∷◌, arith, ==_iff,
  if◌then◌else◌, is_some, Elem, Bool-cases,
}
use spectrum_offchain_ergo.Storage.{RocksDb, Bincode, Codec}
use spectrum_offchain_ergo.Prelude.Int.{ℤ}
use spectrum_offchain_ergo.Events.Source.{Transaction, LedgerTxEvent, applied_tx, unapplied_tx}
use spectrum_offchain_ergo.Events.Sink.{EventHandler}
use spectrum_offchain_ergo.Lm.Pool.{ProgramConfig, Pool}

module _ (R : RocksDb) (B : Bincode) (C : Codec ProgramConfig) where
  open R use {Db, get as read, put as write, get-put}
  open B use {ser_id, bytes_eq-ser_id}
  open C use {serialize, deserialize, deserialize-serialize}

  unfoldable pub put : Db → ℕ → ProgramConfig → Db
  put db pool_id conf = write db (ser_id pool_id) (serialize conf)

  unfoldable pub get : Db → ℕ → Option ProgramConfig
  get db pool_id = Option.bind (read db (ser_id pool_id)) deserialize

  unfoldable pub exists : Db → ℕ → Bool
  exists db pool_id = is_some (read db (ser_id pool_id))

  module _ {Box : Type 0} (try_from_box : Box → Option Pool) where
    -- the body of the loop over the outputs, with `is_success`
    unfoldable pub put_new : Bool × Db → Option Pool → Bool × Db
    unfolding put exists
    put_new (is_success, db) none = (is_success, db)
    put_new (is_success, db) (some pool) =
        if exists db pool.pool_id then (is_success, db) else (true, put db pool.pool_id pool.conf)

    unfoldable pub put_outputs : List Box → Bool × Db → Bool × Db
    unfolding put_new
    put_outputs [] acc = acc
    put_outputs (o ∷ outputs) acc = put_outputs outputs (put_new acc (try_from_box o))

    -- `ConfirmedProgramUpdateHandler::try_handle`
    unfoldable pub program_try_handle : EventHandler Db (LedgerTxEvent (Transaction Box))
    unfolding put_outputs
    program_try_handle db (applied_tx timestamp tx) =
        let (is_success, db') = put_outputs tx.outputs (false, db) in
        (if is_success then none else some (applied_tx timestamp tx), db')
    program_try_handle db (unapplied_tx tx) = (some (unapplied_tx tx), db)

    get-put_new :
        (acc : Bool × Db) (p : Option Pool) (id : ℕ)
        → exists acc.1 id ≡ true
        → (get (put_new acc p).1 id ≡ get acc.1 id) × (exists (put_new acc p).1 id ≡ true)
    unfolding put_new get exists put
    get-put_new acc none id e = (refl, e)
    get-put_new acc (some pool) id e =
        let written = get-put acc.1 (ser_id pool.pool_id) (serialize pool.conf) (ser_id id) in
        elim (Bool-cases (exists acc.1 pool.pool_id)) [
          | inl t ↦ ground (arith, t, e)
          | inr f ↦
              ground (arith, f, e, written, bytes_eq-ser_id pool.pool_id id, ==_iff pool.pool_id id)
        ]

    put_new-exists :
        (acc : Bool × Db) (pool : Pool) → exists (put_new acc (some pool)).1 pool.pool_id ≡ true
    unfolding put_new exists put
    put_new-exists acc pool =
        let key = ser_id pool.pool_id in
        let written = get-put acc.1 key (serialize pool.conf) key in
        ground (arith, written, bytes_eq-ser_id pool.pool_id pool.pool_id)

    get-put_outputs :
        (outputs : List Box) (acc : Bool × Db) (id : ℕ)
        → exists acc.1 id ≡ true
        → (get (put_outputs outputs acc).1 id ≡ get acc.1 id)
          × (exists (put_outputs outputs acc).1 id ≡ true)
    unfolding put_outputs
    get-put_outputs [] acc id e = (refl, e)
    get-put_outputs (o ∷ outputs) acc id e =
        let (same, kept) = get-put_new acc (try_from_box o) id e in
        let (rest, still) = get-put_outputs outputs (put_new acc (try_from_box o)) id kept in
        (rest ∙ same, still)

    put_outputs-exists :
        (outputs : List Box) (acc : Bool × Db) (o : Box) (pool : Pool)
        → Elem o outputs
        → try_from_box o ≡ some pool
        → exists (put_outputs outputs acc).1 pool.pool_id ≡ true
    unfolding put_outputs
    put_outputs-exists [] acc o pool m e = absurd m
    put_outputs-exists (o' ∷ outputs) acc o pool (inl same) e =
        let is : try_from_box o' ≡ some pool = ground (arith, same, e) in
        let now : exists (put_new acc (try_from_box o')).1 pool.pool_id ≡ true =
          rw is (put_new-exists acc pool) in
        (get-put_outputs outputs (put_new acc (try_from_box o')) pool.pool_id now).1
    put_outputs-exists (o' ∷ outputs) acc o pool (inr m) e =
        put_outputs-exists outputs (put_new acc (try_from_box o')) o pool m e

    -- The configuration of a program that is known never changes, whatever the event; after a
    -- transaction that is applied, the program of each pool among its outputs is known; and one that
    -- is unapplied leaves the registry as it is.
    pub program_try_handle_lem :
        (db : Db) (ev : LedgerTxEvent (Transaction Box))
        → ((id : ℕ) → exists db id ≡ true → get (program_try_handle db ev).1 id ≡ get db id)
          × ((ts : ℤ) (tx : Transaction Box) (o : Box) (pool : Pool)
              → ev ≡ applied_tx ts tx
              → Elem o tx.outputs
              → try_from_box o ≡ some pool
              → exists (program_try_handle db ev).1 pool.pool_id ≡ true)
          × ((tx : Transaction Box) → ev ≡ unapplied_tx tx → (program_try_handle db ev).1 ≡ db)
    unfolding program_try_handle
    program_try_handle_lem db (applied_tx ts tx) = (
      λ id e. (get-put_outputs tx.outputs (false, db) id e).0,
      λ ts' tx' o pool same m e.
          let outs : tx.outputs ≡ tx'.outputs = ground (arith, same) in
          put_outputs-exists tx.outputs (false, db) o pool (rw outs m) e,
      λ tx' same. ground (arith, same),
    )
    program_try_handle_lem db (unapplied_tx tx) =
        (λ id e. refl, λ ts' tx' o pool same m e. ground (arith, same), λ tx' same. refl)
