-- ===== src/Lm/Handlers/Schedule.antt =====
-- schedule.rs of spectrum-offchain-lm/src/event_sink/handlers: the handler of the schedules.
use spectrum_offchain_ergo.Prelude.{
  ℕ, ◌≡◌, inl, inr, Bool, true, false, Option, none, some, List, [], ◌∷◌, arith, if◌then◌else◌,
  Option-cases, Bool-cases, subst,
}
use spectrum_offchain_ergo.Prelude.Int.{pos}
use spectrum_offchain_ergo.Storage.{RocksDb, Bincode, Codec}
use spectrum_offchain_ergo.BoxResolver.Resolve.{EntityRepo}
use spectrum_offchain_ergo.Events.Source.{Transaction, LedgerTxEvent, applied_tx, unapplied_tx}
use spectrum_offchain_ergo.Lm.Types.{AsBox}
use spectrum_offchain_ergo.Lm.Pool.{Pool}
use spectrum_offchain_ergo.Lm.Epochs.{PoolSchedule, Tick}
use spectrum_offchain_ergo.Lm.Progress.{schedule_of}
use spectrum_offchain_ergo.Lm.Schedules.{FixedWidths, update_schedule, clean}
use spectrum_offchain_ergo.Lm.Ticks.{Exclusive, Exclusive-operations}

module _ (R : RocksDb) (B : Bincode) (W : FixedWidths B) (C : Codec PoolSchedule) {Box : Type 0}
    (try_from_box : Box → Option Pool) (P : EntityRepo (AsBox Pool)) where
  open R use {Db}

  -- the schedule of a pool is updated, or cleaned when the program is exhausted; `none` where
  -- `PoolSchedule::from` panics
  unfoldable pub follow : Db → Pool → Option Db
  follow db pool = elim (schedule_of pool) [
    | none ↦ none
    | some schedule ↦
        let (db', goes_on) = update_schedule R B W C db schedule in
        some (if goes_on then db' else clean R B W C db' pool.pool_id)
  ]

  -- the loop over the outputs, with `is_success`
  unfoldable pub follow_outputs : List Box → Bool × Db → Option (Bool × Db)
  unfolding follow
  follow_outputs [] acc = some acc
  follow_outputs (o ∷ outputs) (is_success, db) = elim (try_from_box o) [
    | none ↦ follow_outputs outputs (is_success, db)
    | some pool ↦ elim (follow db pool) [
      | none ↦ none
      | some db' ↦ follow_outputs outputs (true, db')
    ]
  ]

  -- the loop over the inputs, which goes back to the states that they spent
  unfoldable pub follow_inputs : P.Repo → List ℕ → Bool × Db → Option (Bool × Db)
  unfolding follow
  follow_inputs pools [] acc = some acc
  follow_inputs pools (sid ∷ inputs) (is_success, db) =
      elim (if P.may_exist pools sid then P.get_state pools sid else none) [
        | none ↦ follow_inputs pools inputs (is_success, db)
        | some b ↦ elim (follow db b.entity) [
          | none ↦ none
          | some db' ↦ follow_inputs pools inputs (true, db')
        ]
      ]

  -- `ConfirmedScheduleUpdateHandler::try_handle`
  unfoldable pub schedule_try_handle :
      P.Repo
      → Db
      → LedgerTxEvent (Transaction Box)
      → Option (Option (LedgerTxEvent (Transaction Box)) × Db)
  unfolding follow_outputs follow_inputs
  schedule_try_handle pools db (applied_tx timestamp tx) =
      elim (follow_outputs tx.outputs (false, db)) [
        | none ↦ none
        | some (is_success, db') ↦
            some (if is_success then none else some (applied_tx timestamp tx), db')
      ]
  schedule_try_handle pools db (unapplied_tx tx) =
      elim (follow_inputs pools tx.inputs (false, db)) [
        | none ↦ none
        | some (is_success, db') ↦ some (if is_success then none else some (unapplied_tx tx), db')
      ]

  abbrev Keeps : Option (Bool × Db) → Type 0
  Keeps none = Unit
  Keeps (some (b, db)) = Exclusive R B W C db

  follow-Exclusive :
      (db db' : Db) (pool : Pool)
      → Exclusive R B W C db
      → follow db pool ≡ some db'
      → Exclusive R B W C db'
  unfolding follow
  follow-Exclusive db db' pool ex e = elim (Option-cases (schedule_of pool)) [
    | inl z ↦ absurd (ground (arith, e, z))
    | inr (sc, z) ↦
        let some_tick : Tick = record { pool_id = 0; epoch_ix = 0; height = 0 } in
        let updated = update_schedule R B W C db sc in
        let kept = (Exclusive-operations R B W C db sc some_tick (pos 0) 0 ex).0 in
        let cleaned =
          (Exclusive-operations R B W C updated.0 sc some_tick (pos 0) pool.pool_id kept).3 in
        elim (Bool-cases updated.1) [
          | inl t ↦
              let same : updated.0 ≡ db' = ground (arith, e, z, t) in
              subst (Exclusive R B W C) same kept
          | inr f ↦
              let same : clean R B W C updated.0 pool.pool_id ≡ db' = ground (arith, e, z, f) in
              subst (Exclusive R B W C) same cleaned
        ]
  ]

  follow_outputs-Keeps :
      (outputs : List Box) (b : Bool) (db : Db)
      → Exclusive R B W C db
      → Keeps (follow_outputs outputs (b, db))
  unfolding follow_outputs
  follow_outputs-Keeps [] b db ex = ex
  follow_outputs-Keeps (o ∷ outputs) b db ex = elim (Option-cases (try_from_box o)) [
    | inl z ↦ rw (z, follow_outputs) (follow_outputs-Keeps outputs b db ex)
    | inr (pool, z) ↦ elim (Option-cases (follow db pool)) [
      | inl y ↦ rw (z, follow_outputs) (rw (y, follow_outputs) tt)
      | inr (db', y) ↦
          rw (z, follow_outputs)
            (rw (y, follow_outputs)
              (follow_outputs-Keeps outputs true db' (follow-Exclusive db db' pool ex y)))
    ]
  ]

  abbrev spent_state : P.Repo → ℕ → Option (AsBox Pool)
  spent_state pools sid = if P.may_exist pools sid then P.get_state pools sid else none

  follow_inputs-Keeps :
      (pools : P.Repo) (inputs : List ℕ) (b : Bool) (db : Db)
      → Exclusive R B W C db
      → Keeps (follow_inputs pools inputs (b, db))
  unfolding follow_inputs
  follow_inputs-Keeps pools [] b db ex = ex
  follow_inputs-Keeps pools (sid ∷ inputs) b db ex = elim (Option-cases (spent_state pools sid)) [
    | inl z ↦ rw (z, follow_inputs) (follow_inputs-Keeps pools inputs b db ex)
    | inr (bx, z) ↦ elim (Option-cases (follow db bx.entity)) [
      | inl y ↦ rw (z, follow_inputs) (rw (y, follow_inputs) tt)
      | inr (db', y) ↦
          rw (z, follow_inputs)
            (rw (y, follow_inputs)
              (follow_inputs-Keeps pools inputs true db' (follow-Exclusive db db' bx.entity ex y)))
    ]
  ]

  -- The handler of schedules keeps every tick from being both pending and deferred, for a transaction
  -- that is applied and for one that is unapplied.
  pub schedule_try_handle-Exclusive :
      (pools : P.Repo) (db : Db) (ev : LedgerTxEvent (Transaction Box))
      (back : Option (LedgerTxEvent (Transaction Box))) (db' : Db)
      → Exclusive R B W C db
      → schedule_try_handle pools db ev ≡ some (back, db')
      → Exclusive R B W C db'
  unfolding schedule_try_handle
  schedule_try_handle-Exclusive pools db (applied_tx ts tx) back db' ex e =
      let kept = follow_outputs-Keeps tx.outputs false db ex in
      elim (Option-cases (follow_outputs tx.outputs (false, db))) [
        | inl z ↦ absurd (ground (arith, e, z))
        | inr ((b, db1), z) ↦
            let same : db1 ≡ db' = ground (arith, e, z) in
            subst (Exclusive R B W C) same (subst Keeps z kept)
      ]
  schedule_try_handle-Exclusive pools db (unapplied_tx tx) back db' ex e =
      let kept = follow_inputs-Keeps pools tx.inputs false db ex in
      elim (Option-cases (follow_inputs pools tx.inputs (false, db))) [
        | inl z ↦ absurd (ground (arith, e, z))
        | inr ((b, db1), z) ↦
            let same : db1 ≡ db' = ground (arith, e, z) in
            subst (Exclusive R B W C) same (subst Keeps z kept)
      ]
