-- ===== src/Events/Order.antt =====
-- event_sink/handlers/order.rs: `OrderUpdatesHandler`, for the ledger and for the memory pool, and
-- backlog/process.rs: `backlog_stream`, which takes its updates.
use spectrum_offchain_ergo.Prelude.{
  ℕ, ◌≡◌, refl, ap, ◌∙◌, inl, inr, Bool, true, false, ◌||◌, Option, none, some, List, [], ◌∷◌, ◌++◌,
  arith, if◌then◌else◌, append_assoc, append_nil, Bool-cases, Option-cases,
}
use spectrum_offchain_ergo.Prelude.Int.{ℤ, ◌-ℤ◌, ltb_ℤ}
use spectrum_offchain_ergo.Data.{OrderUpdate, new_order, order_eliminated}
use spectrum_offchain_ergo.MempoolSync.State.{
  MempoolUpdate, tx_accepted, tx_withdrawn, tx_confirmed,
}
use spectrum_offchain_ergo.Events.Source.{Transaction, LedgerTxEvent, applied_tx, unapplied_tx}
use spectrum_offchain_ergo.Events.Sink.{Sink, EventHandler, feed, flush}

-- The backlog is asked only whether an order exists; `clock` gives `Utc::now().timestamp()`.
pub record OrderContext : Type 1 where
  pub TOrd : Type 0
  pub Box : Type 0
  pub get_self_ref : TOrd → ℕ
  pub try_from_box : Box → Option TOrd
  pub exists : ℕ → Bool
  pub order_lifespan_millis : ℤ

module _ (E : OrderContext) where
  open E use {TOrd, Box, get_self_ref, try_from_box, exists, order_lifespan_millis}

  -- The loop over the inputs, with `is_success`.
  unfoldable pub feed_inputs :
      List ℕ → Bool × Sink (OrderUpdate TOrd) → Bool × Sink (OrderUpdate TOrd)
  unfolding feed
  feed_inputs [] (is_success, topic) = (is_success, topic)
  feed_inputs (order_id ∷ inputs) (is_success, topic) = feed_inputs inputs (
      if exists order_id
      then (true, feed topic (order_eliminated order_id))
      else (is_success, topic))

  -- The loop over the outputs, with what it feeds for an order.
  unfoldable pub feed_outputs :
      (TOrd → OrderUpdate TOrd)
      → List Box
      → Bool × Sink (OrderUpdate TOrd)
      → Bool × Sink (OrderUpdate TOrd)
  unfolding feed
  feed_outputs update [] (is_success, topic) = (is_success, topic)
  feed_outputs update (bx ∷ outputs) (is_success, topic) =
      feed_outputs update outputs (elim (try_from_box bx) [
        | some order ↦ (true, feed topic (update order))
        | none ↦ (is_success, topic)
      ])

  -- `return None` leaves before the flush
  abbrev pub finish :
      {Ev : Type 0} → Ev → Bool × Sink (OrderUpdate TOrd) → Option Ev × Sink (OrderUpdate TOrd)
  finish ev (is_success, topic) = if is_success then (none, topic) else (some ev, flush topic)

  abbrev pub pending : ℤ → TOrd → OrderUpdate TOrd
  pending ts order = new_order (record { order = order; timestamp = ts })

  abbrev pub eliminated : TOrd → OrderUpdate TOrd
  eliminated order = order_eliminated (get_self_ref order)

  -- `try_handle` of a LedgerTxEvent, at a time in seconds
  unfoldable pub ledger_try_handle :
      ℤ → EventHandler (Sink (OrderUpdate TOrd)) (LedgerTxEvent (Transaction Box))
  unfolding feed_inputs feed_outputs flush
  ledger_try_handle ts_now topic (applied_tx timestamp tx) =
      let spent = feed_inputs tx.inputs (false, topic) in
      let made = feed_outputs (pending ts_now) tx.outputs spent in
      finish (applied_tx timestamp tx)
        (if ltb_ℤ order_lifespan_millis (ts_now -ℤ timestamp) then spent else made)
  ledger_try_handle ts_now topic (unapplied_tx tx) =
      finish (unapplied_tx tx) (feed_outputs eliminated tx.outputs (false, topic))

  -- `try_handle` of a MempoolUpdate
  unfoldable pub mempool_try_handle :
      ℤ → EventHandler (Sink (OrderUpdate TOrd)) (MempoolUpdate (Transaction Box))
  unfolding feed_inputs feed_outputs flush
  mempool_try_handle ts_now topic (tx_accepted tx) =
      finish (tx_accepted tx)
        (feed_outputs (pending ts_now) tx.outputs (feed_inputs tx.inputs (false, topic)))
  mempool_try_handle ts_now topic (tx_withdrawn tx) =
      finish (tx_withdrawn tx) (feed_outputs eliminated tx.outputs (false, topic))
  mempool_try_handle ts_now topic (tx_confirmed tx) = (some (tx_confirmed tx), flush topic)

  -- the updates that the loops feed
  abbrev pub spent_orders : List ℕ → List (OrderUpdate TOrd)
  spent_orders [] = []
  spent_orders (i ∷ inputs) =
      if exists i then order_eliminated i ∷ spent_orders inputs else spent_orders inputs

  abbrev pub made_orders : (TOrd → OrderUpdate TOrd) → List Box → List (OrderUpdate TOrd)
  made_orders update [] = []
  made_orders update (bx ∷ outputs) = elim (try_from_box bx) [
    | some order ↦ update order ∷ made_orders update outputs
    | none ↦ made_orders update outputs
  ]

  abbrev some_fed : List (OrderUpdate TOrd) → Bool
  some_fed [] = false
  some_fed (_ ∷ _) = true

  abbrev pub with_fed : Sink (OrderUpdate TOrd) → List (OrderUpdate TOrd) → Sink (OrderUpdate TOrd)
  with_fed topic updates = record { fed = topic.fed ++ updates; flushed = topic.flushed }

  -- what a handler that feeds these updates gives
  abbrev pub Fed :
      {Ev : Type 0}
      → Ev
      → Sink (OrderUpdate TOrd)
      → List (OrderUpdate TOrd)
      → Option Ev × Sink (OrderUpdate TOrd)
      → Type 0
  Fed ev topic [] out = out ≡ (some ev, record { fed = []; flushed = topic.flushed ++ topic.fed })
  Fed ev topic (u ∷ us) out = out ≡ (none, with_fed topic (u ∷ us))

  feed_inputs_lem :
      (inputs : List ℕ) (ok : Bool) (topic : Sink (OrderUpdate TOrd))
      → feed_inputs inputs (ok, topic)
        ≡ (ok || some_fed (spent_orders inputs), with_fed topic (spent_orders inputs))
  unfolding feed_inputs feed
  feed_inputs_lem [] ok topic = ground (arith, append_nil topic.fed)
  feed_inputs_lem (i ∷ inputs) ok topic = elim (Bool-cases (exists i)) [
    | inl t ↦
        rw (t, feed_inputs)
          (feed_inputs_lem inputs true (feed topic (order_eliminated i))
            ∙ ground
                (arith, append_assoc topic.fed (order_eliminated i ∷ []) (spent_orders inputs)))
    | inr f ↦ rw (f, feed_inputs) (feed_inputs_lem inputs ok topic)
  ]

  feed_outputs_lem :
      (update : TOrd → OrderUpdate TOrd) (outputs : List Box) (ok : Bool)
      (topic : Sink (OrderUpdate TOrd))
      → feed_outputs update outputs (ok, topic)
        ≡ (ok || some_fed (made_orders update outputs), with_fed topic (made_orders update outputs))
  unfolding feed_outputs feed
  feed_outputs_lem update [] ok topic = ground (arith, append_nil topic.fed)
  feed_outputs_lem update (bx ∷ outputs) ok topic = elim (Option-cases (try_from_box bx)) [
    | inr (o, e) ↦
        rw (e, feed_outputs)
          (feed_outputs_lem update outputs true (feed topic (update o))
            ∙ ground (arith, append_assoc topic.fed (update o ∷ []) (made_orders update outputs)))
    | inl e ↦ rw (e, feed_outputs, made_orders) (feed_outputs_lem update outputs ok topic)
  ]

  finish_lem :
      {Ev : Type 0} (ev : Ev) (topic : Sink (OrderUpdate TOrd)) (us : List (OrderUpdate TOrd))
      → Fed ev topic us (finish ev (some_fed us, with_fed topic us))
  unfolding flush
  finish_lem ev topic [] = ground (arith, append_nil topic.fed)
  finish_lem ev topic (u ∷ us) = refl

  some_fed-append :
      (us vs : List (OrderUpdate TOrd)) → (some_fed us || some_fed vs) ≡ some_fed (us ++ vs)
  some_fed-append [] vs = refl
  some_fed-append (u ∷ us) vs = refl

  -- both loops, one after the other
  feed_both :
      (update : TOrd → OrderUpdate TOrd) (tx : Transaction Box) (topic : Sink (OrderUpdate TOrd))
      → feed_outputs update tx.outputs (feed_inputs tx.inputs (false, topic)) ≡ (
        some_fed (spent_orders tx.inputs ++ made_orders update tx.outputs),
        with_fed topic (spent_orders tx.inputs ++ made_orders update tx.outputs),
      )
  feed_both update tx topic =
      let us = spent_orders tx.inputs in
      let vs = made_orders update tx.outputs in
      ap (feed_outputs update tx.outputs) (feed_inputs_lem tx.inputs false topic)
      ∙ feed_outputs_lem update tx.outputs (some_fed us) (with_fed topic us)
      ∙ rw (some_fed-append us vs, append_assoc topic.fed us vs)

  -- the updates for an event: of the orders it spends, and, unless it is late, of those it makes
  abbrev pub ledger_orders : ℤ → LedgerTxEvent (Transaction Box) → List (OrderUpdate TOrd)
  ledger_orders ts_now (applied_tx timestamp tx) =
      if ltb_ℤ order_lifespan_millis (ts_now -ℤ timestamp)
      then spent_orders tx.inputs
      else spent_orders tx.inputs ++ made_orders (pending ts_now) tx.outputs
  ledger_orders ts_now (unapplied_tx tx) = made_orders eliminated tx.outputs

  abbrev pub mempool_orders : ℤ → MempoolUpdate (Transaction Box) → List (OrderUpdate TOrd)
  mempool_orders ts_now (tx_accepted tx) =
      spent_orders tx.inputs ++ made_orders (pending ts_now) tx.outputs
  mempool_orders ts_now (tx_withdrawn tx) = made_orders eliminated tx.outputs
  mempool_orders ts_now (tx_confirmed tx) = []

  -- Of an applied transaction of the ledger the handler feeds, in order, an elimination for each known order
  -- that is spent and, unless the transaction is late, then each order that is made; for one that is
  -- unapplied an elimination of each order that it made. If it feeds anything it takes the event
  -- and leaves the updates unflushed; if not it gives the event back and flushes.
  pub ledger_try_handle_lem :
      (ts_now : ℤ) (topic : Sink (OrderUpdate TOrd)) (ev : LedgerTxEvent (Transaction Box))
      → Fed ev topic (ledger_orders ts_now ev) (ledger_try_handle ts_now topic ev)
  unfolding ledger_try_handle
  ledger_try_handle_lem ts_now topic (applied_tx timestamp tx) =
      elim (Bool-cases (ltb_ℤ order_lifespan_millis (ts_now -ℤ timestamp))) [
        | inl late ↦
            rw (late, ledger_try_handle, feed_inputs_lem tx.inputs false topic)
              (finish_lem (applied_tx timestamp tx) topic (spent_orders tx.inputs))
        | inr fresh ↦
            rw (fresh, ledger_try_handle, feed_both (pending ts_now) tx topic)
              (finish_lem (applied_tx timestamp tx) topic
                (spent_orders tx.inputs ++ made_orders (pending ts_now) tx.outputs))
      ]
  ledger_try_handle_lem ts_now topic (unapplied_tx tx) =
      rw (feed_outputs_lem eliminated tx.outputs false topic)
        (finish_lem (unapplied_tx tx) topic (made_orders eliminated tx.outputs))

  -- Of an accepted transaction the handler feeds, in order, an elimination for each known order
  -- that is spent and then each order that is made; of a withdrawn one an elimination of each
  -- order that it made; of a confirmed one nothing. If it feeds anything it takes the update and
  -- leaves what it fed unflushed; if not it gives the update back and flushes.
  pub mempool_try_handle_lem :
      (ts_now : ℤ) (topic : Sink (OrderUpdate TOrd)) (ev : MempoolUpdate (Transaction Box))
      → Fed ev topic (mempool_orders ts_now ev) (mempool_try_handle ts_now topic ev)
  unfolding mempool_try_handle flush
  mempool_try_handle_lem ts_now topic (tx_accepted tx) = rw (feed_both (pending ts_now) tx topic) (
      finish_lem (tx_accepted tx) topic
        (spent_orders tx.inputs ++ made_orders (pending ts_now) tx.outputs))
  mempool_try_handle_lem ts_now topic (tx_withdrawn tx) =
      rw (feed_outputs_lem eliminated tx.outputs false topic)
        (finish_lem (tx_withdrawn tx) topic (made_orders eliminated tx.outputs))
  mempool_try_handle_lem ts_now topic (tx_confirmed tx) = refl
