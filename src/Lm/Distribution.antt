-- ===== src/Lm/Distribution.antt =====
-- scheduler/process.rs of spectrum-offchain-lm/src: the stream that turns the ticks of schedules into
-- compoundings.
use spectrum_offchain_ergo.Prelude.{
  ℕ, zero, suc, ◌+◌, Bool, false, ◌&&◌, Option, none, some, List, [], ◌∷◌, leb, ◌==◌, if◌then◌else◌,
  length, take, drop,
}
use spectrum_offchain_ergo.Prelude.Int.{ℤ, pos, ◌+ℤ◌}
use spectrum_offchain_ergo.Storage.{RocksDb, Bincode, Codec}
use spectrum_offchain_ergo.Executor.Order.{Backlog}
use spectrum_offchain_ergo.Lm.Types.{AsBox}
use spectrum_offchain_ergo.Lm.Epochs.{PoolSchedule, Tick}
use spectrum_offchain_ergo.Lm.Schedules.{FixedWidths, peek, defer, remove}
use spectrum_offchain_ergo.Lm.Bundles.{IndexedBundle, Words, select}
use spectrum_offchain_ergo.Lm.Orders.{
  Compound, Order, deposit, redeem, compound, ErgoLib, order_entity,
}
pub mod Batches

abbrev pub tick_suspension_duration : ℤ
tick_suspension_duration = pos 1800

-- `sort` of a Vec of identifiers
unfoldable pub insert_sorted : ℕ → List ℕ → List ℕ
insert_sorted x [] = x ∷ []
insert_sorted x (y ∷ ys) = let rest = insert_sorted x ys in if leb x y then x ∷ y ∷ ys else y ∷ rest

unfoldable pub sort : List ℕ → List ℕ
unfolding insert_sorted
sort [] = []
sort (x ∷ xs) = insert_sorted x (sort xs)

-- `chunks` of a slice, for a size above zero; the fuel is its length
unfoldable pub chunks_loop : ℕ → ℕ → List ℕ → List (List ℕ)
chunks_loop zero size xs = []
chunks_loop (suc fuel) size [] = []
chunks_loop (suc fuel) size (x ∷ xs) =
    take size (x ∷ xs) ∷ chunks_loop fuel size (drop size (x ∷ xs))

unfoldable pub chunks : ℕ → List ℕ → List (List ℕ)
unfolding chunks_loop
chunks size xs = chunks_loop (length xs) size xs

-- the compoundings of the chunks, from the queue index on
unfoldable pub compounds : Tick → ℕ → List (List ℕ) → List Compound
compounds tick queue_ix [] = []
compounds tick queue_ix (xs ∷ chunks) =
    record { pool_id = tick.pool_id; epoch_ix = tick.epoch_ix; queue_ix = queue_ix; stakers = xs }
    ∷ compounds tick (suc queue_ix) chunks

-- the orders that are complete with the epoch
unfoldable pub is_compound_of : Tick → Order → Bool
is_compound_of tick (compound c) = (c.epoch_ix == tick.epoch_ix) && (c.pool_id == tick.pool_id)
is_compound_of tick (deposit d) = false
is_compound_of tick (redeem r) = false

module _ (E : ErgoLib) (L : Backlog Order) (R : RocksDb) (B : Bincode) (U : Words)
    (BC : Codec (AsBox IndexedBundle)) (W : FixedWidths B) (SC : Codec PoolSchedule) where
  open L use {Service}
  open R use {Db}

  -- what the stream shares with the others; it only reads the bundles
  pub record Shared : Type 0 where
    pub backlog : Service
    pub schedules : Db

  unfoldable pub remove_orders : Service → List Order → Service
  remove_orders b [] = b
  remove_orders b (ord ∷ ords) = remove_orders (L.remove b ((order_entity E).get_self_ref ord)) ords

  unfoldable pub put_orders : Service → ℤ → List Compound → Service
  put_orders b ts_now [] = b
  put_orders b ts_now (c ∷ cs) =
      put_orders (L.put b (record { order = compound c; timestamp = ts_now })) ts_now cs

  -- the branch for an epoch with no stakers left
  unfoldable pub finish_epoch : Shared → Tick → ℤ → Shared
  unfolding remove_orders is_compound_of
  finish_epoch w tick ts_now = record {
    backlog = remove_orders w.backlog (L.find_orders w.backlog (is_compound_of tick));
    schedules =
        remove R B W SC (defer R B W SC w.schedules tick (ts_now +ℤ tick_suspension_duration)) tick;
  }

  -- the branch for stakers; `none` where `chunks` panics at zero
  unfoldable pub compound_epoch : ℕ → Shared → Tick → ℤ → List ℕ → Option Shared
  unfolding put_orders chunks compounds
  compound_epoch batch_size w tick ts_now stakers =
      if batch_size == 0
      then none
      else some (record {
        backlog = put_orders w.backlog ts_now (compounds tick 0 (chunks batch_size stakers));
        schedules = defer R B W SC w.schedules tick (ts_now +ℤ tick_suspension_duration);
      })

  -- a tick that is due; `none` where `select` panics
  unfoldable pub process_tick : ℕ → Db → Shared → Tick → ℤ → Option Shared
  unfolding sort finish_epoch compound_epoch
  process_tick batch_size bundles w tick ts_now =
      elim (select R B U BC bundles tick.pool_id tick.epoch_ix) [
        | none ↦ none
        | some selected ↦
            let stakers = sort selected in
            elim stakers [
              | [] ↦ some (finish_epoch w tick ts_now)
              | s ∷ more ↦ compound_epoch batch_size w tick ts_now (s ∷ more)
            ]
      ]

  -- The body of `distribution_stream`. The clock is read by `peek` and again later.
  unfoldable pub distribution_step : ℕ → Db → Bool → ℕ → ℤ → ℤ → Shared → Option Shared
  unfolding process_tick
  distribution_step batch_size bundles tip_reached height_now ts_peek ts_now w =
      if tip_reached
      then elim (peek R B W SC w.schedules ts_peek) [
        | none ↦ some w
        | some tick ↦
            let processed = process_tick batch_size bundles w tick ts_now in
            if leb tick.height height_now then processed else some w
      ]
      else some w
