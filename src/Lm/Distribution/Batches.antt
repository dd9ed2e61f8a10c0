-- ===== src/Lm/Distribution/Batches.antt =====
-- What scheduler/process.rs of spectrum-offchain-lm/src makes of a tick that is due.
use spectrum_offchain_ergo.Prelude.{
  ℕ, zero, suc, ◌+◌, ◌≤◌, ◌<◌, ◌≡◌, ◌⊎◌, inl, inr, refl, ap, ◌∙◌, Bool, true, false, some, List, [],
  ◌∷◌, ◌++◌, arith, leb, ◌==◌, bytes_eq_iff, length, take, drop, count, length-take, length-drop,
  take-append-drop, Bool-cases,
}
use spectrum_offchain_ergo.Prelude.Int.{ℤ, ◌+ℤ◌}
use spectrum_offchain_ergo.Storage.{RocksDb, Bincode, Codec}
use spectrum_offchain_ergo.Executor.Order.{Backlog}
use spectrum_offchain_ergo.Lm.Types.{AsBox}
use spectrum_offchain_ergo.Lm.Epochs.{PoolSchedule, Tick}
use spectrum_offchain_ergo.Lm.Schedules.{
  FixedWidths, ticks_prefix, deferred_ticks_prefix, tick_key, defer, remove,
}
use spectrum_offchain_ergo.Lm.Ticks.{is_pending, is_deferred, prefixes_differ}
use spectrum_offchain_ergo.Lm.Bundles.{IndexedBundle, Words, select}
use spectrum_offchain_ergo.Lm.Orders.{Compound, Order, ErgoLib}
use spectrum_offchain_ergo.Lm.Distribution.{
  tick_suspension_duration, insert_sorted, sort, chunks_loop, chunks, compounds, is_compound_of,
  Shared, remove_orders, put_orders, finish_epoch, compound_epoch, process_tick,
}

abbrev times : ℕ → List ℕ → ℕ
times b xs = count (λ x. x == b) xs

times-insert_sorted : (b x : ℕ) (xs : List ℕ) → times b (insert_sorted x xs) ≡ times b (x ∷ xs)
unfolding insert_sorted count
times-insert_sorted b x [] = refl
times-insert_sorted b x (y ∷ ys) = ground (arith, times-insert_sorted b x ys)

times-sort : (b : ℕ) (xs : List ℕ) → times b (sort xs) ≡ times b xs
unfolding sort count
times-sort b [] = refl
times-sort b (x ∷ xs) = ground (arith, times-insert_sorted b x (sort xs), times-sort b xs)

times-append : (b : ℕ) (xs ys : List ℕ) → times b (xs ++ ys) ≡ times b xs + times b ys
unfolding count
times-append b [] ys = omega arith
times-append b (x ∷ xs) ys = ground (arith, times-append b xs ys)

-- all stakers of the compoundings
abbrev pub stakers_of : List Compound → List ℕ
stakers_of [] = []
stakers_of (c ∷ cs) = c.stakers ++ stakers_of cs

-- compoundings of the epoch of a tick, numbered, each of some stakers and no more than the size
abbrev pub AllBatches : Tick → ℕ → ℕ → List Compound → Type 0
AllBatches tick size queue_ix [] = Unit
AllBatches tick size queue_ix (c ∷ cs) =
    (c.pool_id ≡ tick.pool_id)
    × (c.epoch_ix ≡ tick.epoch_ix)
    × (c.queue_ix ≡ queue_ix)
    × (0 < length c.stakers)
    × (length c.stakers ≤ size)
    × AllBatches tick size (suc queue_ix) cs

compounds-chunks_loop :
    (tick : Tick) (size fuel queue_ix : ℕ) (xs : List ℕ)
    → 0 < size
    → length xs ≤ fuel
    → let cs = compounds tick queue_ix (chunks_loop fuel size xs) in
      (stakers_of cs ≡ xs) × AllBatches tick size queue_ix cs
unfolding compounds chunks_loop
compounds-chunks_loop tick size zero queue_ix [] pos h = (refl, tt)
compounds-chunks_loop tick size zero queue_ix (x ∷ xs) pos h = absurd (omega (arith, h))
compounds-chunks_loop tick size (suc fuel) queue_ix [] pos h = (refl, tt)
compounds-chunks_loop tick size (suc fuel) queue_ix (x ∷ xs) pos h =
    let all = x ∷ xs in
    let left = length-drop size all in
    let taken = length-take size all in
    let (rest, batches) =
      compounds-chunks_loop tick size fuel (suc queue_ix) (drop size all) pos
        (omega (arith, left, pos, h)) in
    (
      ap (λ (ys : List ℕ). take size all ++ ys) rest ∙ take-append-drop size all,
      (refl, refl, refl, omega (arith, taken, pos), omega (arith, taken), batches),
    )

insert_sorted_cons : (x : ℕ) (xs : List ℕ) → (y : ℕ) × (ys : List ℕ) × (insert_sorted x xs ≡ y ∷ ys)
unfolding insert_sorted
insert_sorted_cons x [] = (x, [], refl)
insert_sorted_cons x (y ∷ ys) = elim (Bool-cases (leb x y)) [
  | inl t ↦ (x, y ∷ ys, rw t refl)
  | inr f ↦ (y, insert_sorted x ys, rw f refl)
]

sort_cons : (x : ℕ) (xs : List ℕ) → (y : ℕ) × (ys : List ℕ) × (sort (x ∷ xs) ≡ y ∷ ys)
unfolding sort
sort_cons x xs = insert_sorted_cons x (sort xs)

module _ (E : ErgoLib) (L : Backlog Order) (R : RocksDb) (B : Bincode) (U : Words)
    (BC : Codec (AsBox IndexedBundle)) (W : FixedWidths B) (SC : Codec PoolSchedule) where
  open R use {Db, get, put, delete, get-put, get-delete}
  open B use {ser_i64}

  abbrev pending_after : Db → Tick → Bool
  pending_after db tick = is_pending R B W SC db tick.pool_id tick.height

  abbrev deferred_after : Db → Tick → Bool
  deferred_after db tick = is_deferred R B W SC db tick.pool_id tick.height

  defer_lem :
      (db : Db) (tick : Tick) (until : ℤ)
      → (pending_after (defer R B W SC db tick until) tick ≡ false)
        × (deferred_after (defer R B W SC db tick until) tick ≡ true)
  unfolding defer
  defer_lem db tick until =
      let pending = tick_key R B W SC ticks_prefix tick.pool_id tick.height in
      let deferred = tick_key R B W SC deferred_ticks_prefix tick.pool_id tick.height in
      let apart = prefixes_differ R B W SC tick.pool_id tick.pool_id tick.height tick.height in
      let db' = delete db pending in
      (
        ground (
          arith,
          get-put db' deferred (ser_i64 until) pending,
          get-delete db pending pending,
          apart.1,
          bytes_eq_iff pending pending,
        ),
        ground
            (arith, get-put db' deferred (ser_i64 until) deferred, bytes_eq_iff deferred deferred),
      )

  remove-defer :
      (db : Db) (tick : Tick) (until : ℤ)
      → let after = remove R B W SC (defer R B W SC db tick until) tick in
        (pending_after after tick ≡ false) × (deferred_after after tick ≡ false)
  unfolding remove
  remove-defer db tick until =
      let pending = tick_key R B W SC ticks_prefix tick.pool_id tick.height in
      let deferred = tick_key R B W SC deferred_ticks_prefix tick.pool_id tick.height in
      let db' = defer R B W SC db tick until in
      (
        ground (arith, get-delete db' deferred pending, (defer_lem db tick until).0),
        ground (arith, get-delete db' deferred deferred, bytes_eq_iff deferred deferred),
      )

  -- A tick that is due, with batches of some size: the step ends, and the tick is no longer pending.
  -- With stakers left, the backlog is given new compoundings of the epoch, numbered from 0, none empty
  -- and none larger than the size, in which each staker stands as often as it was selected; and the
  -- tick is deferred. With none left, the compoundings of the epoch are taken out of the backlog, and
  -- the tick is not deferred either.
  pub process_tick_lem :
      (batch_size : ℕ) (bundles : Db) (w : Shared E L R B U BC W SC) (tick : Tick) (ts_now : ℤ)
      (selected : List ℕ)
      → 0 < batch_size
      → select R B U BC bundles tick.pool_id tick.epoch_ix ≡ some selected
      → (out : Shared E L R B U BC W SC) × (process_tick E L R B U BC W SC batch_size bundles w tick
            ts_now
          ≡ some out)
        × (pending_after out.schedules tick ≡ false)
        × (((0 < length selected)
              × (deferred_after out.schedules tick ≡ true)
              × ((cs : List Compound) × (out.backlog
                    ≡ put_orders E L R B U BC W SC w.backlog ts_now cs)
                  × AllBatches tick batch_size 0 cs
                  × ((b : ℕ) → times b (stakers_of cs) ≡ times b selected)))
            ⊎ ((selected ≡ [])
                × (deferred_after out.schedules tick ≡ false)
                × (out.backlog
                    ≡ remove_orders E L R B U BC W SC w.backlog
                        (L.find_orders w.backlog (is_compound_of tick)))))
  unfolding process_tick finish_epoch compound_epoch chunks
  process_tick_lem batch_size bundles w tick ts_now [] pos e =
      let until = ts_now +ℤ tick_suspension_duration in
      let out = finish_epoch E L R B U BC W SC w tick ts_now in
      let gone = remove-defer w.schedules tick until in
      (out, rw (e, process_tick) refl, gone.0, inr (refl, gone.1, refl))
  process_tick_lem batch_size bundles w tick ts_now (x ∷ xs) pos e =
      let until = ts_now +ℤ tick_suspension_duration in
      let stakers = sort (x ∷ xs) in
      let (s, more, is) = sort_cons x xs in
      let cs = compounds tick 0 (chunks batch_size stakers) in
      let (all, batches) =
        compounds-chunks_loop tick batch_size (length stakers) 0 stakers pos (omega arith) in
      let waits = defer_lem w.schedules tick until in
      let out : Shared E L R B U BC W SC = record {
        backlog = put_orders E L R B U BC W SC w.backlog ts_now cs;
        schedules = defer R B W SC w.schedules tick until;
      } in
      let some_size : (batch_size == 0) ≡ false = ground (arith, pos) in
      (
        out,
        rw (e, process_tick) (rw (is, process_tick) (rw (some_size, process_tick) refl)),
        waits.0,
        inl (
          omega arith,
          waits.1,
          (cs, refl, batches, λ b. ap (times b) all ∙ times-sort b (x ∷ xs)),
        ),
      )
