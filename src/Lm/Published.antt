-- ===== src/Lm/Published.antt =====
-- `update_schedule` of scheduler.rs in spectrum-offchain-lm/src, up to the `peek` that follows it.
use spectrum_offchain_ergo.Prelude.{
  ℕ, ◌+◌, ◌-◌, ◌%◌, ◌^◌, ◌<◌, ◌≡◌, refl, true, false, some, [], arith, ◌==◌, is_some, bytes_eq,
  bytes_eq_iff,
}
use native.Mathlib.Nat.{mod-eq_of_lt}
use spectrum_offchain_ergo.Prelude.Int.{ℤ}
use spectrum_offchain_ergo.Storage.{Bytes, RocksDb, Bincode, Codec, prefixed_key}
use spectrum_offchain_ergo.Lm.Epochs.{PoolSchedule, next_compounding_at, try_from_schedule}
use spectrum_offchain_ergo.Lm.Schedules.{
  FixedWidths, schedule_prefix, ticks_prefix, deferred_ticks_prefix, tick_key, update_schedule,
  stored_tick, peek,
}
use spectrum_offchain_ergo.Lm.Ticks.{is_pending, is_deferred, bytes_eq-tick_key, prefixes_differ}
use spectrum_offchain_ergo.Lm.Peek.{peek_lem}

module _ (R : RocksDb) (B : Bincode) (W : FixedWidths B) (C : Codec PoolSchedule) where
  open R use {Db, get, put, delete, get-put, get-delete}
  open C use {serialize, deserialize, deserialize-serialize}

  past_delete :
      (d : Db) (k j v : Bytes)
      → bytes_eq k j ≡ false
      → get d j ≡ some v
      → get (delete d k) j ≡ some v
  past_delete d k j v ne e = ground (arith, ne, e, get-delete d k j)

  put_self : (d : Db) (k v : Bytes) → get (put d k v) k ≡ some v
  put_self d k v = ground (arith, get-put d k v k, bytes_eq_iff k k)

  other_height :
      (p h g : ℕ)
      → (h == g) ≡ false
      → bytes_eq (tick_key R B W C ticks_prefix p h) (tick_key R B W C ticks_prefix p g) ≡ false
  other_height p h g ne =
      ground (arith, ne, bytes_eq-tick_key R B W C ticks_prefix ticks_prefix p p h g)

  bytes_eq_flip : (a b : Bytes) → bytes_eq a b ≡ false → bytes_eq b a ≡ false
  bytes_eq_flip a b ne = ground (arith, ne, bytes_eq_iff a b, bytes_eq_iff b a)

  module _ (db : Db) (sc : PoolSchedule) (next : ℕ) (e : next_compounding_at sc ≡ some next)
      (untried : is_deferred R B W C db sc.pool_id next ≡ false)
      (fresh : is_pending R B W C db sc.pool_id next ≡ false) where
    update_schedule-pending :
        0 < sc.epoch_len
        → 0 < next
        → next + sc.epoch_len < 2 ^ 32
        → is_pending R B W C (update_schedule R B W C db sc).0 sc.pool_id next ≡ true
    unfolding update_schedule tick_key
    update_schedule-pending pos started small =
        let p = sc.pool_id in
        let later = (next + sc.epoch_len) % 2 ^ 32 in
        let earlier = next - sc.epoch_len in
        let whole : later ≡ next + sc.epoch_len = mod-eq_of_lt small in
        let ne1 = other_height p earlier next (ground (arith, pos, started)) in
        let ne2 = other_height p later next (ground (arith, pos, whole)) in
        let ne3 = (prefixes_differ R B W C p p earlier next).1 in
        let ne4 = (prefixes_differ R B W C p p later next).1 in
        let there = past_delete _ _ _ [] ne4 (
          past_delete _ _ _ [] ne3 (
            past_delete _ _ _ [] ne2 (
              past_delete _ _ _ [] ne1 (
                put_self (put db (prefixed_key B schedule_prefix p) (serialize sc))
                  (tick_key R B W C ticks_prefix p next) [])))) in
        rw (e, update_schedule, untried, fresh, there) refl

    update_schedule-stored :
        get (update_schedule R B W C db sc).0 (prefixed_key B schedule_prefix sc.pool_id)
        ≡ some (serialize sc)
    unfolding update_schedule prefixed_key
    update_schedule-stored =
        let p = sc.pool_id in
        let k = prefixed_key B schedule_prefix p in
        let apart = λ (h : ℕ).
          bytes_eq_flip k (tick_key R B W C ticks_prefix p h) (prefixes_differ R B W C p p 0 h).2 in
        let apart_deferred = λ (h : ℕ).
          bytes_eq_flip k (tick_key R B W C deferred_ticks_prefix p h)
            (prefixes_differ R B W C p p 0 h).3 in
        let written = put_self db k (serialize sc) in
        let tick_written : get
              (put (put db k (serialize sc)) (tick_key R B W C ticks_prefix p next) []) k
            ≡ some (serialize sc) =
          ground (
            arith,
            apart next,
            written,
            get-put (put db k (serialize sc)) (tick_key R B W C ticks_prefix p next) [] k,
          ) in
        let there = past_delete _ _ _ _ (apart_deferred ((next + sc.epoch_len) % 2 ^ 32)) (
          past_delete _ _ _ _ (apart_deferred (next - sc.epoch_len)) (
            past_delete _ _ _ _ (apart ((next + sc.epoch_len) % 2 ^ 32))
              (past_delete _ _ _ _ (apart (next - sc.epoch_len)) tick_written))) in
        rw (e, update_schedule, untried, fresh) there

    -- A schedule that has a next tick, which is neither pending nor deferred, is stored by
    -- `update_schedule`, its next tick is pending after, and `peek` gives a tick, at any time. Epochs
    -- have a length, the tick is after height 0, and the height of the tick after it fits in 32
    -- bits.
    pub peek-update_schedule :
        (ts_now : ℤ)
        → 0 < sc.epoch_len
        → 0 < next
        → next + sc.epoch_len < 2 ^ 32
        → (stored_tick R B W C (update_schedule R B W C db sc).0 (some sc.pool_id)
            ≡ try_from_schedule sc)
          × (is_pending R B W C (update_schedule R B W C db sc).0 sc.pool_id next ≡ true)
          × (is_some (peek R B W C (update_schedule R B W C db sc).0 ts_now) ≡ true)
    unfolding stored_tick try_from_schedule
    peek-update_schedule ts_now pos started small =
        let after = (update_schedule R B W C db sc).0 in
        let pending = update_schedule-pending pos started small in
        let parsed = deserialize-serialize sc in
        let stored : stored_tick R B W C after (some sc.pool_id) ≡ try_from_schedule sc =
          ground (arith, update_schedule-stored, parsed) in
        let next_tick : is_some (try_from_schedule sc) ≡ true = rw (try_from_schedule, e) refl in
        let peeked =
          (peek_lem R B W C after ts_now).1 sc.pool_id next pending (rw stored next_tick) in
        (stored, pending, peeked)
