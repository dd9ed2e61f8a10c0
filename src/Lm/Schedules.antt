-- ===== src/Lm/Schedules.antt =====
-- scheduler.rs of spectrum-offchain-lm/src: the repository of schedules, in RocksDB.
use spectrum_offchain_ergo.Prelude.{
  ℕ, ◌+◌, ◌-◌, ◌%◌, ◌^◌, ◌≡◌, Bool, true, false, ◌&&◌, not, Option, none, some, List, [], ◌∷◌, ◌++◌,
  ◌==◌, ltb, leb, if◌then◌else◌, is_some, bytes_eq, length, drop,
}
use spectrum_offchain_ergo.Prelude.Int.{ℤ, ltb_ℤ}
use spectrum_offchain_ergo.Storage.{
  Bytes, RocksDb, Bincode, Codec, codes, prefixed_key, raw_prefixed_key,
}
use spectrum_offchain_ergo.Lm.Epochs.{PoolSchedule, Tick, next_compounding_at, try_from_schedule}

unfoldable pub reverse : Bytes → Bytes
reverse [] = []
reverse (x ∷ xs) = reverse xs ++ (x ∷ [])

-- What `bincode` says of a u32 and of the widths: a string has its length in front, in eight
-- bytes, a u32 has four bytes and an identifier 32.
pub record FixedWidths (B : Bincode) : Type 0 where
  pub ser_u32 : ℕ → Bytes
  pub length-ser_str : (s : Bytes) → length (B.ser_str s) ≡ 8 + length s
  pub length-ser_u32 : (h : ℕ) → length (ser_u32 h) ≡ 4
  pub length-ser_id : (i : ℕ) → length (B.ser_id i) ≡ 32
  pub bytes_eq-ser_u32 :
      (h g : ℕ) (a b : Bytes)
      → bytes_eq (reverse (ser_u32 h) ++ a) (reverse (ser_u32 g) ++ b) ≡ ((h == g) && bytes_eq a b)

abbrev pub schedule_prefix : Bytes
schedule_prefix = codes "sc:"

abbrev pub ticks_prefix : Bytes
ticks_prefix = codes "ts:"

abbrev pub deferred_ticks_prefix : Bytes
deferred_ticks_prefix = codes "tr:ts:"

-- the end of `peek`, between a pending tick and a deferred one
unfoldable pub lowest : Option Tick → Option Tick → Option Tick
lowest (some tick) none = some tick
lowest none (some tick) = some tick
lowest (some pending_tick) (some deferred_tick) =
    if ltb pending_tick.height deferred_tick.height then some pending_tick else some deferred_tick
lowest none none = none

module _ (R : RocksDb) (B : Bincode) (W : FixedWidths B) (C : Codec PoolSchedule) where
  open R use {Db, get, put, delete, iterate}
  open B use {ser_str, ser_id, de_id, ser_i64, de_i64}
  open W use {ser_u32}
  open C use {serialize, deserialize}

  unfoldable pub tick_key : Bytes → ℕ → ℕ → Bytes
  tick_key prefix pool_id next_epoch_height =
      raw_prefixed_key B prefix (reverse (ser_u32 next_epoch_height) ++ ser_id pool_id)

  unfoldable pub destructure_tick_key : Bytes → Option ℕ
  destructure_tick_key bytes = if length bytes == 47 then de_id (drop 15 bytes) else none

  unfoldable pub destructure_deferred_tick_key : Bytes → Option ℕ
  destructure_deferred_tick_key bytes = if length bytes == 50 then de_id (drop 18 bytes) else none

  -- `update_schedule`: the store, and whether the program goes on; `saturating_sub` stops at 0,
  -- and the sum wraps.
  unfoldable pub update_schedule : Db → PoolSchedule → Db × Bool
  update_schedule db schedule = elim (next_compounding_at schedule) [
    | none ↦ (db, false)
    | some next_height ↦
        let pid = schedule.pool_id in
        let prev_height = next_height - schedule.epoch_len in
        let after_next_height = (next_height + schedule.epoch_len) % 2 ^ 32 in
        let prev_tried_tick = tick_key deferred_ticks_prefix pid prev_height in
        let after_next_tried_tick = tick_key deferred_ticks_prefix pid after_next_height in
        let tried_tick = tick_key deferred_ticks_prefix pid next_height in
        let tick = tick_key ticks_prefix pid next_height in
        let prev_tick = tick_key ticks_prefix pid prev_height in
        let after_next_tick = tick_key ticks_prefix pid after_next_height in
        if not (is_some (get db tried_tick)) && not (is_some (get db tick))
        then (let db1 = put db (prefixed_key B schedule_prefix pid) (serialize schedule) in
            let db2 = put db1 tick [] in
            let db3 = delete db2 prev_tick in
            let db4 = delete db3 after_next_tick in
            let db5 = delete db4 prev_tried_tick in (delete db5 after_next_tried_tick, true))
        else (db, true)
  ]

  -- the next tick of the schedule that is stored for a pool
  unfoldable pub stored_tick : Db → Option ℕ → Option Tick
  stored_tick db none = none
  stored_tick db (some pid) = elim (get db (prefixed_key B schedule_prefix pid)) [
    | none ↦ none
    | some bs ↦ elim (deserialize bs) [ none ↦ none | some sc ↦ try_from_schedule sc ]
  ]

  -- the first loop of `peek`
  unfoldable pub peek_pending : Db → List (Bytes × Bytes) → Option Tick
  peek_pending db [] = none
  peek_pending db ((bs, v) ∷ ticks) =
      let rest = peek_pending db ticks in
      elim (stored_tick db (destructure_tick_key bs)) [ some tick ↦ some tick | none ↦ rest ]

  -- the second loop of `peek`, which ends at a tick deferred past now
  unfoldable pub peek_deferred : Db → ℤ → List (Bytes × Bytes) → Option Tick
  peek_deferred db ts_now [] = none
  peek_deferred db ts_now ((bs, v) ∷ ticks) =
      let rest = peek_deferred db ts_now ticks in
      elim (de_i64 v) [
        | none ↦ rest
        | some deferred_until ↦
            if ltb_ℤ ts_now deferred_until
            then none
            else elim (stored_tick db (destructure_deferred_tick_key bs)) [
              | some tick ↦ some tick
              | none ↦ rest
            ]
      ]

  unfoldable pub peek : Db → ℤ → Option Tick
  peek db ts_now =
      lowest (peek_pending db (iterate db (ser_str ticks_prefix)))
        (peek_deferred db ts_now (iterate db (ser_str deferred_ticks_prefix)))

  -- `remove`, of the tick as deferred only
  unfoldable pub remove : Db → Tick → Db
  remove db tick = delete db (tick_key deferred_ticks_prefix tick.pool_id tick.height)

  unfoldable pub defer : Db → Tick → ℤ → Db
  defer db tick until =
      let tried_tick_key = tick_key deferred_ticks_prefix tick.pool_id tick.height in
      put (delete db (tick_key ticks_prefix tick.pool_id tick.height)) tried_tick_key
        (ser_i64 until)

  -- the last 32 bytes
  unfoldable pub extract_pool_id : Bytes → Option ℕ
  extract_pool_id bytes =
      if leb 32 (length bytes) then de_id (drop (length bytes - 32) bytes) else none

  unfoldable pub of_pool : ℕ → Bytes → Bool
  of_pool pool_id bs = elim (extract_pool_id bs) [ none ↦ false | some ext ↦ ext == pool_id ]

  unfoldable pub clean_entries : Db → ℕ → List (Bytes × Bytes) → Db
  clean_entries db pool_id [] = db
  clean_entries db pool_id ((bs, v) ∷ entries) =
      clean_entries (if of_pool pool_id bs then delete db bs else db) pool_id entries

  unfoldable pub clean : Db → ℕ → Db
  clean db pool_id = clean_entries db pool_id (iterate db [])
