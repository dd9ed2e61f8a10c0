-- ===== src/Lm/Ticks/Parse.antt =====
-- How the keys of ticks and schedules in scheduler.rs of spectrum-offchain-lm/src are read back.
use spectrum_offchain_ergo.Prelude.{
  ℕ, ◌+◌, ◌-◌, ◌≡◌, refl, true, some, [], ◌∷◌, ◌++◌, arith, leb, length, drop, length-append,
  append_assoc,
}
use spectrum_offchain_ergo.Storage.{Bytes, RocksDb, Bincode, Codec, prefixed_key, raw_prefixed_key}
use spectrum_offchain_ergo.Lm.Epochs.{PoolSchedule}
use spectrum_offchain_ergo.Lm.Schedules.{
  reverse, FixedWidths, ticks_prefix, deferred_ticks_prefix, tick_key, destructure_tick_key,
  destructure_deferred_tick_key, extract_pool_id,
}

length-reverse : (xs : Bytes) → length (reverse xs) ≡ length xs
unfolding reverse
length-reverse [] = refl
length-reverse (x ∷ xs) = ground (arith, length-append (reverse xs) (x ∷ []), length-reverse xs)

drop-append : (a b : Bytes) → drop (length a) (a ++ b) ≡ b
drop-append [] b = refl
drop-append (x ∷ a) b = drop-append a b

module _ (R : RocksDb) (B : Bincode) (W : FixedWidths B) (C : Codec PoolSchedule) where
  open R use {Db, get, put, delete, iterate, get-put, get-delete, iterate_lem}
  open B use {
    ser_str, ser_id, de_id, ser_i64, de_i64, ser_str-append, bytes_eq-ser_id, de_id-ser_id,
  }
  open W use {ser_u32, length-ser_str, length-ser_u32, length-ser_id, bytes_eq-ser_u32}
  open C use {serialize, deserialize, deserialize-serialize}

  tick_key-length : (s : Bytes) (p h : ℕ) → length (tick_key R B W C s p h) ≡ length s + 44
  unfolding tick_key raw_prefixed_key
  tick_key-length s p h =
      let rest = reverse (ser_u32 h) ++ ser_id p in
      ground (
        arith,
        length-append (ser_str s) rest,
        length-append (reverse (ser_u32 h)) (ser_id p),
        length-reverse (ser_u32 h),
        length-ser_str s,
        length-ser_u32 h,
        length-ser_id p,
      )

  tick_key-drop : (s : Bytes) (p h : ℕ) → drop (length s + 12) (tick_key R B W C s p h) ≡ ser_id p
  unfolding tick_key raw_prefixed_key
  tick_key-drop s p h =
      let front = ser_str s ++ reverse (ser_u32 h) in
      let wide : length front ≡ length s + 12 = ground (
        arith,
        length-append (ser_str s) (reverse (ser_u32 h)),
        length-reverse (ser_u32 h),
        length-ser_str s,
        length-ser_u32 h,
      ) in
      rw (← append_assoc (ser_str s) (reverse (ser_u32 h)) (ser_id p), ← wide)
        (drop-append front (ser_id p))

  extract_pool_id-tick_key :
      (s : Bytes) (p h : ℕ) → extract_pool_id R B W C (tick_key R B W C s p h) ≡ some p
  unfolding extract_pool_id
  extract_pool_id-tick_key s p h =
      let key = tick_key R B W C s p h in
      let wide = tick_key-length s p h in
      let start : length key - 32 ≡ length s + 12 = omega (arith, wide) in
      let long : leb 32 (length key) ≡ true = ground (arith, wide) in
      rw (long, start, tick_key-drop s p h) (de_id-ser_id p)

  extract_pool_id-prefixed_key :
      (s : Bytes) (p : ℕ) → extract_pool_id R B W C (prefixed_key B s p) ≡ some p
  unfolding extract_pool_id prefixed_key
  extract_pool_id-prefixed_key s p =
      let key = ser_str s ++ ser_id p in
      let wide = length-append (ser_str s) (ser_id p) in
      let start : length key - 32 ≡ length (ser_str s) = omega (arith, wide, length-ser_id p) in
      let long : leb 32 (length key) ≡ true = ground (arith, wide, length-ser_id p) in
      rw (long, start, drop-append (ser_str s) (ser_id p)) (de_id-ser_id p)

  -- The pool is read back from the key of a tick, pending or deferred, at every height, and by the
  -- last 32 bytes from the keys of ticks and schedules alike.
  pub destructure_tick_key-tick_key :
      (p h : ℕ)
      → (destructure_tick_key R B W C (tick_key R B W C ticks_prefix p h) ≡ some p)
        × (destructure_deferred_tick_key R B W C (tick_key R B W C deferred_ticks_prefix p h)
            ≡ some p)
        × ((s : Bytes)
            → (extract_pool_id R B W C (tick_key R B W C s p h) ≡ some p)
              × (extract_pool_id R B W C (prefixed_key B s p) ≡ some p))
  unfolding destructure_tick_key destructure_deferred_tick_key
  destructure_tick_key-tick_key p h = (
    rw (tick_key-length ticks_prefix p h, tick_key-drop ticks_prefix p h) (de_id-ser_id p),
    rw (tick_key-length deferred_ticks_prefix p h, tick_key-drop deferred_ticks_prefix p h)
        (de_id-ser_id p),
    λ s. (extract_pool_id-tick_key s p h, extract_pool_id-prefixed_key s p),
  )
