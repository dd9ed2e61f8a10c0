-- ===== src/Lm/Ticks.antt =====
-- What the repository of scheduler.rs in spectrum-offchain-lm/src keeps of the ticks of pools.
use spectrum_offchain_ergo.Prelude.{
  ℕ, ◌+◌, ◌-◌, ◌≡◌, inl, inr, refl, Bool, true, false, ◌&&◌, not, List, [], ◌∷◌, ◌++◌, arith, ◌==◌,
  is_some, bytes_eq, bytes_eq_iff, Bool-cases, Option-cases,
}
use spectrum_offchain_ergo.Prelude.Int.{ℤ}
use spectrum_offchain_ergo.Storage.{Bytes, RocksDb, Bincode, Codec, prefixed_key, raw_prefixed_key}
use spectrum_offchain_ergo.Lm.Epochs.{PoolSchedule, Tick, next_compounding_at}
use spectrum_offchain_ergo.Lm.Schedules.{
  reverse, FixedWidths, schedule_prefix, ticks_prefix, deferred_ticks_prefix, tick_key,
  update_schedule, remove, defer, of_pool, clean_entries, clean,
}
pub mod Parse

module _ (R : RocksDb) (B : Bincode) (W : FixedWidths B) (C : Codec PoolSchedule) where
  open R use {Db, get, put, delete, iterate, get-put, get-delete, iterate_lem}
  open B use {
    ser_str, ser_id, de_id, ser_i64, de_i64, ser_str-append, bytes_eq-ser_id, de_id-ser_id,
  }
  open W use {ser_u32, length-ser_str, length-ser_u32, length-ser_id, bytes_eq-ser_u32}
  open C use {serialize, deserialize, deserialize-serialize}

  pub bytes_eq-tick_key :
      (s t : Bytes) (p q h g : ℕ)
      → bytes_eq (tick_key R B W C s p h) (tick_key R B W C t q g)
        ≡ (bytes_eq s t && ((h == g) && (p == q)))
  unfolding tick_key raw_prefixed_key
  bytes_eq-tick_key s t p q h g = ground (
    arith,
    ser_str-append s t (reverse (ser_u32 h) ++ ser_id p) (reverse (ser_u32 g) ++ ser_id q),
    bytes_eq-ser_u32 h g (ser_id p) (ser_id q),
    bytes_eq-ser_id p q,
  )

  pub bytes_eq-schedule_key :
      (t : Bytes) (p q g : ℕ)
      → bytes_eq schedule_prefix t ≡ false
      → bytes_eq (prefixed_key B schedule_prefix p) (tick_key R B W C t q g) ≡ false
  unfolding tick_key raw_prefixed_key prefixed_key
  bytes_eq-schedule_key t p q g e =
      ground
        (arith, e, ser_str-append schedule_prefix t (ser_id p) (reverse (ser_u32 g) ++ ser_id q))

  abbrev pub is_pending : Db → ℕ → ℕ → Bool
  is_pending db p h = is_some (get db (tick_key R B W C ticks_prefix p h))

  abbrev pub is_deferred : Db → ℕ → ℕ → Bool
  is_deferred db p h = is_some (get db (tick_key R B W C deferred_ticks_prefix p h))

  -- No tick is both pending and deferred.
  abbrev pub Exclusive : Db → Type 0
  Exclusive db = (p h : ℕ) → is_pending db p h ≡ true → is_deferred db p h ≡ false

  kept-delete :
      (d : Db) (k j : Bytes) → is_some (get (delete d k) j) ≡ true → is_some (get d j) ≡ true
  kept-delete d k j e = ground (arith, get-delete d k j)

  kept-put :
      (d : Db) (k v j : Bytes)
      → is_some (get (put d k v) j) ≡ true
      → bytes_eq k j ≡ false
      → is_some (get d j) ≡ true
  kept-put d k v j e ne = ground (arith, get-put d k v j)

  lost-delete :
      (d : Db) (k j : Bytes) → is_some (get d j) ≡ false → is_some (get (delete d k) j) ≡ false
  lost-delete d k j e = ground (arith, get-delete d k j)

  lost-put :
      (d : Db) (k v j : Bytes)
      → is_some (get d j) ≡ false
      → bytes_eq k j ≡ false
      → is_some (get (put d k v) j) ≡ false
  lost-put d k v j e ne = ground (arith, get-put d k v j)

  pub prefixes_differ :
      (p q h g : ℕ)
      → (bytes_eq (tick_key R B W C ticks_prefix p h) (tick_key R B W C deferred_ticks_prefix q g)
          ≡ false)
        × (bytes_eq (tick_key R B W C deferred_ticks_prefix p h) (tick_key R B W C ticks_prefix q g)
            ≡ false)
        × (bytes_eq (prefixed_key B schedule_prefix p) (tick_key R B W C ticks_prefix q g) ≡ false)
        × (bytes_eq (prefixed_key B schedule_prefix p) (tick_key R B W C deferred_ticks_prefix q g)
            ≡ false)
  unfolding bytes_eq
  prefixes_differ p q h g = (
    bytes_eq-tick_key ticks_prefix deferred_ticks_prefix p q h g,
    bytes_eq-tick_key deferred_ticks_prefix ticks_prefix p q h g,
    bytes_eq-schedule_key ticks_prefix p q g refl,
    bytes_eq-schedule_key deferred_ticks_prefix p q g refl,
  )

  Exclusive-delete : (db : Db) (k : Bytes) → Exclusive db → Exclusive (delete db k)
  Exclusive-delete db k ex p h e = lost-delete db k _ (ex p h (kept-delete db k _ e))

  same_tick :
      (s : Bytes) (p q h g : ℕ)
      → bytes_eq (tick_key R B W C s p h) (tick_key R B W C s q g) ≡ true
      → (p ≡ q) × (h ≡ g)
  same_tick s p q h g e = ground (arith, e, bytes_eq-tick_key s s p q h g)

  Exclusive-tick :
      (db : Db) (v : Bytes) (p h : ℕ)
      → Exclusive db
      → is_deferred db p h ≡ false
      → Exclusive (put db (tick_key R B W C ticks_prefix p h) v)
  Exclusive-tick db v p h ex free q g e =
      let k = tick_key R B W C ticks_prefix p h in
      let still : is_deferred db q g ≡ false =
        elim (Bool-cases (bytes_eq k (tick_key R B W C ticks_prefix q g))) [
          | inl same ↦ let (ep, eh) = same_tick ticks_prefix p q h g same in rw (← ep, ← eh) free
          | inr other ↦ ex q g (kept-put db k v _ e other)
        ] in
      lost-put db k v _ still (prefixes_differ p q h g).0

  Exclusive-schedule :
      (db : Db) (v : Bytes) (p : ℕ)
      → Exclusive db
      → Exclusive (put db (prefixed_key B schedule_prefix p) v)
  Exclusive-schedule db v p ex q g e =
      let k = prefixed_key B schedule_prefix p in
      let apart = prefixes_differ p q 0 g in
      lost-put db k v _ (ex q g (kept-put db k v _ e apart.2)) apart.3

  Exclusive-deferred :
      (db : Db) (v : Bytes) (p h : ℕ)
      → Exclusive db
      → Exclusive (
          put
            (delete db (tick_key R B W C ticks_prefix p h))
            (tick_key R B W C deferred_ticks_prefix p h)
            v)
  Exclusive-deferred db v p h ex q g e =
      let k = tick_key R B W C ticks_prefix p h in
      let j = tick_key R B W C deferred_ticks_prefix p h in
      let left = kept-put (delete db k) j v _ e (prefixes_differ p q h g).1 in
      elim (Bool-cases (bytes_eq j (tick_key R B W C deferred_ticks_prefix q g))) [
        | inl same ↦
            let (ep, eh) = same_tick deferred_ticks_prefix p q h g same in
            let at = tick_key R B W C ticks_prefix q g in
            let gone : bytes_eq k at ≡ true = rw (ep, eh) ((bytes_eq_iff at at).1 refl) in
            absurd (ground (arith, left, gone, get-delete db k at))
        | inr other ↦
            lost-put (delete db k) j v _ (lost-delete db k _ (ex q g (kept-delete db k _ left)))
              other
      ]

  Exclusive-clean_entries :
      (db : Db) (p : ℕ) (entries : List (Bytes × Bytes))
      → Exclusive db
      → Exclusive (clean_entries R B W C db p entries)
  unfolding clean_entries
  Exclusive-clean_entries db p [] ex = ex
  Exclusive-clean_entries db p ((bs, v) ∷ entries) ex = elim (Bool-cases (of_pool R B W C p bs)) [
    | inl t ↦ rw t (Exclusive-clean_entries (delete db bs) p entries (Exclusive-delete db bs ex))
    | inr f ↦ rw f (Exclusive-clean_entries db p entries ex)
  ]

  Exclusive-update_schedule :
      (db : Db) (sc : PoolSchedule) → Exclusive db → Exclusive (update_schedule R B W C db sc).0
  unfolding update_schedule
  Exclusive-update_schedule db sc ex = elim (Option-cases (next_compounding_at sc)) [
    | inl e ↦ rw (e, update_schedule) ex
    | inr (next, e) ↦
        let pid = sc.pool_id in
        let tried = is_deferred db pid next in
        elim (Bool-cases (not tried && not (is_pending db pid next))) [
          | inl t ↦
              let k = prefixed_key B schedule_prefix pid in
              let db1 = put db k (serialize sc) in
              let untried : tried ≡ false = ground (arith, t) in
              let free =
                lost-put db k (serialize sc) _ untried (prefixes_differ pid pid next next).3 in
              rw (e, update_schedule, t)
                (Exclusive-delete _ _ (
                  Exclusive-delete _ _ (
                    Exclusive-delete _ _ (
                      Exclusive-delete _ _ (
                        Exclusive-tick db1 [] pid next (Exclusive-schedule db (serialize sc) pid ex)
                          free)))))
          | inr f ↦ rw (e, update_schedule, f) ex
        ]
  ]

  -- No tick becomes both pending and deferred: from a store where none is, every operation of the
  -- repository leads to a store where none is, whatever the schedule, the tick and the pool.
  pub Exclusive-operations :
      (db : Db) (sc : PoolSchedule) (tick : Tick) (until : ℤ) (pool_id : ℕ)
      → Exclusive db
      → Exclusive (update_schedule R B W C db sc).0
        × Exclusive (defer R B W C db tick until)
        × Exclusive (remove R B W C db tick)
        × Exclusive (clean R B W C db pool_id)
  unfolding defer remove clean
  Exclusive-operations db sc tick until pool_id ex = (
    Exclusive-update_schedule db sc ex,
    Exclusive-deferred db (ser_i64 until) tick.pool_id tick.height ex,
    Exclusive-delete db _ ex,
    Exclusive-clean_entries db pool_id (iterate db []) ex,
  )
