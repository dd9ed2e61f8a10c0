-- ===== src/Lm/Peek.antt =====
-- `peek` and `clean` of scheduler.rs in spectrum-offchain-lm/src.
use spectrum_offchain_ergo.Prelude.{
  ℕ, ◌≡◌, ◌⊎◌, inl, inr, refl, true, false, Option, none, some, List, [], ◌∷◌, arith, if◌then◌else◌,
  is_some, bytes_eq_iff, Elem, Option-cases,
}
use spectrum_offchain_ergo.Prelude.Int.{ℤ, ltb_ℤ}
use spectrum_offchain_ergo.Storage.{
  Bytes, RocksDb, Bincode, Codec, raw_prefixed_key, starts_with, starts_with-append,
}
use spectrum_offchain_ergo.Lm.Epochs.{PoolSchedule, Tick}
use spectrum_offchain_ergo.Lm.Schedules.{
  FixedWidths, ticks_prefix, deferred_ticks_prefix, tick_key, destructure_tick_key,
  destructure_deferred_tick_key, stored_tick, peek_pending, peek_deferred, lowest, peek, of_pool,
  clean_entries, clean,
}
use spectrum_offchain_ergo.Lm.Ticks.{is_pending}
use spectrum_offchain_ergo.Lm.Ticks.Parse.{destructure_tick_key-tick_key}

module _ (R : RocksDb) (B : Bincode) (W : FixedWidths B) (C : Codec PoolSchedule) where
  open R use {Db, get, put, delete, iterate, get-put, get-delete, iterate_lem}
  open B use {ser_str, ser_id, de_i64}

  -- A pending tick is stored, whose pool's schedule has this as its next tick.
  abbrev pub IsPendingTick : Db → Tick → Type 0
  IsPendingTick db tick =
      (k v : Bytes) × (get db k ≡ some v)
      × (starts_with (ser_str ticks_prefix) k ≡ true)
      × (stored_tick R B W C db (destructure_tick_key R B W C k) ≡ some tick)

  -- The same of a deferred tick, whose time has come.
  abbrev pub IsDueTick : Db → ℤ → Tick → Type 0
  IsDueTick db ts_now tick =
      (k v : Bytes) × (until : ℤ) × (get db k ≡ some v)
      × (starts_with (ser_str deferred_ticks_prefix) k ≡ true)
      × (de_i64 v ≡ some until)
      × (ltb_ℤ ts_now until ≡ false)
      × (stored_tick R B W C db (destructure_deferred_tick_key R B W C k) ≡ some tick)

  peek_pending_sound :
      (db : Db) (tick : Tick) (entries : List (Bytes × Bytes))
      → peek_pending R B W C db entries ≡ some tick
      → (k v : Bytes) × Elem (k, v) entries
        × (stored_tick R B W C db (destructure_tick_key R B W C k) ≡ some tick)
  unfolding peek_pending
  peek_pending_sound db tick [] e = absurd (ground (arith, e))
  peek_pending_sound db tick ((k, v) ∷ entries) e =
      elim (Option-cases (stored_tick R B W C db (destructure_tick_key R B W C k))) [
        | inl z ↦
            let (j, w, at, h) = peek_pending_sound db tick entries (ground (arith, e, z)) in
            (j, w, inr at, h)
        | inr (t, z) ↦ (k, v, inl refl, ground (arith, e, z))
      ]

  peek_pending_complete :
      (db : Db) (k v : Bytes) (entries : List (Bytes × Bytes))
      → Elem (k, v) entries
      → is_some (stored_tick R B W C db (destructure_tick_key R B W C k)) ≡ true
      → is_some (peek_pending R B W C db entries) ≡ true
  unfolding peek_pending
  peek_pending_complete db k v [] m h = absurd m
  peek_pending_complete db k v ((j, w) ∷ entries) (inl e) h = ground (arith, e, h)
  peek_pending_complete db k v ((j, w) ∷ entries) (inr m) h =
      ground (arith, peek_pending_complete db k v entries m h)

  peek_deferred_sound :
      (db : Db) (ts_now : ℤ) (tick : Tick) (entries : List (Bytes × Bytes))
      → peek_deferred R B W C db ts_now entries ≡ some tick
      → (k v : Bytes) × (until : ℤ) × Elem (k, v) entries
        × (de_i64 v ≡ some until)
        × (ltb_ℤ ts_now until ≡ false)
        × (stored_tick R B W C db (destructure_deferred_tick_key R B W C k) ≡ some tick)
  unfolding peek_deferred
  peek_deferred_sound db ts_now tick [] e = absurd (ground (arith, e))
  peek_deferred_sound db ts_now tick ((k, v) ∷ entries) e =
      let at_rest = peek_deferred_sound db ts_now tick entries in
      let tick_of = stored_tick R B W C db (destructure_deferred_tick_key R B W C k) in
      elim (Option-cases (de_i64 v)) [
        | inl z ↦
            let (j, w, u, at, h, due, t) = at_rest (ground (arith, e, z)) in
            (j, w, u, inr at, h, due, t)
        | inr (u, z) ↦
            let due : ltb_ℤ ts_now u ≡ false = ground (arith, e, z) in
            elim (Option-cases tick_of) [
              | inl y ↦
                  let (j, w, u', at, h, due', t) = at_rest (ground (arith, e, z, due, y)) in
                  (j, w, u', inr at, h, due', t)
              | inr (t, y) ↦ (k, v, u, inl refl, z, due, ground (arith, e, z, due, y))
            ]
      ]

  lowest-cases :
      (a b : Option Tick) (tick : Tick) → lowest a b ≡ some tick → (a ≡ some tick) ⊎ (b ≡ some tick)
  unfolding lowest
  lowest-cases none none tick e = absurd (ground (arith, e))
  lowest-cases (some p) none tick e = inl e
  lowest-cases none (some d) tick e = inr e
  lowest-cases (some p) (some d) tick e = ground (arith, e)

  lowest-is_some : (a b : Option Tick) → is_some a ≡ true → is_some (lowest a b) ≡ true
  unfolding lowest
  lowest-is_some none b h = absurd (ground (arith, h))
  lowest-is_some (some p) none h = refl
  lowest-is_some (some p) (some d) h = ground arith

  peek_sound :
      (db : Db) (ts_now : ℤ) (tick : Tick)
      → peek R B W C db ts_now ≡ some tick
      → IsPendingTick db tick ⊎ IsDueTick db ts_now tick
  unfolding peek
  peek_sound db ts_now tick e =
      elim (lowest-cases (peek_pending R B W C db (iterate db (ser_str ticks_prefix)))
        (peek_deferred R B W C db ts_now (iterate db (ser_str deferred_ticks_prefix))) tick e) [
          | inl p ↦
              let (k, v, at, h) = peek_pending_sound db tick _ p in
              let stored = (iterate_lem db (ser_str ticks_prefix) k v).0 at in
              inl (k, v, stored.0, stored.1, h)
          | inr d ↦
              let (k, v, u, at, h, due, t) = peek_deferred_sound db ts_now tick _ d in
              let stored = (iterate_lem db (ser_str deferred_ticks_prefix) k v).0 at in
              inr (k, v, u, stored.0, stored.1, h, due, t)
        ]

  tick_key_prefix :
      (p h : ℕ) → starts_with (ser_str ticks_prefix) (tick_key R B W C ticks_prefix p h) ≡ true
  unfolding tick_key raw_prefixed_key
  tick_key_prefix p h = starts_with-append (ser_str ticks_prefix) _

  peek_complete :
      (db : Db) (ts_now : ℤ) (p h : ℕ)
      → is_pending R B W C db p h ≡ true
      → is_some (stored_tick R B W C db (some p)) ≡ true
      → is_some (peek R B W C db ts_now) ≡ true
  unfolding peek
  peek_complete db ts_now p h pending next =
      let k = tick_key R B W C ticks_prefix p h in
      elim (Option-cases (get db k)) [
        | inl z ↦ absurd (ground (arith, pending, z))
        | inr (v, z) ↦
            let there = (iterate_lem db (ser_str ticks_prefix) k v).1 (z, tick_key_prefix p h) in
            let read = (destructure_tick_key-tick_key R B W C p h).0 in
            lowest-is_some _ _ (peek_pending_complete db k v _ there (rw read next))
      ]

  -- A tick that `peek` gives is the next tick of the schedule stored for a pool that has a pending
  -- tick, or a deferred one whose time has come; and `peek` gives a tick whenever one is pending
  -- for a pool whose stored schedule has a next tick.
  pub peek_lem :
      (db : Db) (ts_now : ℤ)
      → ((tick : Tick)
          → peek R B W C db ts_now ≡ some tick
          → IsPendingTick db tick ⊎ IsDueTick db ts_now tick)
        × ((p h : ℕ)
            → is_pending R B W C db p h ≡ true
            → is_some (stored_tick R B W C db (some p)) ≡ true
            → is_some (peek R B W C db ts_now) ≡ true)
  peek_lem db ts_now = (peek_sound db ts_now, peek_complete db ts_now)

  clean_entries-get :
      (db : Db) (p : ℕ) (k : Bytes) (entries : List (Bytes × Bytes))
      → (get (clean_entries R B W C db p entries) k ≡ get db k)
        ⊎ ((of_pool R B W C p k ≡ true) × (get (clean_entries R B W C db p entries) k ≡ none))
  unfolding clean_entries
  clean_entries-get db p k [] = inl refl
  clean_entries-get db p k ((bs, v) ∷ entries) = ground (
    arith,
    clean_entries-get (if of_pool R B W C p bs then delete db bs else db) p k entries,
    get-delete db bs k,
    bytes_eq_iff bs k,
  )

  clean_entries-Elem :
      (db : Db) (p : ℕ) (k v : Bytes) (entries : List (Bytes × Bytes))
      → Elem (k, v) entries
      → of_pool R B W C p k ≡ true
      → get (clean_entries R B W C db p entries) k ≡ none
  unfolding clean_entries
  clean_entries-Elem db p k v [] m t = absurd m
  clean_entries-Elem db p k v ((j, w) ∷ entries) (inl e) t = ground (
    arith,
    e,
    t,
    clean_entries-get (if of_pool R B W C p j then delete db j else db) p k entries,
    get-delete db j k,
    bytes_eq_iff j k,
  )
  clean_entries-Elem db p k v ((j, w) ∷ entries) (inr m) t =
      clean_entries-Elem (if of_pool R B W C p j then delete db j else db) p k v entries m t

  -- `clean` takes away exactly the entries whose key ends in the pool, and leaves the others as
  -- they are.
  pub clean_lem :
      (db : Db) (p : ℕ) (k : Bytes)
      → get (clean R B W C db p) k ≡ (if of_pool R B W C p k then none else get db k)
  unfolding clean
  clean_lem db p k =
      let kept = clean_entries-get db p k (iterate db []) in
      elim (Option-cases (get db k)) [
        | inl z ↦ ground (arith, kept, z)
        | inr (v, z) ↦
            let there = (iterate_lem db [] k v).1 (z, starts_with-append [] k) in
            ground (arith, kept, z, clean_entries-Elem db p k v (iterate db []) there)
      ]
