-- ===== src/Tests/Schedules.antt =====
-- A repository of schedules in memory, and the theorems on it at concrete schedules.
use spectrum_offchain_ergo.Prelude.{
  ℕ, zero, suc, inl, inr, Bool-cases, ==_iff, ◌+◌, ◌≡◌, refl, true, ◌&&◌, Option, none, some, [],
  ◌∷◌, ◌++◌, arith, ◌==◌, is_some, bytes_eq, length,
}
use spectrum_offchain_ergo.Prelude.Int.{pos}
use spectrum_offchain_ergo.Storage.{
  Bytes, Bincode, Codec, prefixed_key, raw_prefixed_key, starts_with,
}
use spectrum_offchain_ergo.Lm.Epochs.{
  PoolSchedule, Tick, next_compounding_at, try_from_schedule, schedule_end,
}
use spectrum_offchain_ergo.Lm.Schedules.{
  reverse, FixedWidths, tick_key, destructure_tick_key, destructure_deferred_tick_key,
  update_schedule, stored_tick, peek_pending, peek_deferred, lowest, peek, clean_entries, defer,
  remove, clean, extract_pool_id, of_pool,
}
use spectrum_offchain_ergo.Lm.Ticks.{is_pending, Exclusive, Exclusive-operations}
use spectrum_offchain_ergo.Lm.Published.{peek-update_schedule}
use spectrum_offchain_ergo.Tests.Rocks.{
  memory, get, put, delete, iterate, ser_i64, de_i64, de_i64-ser_i64, same_length, bytes_eq-length,
}

abbrev pub zeros : ℕ → Bytes
zeros zero = []
zeros (suc n) = 0 ∷ zeros n

unfoldable pub ser_str : Bytes → Bytes
ser_str s = length s ∷ zeros 7 ++ s

unfoldable pub de_id : Bytes → Option ℕ
de_id [] = none
de_id (n ∷ _) = some n

pub ser_str-append :
    (s t a b : Bytes) → bytes_eq (ser_str s ++ a) (ser_str t ++ b) ≡ (bytes_eq s t && bytes_eq a b)
unfolding ser_str bytes_eq
ser_str-append s t a b = elim (Bool-cases (length s == length t)) [
  | inl e ↦ rw e (same_length s t a b ((==_iff _ _).0 e))
  | inr ne ↦ ground (arith, ne, bytes_eq-length s t)
]

pub bytes_eq-ser_id : (i j : ℕ) → bytes_eq (i ∷ zeros 31) (j ∷ zeros 31) ≡ (i == j)
unfolding bytes_eq
bytes_eq-ser_id i j = ground arith

pub bytes_eq-ser_u32 :
    (h g : ℕ) (a b : Bytes)
    → bytes_eq (reverse (h ∷ zeros 3) ++ a) (reverse (g ∷ zeros 3) ++ b)
      ≡ ((h == g) && bytes_eq a b)
unfolding bytes_eq reverse
bytes_eq-ser_u32 h g a b = ground arith

pub de_id-ser_id : (i : ℕ) → de_id (i ∷ zeros 31) ≡ some i
unfolding de_id
de_id-ser_id i = refl

pub length-ser_str : (s : Bytes) → length (ser_str s) ≡ 8 + length s
unfolding ser_str
length-ser_str s = omega arith

abbrev pub wide_bytes : Bincode
wide_bytes = record {
  ser_str = ser_str;
  ser_id = λ i. i ∷ zeros 31;
  de_id = de_id;
  ser_i64 = ser_i64;
  de_i64 = de_i64;
  ser_str-append = ser_str-append;
  bytes_eq-ser_id = bytes_eq-ser_id;
  de_id-ser_id = de_id-ser_id;
  de_i64-ser_i64 = de_i64-ser_i64;
}

abbrev pub widths : FixedWidths wide_bytes
widths = record {
  ser_u32 = λ h. h ∷ zeros 3;
  length-ser_str = length-ser_str;
  length-ser_u32 = λ h. refl;
  length-ser_id = λ i. refl;
  bytes_eq-ser_u32 = bytes_eq-ser_u32;
}

unfoldable pub deserialize : Bytes → Option PoolSchedule
deserialize (p ∷ len ∷ num ∷ start ∷ last ∷ []) = some (record {
  pool_id = p;
  epoch_len = len;
  epoch_num = num;
  program_start = start;
  last_completed_epoch_ix = last;
})
deserialize _ = none

unfoldable pub serialize : PoolSchedule → Bytes
serialize sc =
    sc.pool_id ∷ sc.epoch_len ∷ sc.epoch_num ∷ sc.program_start ∷ sc.last_completed_epoch_ix ∷ []

pub deserialize-serialize : (sc : PoolSchedule) → deserialize (serialize sc) ≡ some sc
unfolding deserialize serialize
deserialize-serialize sc = refl

abbrev pub schedules : Codec PoolSchedule
schedules = record {
  serialize = serialize;
  deserialize = deserialize;
  deserialize-serialize = deserialize-serialize;
}

abbrev pub schedule : PoolSchedule
schedule = record {
  pool_id = 7;
  epoch_len = 10;
  epoch_num = 10;
  program_start = 100;
  last_completed_epoch_ix = 0;
}

abbrev pub tick : Tick
tick = record { pool_id = 7; epoch_ix = 1; height = 110 }

abbrev pub published : memory.Db
published = (update_schedule memory wide_bytes widths schedules [] schedule).0

-- everything that a run of the repository computes with
program : Unit {0}
unfolding update_schedule next_compounding_at try_from_schedule schedule_end tick_key
    destructure_tick_key destructure_deferred_tick_key stored_tick peek_pending peek_deferred lowest
    peek defer remove clean clean_entries of_pool extract_pool_id reverse prefixed_key
    raw_prefixed_key starts_with bytes_eq get put delete iterate ser_str de_id ser_i64 de_i64
    serialize deserialize
program = tt

peek-published : peek memory wide_bytes widths schedules published (pos 5) ≡ some tick
unfolding program
peek-published = refl

peek-defer :
    peek memory wide_bytes widths schedules
      (defer memory wide_bytes widths schedules published tick (pos 50))
      (pos 5)
    ≡ none
unfolding program
peek-defer = refl

none-Exclusive : Exclusive memory wide_bytes widths schedules []
unfolding get
none-Exclusive p h e = refl

pub published-Exclusive : Exclusive memory wide_bytes widths schedules published
published-Exclusive =
    (Exclusive-operations memory wide_bytes widths schedules [] schedule tick (pos 0) 0
      none-Exclusive).0

Exclusive-operations_example :
    Exclusive memory wide_bytes widths schedules
      (update_schedule memory wide_bytes widths schedules published schedule).0
    × Exclusive memory wide_bytes widths schedules
        (defer memory wide_bytes widths schedules published tick (pos 50))
    × Exclusive memory wide_bytes widths schedules
        (remove memory wide_bytes widths schedules published tick)
    × Exclusive memory wide_bytes widths schedules
        (clean memory wide_bytes widths schedules published 7)
Exclusive-operations_example =
    Exclusive-operations memory wide_bytes widths schedules published schedule tick (pos 50) 7
      published-Exclusive

peek-update_schedule_example :
    (stored_tick memory wide_bytes widths schedules published (some 7) ≡ some tick)
    × (is_pending memory wide_bytes widths schedules published 7 110 ≡ true)
    × (is_some (peek memory wide_bytes widths schedules published (pos 5)) ≡ true)
unfolding program
peek-update_schedule_example =
    peek-update_schedule memory wide_bytes widths schedules [] schedule 110 refl refl refl (pos 5)
      (omega arith) (omega arith) (omega arith)
