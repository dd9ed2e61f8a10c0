-- ===== src/Tests/Blocks.antt =====
-- A cache of blocks in a store in memory, and the theorems on it at a chain of two blocks. A
-- transaction is its identifier.
use mathlib.Core.Option
use spectrum_offchain_ergo.Prelude.{
  ℕ, ◌≤◌, ◌<◌, ◌≡◌, inr, refl, true, false, ◌&&◌, Option, none, some, [], ◌∷◌, arith, ◌==◌,
  bytes_eq, length, contains,
}
use spectrum_offchain_ergo.Storage.{Bytes, Bincode, Codec}
use spectrum_offchain_ergo.ChainSync.Cache.{Block, BlockRecord}
use spectrum_offchain_ergo.ChainSync.Rocks.{
  Format, postfixed_key, tx_key, put_transactions, write_block, delete_transactions, evict,
  append_block, exists, get_best_block, take_transactions, new_best, take_block, take_best_block,
}
use spectrum_offchain_ergo.ChainSync.Rocks.Take.{exists-take_best_block}
use spectrum_offchain_ergo.ChainSync.Rocks.RoundTrip.{take_best_block-append_block}
use spectrum_offchain_ergo.Tests.Rocks.{memory, digits, get, put, delete, ser_str}

-- an identifier is marked, so that no string of the cache begins as one does
unfoldable de_id : Bytes → Option ℕ
de_id (_ ∷ n ∷ []) = some n
de_id _ = none

bytes_eq-ser_id : (i j : ℕ) → bytes_eq (100 ∷ i ∷ []) (100 ∷ j ∷ []) ≡ (i == j)
unfolding bytes_eq
bytes_eq-ser_id i j = ground arith

de_id-ser_id : (i : ℕ) → de_id (100 ∷ i ∷ []) ≡ some i
unfolding de_id
de_id-ser_id i = refl

abbrev marked : Bincode
marked = record digits {
  ser_id = λ i. 100 ∷ i ∷ [];
  de_id = de_id;
  bytes_eq-ser_id = bytes_eq-ser_id;
  de_id-ser_id = de_id-ser_id;
}

unfoldable de_nat : Bytes → Option ℕ
de_nat (n ∷ []) = some n
de_nat _ = none

de_nat_lem : (n : ℕ) → de_nat (n ∷ []) ≡ some n
unfolding de_nat
de_nat_lem n = refl

unfoldable de_record : Bytes → Option BlockRecord
de_record (id ∷ height ∷ []) = some (record { id = id; height = height })
de_record _ = none

de_record_lem : (r : BlockRecord) → de_record (r.id ∷ r.height ∷ []) ≡ some r
unfolding de_record
de_record_lem r = refl

abbrev numbers : Codec ℕ
numbers = record {
  serialize = λ n. n ∷ [];
  deserialize = de_nat;
  deserialize-serialize = de_nat_lem;
}

ser_id-append :
    (i j : ℕ) (a b : Bytes) → bytes_eq (100 ∷ i ∷ a) (100 ∷ j ∷ b) ≡ ((i == j) && bytes_eq a b)
unfolding bytes_eq
ser_id-append i j a b = ground arith

length-ser_str : (s : Bytes) → 0 < length (ser_str s)
unfolding ser_str
length-ser_str s = omega arith

ser_id_apart :
    (i : ℕ) (a s : Bytes)
    → length s ≤ 12
    → (bytes_eq (100 ∷ i ∷ a) (ser_str s) ≡ false) × (bytes_eq (ser_str s) (100 ∷ i ∷ a) ≡ false)
unfolding bytes_eq ser_str
ser_id_apart i a s short = (ground (arith, short), ground (arith, short))

abbrev format : Format ℕ marked
format = record {
  tx_id = λ tx. tx;
  heights = numbers;
  id_lists = record {
    serialize = λ ids. ids;
    deserialize = some;
    deserialize-serialize = λ ids. refl;
  };
  transactions = numbers;
  records = record {
    serialize = λ r. r.id ∷ r.height ∷ [];
    deserialize = de_record;
    deserialize-serialize = de_record_lem;
  };
  ser_id-append = ser_id-append;
  length-ser_str = length-ser_str;
  ser_id_apart = ser_id_apart;
}

abbrev first_block : Block ℕ
first_block = record {
  id = 1;
  parent_id = 0;
  height = 501;
  timestamp = 7;
  transactions = 11 ∷ 12 ∷ [];
}

abbrev second_block : Block ℕ
second_block = record { id = 2; parent_id = 1; height = 502; timestamp = 8; transactions = 21 ∷ [] }

-- a store, where there is one
abbrev store_of : {A : Type 0} → Option (A × memory.Db) → memory.Db
store_of none = []
store_of (some (_, db)) = db

abbrev first_db : memory.Db
first_db = elim (append_block memory marked format 10 [] first_block) [ none ↦ [] | some db ↦ db ]

abbrev second_db : memory.Db
second_db = elim (append_block memory marked format 10 first_db second_block) [
  | none ↦ []
  | some db ↦ db
]

abbrev taken_db : memory.Db
taken_db = store_of (take_best_block memory marked format second_db)

-- everything that a run of the cache computes with
program : Unit {0}
unfolding append_block write_block put_transactions postfixed_key tx_key evict delete_transactions
    exists get_best_block take_best_block take_block take_transactions new_best bytes_eq get put
    delete ser_str de_id de_nat de_record contains Option.bind
program = tt

takes :
    take_best_block memory marked format second_db
    ≡ some (some (record second_block { timestamp = 0 }), taken_db)
unfolding program
takes = refl

-- the block that is taken still exists
still_exists : exists memory marked format taken_db 2 ≡ true
unfolding program
still_exists = refl

exists-take_best_block_example :
    ((s : Bytes)
      → get taken_db (postfixed_key memory marked format 2 s)
        ≡ get second_db (postfixed_key memory marked format 2 s))
    × (exists memory marked format taken_db 2 ≡ exists memory marked format second_db 2)
exists-take_best_block_example =
    exists-take_best_block memory marked format second_db taken_db
      (some (record second_block { timestamp = 0 })) 2 takes

take_best_block-append_block_example :
    (db1 db2 : memory.Db) × (append_block memory marked format 10 first_db second_block ≡ some db1)
    × (take_best_block memory marked format db1
        ≡ some (some (record second_block { timestamp = 0 }), db2))
    × (get_best_block memory marked format db2 ≡ some (record { id = 1; height = 501 }))
unfolding program
take_best_block-append_block_example =
    take_best_block-append_block memory marked format 10 first_db second_block
      (some (record { id = 1; height = 501 })) (refl, tt) (λ e. absurd (omega (arith, e)))
      (inr (1 ∷ 501 ∷ [], record { id = 1; height = 501 }, refl, refl, refl))
      (inr (marked.ser_id 0, 501, refl, refl, refl))
