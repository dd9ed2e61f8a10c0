-- ===== src/Tests/Funding.antt =====
-- A repository of funding boxes in memory, and the theorems on it at concrete boxes.
use spectrum_offchain_ergo.Prelude.{
  ℕ, ◌<◌, ◌≤◌, ◌≡◌, ◌⊎◌, refl, ◌&&◌, Option, none, some, List, [], ◌∷◌, ◌++◌, arith, ◌==◌, bytes_eq,
  Elem,
}
use spectrum_offchain_ergo.Storage.{Bytes, Codec, prefixed_key, starts_with}
use spectrum_offchain_ergo.Lm.Types.{AsBox}
use spectrum_offchain_ergo.Lm.Funding.{
  DistributionFunding, FixedInts, ok, err, funding_key_prefix, funding_key, confirmed_priority,
  put_funding, put_confirmed, put_predicted, remove, collect,
}
use spectrum_offchain_ergo.Lm.Funding.Collect.{boxes, total, IsShort, collect_lem}
use spectrum_offchain_ergo.Lm.Funding.Double.{
  index_key, remove-put_funding, remove-put_confirmed-put_predicted,
}
use spectrum_offchain_ergo.Tests.Rocks.{memory, digits, get, put, delete, iterate, ser_str}

pub ser_u64-append : (n m : ℕ) (a b : Bytes) → bytes_eq (n ∷ a) (m ∷ b) ≡ ((n == m) && bytes_eq a b)
unfolding bytes_eq
ser_u64-append n m a b = ground arith

abbrev pub ints : FixedInts
ints = record { ser_u64 = λ n. n ∷ []; ser_u64-append = ser_u64-append }

unfoldable pub deserialize : Bytes → Option (AsBox DistributionFunding)
deserialize (box_id ∷ height ∷ id ∷ prop ∷ value ∷ []) = some (record {
  box_id = box_id;
  creation_height = height;
  entity = record { id = id; prop = prop; erg_value = value };
})
deserialize _ = none

unfoldable pub serialize : AsBox DistributionFunding → Bytes
serialize b = b.box_id ∷ b.creation_height ∷ b.entity.id ∷ b.entity.prop ∷ b.entity.erg_value ∷ []

pub deserialize-serialize : (b : AsBox DistributionFunding) → deserialize (serialize b) ≡ some b
unfolding deserialize serialize
deserialize-serialize b = refl

abbrev pub fundings : Codec (AsBox DistributionFunding)
fundings = record {
  serialize = serialize;
  deserialize = deserialize;
  deserialize-serialize = deserialize-serialize;
}

abbrev small_box : AsBox DistributionFunding
small_box = record {
  box_id = 1;
  creation_height = 100;
  entity = record { id = 1; prop = 5; erg_value = 1000 };
}

abbrev large_box : AsBox DistributionFunding
large_box = record {
  box_id = 2;
  creation_height = 100;
  entity = record { id = 2; prop = 5; erg_value = 9000 };
}

abbrev funded : memory.Db
funded =
    put_confirmed memory digits ints fundings
      (put_confirmed memory digits ints fundings [] small_box) large_box

-- everything that a run of the repository computes with
program : Unit {0}
unfolding put_confirmed put_predicted put_funding funding_key boxes prefixed_key starts_with
    bytes_eq get put delete iterate ser_str serialize deserialize
program = tt

collect_lem_example :
    let all =
      boxes memory digits ints fundings
        (memory.iterate funded (digits.ser_str funding_key_prefix)) in
    let result = (collect memory digits ints fundings funded 5000).0 in
    ((taken rest : List (AsBox DistributionFunding)) × (all ≡ taken ++ rest)
      × (5000 ≤ total taken)
      × IsShort memory digits ints fundings 5000 0 taken
      × (result ≡ ok taken))
    ⊎ ((total all < 5000) × (result ≡ err))
unfolding program
collect_lem_example =
    collect_lem memory digits ints fundings funded 5000 (omega arith) (omega arith)

remove-put_funding_example :
    memory.get
      (remove memory digits ints fundings
        (put_funding memory digits ints fundings confirmed_priority funded small_box)
        1)
      (index_key memory digits ints fundings 1)
    ≡ none
unfolding program
remove-put_funding_example =
    remove-put_funding memory digits ints fundings confirmed_priority funded small_box
      (index_key memory digits ints fundings 1)

remove-put_confirmed-put_predicted_example : Elem small_box (
    boxes memory digits ints fundings (
      memory.iterate
        (remove memory digits ints fundings
          (put_confirmed memory digits ints fundings
            (put_predicted memory digits ints fundings [] small_box)
            small_box)
          1)
        (digits.ser_str funding_key_prefix)))
remove-put_confirmed-put_predicted_example =
    remove-put_confirmed-put_predicted memory digits ints fundings [] small_box
