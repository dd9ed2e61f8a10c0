-- ===== src/Tests/Bundles.antt =====
-- A repository of bundles in memory, and the theorems on it at the states of one bundle.
use mathlib.Core.Option
use spectrum_offchain_ergo.Prelude.{
  ℕ, ◌<◌, ◌≡◌, ◌≢◌, refl, Option, none, some, [], ◌∷◌, ◌++◌, arith, ◌==◌, if◌then◌else◌, bytes_eq,
  length, take, drop, Option-cases, inl, inr,
}
use spectrum_offchain_ergo.Data.{Traced}
use spectrum_offchain_ergo.Storage.{Bytes, Codec, prefixed_key}
use spectrum_offchain_ergo.BoxResolver.Resolve.{Resolved}
use spectrum_offchain_ergo.Lm.Types.{AsBox, TypedAssetAmount, StakingBundle}
use spectrum_offchain_ergo.Lm.Bundles.{
  IndexedBundle, plain, bundle_entity, Words, put_confirmed, put_predicted, invalidate, eliminate,
  get_last_confirmed, get_last_predicted, get_prediction_predecessor, resolve_bundle_state,
  resolve_match, get_last, put_state, epoch_index_key, epoch_index_prefix, prediction_link_prefix,
}
use spectrum_offchain_ergo.Lm.Bundles.Reads.{put_confirmed-get, put_predicted-get}
use spectrum_offchain_ergo.Lm.Bundles.Resolve.{
  resolve_bundle_state_lem, resolve_bundle_state-put_predicted, StatesParse,
  resolve_bundle_state-invalidate,
}
use spectrum_offchain_ergo.Lm.Bundles.States.{StatesParse-operations}
use spectrum_offchain_ergo.Tests.Schedules.{zeros}
use spectrum_offchain_ergo.Tests.Rocks.{memory, digits, get, put, delete, ser_str, de_id}

unfoldable pub de_u32 : Bytes → Option ℕ
de_u32 [] = none
de_u32 (n ∷ _) = some n

pub de_u32-ser_u32 : (n : ℕ) → de_u32 (n ∷ zeros 3) ≡ some n
unfolding de_u32
de_u32-ser_u32 n = refl

abbrev pub words : Words
words = record { ser_u32 = λ n. n ∷ zeros 3; de_u32 = de_u32; de_u32-ser_u32 = de_u32-ser_u32 }

abbrev ser_tmp : Option TypedAssetAmount → Bytes → Bytes
ser_tmp none rest = 0 ∷ 0 ∷ 0 ∷ rest
ser_tmp (some t) rest = 1 ∷ t.token_id ∷ t.amount ∷ rest

unfoldable pub serialize : AsBox IndexedBundle → Bytes
serialize b =
    let s = b.entity.bundle in
    b.box_id
    ∷ b.creation_height
    ∷ b.entity.lower_epoch_ix
    ∷ s.bundle_key_id
    ∷ s.state_id
    ∷ s.pool_id
    ∷ s.vlq.token_id
    ∷ s.vlq.amount
    ∷ s.redeemer_prop
    ∷ s.erg_value
    ∷ ser_tmp s.tmp (length s.token_name ∷ s.token_name ++ s.token_desc)

unfoldable pub deserialize : Bytes → Option (AsBox IndexedBundle)
deserialize
      (box_id ∷ height ∷ ix ∷ key ∷ state ∷ pool ∷ vlq ∷ amount ∷ prop ∷ value ∷ tag ∷ tmp
        ∷ tmp_amount ∷ n ∷ rest) =
    some (record {
      box_id = box_id;
      creation_height = height;
      entity = record {
        lower_epoch_ix = ix;
        bundle = record {
          bundle_key_id = key;
          state_id = state;
          pool_id = pool;
          vlq = record { token_id = vlq; amount = amount };
          tmp = if tag == 0 then none else some (record { token_id = tmp; amount = tmp_amount });
          redeemer_prop = prop;
          erg_value = value;
          token_name = take n rest;
          token_desc = drop n rest;
        };
      };
    })
deserialize _ = none

take-length : (s t : Bytes) → (take (length s) (s ++ t) ≡ s) × (drop (length s) (s ++ t) ≡ t)
take-length [] t = (refl, refl)
take-length (x ∷ s) t = ground (arith, take-length s t)

pub deserialize-serialize : (b : AsBox IndexedBundle) → deserialize (serialize b) ≡ some b
unfolding deserialize serialize
deserialize-serialize b =
    let s = b.entity.bundle in
    let (name, desc) = take-length s.token_name s.token_desc in
    elim (Option-cases s.tmp) [
      | inl e ↦ rw (e, name, desc) (ground (arith, e))
      | inr (t, e) ↦ rw (e, name, desc) (ground (arith, e))
    ]

abbrev pub bundles : Codec (AsBox IndexedBundle)
bundles = record {
  serialize = serialize;
  deserialize = deserialize;
  deserialize-serialize = deserialize-serialize;
}

-- the states 10, 11, ... of the bundle 1
abbrev pub state : ℕ → AsBox IndexedBundle
state sid = record {
  box_id = sid;
  creation_height = 600;
  entity = record {
    lower_epoch_ix = 3;
    bundle = record {
      bundle_key_id = 1;
      state_id = sid;
      pool_id = 7;
      vlq = record { token_id = 4; amount = 100 };
      tmp = some (record { token_id = 5; amount = 800 });
      redeemer_prop = 31;
      erg_value = 250000;
      token_name = [];
      token_desc = [];
    };
  };
}

abbrev next : Traced (AsBox IndexedBundle)
next = record { state = state 11; prev_state_id = some 10 }

abbrev confirmed_db : memory.Db
confirmed_db = put_confirmed memory digits words bundles [] (state 10)

abbrev predicted_db : memory.Db
predicted_db = put_predicted memory digits words bundles confirmed_db next

no_StatesParse : StatesParse memory digits words bundles []
unfolding get
no_StatesParse sid v st e = absurd (ground (arith, e))

confirmed_StatesParse : StatesParse memory digits words bundles confirmed_db
confirmed_StatesParse =
    (StatesParse-operations memory digits words bundles [] (state 10) next 10 no_StatesParse).0

predicted_StatesParse : StatesParse memory digits words bundles predicted_db
predicted_StatesParse =
    (StatesParse-operations memory digits words bundles confirmed_db (state 10) next 10
      confirmed_StatesParse).1

StatesParse-operations_example :
    StatesParse memory digits words bundles
      (put_confirmed memory digits words bundles predicted_db (state 11))
    × StatesParse memory digits words bundles (
        put_predicted memory digits words bundles predicted_db
          (record { state = state 12; prev_state_id = some 11 }))
    × StatesParse memory digits words bundles
        (invalidate memory digits words bundles predicted_db 11)
    × StatesParse memory digits words bundles
        (eliminate memory digits words bundles predicted_db (state 11).entity)
StatesParse-operations_example =
    StatesParse-operations memory digits words bundles predicted_db (state 11)
      (record { state = state 12; prev_state_id = some 11 }) 11 predicted_StatesParse

-- the state 11 is above all others
abbrev rank : ℕ → ℕ
rank s = if s == 11 then 1 else 0

links :
    (s : ℕ)
    → get_prediction_predecessor memory digits words bundles predicted_db s
      ≡ (if s == 11 then some 10 else none)
unfolding get_prediction_predecessor Option.bind bytes_eq get de_id
links s = ground (
  arith,
  put_predicted-get memory digits words bundles confirmed_db next prediction_link_prefix s 10 refl
      refl,
  put_confirmed-get memory digits words bundles [] (state 10) prediction_link_prefix s refl,
)

down :
    (s t : ℕ)
    → get_prediction_predecessor memory digits words bundles predicted_db s ≡ some t
    → rank t < rank s
down s t e = ground (arith, e, links s)

rank_below : (s : ℕ) → rank s < 2
rank_below s = ground arith

resolve_bundle_state_lem_example :
    (r : Option (AsBox StakingBundle)) × (resolve_bundle_state memory digits words bundles 2
        predicted_db 1
      ≡ some r)
    × Resolved bundle_entity
        (get_prediction_predecessor memory digits words bundles predicted_db)
        (get_last_confirmed memory digits words bundles predicted_db 1)
        none
        (get_last_predicted memory digits words bundles predicted_db 1)
        r
resolve_bundle_state_lem_example =
    resolve_bundle_state_lem memory digits words bundles predicted_db rank 2 1 down
      (λ p _. rank_below p.entity.state_id)

resolve_bundle_state-put_predicted_example :
    resolve_bundle_state memory digits words bundles 2 predicted_db 1
    ≡ some (some (plain (state 11)))
resolve_bundle_state-put_predicted_example =
    resolve_bundle_state-put_predicted memory digits words bundles [] (state 10) (state 11) 1 refl
      (λ e. absurd (omega (arith, e)))

-- everything that a run of the repository computes with
program : Unit {0}
unfolding put_confirmed put_predicted put_state epoch_index_key epoch_index_prefix invalidate
    resolve_bundle_state resolve_match get_last_confirmed get_last_predicted get_last
    get_prediction_predecessor prefixed_key Option.bind bytes_eq get put delete ser_str de_id
    serialize deserialize
program = tt

back_to_confirmed :
    resolve_bundle_state memory digits words bundles 2
      (invalidate memory digits words bundles predicted_db 11)
      1
    ≡ some (some (plain (state 10)))
unfolding program
back_to_confirmed = refl

resolve_bundle_state-invalidate_example : (plain (state 10)).entity.state_id ≢ 11
resolve_bundle_state-invalidate_example =
    resolve_bundle_state-invalidate memory digits words bundles predicted_db 11 2 1
      (plain (state 10)) predicted_StatesParse back_to_confirmed
