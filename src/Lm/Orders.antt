-- ===== src/Lm/Orders.antt =====
-- data/order.rs of spectrum-offchain-lm/src: the orders of the pools, and `try_run`, which makes the
-- transaction of an order.
use mathlib.Core.Option
use spectrum_offchain_ergo.Prelude.{ℕ, ◌*◌, Option, none, List, [], ◌∷◌, length}
use spectrum_offchain_ergo.Data.{OnChainOrder}
use spectrum_offchain_ergo.Lm.Types.{
  AsBox, wrap, TokenDetails, ExecutionContext, Deposit, Redeem, StakingBundleProto, StakingBundle,
  finalize, DepositOutput, RedeemOutput, ExecutorOutput, MinerOutput,
}
use spectrum_offchain_ergo.Lm.Pool.{
  Pool, PoolOperationError, permanent, liquidity_move_blocked, ok, err, panicked, apply_deposit,
  apply_redeem,
}
use spectrum_offchain_ergo.Lm.Rewards.{RewardOutput, DistributionFundingProto}
use spectrum_offchain_ergo.Executor.Order.{RunOrderError, fatal, non_fatal}
pub mod Compounding
pub mod Outputs
pub mod Compounds

pub record Compound : Type 0 where
  pub pool_id : ℕ
  pub epoch_ix : ℕ
  pub queue_ix : ℕ
  pub stakers : List ℕ

pub data Order : Type 0 where
  deposit : AsBox Deposit → Order
  redeem : AsBox Redeem → Order
  compound : Compound → Order

-- `Has<Vec<BundleId>> for Order`
unfoldable pub bundle_ids : Order → List ℕ
bundle_ids (deposit d) = []
bundle_ids (redeem r) = r.entity.bundle_key.token_id ∷ []
bundle_ids (compound c) = c.stakers

abbrev pub compound_base_weight : ℕ
compound_base_weight = 1000000000000

-- u64 arithmetic, which wraps
unfoldable pub weight : Order → ℕ
weight (deposit d) = d.entity.erg_value
weight (redeem r) = r.entity.erg_value
weight (compound c) = wrap (wrap (c.epoch_ix * c.queue_ix) * compound_base_weight)

-- `order_id` is the hash of a compounding, and `safe_user_min` the least value of a box, which are
-- those of the library.
pub record ErgoLib : Type 0 where
  pub order_id : Compound → ℕ
  pub safe_user_min : ℕ

-- what an output of a transaction is made from by `into_candidate`
pub data Candidate : Type 0 where
  pool_box : Pool → Candidate
  deposit_box : DepositOutput → Candidate
  redeem_box : RedeemOutput → Candidate
  proto_box : StakingBundleProto → Candidate
  bundle_box : StakingBundle → Candidate
  reward_box : RewardOutput → Candidate
  funding_box : DistributionFundingProto → Candidate
  executor_box : ExecutorOutput → Candidate
  miner_box : MinerOutput → Candidate

-- an input, with the constants 0 and 1 of its context extension, if it has any
pub record Input : Type 0 where
  pub box_id : ℕ
  pub constants : Option (ℕ × ℕ)

pub record TransactionCandidate : Type 0 where
  pub inputs : List Input
  pub outputs : List Candidate
  pub creation_height : ℕ

-- The output of a transaction at a position as a box. Its identifier is a hash, a parameter.
abbrev pub out_box :
    {T : Type 0} → (TransactionCandidate → ℕ → ℕ) → TransactionCandidate → ℕ → T → AsBox T
out_box box_id_at tx i entity = record {
  box_id = box_id_at tx i;
  creation_height = tx.creation_height;
  entity = entity;
}

-- `Ok`, `Err`, or a panic
pub data RunResult (TOrd Out : Type 0) : Type 0 where
  ran : Out → RunResult TOrd Out
  failed : RunOrderError TOrd → RunResult TOrd Out
  run_panicked : RunResult TOrd Out

abbrev pub plain_input : ℕ → Input
plain_input id = record { box_id = id; constants = none }

-- the last two arms of each `try_run`
unfoldable pub run_error : {TOrd Out : Type 0} → TOrd → PoolOperationError → RunResult TOrd Out
run_error ord (permanent e) = failed (fatal ord)
run_error ord liquidity_move_blocked = failed (non_fatal ord)

module _ (E : ErgoLib) where
  open E use {order_id, safe_user_min}

  -- `OnChainOrder for Order`
  abbrev pub order_entity : OnChainOrder Order
  order_entity = record {
    get_self_ref = λ o. elim o [
      | deposit d ↦ d.entity.order_id
      | redeem r ↦ r.entity.order_id
      | compound c ↦ order_id c
    ];
    get_entity_ref = λ o. elim o [
      | deposit d ↦ d.entity.pool_id
      | redeem r ↦ r.entity.pool_id
      | compound c ↦ c.pool_id
    ];
  }

  unfoldable pub estimated_min_value : Compound → ℕ
  estimated_min_value c = wrap (length c.stakers * safe_user_min)

module _ (box_id_at : TransactionCandidate → ℕ → ℕ) where
  -- `impl RunOrder for AsBox<Deposit>`
  unfoldable pub run_deposit :
      AsBox Deposit
      → AsBox Pool
      → TokenDetails
      → ExecutionContext
      → RunResult (AsBox Deposit) (TransactionCandidate × AsBox Pool × AsBox StakingBundle)
  unfolding run_error
  run_deposit self pool details ctx = elim (apply_deposit pool.entity self.entity details ctx) [
    | err e ↦ run_error self e
    | panicked ↦ run_panicked
    | ok (next_pool, bundle_proto, user_out, executor_out, miner_out) ↦
        let tx : TransactionCandidate = record {
          inputs = plain_input pool.box_id ∷ plain_input self.box_id ∷ [];
          outputs =
              pool_box next_pool
              ∷ deposit_box user_out
              ∷ proto_box bundle_proto
              ∷ executor_box executor_out
              ∷ miner_box miner_out
              ∷ [];
          creation_height = ctx.height;
        } in
        ran (
          tx,
          out_box box_id_at tx 0 next_pool,
          out_box box_id_at tx 2 (finalize bundle_proto (box_id_at tx 2)),
        )
  ]

  -- `impl RunOrder for AsBox<Redeem>`
  unfoldable pub run_redeem :
      ℕ
      → AsBox Redeem
      → AsBox Pool
      → AsBox StakingBundle
      → ExecutionContext
      → RunResult (AsBox Redeem) (TransactionCandidate × AsBox Pool)
  unfolding run_error
  run_redeem stuck_pool_id self pool bundle ctx =
      elim (apply_redeem pool.entity stuck_pool_id self.entity bundle.entity ctx) [
        | err e ↦ run_error self e
        | panicked ↦ run_panicked
        | ok (next_pool, user_out, executor_out, miner_out) ↦
            let tx : TransactionCandidate = record {
              inputs =
                  plain_input pool.box_id
                  ∷ plain_input bundle.box_id
                  ∷ plain_input self.box_id
                  ∷ [];
              outputs =
                  pool_box next_pool
                  ∷ redeem_box user_out
                  ∷ executor_box executor_out
                  ∷ miner_box miner_out
                  ∷ [];
              creation_height = ctx.height;
            } in
            ran (tx, out_box box_id_at tx 0 next_pool)
      ]
