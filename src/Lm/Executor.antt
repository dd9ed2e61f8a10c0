-- ===== src/Lm/Executor.antt =====
-- executor.rs of spectrum-offchain-lm/src: what `OrderExecutor` is built over, its state, and the
-- evaluation of an order. Its steps are in Settle.
use mathlib.Core.Option
use spectrum_offchain_ergo.Prelude.{
  ℕ, ◌-◌, Bool, Option, none, some, List, [], ◌∷◌, map, if◌then◌else◌,
}
use spectrum_offchain_ergo.Prelude.Int.{ℤ, pos, ◌-ℤ◌, ltb_ℤ}
use spectrum_offchain_ergo.Data.{OnChainEntity}
use spectrum_offchain_ergo.Storage.{RocksDb, Bincode, Codec}
use spectrum_offchain_ergo.BoxResolver.Resolve.{EntityRepo}
use spectrum_offchain_ergo.Executor.Order.{Backlog, RunOrderError, fatal, map_error}
use spectrum_offchain_ergo.Executor.Invalidations.{OrderType}
use spectrum_offchain_ergo.Lm.Types.{AsBox, TokenDetails, ExecutionContext, Deposit, StakingBundle}
use spectrum_offchain_ergo.Lm.Pool.{Pool}
use spectrum_offchain_ergo.Lm.Funding.{
  DistributionFunding, FixedInts, Collected, ok, err, panicked, collect,
}
use spectrum_offchain_ergo.Lm.Funding
use spectrum_offchain_ergo.Lm.Bundles.{IndexedBundle, Words, resolve_bundle_state}
use spectrum_offchain_ergo.Lm.Bundles
use spectrum_offchain_ergo.Lm.Orders.{
  Compound, Order, deposit, redeem, compound, ErgoLib, estimated_min_value, TransactionCandidate,
  RunResult, ran, failed, run_panicked, run_deposit, run_redeem,
}
use spectrum_offchain_ergo.Lm.Orders.Compounding.{run_compound}
pub mod Settle
pub mod Forget
pub mod Sent
pub mod Fate

abbrev pub ctx_ttl_secs : ℤ
ctx_ttl_secs = pos 30

-- what `parse_err` of spectrum-offchain/src/executor.rs makes of the answer of a node
pub data NodeSubmitTxError : Type 0 where
  missing_inputs : List ℕ → NodeSubmitTxError
  double_spend : NodeSubmitTxError
  unhandled : NodeSubmitTxError
  scripts_of_inputs_dont_pass_verification : NodeSubmitTxError

-- `impl OnChainEntity for AsBox<Pool>`
abbrev pub pool_entity : OnChainEntity (AsBox Pool)
pool_entity = record { get_self_ref = λ p. p.entity.pool_id; get_self_state_ref = λ p. p.box_id }

-- what the executor is built over
pub record Setting : Type 1 where
  pub lib : ErgoLib
  pub backlog : Backlog Order
  pub pools : EntityRepo (AsBox Pool)
  pub rocks : RocksDb
  pub bincode : Bincode
  pub words : Words
  pub bundle_codec : Codec (AsBox IndexedBundle)
  pub ints : FixedInts
  pub funding_codec : Codec (AsBox DistributionFunding)
  pub bundle_validator : ℕ
  pub stuck_pool_id : ℕ
  pub executor_prop : ℕ
  pub box_id_at : TransactionCandidate → ℕ → ℕ

-- What the clock, the prover and the node answer in one step. A rejection is given as `parse_err`
-- reads it, and a signed transaction has the inputs and outputs of the candidate.
pub record Answers : Type 0 where
  pub ts_now : ℤ
  pub height : ℕ
  pub token_details : AsBox Pool → AsBox Deposit → TokenDetails
  pub sign : TransactionCandidate → Bool
  pub submit_tx : TransactionCandidate → Option NodeSubmitTxError
  pub box_in_utxo : ℕ → Bool

-- a transaction that an order gave, with what is to be stored when the node accepts it
pub record Ready : Type 0 where
  pub tx : TransactionCandidate
  pub next_pool : AsBox Pool
  pub next_bundles : List (AsBox StakingBundle)
  pub residual_funding : Option (AsBox DistributionFunding)
  pub order_type : OrderType

-- `run_result`, or the early `return Err(())`, or a panic
pub data Evaluated : Type 0 where
  ready : Ready → Evaluated
  refused : RunOrderError Order → Evaluated
  no_result : Evaluated
  eval_panicked : Evaluated

unfoldable pub from_run :
    {TOrd Out : Type 0} → (TOrd → Order) → (Out → Ready) → RunResult TOrd Out → Evaluated
unfolding map_error
from_run to_order to_ready (ran out) = ready (to_ready out)
from_run to_order to_ready (failed e) = refused (map_error to_order e)
from_run to_order to_ready run_panicked = eval_panicked

module _ (S : Setting) where
  open S use {
    backlog as L, pools as P, rocks as R, bincode as B, words as U, bundle_codec as BC, ints as F,
    funding_codec as FC,
  }

  pub record OrderExecutor : Type 0 where
    pub backlog : L.Service
    pub pool_repo : P.Repo
    pub bundle_repo : R.Db
    pub funding_repo : R.Db
    pub context_cache : ℕ × ℤ

  -- the height is asked for again when the cached one is old
  unfoldable pub make_context : Answers → ℕ × ℤ → ℕ → ExecutionContext × (ℕ × ℤ)
  make_context A cache first_input_id =
      let context = λ (h : ℕ).
        let c : ExecutionContext = record {
          height = h;
          mintable_token_id = first_input_id;
          executor_prop = S.executor_prop;
        } in
        c in
      if ltb_ℤ (A.ts_now -ℤ cache.1) ctx_ttl_secs
      then (context cache.0, cache)
      else (context A.height, (A.height, A.ts_now))

  -- the bundles that resolve; `none` is that of the fuel
  unfoldable pub resolve_bundles : ℕ → R.Db → List ℕ → Option (List (AsBox StakingBundle))
  resolve_bundles fuel db [] = some []
  resolve_bundles fuel db (id ∷ ids) = elim (resolve_bundle_state R B U BC fuel db id) [
    | none ↦ none
    | some resolved ↦ elim (resolve_bundles fuel db ids) [
      | none ↦ none
      | some bundles ↦ some (elim resolved [ none ↦ bundles | some b ↦ b ∷ bundles ])
    ]
  ]

  -- the arm of a compounding with bundles, for the funding that was collected
  unfoldable pub run_collected :
      AsBox Pool → List (AsBox StakingBundle) → ExecutionContext → Compound → Collected → Evaluated
  unfolding from_run
  run_collected pool bundles ctx c panicked = eval_panicked
  run_collected pool bundles ctx c err = no_result
  run_collected pool bundles ctx c (ok []) = eval_panicked
  run_collected pool bundles ctx c (ok (head ∷ tail)) =
      from_run compound
        (λ (tx, next_pool, next_bundles, residual). record {
          tx = tx;
          next_pool = next_pool;
          next_bundles = next_bundles;
          residual_funding = residual;
          order_type = OrderType.compound (map (λ f. f.box_id) (head ∷ tail));
        })
        (run_compound S.box_id_at S.bundle_validator c pool bundles head tail ctx)

  -- `run_result`; `collect` changes the funding
  unfoldable pub evaluate :
      Answers
      → R.Db
      → AsBox Pool
      → List (AsBox StakingBundle)
      → ExecutionContext
      → Order
      → Evaluated × R.Db
  unfolding from_run run_collected
  evaluate A db pool bundles ctx (deposit d) = (
    from_run deposit
        (λ (tx, next_pool, bundle). record {
          tx = tx;
          next_pool = next_pool;
          next_bundles = bundle ∷ [];
          residual_funding = none;
          order_type = OrderType.deposit;
        })
        (run_deposit S.box_id_at d pool (A.token_details pool d) ctx),
    db,
  )
  evaluate A db pool [] ctx (redeem r) = (no_result, db)
  evaluate A db pool (bundle ∷ _) ctx (redeem r) = (
    from_run redeem
        (λ (tx, next_pool). record {
          tx = tx;
          next_pool = next_pool;
          next_bundles = [];
          residual_funding = none;
          order_type = OrderType.redeem;
        })
        (run_redeem S.box_id_at S.stuck_pool_id r pool bundle ctx),
    db,
  )
  evaluate A db pool [] ctx (compound c) = (refused (fatal (compound c)), db)
  evaluate A db pool (b ∷ bundles) ctx (compound c) =
      let (collected, db') = collect R B F FC db (estimated_min_value S.lib c) in
      (run_collected pool (b ∷ bundles) ctx c collected, db')
