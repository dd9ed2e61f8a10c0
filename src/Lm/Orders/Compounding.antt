-- ===== src/Lm/Orders/Compounding.antt =====
-- What `try_run` of a compound order builds in data/order.rs of spectrum-offchain-lm/src.
use mathlib.Core.Option
use spectrum_offchain_ergo.Prelude.{
  ℕ, suc, ◌+◌, Bool, true, false, Option, none, some, List, [], ◌∷◌, ◌++◌, map, ◌==◌, if◌then◌else◌,
  is_some, length,
}
use spectrum_offchain_ergo.Lm.Types.{AsBox, ExecutionContext, StakingBundle}
use spectrum_offchain_ergo.Lm.Pool.{Pool, ok, err, panicked}
use spectrum_offchain_ergo.Lm.Funding.{DistributionFunding}
use spectrum_offchain_ergo.Lm.Rewards.{DistributionFundingProto, Distribution, distribute_rewards}
use spectrum_offchain_ergo.Lm.Orders.{
  Compound, Candidate, Input, TransactionCandidate, out_box, RunResult, plain_input, run_error,
  pool_box, deposit_box, redeem_box, proto_box, bundle_box, reward_box, funding_box, executor_box,
  miner_box, ran, run_panicked,
}

-- whether the output has the script of bundles; those of the pool and of the miner's fee are others
unfoldable pub has_script : ℕ → Candidate → Bool
has_script bundle_validator (bundle_box _) = true
has_script bundle_validator (proto_box _) = true
has_script bundle_validator (deposit_box o) = o.redeemer_prop == bundle_validator
has_script bundle_validator (redeem_box o) = o.redeemer_prop == bundle_validator
has_script bundle_validator (reward_box o) = o.redeemer_prop == bundle_validator
has_script bundle_validator (funding_box o) = o.prop == bundle_validator
has_script bundle_validator (executor_box o) = o.executor_prop == bundle_validator
has_script bundle_validator (pool_box _) = false
has_script bundle_validator (miner_box _) = false

-- `find_position` of the first output with the script of bundles
unfoldable pub first_bundle_out_ix : ℕ → List Candidate → Option ℕ
unfolding has_script
first_bundle_out_ix bundle_validator [] = none
first_bundle_out_ix bundle_validator (out ∷ outputs) =
    let rest = Option.map suc (first_bundle_out_ix bundle_validator outputs) in
    if has_script bundle_validator out then some 0 else rest

-- the inputs of the bundles, from the i-th on
unfoldable pub bundle_inputs : ℕ → ℕ → ℕ → List (AsBox StakingBundle) → List Input
bundle_inputs first_ix num_bundles i [] = []
bundle_inputs first_ix num_bundles i (b ∷ bundles) =
    let succ_ix = first_ix + i in
    record { box_id = b.box_id; constants = some (succ_ix + num_bundles, succ_ix) }
    ∷ bundle_inputs first_ix num_bundles (suc i) bundles

unfoldable pub funding_outputs : Option DistributionFundingProto → List Candidate
funding_outputs none = []
funding_outputs (some f) = funding_box f ∷ []

unfoldable pub compound_outputs : Distribution → List Candidate
unfolding funding_outputs
compound_outputs d =
    (pool_box d.next_pool ∷ [])
    ++ (funding_outputs d.next_funding
        ++ (map bundle_box d.next_bundles
            ++ (map reward_box d.reward_outputs ++ (miner_box d.miner_output ∷ []))))

module _ (box_id_at : TransactionCandidate → ℕ → ℕ) where
  -- the next bundles as boxes, from the output at `ix` on
  unfoldable pub bundles_as_box :
      TransactionCandidate → ℕ → List StakingBundle → List (AsBox StakingBundle)
  bundles_as_box tx ix [] = []
  bundles_as_box tx ix (bn ∷ bundles) =
      out_box box_id_at tx ix (record bn { state_id = box_id_at tx ix })
      ∷ bundles_as_box tx (suc ix) bundles

  unfoldable pub compound_tx :
      AsBox Pool
      → List (AsBox StakingBundle)
      → List (AsBox DistributionFunding)
      → ℕ
      → Distribution
      → ℕ
      → TransactionCandidate
  unfolding compound_outputs bundle_inputs
  compound_tx pool bundles funding height d first_ix = record {
    inputs =
        plain_input pool.box_id
        ∷ (map (λ f. plain_input f.box_id) funding
            ++ bundle_inputs first_ix (length bundles) 0 bundles);
    outputs = compound_outputs d;
    creation_height = height;
  }

  -- the end of `try_run` of a compounding
  unfoldable pub compounded :
      TransactionCandidate
      → Distribution
      → TransactionCandidate
        × AsBox Pool
        × List (AsBox StakingBundle)
        × Option (AsBox DistributionFunding)
  unfolding bundles_as_box
  compounded tx d = (
    tx,
    out_box box_id_at tx 0 d.next_pool,
    bundles_as_box tx (if is_some d.next_funding then 2 else 1) d.next_bundles,
    Option.map
        (λ nf.
          out_box box_id_at tx 1
            (record { id = box_id_at tx 1; prop = nf.prop; erg_value = nf.erg_value }))
        d.next_funding,
  )

  -- `impl RunOrder for Compound`; the funding is a head and a tail, and the script of bundles an
  -- argument
  unfoldable pub run_compound :
      ℕ
      → Compound
      → AsBox Pool
      → List (AsBox StakingBundle)
      → AsBox DistributionFunding
      → List (AsBox DistributionFunding)
      → ExecutionContext
      → RunResult Compound (
          TransactionCandidate
          × AsBox Pool
          × List (AsBox StakingBundle)
          × Option (AsBox DistributionFunding))
  unfolding run_error first_bundle_out_ix compound_tx compounded
  run_compound bundle_validator self pool bundles head tail ctx =
      elim (distribute_rewards pool.entity (map (λ b. b.entity) bundles) head.entity
        (map (λ f. f.entity) tail)) [
          | err e ↦ run_error self e
          | panicked ↦ run_panicked
          | ok d ↦ elim (first_bundle_out_ix bundle_validator (compound_outputs d)) [
            | none ↦ run_panicked
            | some first_ix ↦
                ran (compounded (compound_tx pool bundles (head ∷ tail) ctx.height d first_ix) d)
          ]
        ]
