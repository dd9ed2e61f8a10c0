-- ===== src/Tests/Rewards.antt =====
-- A distribution of rewards to two bundles, a second one, and the transaction of the first.
use spectrum_offchain_ergo.Prelude.{
  ℕ, ◌+◌, ◌*◌, ◌≡◌, refl, max, none, some, List, [], ◌∷◌, map, arith, length, get_elem?,
}
use spectrum_offchain_ergo.Lm.Types.{add, sub, AsBox, StakingBundle, ExecutionContext}
use spectrum_offchain_ergo.Lm.Pool.{
  Pool, permanent, already_compounded, Outcome, ok, err, panicked, shift, round_to, as_f64,
  epoch_alloc, epoch_completed,
}
use spectrum_offchain_ergo.Lm.Funding.{DistributionFunding}
use spectrum_offchain_ergo.Lm.Rewards.{
  RewardOutput, Distribution, epochs_burned, reward_of, pay, charged_tmp, left_tmp, charge,
  funds_total, next_funding_box, settle, distributed_epoch, reward_amt, reward_bundle,
  reward_bundles, default_miner_fee_for_compound_tx, distribute_rewards,
}
use spectrum_offchain_ergo.Lm.Rewards.Loop.{SameWord, total_rewards, total_tmp, total_value}
use spectrum_offchain_ergo.Lm.Rewards.Conserve.{
  sum_funds, paid_value, distribute_rewards_moves, distribute_rewards_pays,
}
use spectrum_offchain_ergo.Lm.Rewards.Owners.{IsOwn}
use spectrum_offchain_ergo.Lm.Rewards.Repeat.{distribute_rewards-distribute_rewards}
use spectrum_offchain_ergo.Lm.Orders.{
  Compound, bundle_box, reward_box, TransactionCandidate, out_box, ran,
}
use spectrum_offchain_ergo.Lm.Orders.Compounding.{
  has_script, first_bundle_out_ix, bundle_inputs, funding_outputs, compound_outputs, bundles_as_box,
  compound_tx, compounded, run_compound,
}
use spectrum_offchain_ergo.Lm.Orders.Compounds.{run_compound_lem}

-- a program of 10 epochs of 100 blocks, at the end of its first
abbrev pool : Pool
pool = record {
  pool_id = 1;
  budget_rem = record { token_id = 2; amount = 10000 };
  reserves_lq = record { token_id = 3; amount = 150 };
  reserves_vlq = record { token_id = 4; amount = 1000000 };
  reserves_tmp = record { token_id = 5; amount = 9223372036854774307 };
  epoch_ix = none;
  conf = record {
    epoch_len = 100;
    epoch_num = 10;
    program_start = 500;
    redeem_blocks_delta = 10;
    max_rounding_error = 0;
    program_budget = record { token_id = 2; amount = 10000 };
  };
  erg_value = 250000;
}

abbrev bundle : ℕ → ℕ → ℕ → StakingBundle
bundle key owner vlq = record {
  bundle_key_id = key;
  state_id = key;
  pool_id = 1;
  vlq = record { token_id = 4; amount = vlq };
  tmp = some (record { token_id = 5; amount = vlq * 10 });
  redeemer_prop = owner;
  erg_value = 250000;
  token_name = [];
  token_desc = [];
}

abbrev boxed : {T : Type 0} → ℕ → T → AsBox T
boxed id entity = record { box_id = id; creation_height = 600; entity = entity }

abbrev bundles : List StakingBundle
bundles = bundle 21 31 100 ∷ bundle 22 32 50 ∷ []

abbrev bundle_boxes : List (AsBox StakingBundle)
bundle_boxes = boxed 21 (bundle 21 31 100) ∷ boxed 22 (bundle 22 32 50) ∷ []

abbrev funding : DistributionFunding
funding = record { id = 41; prop = 33; erg_value = 9000000 }

abbrev context : ExecutionContext
context = record { height = 600; mintable_token_id = 9; executor_prop = 10 }

abbrev self : Compound
self = record { pool_id = 1; epoch_ix = 1; queue_ix = 0; stakers = 21 ∷ 22 ∷ [] }

abbrev box_id_at : TransactionCandidate → ℕ → ℕ
box_id_at tx i = 1000 + i

abbrev distribution_of : Distribution → Outcome Distribution → Distribution
distribution_of d (ok out) = out
distribution_of d (err e) = d
distribution_of d panicked = d

abbrev no_distribution : Distribution
no_distribution = record {
  next_pool = pool;
  next_bundles = [];
  next_funding = none;
  reward_outputs = [];
  miner_output = record { erg_value = 0 };
}

-- what the distribution comes to
abbrev distributed : Distribution
distributed = distribution_of no_distribution (distribute_rewards pool bundles funding [])

-- everything that a distribution and its transaction compute with
program : Unit {0}
unfolding distribute_rewards distributed_epoch epoch_alloc epoch_completed shift round_to as_f64
    reward_bundles reward_bundle epochs_burned reward_amt reward_of pay charge charged_tmp left_tmp
    add sub settle funds_total next_funding_box run_compound compounded compound_tx bundle_inputs
    funding_outputs compound_outputs bundles_as_box first_bundle_out_ix has_script
program = tt

distributes : distribute_rewards pool bundles funding [] ≡ ok distributed
unfolding program
distributes = refl

rewards :
    map (λ (o : RewardOutput). o.reward) distributed.reward_outputs
    ≡ some (record { token_id = 2; amount = 666 })
      ∷ some (record { token_id = 2; amount = 333 })
      ∷ []
unfolding program
rewards = refl

distribute_rewards_moves_example :
    SameWord
      (distributed.next_pool.budget_rem.amount + total_rewards distributed.reward_outputs)
      10000
    × SameWord
        (distributed.next_pool.reserves_tmp.amount + total_tmp distributed.next_bundles)
        (pool.reserves_tmp.amount + total_tmp bundles)
    × (length distributed.reward_outputs ≡ 2)
    × (length distributed.next_bundles ≡ 2)
distribute_rewards_moves_example =
    distribute_rewards_moves pool bundles funding [] distributed distributes

distribute_rewards_pays_example :
    paid_value distributed
    ≡ max
        (sum_funds (funding ∷ []))
        (total_value distributed.reward_outputs + default_miner_fee_for_compound_tx)
unfolding program
distribute_rewards_pays_example =
    distribute_rewards_pays pool bundles funding [] distributed distributes (omega arith)
      (omega arith)

distribute_rewards-distribute_rewards_example :
    distribute_rewards distributed.next_pool distributed.next_bundles funding []
    ≡ err (permanent already_compounded)
unfolding program
distribute_rewards-distribute_rewards_example =
    distribute_rewards-distribute_rewards pool distributed.next_pool (bundle 21 31 100)
      (bundle 22 32 50 ∷ []) funding funding [] [] distributed 1 (omega arith, omega arith) refl
      refl refl distributes

-- the transaction of the compounding, and what comes back with it
abbrev tx : TransactionCandidate
tx = compound_tx box_id_at (boxed 11 pool) bundle_boxes (boxed 41 funding ∷ []) 600 distributed 2

runs :
    run_compound box_id_at 77 self (boxed 11 pool) bundle_boxes (boxed 41 funding) [] context
    ≡ ran (compounded box_id_at tx distributed)
unfolding program
runs = refl

run_compound_lem_example :
    let out = compounded box_id_at tx distributed in
    (redeemer_out_ix succ_ix : ℕ) × (bn : StakingBundle) × (o : RewardOutput) × (get_elem?
        out.0.inputs 3
      ≡ some (record { box_id = 22; constants = some (redeemer_out_ix, succ_ix) }))
    × (get_elem? out.0.outputs succ_ix ≡ some (bundle_box bn))
    × (get_elem? out.0.outputs redeemer_out_ix ≡ some (reward_box o))
    × IsOwn (bundle 22 32 50) bn o
    × (get_elem? out.2 1
        ≡ some (out_box box_id_at out.0 succ_ix (record bn { state_id = box_id_at out.0 succ_ix })))
run_compound_lem_example =
    run_compound_lem box_id_at 77 self (boxed 11 pool) bundle_boxes (boxed 41 funding) [] context
      (compounded box_id_at tx distributed) 1 (boxed 22 (bundle 22 32 50))
      (λ e. absurd (omega (arith, e))) runs refl
