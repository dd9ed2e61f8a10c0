-- ===== src/Lm/Rewards.antt =====
-- `distribute_rewards` of spectrum-offchain-lm/src/data/pool.rs.
use spectrum_offchain_ergo.Prelude.{
  ℕ, ◌+◌, ◌-◌, ◌*◌, ◌/◌, ◌%◌, ◌^◌, Option, none, some, List, [], ◌∷◌, ltb, leb, ◌==◌, if◌then◌else◌,
}
use spectrum_offchain_ergo.Lm.Types.{
  TypedAssetAmount, add, sub, wrap, sub_wrap, safe_sub, max_value, min_safe_box_value,
  StakingBundle, MinerOutput,
}
use spectrum_offchain_ergo.Lm.Pool.{
  Pool, permanent, already_compounded, budget_depleted, Outcome, ok, err, panicked, epoch_alloc,
  epoch_completed,
}
use spectrum_offchain_ergo.Lm.Funding.{DistributionFunding}
pub mod Loop
pub mod Conserve
pub mod Repeat
pub mod Owners

abbrev pub default_miner_fee_for_compound_tx : ℕ
default_miner_fee_for_compound_tx = 3000000

pub record RewardOutput : Type 0 where
  pub reward : Option TypedAssetAmount
  pub redeemer_prop : ℕ
  pub erg_value : ℕ

pub record DistributionFundingProto : Type 0 where
  pub prop : ℕ
  pub erg_value : ℕ

-- what the loop over the bundles keeps in variables
pub record Progress : Type 0 where
  pub next_pool : Pool
  pub accumulated_cost : ℕ

pub record Distribution : Type 0 where
  pub next_pool : Pool
  pub next_bundles : List StakingBundle
  pub next_funding : Option DistributionFundingProto
  pub reward_outputs : List RewardOutput
  pub miner_output : MinerOutput

-- how many epochs a bundle is behind; `none` where its virtual liquidity is zero
unfoldable pub epochs_burned : ℕ → StakingBundle → Option ℕ
epochs_burned epochs_remain bundle = elim bundle.tmp [
  | none ↦ some 0
  | some tmp ↦
      if bundle.vlq.amount == 0 then none else some (tmp.amount / bundle.vlq.amount - epochs_remain)
]

unfoldable pub reward_of : TypedAssetAmount → ℕ → Option TypedAssetAmount
reward_of budget amt =
    if ltb 0 amt then some (record { token_id = budget.token_id; amount = amt }) else none

unfoldable pub pay : TypedAssetAmount → Option TypedAssetAmount → TypedAssetAmount
unfolding sub
pay budget none = budget
pay budget (some reward) = sub budget reward

unfoldable pub charged_tmp : ℕ → StakingBundle → TypedAssetAmount → TypedAssetAmount
charged_tmp epochs_remain bundle tmp = record {
  token_id = tmp.token_id;
  amount = sub_wrap tmp.amount (wrap (epochs_remain * bundle.vlq.amount));
}

unfoldable pub left_tmp : TypedAssetAmount → TypedAssetAmount → Option TypedAssetAmount
unfolding sub
left_tmp tmp charged = if ltb 0 (sub tmp charged).amount then some (sub tmp charged) else none

-- the part of an iteration that charges the bundle
unfoldable pub charge : ℕ → Progress → StakingBundle → Progress × StakingBundle
unfolding add charged_tmp left_tmp
charge epochs_remain p bundle = elim bundle.tmp [
  | none ↦ (p, bundle)
  | some tmp ↦
      let charged = charged_tmp epochs_remain bundle tmp in
      (
        record {
          next_pool = record p.next_pool { reserves_tmp = add p.next_pool.reserves_tmp charged };
          accumulated_cost = wrap (p.accumulated_cost + min_safe_box_value);
        },
        record bundle { tmp = left_tmp tmp charged },
      )
]

unfoldable pub funds_total : List DistributionFunding → ℕ
funds_total [] = 0
funds_total (f ∷ fs) = wrap (f.erg_value + funds_total fs)

-- what becomes of the funds; `prop` is that of the first funding box
unfoldable pub next_funding_box : ℕ → ℕ → Option DistributionFundingProto × MinerOutput
next_funding_box prop funds_remain =
    if leb min_safe_box_value funds_remain
    then (
      some (record { prop = prop; erg_value = funds_remain }),
      record { erg_value = default_miner_fee_for_compound_tx },
    )
    else (none, record { erg_value = wrap (default_miner_fee_for_compound_tx + funds_remain) })

-- the end of `distribute_rewards`
unfoldable pub settle :
    ℕ
    → Progress
    → List StakingBundle
    → List RewardOutput
    → DistributionFunding
    → List DistributionFunding
    → Distribution
unfolding funds_total next_funding_box
settle epoch_ix p bundles outputs head tail =
    let cost = wrap (p.accumulated_cost + default_miner_fee_for_compound_tx) in
    let funds_remain = safe_sub (funds_total (head ∷ tail)) cost in
    let (funding, miner) = next_funding_box head.prop funds_remain in
    record {
      next_pool = record p.next_pool { epoch_ix = some epoch_ix };
      next_bundles = bundles;
      next_funding = funding;
      reward_outputs = outputs;
      miner_output = miner;
    }

module _ (self : Pool) where
  -- The epoch that is being paid for; `none` where a division by zero panics. u32 and u64 wrap.
  unfoldable pub distributed_epoch : Option ℕ
  unfolding epoch_alloc epoch_completed
  distributed_epoch = elim (epoch_alloc self) [
    | none ↦ none
    | some alloc ↦ if alloc == 0 then none else elim (epoch_completed self) [
      | none ↦ none
      | some completed ↦
          let ix = sub_wrap ((self.conf.epoch_num + 1) % 2 ^ 32) (self.budget_rem.amount / alloc) in
          some ((if completed then ix else sub_wrap ix 1) % 2 ^ 32)
    ]
  ]

  -- u128 arithmetic, which wraps, and a cast to u64
  unfoldable pub reward_amt : ℕ → StakingBundle → ℕ → ℕ
  reward_amt epochs_remain bundle burned =
      let actual_tmp =
        max_value - self.reserves_tmp.amount - wrap (self.reserves_lq.amount * epochs_remain) in
      let alloc_rem =
        self.budget_rem.amount
        - self.conf.program_budget.amount * epochs_remain / self.conf.epoch_num
        - 1 in
      if ltb 0 actual_tmp
      then wrap (alloc_rem * bundle.vlq.amount * burned % 2 ^ 128 / actual_tmp)
      else 0

  -- one iteration of the loop
  unfoldable pub reward_bundle :
      ℕ → Progress → StakingBundle → Outcome (Progress × StakingBundle × RewardOutput)
  unfolding epochs_burned reward_amt reward_of pay charge
  reward_bundle epochs_remain p bundle = elim (epochs_burned epochs_remain bundle) [
    | none ↦ panicked
    | some burned ↦
        if ltb burned 1
        then err (permanent already_compounded)
        else let reward =
            reward_of p.next_pool.budget_rem (reward_amt epochs_remain bundle burned) in
          let paid : Progress = record p {
            next_pool = record p.next_pool { budget_rem = pay p.next_pool.budget_rem reward };
          } in
          let (p', bundle') = charge epochs_remain paid bundle in
          let output : RewardOutput = record {
            reward = reward;
            redeemer_prop = bundle.redeemer_prop;
            erg_value = min_safe_box_value;
          } in
          if p'.next_pool.budget_rem.amount == 0
          then err (permanent budget_depleted)
          else ok (p', bundle', output)
  ]

  unfoldable pub reward_bundles :
      ℕ
      → Progress
      → List StakingBundle
      → Outcome (Progress × List StakingBundle × List RewardOutput)
  reward_bundles epochs_remain p [] = ok (p, [], [])
  reward_bundles epochs_remain p (bundle ∷ bundles) = elim (reward_bundle epochs_remain p bundle) [
    | err e ↦ err e
    | panicked ↦ panicked
    | ok (p', bundle', output) ↦ elim (reward_bundles epochs_remain p' bundles) [
      | err e ↦ err e
      | panicked ↦ panicked
      | ok (p'', bundles', outputs) ↦ ok (p'', bundle' ∷ bundles', output ∷ outputs)
    ]
  ]

  -- `distribute_rewards`; the funding is a head and a tail, which is not empty
  unfoldable pub distribute_rewards :
      List StakingBundle → DistributionFunding → List DistributionFunding → Outcome Distribution
  unfolding distributed_epoch settle
  distribute_rewards bundles head tail = elim distributed_epoch [
    | none ↦ panicked
    | some epoch_ix ↦
        let epochs_remain = self.conf.epoch_num - epoch_ix in
        elim (reward_bundles epochs_remain (record { next_pool = self; accumulated_cost = 0 })
          bundles) [
            | err e ↦ err e
            | panicked ↦ panicked
            | ok (p, bundles', outputs) ↦ ok (settle epoch_ix p bundles' outputs head tail)
          ]
  ]
