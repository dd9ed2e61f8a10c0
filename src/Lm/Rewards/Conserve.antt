-- ===== src/Lm/Rewards/Conserve.antt =====
-- What `distribute_rewards` of spectrum-offchain-lm/src/data/pool.rs moves.
use spectrum_offchain_ergo.Prelude.{
  ℕ, ◌+◌, ◌-◌, ◌^◌, ◌<◌, ◌≡◌, refl, ap, inl, inr, Option, none, some, List, [], ◌∷◌, arith, leb,
  Bool-cases, Option-cases, length, max,
}
use native.Mathlib.Nat.{mod-eq_of_lt}
use spectrum_offchain_ergo.Lm.Types.{wrap, min_safe_box_value, StakingBundle}
use spectrum_offchain_ergo.Lm.Pool.{Pool, ok}
use spectrum_offchain_ergo.Lm.Funding.{DistributionFunding}
use spectrum_offchain_ergo.Lm.Rewards.{
  RewardOutput, DistributionFundingProto, Progress, Distribution, default_miner_fee_for_compound_tx,
  distributed_epoch, reward_bundles, funds_total, next_funding_box, settle, distribute_rewards,
}
use spectrum_offchain_ergo.Lm.Rewards.Loop.{
  total_rewards, total_tmp, total_value, Outcome-cases, SameWord, reward_bundles-Moves,
}

abbrev pub sum_funds : List DistributionFunding → ℕ
sum_funds [] = 0
sum_funds (f ∷ fs) = f.erg_value + sum_funds fs

abbrev pub funding_value : Option DistributionFundingProto → ℕ
funding_value none = 0
funding_value (some f) = f.erg_value

-- the value of all outputs but that of the pool and those of the bundles, which keep theirs
abbrev pub paid_value : Distribution → ℕ
paid_value d =
    funding_value d.next_funding + total_value d.reward_outputs + d.miner_output.erg_value

funds_total_lem :
    (fs : List DistributionFunding) → sum_funds fs < 2 ^ 64 → funds_total fs ≡ sum_funds fs
unfolding funds_total
funds_total_lem [] h = refl
funds_total_lem (f ∷ fs) h =
    let rest = funds_total_lem fs (omega (arith, h)) in rw rest (mod-eq_of_lt (omega (arith, h)))

next_funding_box_lem :
    (prop remain : ℕ)
    → default_miner_fee_for_compound_tx + remain < 2 ^ 64
    → let (funding, miner) = next_funding_box prop remain in
      funding_value funding + miner.erg_value ≡ remain + default_miner_fee_for_compound_tx
unfolding next_funding_box
next_funding_box_lem prop remain h = elim (Bool-cases (leb min_safe_box_value remain)) [
  | inl t ↦ rw t refl
  | inr f ↦ rw f (omega (arith, h))
]

module _ (self : Pool) (bundles : List StakingBundle) (head : DistributionFunding)
    (tail : List DistributionFunding) (d : Distribution) where
  -- a distribution that succeeds has settled what its loop came to
  pub distribute_rewards-ok :
      distribute_rewards self bundles head tail ≡ ok d
      → (ix : ℕ) × (p : Progress) × (bundles' : List StakingBundle) × (os : List RewardOutput)
        × (distributed_epoch self ≡ some ix)
        × (reward_bundles self
              (self.conf.epoch_num - ix)
              (record { next_pool = self; accumulated_cost = 0 })
              bundles
            ≡ ok (p, bundles', os))
        × (d ≡ settle ix p bundles' os head tail)
  unfolding distribute_rewards
  distribute_rewards-ok e = elim (Option-cases (distributed_epoch self)) [
    | inl z ↦ ground (arith, e, z)
    | inr (ix, z) ↦
        let start : Progress = record { next_pool = self; accumulated_cost = 0 } in
        elim (Outcome-cases (reward_bundles self (self.conf.epoch_num - ix) start bundles)) [
          | inl ((p, bundles', os), y) ↦ (ix, p, bundles', os, z, y, ground (arith, e, z, y))
          | inr bad ↦ ground (arith, e, z, bad)
        ]
  ]

  -- A distribution that succeeds makes one reward output and one next bundle for each bundle. As u64, the rewards and
  -- what remains of the budget make up the budget before, and the temporal tokens in the pool and in
  -- the bundles are as many as before.
  pub distribute_rewards_moves :
      distribute_rewards self bundles head tail ≡ ok d
      → SameWord
          (d.next_pool.budget_rem.amount + total_rewards d.reward_outputs)
          self.budget_rem.amount
        × SameWord
            (d.next_pool.reserves_tmp.amount + total_tmp d.next_bundles)
            (self.reserves_tmp.amount + total_tmp bundles)
        × (length d.reward_outputs ≡ length bundles)
        × (length d.next_bundles ≡ length bundles)
  unfolding settle
  distribute_rewards_moves e =
      let (ix, p, bundles', os, _, y, same) = distribute_rewards-ok e in
      let start : Progress = record { next_pool = self; accumulated_cost = 0 } in
      let m = reward_bundles-Moves self (self.conf.epoch_num - ix) bundles start p bundles' os y in
      rw same (m.0, m.1, m.3, m.4)

  -- For a distribution that succeeds, while the funding boxes with the fee, and the reward outputs
  -- with the fee, both stay below 2 ^ 64 and no sum wraps: the value of the funding left, the reward
  -- outputs and the fee is that of the funding boxes, when they cover the outputs and the fee; when
  -- they do not, it is the outputs and the fee, which is more than they have.
  pub distribute_rewards_pays :
      distribute_rewards self bundles head tail ≡ ok d
      → sum_funds (head ∷ tail) + default_miner_fee_for_compound_tx < 2 ^ 64
      → total_value d.reward_outputs + default_miner_fee_for_compound_tx < 2 ^ 64
      → paid_value d
        ≡ max
            (sum_funds (head ∷ tail))
            (total_value d.reward_outputs + default_miner_fee_for_compound_tx)
  unfolding settle
  distribute_rewards_pays e funded small =
      let (ix, p, bundles', os, _, y, same) = distribute_rewards-ok e in
      let start : Progress = record { next_pool = self; accumulated_cost = 0 } in
      let m = reward_bundles-Moves self (self.conf.epoch_num - ix) bundles start p bundles' os y in
      let outputs : d.reward_outputs ≡ os = rw same refl in
      let total = funds_total_lem (head ∷ tail) (omega (arith, funded)) in
      let cost : wrap (p.accumulated_cost + default_miner_fee_for_compound_tx)
          ≡ total_value os + default_miner_fee_for_compound_tx =
        omega (arith, m.2, ap total_value outputs, small) in
      let remain = sum_funds (head ∷ tail) - (total_value os + default_miner_fee_for_compound_tx) in
      let split = next_funding_box_lem head.prop remain (omega (arith, funded)) in
      rw (same, total, cost) (omega (arith, split))
