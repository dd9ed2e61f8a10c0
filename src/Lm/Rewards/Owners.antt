-- ===== src/Lm/Rewards/Owners.antt =====
-- Whom `distribute_rewards` of spectrum-offchain-lm/src/data/pool.rs rewards.
use spectrum_offchain_ergo.Prelude.{
  ℕ, zero, suc, ◌≡◌, ap, ◌∙◌, inl, inr, some, List, [], ◌∷◌, arith, get_elem?, Option-cases,
}
use spectrum_offchain_ergo.Lm.Types.{StakingBundle}
use spectrum_offchain_ergo.Lm.Pool.{Pool, ok}
use spectrum_offchain_ergo.Lm.Funding.{DistributionFunding}
use spectrum_offchain_ergo.Lm.Rewards.{
  RewardOutput, Progress, Distribution, epochs_burned, reward_of, reward_amt, pay, charge,
  reward_bundle, reward_bundles, settle, distribute_rewards,
}
use spectrum_offchain_ergo.Lm.Rewards.Loop.{reward_bundles-cons}
use spectrum_offchain_ergo.Lm.Rewards.Conserve.{distribute_rewards-ok}

-- The next bundle and the reward are those of the bundle: only its temporal tokens change, and the
-- reward is for its redeemer.
abbrev pub IsOwn : StakingBundle → StakingBundle → RewardOutput → Type 0
IsOwn b bn o = (bn ≡ record b { tmp = bn.tmp }) × (o.redeemer_prop ≡ b.redeemer_prop)

charge-own :
    (n : ℕ) (p : Progress) (b : StakingBundle)
    → (charge n p b).1 ≡ record b { tmp = (charge n p b).1.tmp }
unfolding charge
charge-own n p b = elim (Option-cases b.tmp) [
  | inl e ↦ ground (arith, e)
  | inr (tmp, e) ↦ ground (arith, e)
]

reward_bundle-IsOwn :
    (self : Pool) (n : ℕ) (p p' : Progress) (b bn : StakingBundle) (o : RewardOutput)
    → reward_bundle self n p b ≡ ok (p', bn, o)
    → IsOwn b bn o
unfolding reward_bundle
reward_bundle-IsOwn self n p p' b bn o e = elim (Option-cases (epochs_burned n b)) [
  | inl z ↦ ground (arith, e, z)
  | inr (burned, z) ↦
      let reward = reward_of p.next_pool.budget_rem (reward_amt self n b burned) in
      let paid : Progress = record p {
        next_pool = record p.next_pool { budget_rem = pay p.next_pool.budget_rem reward };
      } in
      ground (arith, e, z, charge-own n paid b)
]

pub reward_bundles-IsOwn :
    (self : Pool) (n : ℕ) (bundles : List StakingBundle) (p p'' : Progress)
    (bns : List StakingBundle) (os : List RewardOutput) (i : ℕ) (b : StakingBundle)
    → reward_bundles self n p bundles ≡ ok (p'', bns, os)
    → get_elem? bundles i ≡ some b
    → (bn : StakingBundle) × (o : RewardOutput) × (get_elem? bns i ≡ some bn)
      × (get_elem? os i ≡ some o)
      × IsOwn b bn o
reward_bundles-IsOwn self n [] p p'' bns os i b e at = absurd (ground (arith, at))
reward_bundles-IsOwn self n (b' ∷ bundles) p p'' bns os zero b e at =
    let (p', bn, o, bs', os', step, _, cons, cons_os) =
      reward_bundles-cons self n p b' bundles p'' bns os e in
    let same : b' ≡ b = ground (arith, at) in
    (
      bn,
      o,
      ap (λ (x : List StakingBundle). get_elem? x 0) cons,
      ap (λ (x : List RewardOutput). get_elem? x 0) cons_os,
      reward_bundle-IsOwn self n p p' b bn o (rw (← same) step),
    )
reward_bundles-IsOwn self n (b' ∷ bundles) p p'' bns os (suc i) b e at =
    let (p', _, _, bs', os', _, rest, cons, cons_os) =
      reward_bundles-cons self n p b' bundles p'' bns os e in
    let (bn, o, at_bn, at_o, own) =
      reward_bundles-IsOwn self n bundles p' p'' bs' os' i b rest at in
    (
      bn,
      o,
      ap (λ (x : List StakingBundle). get_elem? x (suc i)) cons ∙ at_bn,
      ap (λ (x : List RewardOutput). get_elem? x (suc i)) cons_os ∙ at_o,
      own,
    )

pub distribute_rewards-IsOwn :
    (self : Pool) (bundles : List StakingBundle) (head : DistributionFunding)
    (tail : List DistributionFunding) (d : Distribution) (i : ℕ) (b : StakingBundle)
    → distribute_rewards self bundles head tail ≡ ok d
    → get_elem? bundles i ≡ some b
    → (bn : StakingBundle) × (o : RewardOutput) × (get_elem? d.next_bundles i ≡ some bn)
      × (get_elem? d.reward_outputs i ≡ some o)
      × IsOwn b bn o
unfolding settle
distribute_rewards-IsOwn self bundles head tail d i b e at =
    let (ix, p, bns, os, _, y, same) = distribute_rewards-ok self bundles head tail d e in
    let start : Progress = record { next_pool = self; accumulated_cost = 0 } in
    let (bn, o, at_bn, at_o, own) = reward_bundles-IsOwn self _ bundles start p bns os i b y at in
    (
      bn,
      o,
      ap (λ (x : Distribution). get_elem? x.next_bundles i) same ∙ at_bn,
      ap (λ (x : Distribution). get_elem? x.reward_outputs i) same ∙ at_o,
      own,
    )
