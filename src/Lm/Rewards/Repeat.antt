-- ===== src/Lm/Rewards/Repeat.antt =====
-- A second run of `distribute_rewards` of spectrum-offchain-lm/src/data/pool.rs in one epoch.
use spectrum_offchain_ergo.Prelude.{
  ℕ, suc, ◌+◌, ◌-◌, ◌*◌, ◌/◌, ◌^◌, ◌<◌, ◌≡◌, refl, ap, ◌∙◌, inl, inr, some, List, ◌∷◌, arith, ltb,
  Bool-cases, Option-cases,
}
use native.Mathlib.Nat.{mod-eq_of_lt, suc-mul, div-lt_iff_lt-mul}
use spectrum_offchain_ergo.Lm.Types.{TypedAssetAmount, sub, wrap, StakingBundle}
use spectrum_offchain_ergo.Lm.Pool.{Pool, permanent, already_compounded, ok, err}
use spectrum_offchain_ergo.Lm.Funding.{DistributionFunding}
use spectrum_offchain_ergo.Lm.Rewards.{
  RewardOutput, Progress, Distribution, distributed_epoch, epochs_burned, reward_of, reward_amt,
  pay, charged_tmp, left_tmp, charge, reward_bundle, reward_bundles, settle, distribute_rewards,
}
use spectrum_offchain_ergo.Lm.Rewards.Loop.{amount_of, reward_bundles-cons}
use spectrum_offchain_ergo.Lm.Rewards.Conserve.{distribute_rewards-ok}

left_tmp_amount :
    (n : ℕ) (b : StakingBundle) (tmp left : TypedAssetAmount)
    → tmp.amount < 2 ^ 64
    → n * b.vlq.amount < 2 ^ 64
    → left_tmp tmp (charged_tmp n b tmp) ≡ some left
    → left.amount ≡ n * b.vlq.amount
unfolding left_tmp charged_tmp sub
left_tmp_amount n b tmp left small fits e =
    let w : wrap (n * b.vlq.amount) ≡ n * b.vlq.amount = mod-eq_of_lt fits in ground (arith, e, w)

-- no epoch is left to charge
abbrev pub IsCharged : ℕ → StakingBundle → Type 0
IsCharged n b = epochs_burned n b ≡ some 0

whole_epochs : (n v : ℕ) → 0 < v → n * v / v - n ≡ 0
whole_epochs n v pos =
    let more : suc n * v ≡ n * v + v = suc-mul n v in
    let below : n * v / v < suc n = (div-lt_iff_lt-mul pos).1 (omega (arith, more, pos)) in
    omega (arith, below)

charge-tmp :
    (n : ℕ) (p : Progress) (b : StakingBundle) (tmp : TypedAssetAmount)
    → b.tmp ≡ some tmp
    → ((charge n p b).1.tmp ≡ left_tmp tmp (charged_tmp n b tmp)) × ((charge n p b).1.vlq ≡ b.vlq)
unfolding charge
charge-tmp n p b tmp e = ground (arith, e)

-- what the bundle had, if it has been charged
abbrev pub IsFit : ℕ → StakingBundle → Type 0
IsFit n b = (amount_of b.tmp < 2 ^ 64) × (n * b.vlq.amount < 2 ^ 64)

charge-IsCharged :
    (n : ℕ) (p : Progress) (b : StakingBundle) (burned : ℕ)
    → IsFit n b
    → epochs_burned n b ≡ some burned
    → 0 < burned
    → IsCharged n (charge n p b).1
unfolding epochs_burned
charge-IsCharged n p b burned (small, fits) z pos = elim (Option-cases b.tmp) [
  | inl e ↦ absurd (ground (arith, z, e, pos))
  | inr (tmp, e) ↦
      let b' = (charge n p b).1 in
      let (tmp', vlq') = charge-tmp n p b tmp e in
      let some_vlq : 0 < b.vlq.amount = ground (arith, z, e) in
      elim (Option-cases (left_tmp tmp (charged_tmp n b tmp))) [
        | inl none_left ↦ ground (arith, tmp', none_left)
        | inr (left, some_left) ↦
            let amount = left_tmp_amount n b tmp left (ground (arith, small, e)) fits some_left in
            let whole = whole_epochs n b.vlq.amount some_vlq in
            ground (arith, tmp', vlq', some_left, amount, whole, some_vlq)
      ]
]

module _ (self : Pool) (n : ℕ) where
  reward_bundle-IsCharged :
      (p : Progress) (b : StakingBundle) (p' : Progress) (b' : StakingBundle) (o : RewardOutput)
      → IsFit n b
      → reward_bundle self n p b ≡ ok (p', b', o)
      → IsCharged n b'
  unfolding reward_bundle
  reward_bundle-IsCharged p b p' b' o fit e = elim (Option-cases (epochs_burned n b)) [
    | inl z ↦ ground (arith, e, z)
    | inr (burned, z) ↦
        let reward = reward_of p.next_pool.budget_rem (reward_amt self n b burned) in
        let paid : Progress = record p {
          next_pool = record p.next_pool { budget_rem = pay p.next_pool.budget_rem reward };
        } in
        elim (Bool-cases (ltb burned 1)) [
          | inl t ↦ ground (arith, e, z, t)
          | inr f ↦
              let same : (charge n paid b).1 ≡ b' = ground (arith, e, z, f) in
              rw (← same) (charge-IsCharged n paid b burned fit z (ground (arith, f)))
        ]
  ]

  reward_bundle-refuses :
      (p : Progress) (b : StakingBundle)
      → IsCharged n b
      → reward_bundle self n p b ≡ err (permanent already_compounded)
  unfolding reward_bundle
  reward_bundle-refuses p b e = rw (e, reward_bundle) refl

  reward_bundles-refuses :
      (p : Progress) (b : StakingBundle) (bs : List StakingBundle)
      → IsCharged n b
      → reward_bundles self n p (b ∷ bs) ≡ err (permanent already_compounded)
  unfolding reward_bundles
  reward_bundles-refuses p b bs e = rw (reward_bundle-refuses p b e, reward_bundles) refl

distribute_rewards-refuses :
    (self : Pool) (b : StakingBundle) (bs : List StakingBundle) (head : DistributionFunding)
    (tail : List DistributionFunding) (ix : ℕ)
    → distributed_epoch self ≡ some ix
    → IsCharged (self.conf.epoch_num - ix) b
    → distribute_rewards self (b ∷ bs) head tail ≡ err (permanent already_compounded)
unfolding distribute_rewards
distribute_rewards-refuses self b bs head tail ix now charged =
    let start : Progress = record { next_pool = self; accumulated_cost = 0 } in
    let refused = reward_bundles-refuses self (self.conf.epoch_num - ix) start b bs charged in
    rw (now, distribute_rewards) (rw (refused, distribute_rewards) refl)

-- The bundles of a distribution are not rewarded twice: after one that succeeds, a distribution to
-- the bundles it gave back, from a state of the pool with as many epochs in which the same epoch is
-- to be paid for, and with any funding, is refused as already compounded. The first bundle's temporal
-- tokens, and those it needs for the epochs that remain, fit in 64 bits.
pub distribute_rewards-distribute_rewards :
    (self self' : Pool) (b : StakingBundle) (bs : List StakingBundle)
    (head head' : DistributionFunding) (tail tail' : List DistributionFunding) (d : Distribution)
    (ix : ℕ)
    → IsFit (self.conf.epoch_num - ix) b
    → distributed_epoch self ≡ some ix
    → distributed_epoch self' ≡ some ix
    → self'.conf.epoch_num ≡ self.conf.epoch_num
    → distribute_rewards self (b ∷ bs) head tail ≡ ok d
    → distribute_rewards self' d.next_bundles head' tail' ≡ err (permanent already_compounded)
unfolding settle
distribute_rewards-distribute_rewards self self' b bs head head' tail tail' d ix fit now again
      same_num e =
    let (ix1, p, bundles', os, now1, y, same) = distribute_rewards-ok self (b ∷ bs) head tail d e in
    let same_ix : ix1 ≡ ix = ground (arith, now, now1) in
    let n = self.conf.epoch_num - ix in
    let start : Progress = record { next_pool = self; accumulated_cost = 0 } in
    let (p', b', o, bs', os', z, _, cons, _) =
      reward_bundles-cons self n start b bs p bundles' os (rw (← same_ix) y) in
    let charged = reward_bundle-IsCharged self n start b p' b' o fit z in
    let next : d.next_bundles ≡ b' ∷ bs' = ap (λ (x : Distribution). x.next_bundles) same ∙ cons in
    rw next (distribute_rewards-refuses self' b' bs' head' tail' ix again (rw same_num charged))
