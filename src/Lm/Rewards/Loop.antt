-- ===== src/Lm/Rewards/Loop.antt =====
-- What the loop of `distribute_rewards` in spectrum-offchain-lm/src/data/pool.rs moves.
use spectrum_offchain_ergo.Prelude.{
  ℕ, ◌+◌, ◌%◌, ◌^◌, ◌<◌, ◌≡◌, refl, ◌⊎◌, inl, inr, Bool, true, false, Option, none, some, List, [],
  ◌∷◌, arith, if◌then◌else◌, Option-cases, length,
}
use native.Mathlib.Nat.{mod-lt}
use spectrum_offchain_ergo.Lm.Types.{TypedAssetAmount, add, sub, min_safe_box_value, StakingBundle}
use spectrum_offchain_ergo.Lm.Pool.{Pool, PoolOperationError, Outcome, ok, err, panicked}
use spectrum_offchain_ergo.Lm.Rewards.{
  RewardOutput, Progress, epochs_burned, reward_amt, reward_of, pay, charged_tmp, left_tmp, charge,
  reward_bundle, reward_bundles,
}

abbrev pub amount_of : Option TypedAssetAmount → ℕ
amount_of none = 0
amount_of (some a) = a.amount

abbrev pub total_rewards : List RewardOutput → ℕ
total_rewards [] = 0
total_rewards (o ∷ os) = amount_of o.reward + total_rewards os

abbrev pub total_tmp : List StakingBundle → ℕ
total_tmp [] = 0
total_tmp (b ∷ bs) = amount_of b.tmp + total_tmp bs

abbrev pub total_value : List RewardOutput → ℕ
total_value [] = 0
total_value (o ∷ os) = o.erg_value + total_value os

pub Outcome-cases :
    {A : Type 0} (o : Outcome A)
    → ((a : A) × (o ≡ ok a)) ⊎ ((((e : PoolOperationError) × (o ≡ err e))) ⊎ (o ≡ panicked))
Outcome-cases (ok a) = inl (a, refl)
Outcome-cases (err e) = inr (inl (e, refl))
Outcome-cases panicked = inr (inr refl)

-- equal as u64
abbrev pub SameWord : ℕ → ℕ → Type 0
SameWord a b = a % 2 ^ 64 ≡ b % 2 ^ 64

pay_lem :
    (budget : TypedAssetAmount) (reward : Option TypedAssetAmount)
    → amount_of reward < 2 ^ 64
    → SameWord ((pay budget reward).amount + amount_of reward) budget.amount
unfolding pay sub
pay_lem budget none h = omega arith
pay_lem budget (some r) h = omega (arith, h)

reward_of-lt :
    (budget : TypedAssetAmount) (amt : ℕ) → amt < 2 ^ 64 → amount_of (reward_of budget amt) < 2 ^ 64
unfolding reward_of
reward_of-lt budget amt h = ground (arith, h)

if-lt : (t : Bool) (a b m : ℕ) → a < m → b < m → (if t then a else b) < m
if-lt true a b m h k = h
if-lt false a b m h k = k

reward_amt-lt :
    (self : Pool) (n : ℕ) (b : StakingBundle) (burned : ℕ) → reward_amt self n b burned < 2 ^ 64
unfolding reward_amt
reward_amt-lt self n b burned = if-lt _ _ 0 (2 ^ 64) (mod-lt _ (omega arith)) (omega arith)

left_tmp_lem :
    (tmp charged : TypedAssetAmount)
    → charged.amount < 2 ^ 64
    → SameWord (charged.amount + amount_of (left_tmp tmp charged)) tmp.amount
unfolding left_tmp sub
left_tmp_lem tmp charged h = ground (arith, h)

charged_tmp-lt :
    (n : ℕ) (b : StakingBundle) (tmp : TypedAssetAmount) → (charged_tmp n b tmp).amount < 2 ^ 64
unfolding charged_tmp
charged_tmp-lt n b tmp = mod-lt _ (omega arith)

charge_lem :
    (n : ℕ) (p : Progress) (b : StakingBundle)
    → let (p', b') = charge n p b in
      (p'.next_pool.budget_rem ≡ p.next_pool.budget_rem)
      × SameWord
          (p'.next_pool.reserves_tmp.amount + amount_of b'.tmp)
          (p.next_pool.reserves_tmp.amount + amount_of b.tmp)
unfolding charge add
charge_lem n p b = elim (Option-cases b.tmp) [
  | inl e ↦ ground (arith, e)
  | inr (tmp, e) ↦
      ground (arith, e, left_tmp_lem tmp (charged_tmp n b tmp) (charged_tmp-lt n b tmp))
]

charge-cost :
    (n : ℕ) (p : Progress) (b : StakingBundle)
    → (b.tmp ≡ none)
      ⊎ SameWord (charge n p b).0.accumulated_cost (p.accumulated_cost + min_safe_box_value)
unfolding charge
charge-cost n p b = elim (Option-cases b.tmp) [
  | inl e ↦ inl e
  | inr (tmp, e) ↦ inr (ground (arith, e))
]

-- What the loop moves: rewards out of the budget, charges from the bundles to the pool, and for
-- each output its value to the cost.
abbrev pub Moves :
    Progress → List StakingBundle → Progress × List StakingBundle × List RewardOutput → Type 0
Moves p bundles out =
    SameWord (out.0.next_pool.budget_rem.amount + total_rewards out.2) p.next_pool.budget_rem.amount
    × SameWord (out.0.next_pool.reserves_tmp.amount + total_tmp out.1)
        (p.next_pool.reserves_tmp.amount + total_tmp bundles)
    × SameWord out.0.accumulated_cost (p.accumulated_cost + total_value out.2)
    × (length out.2 ≡ length bundles)
    × (length out.1 ≡ length bundles)

Moves-cons :
    (p p' p'' : Progress) (b b' : StakingBundle) (bs bs' : List StakingBundle) (o : RewardOutput)
    (os : List RewardOutput)
    → Moves p (b ∷ []) (p', b' ∷ [], o ∷ [])
    → Moves p' bs (p'', bs', os)
    → Moves p (b ∷ bs) (p'', b' ∷ bs', o ∷ os)
Moves-cons p p' p'' b b' bs bs' o os h k = omega (arith, h, k)

module _ (self : Pool) (n : ℕ) where
  reward_bundle-Moves :
      (p : Progress) (b : StakingBundle) (p' : Progress) (b' : StakingBundle) (o : RewardOutput)
      → reward_bundle self n p b ≡ ok (p', b', o)
      → Moves p (b ∷ []) (p', b' ∷ [], o ∷ [])
  unfolding reward_bundle epochs_burned
  reward_bundle-Moves p b p' b' o e = elim (Option-cases (epochs_burned n b)) [
    | inl z ↦ ground (arith, e, z)
    | inr (burned, z) ↦
        let budget = p.next_pool.budget_rem in
        let amt = reward_amt self n b burned in
        let reward = reward_of budget amt in
        let paid : Progress = record p {
          next_pool = record p.next_pool { budget_rem = pay budget reward };
        } in
        let small = reward_of-lt budget amt (reward_amt-lt self n b burned) in
        ground (arith, e, z, pay_lem budget reward small, charge_lem n paid b, charge-cost n paid b)
  ]

  -- a loop that succeeds has succeeded at the first bundle and at the others
  pub reward_bundles-cons :
      (p : Progress) (b : StakingBundle) (bs : List StakingBundle) (p'' : Progress)
      (bs'' : List StakingBundle) (os'' : List RewardOutput)
      → reward_bundles self n p (b ∷ bs) ≡ ok (p'', bs'', os'')
      → (p' : Progress) × (b' : StakingBundle) × (o : RewardOutput) × (bs' : List StakingBundle)
        × (os : List RewardOutput) × (reward_bundle self n p b ≡ ok (p', b', o))
        × (reward_bundles self n p' bs ≡ ok (p'', bs', os))
        × (bs'' ≡ b' ∷ bs')
        × (os'' ≡ o ∷ os)
  unfolding reward_bundles
  reward_bundles-cons p b bs p'' bs'' os'' e = elim (Outcome-cases (reward_bundle self n p b)) [
    | inl ((p', b', o), z) ↦ elim (Outcome-cases (reward_bundles self n p' bs)) [
      | inl ((q, bs', os), y) ↦ (
        p',
        b',
        o,
        bs',
        os,
        z,
        ground (arith, e, z, y),
        ground (arith, e, z, y),
        ground (arith, e, z, y),
      )
      | inr bad ↦ ground (arith, e, z, bad)
    ]
    | inr bad ↦ ground (arith, e, bad)
  ]

  pub reward_bundles-Moves :
      (bundles : List StakingBundle) (p p'' : Progress) (bundles'' : List StakingBundle)
      (os'' : List RewardOutput)
      → reward_bundles self n p bundles ≡ ok (p'', bundles'', os'')
      → Moves p bundles (p'', bundles'', os'')
  unfolding reward_bundles
  reward_bundles-Moves [] p p'' bundles'' os'' e = ground (arith, e)
  reward_bundles-Moves (b ∷ bs) p p'' bundles'' os'' e =
      let (p', b', o, bs', os, z, y, same, same_os) =
        reward_bundles-cons p b bs p'' bundles'' os'' e in
      rw (same, same_os)
        (Moves-cons p p' p'' b b' bs bs' o os (reward_bundle-Moves p b p' b' o z)
          (reward_bundles-Moves bs p' p'' bs' os y))
