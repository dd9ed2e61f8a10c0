-- ===== src/Lm/Orders/Outputs.antt =====
-- The outputs of a compounding in data/order.rs in spectrum-offchain-lm/src.

use spectrum_offchain_ergo.Prelude.{
  ℕ, zero, suc, ◌+◌, ◌<◌, ◌≡◌, inl, inr, refl, ap, ◌∙◌, Option, none, some, List, [], ◌∷◌, ◌++◌,
  map, arith, length, length-map, get_elem?, Bool-cases, leb, ◌≢◌,
}
use spectrum_offchain_ergo.Lm.Types.{min_safe_box_value, AsBox, StakingBundle}
use spectrum_offchain_ergo.Lm.Pool.{Pool, ok}
use spectrum_offchain_ergo.Lm.Funding.{DistributionFunding}
use spectrum_offchain_ergo.Lm.Rewards.{
  RewardOutput, DistributionFundingProto, Distribution, next_funding_box, settle,
  distribute_rewards,
}
use spectrum_offchain_ergo.Lm.Rewards.Conserve.{distribute_rewards-ok}
use spectrum_offchain_ergo.Lm.Orders.{Candidate, pool_box, bundle_box, reward_box, miner_box}
use spectrum_offchain_ergo.Lm.Orders.Compounding.{
  has_script, first_bundle_out_ix, bundle_inputs, funding_outputs, compound_outputs,
}

module _ {A : Type 0} where
  pub get_elem?-append_right :
      (xs ys : List A) (n i : ℕ) → n ≡ length xs + i → get_elem? (xs ++ ys) n ≡ get_elem? ys i
  get_elem?-append_right [] ys n i e = let e' : n ≡ i = omega (arith, e) in rw e' refl
  get_elem?-append_right (x ∷ xs) ys zero i e = absurd (omega (arith, e))
  get_elem?-append_right (x ∷ xs) ys (suc n) i e =
      get_elem?-append_right xs ys n i (omega (arith, e))

  get_elem?-append_left :
      (xs ys : List A) (i : ℕ) (x : A) → get_elem? xs i ≡ some x → get_elem? (xs ++ ys) i ≡ some x
  get_elem?-append_left [] ys i x e = absurd (ground (arith, e))
  get_elem?-append_left (y ∷ xs) ys zero x e = e
  get_elem?-append_left (y ∷ xs) ys (suc i) x e = get_elem?-append_left xs ys i x e

  pub get_elem?-map :
      {B : Type 0} (f : A → B) (xs : List A) (i : ℕ) (x : A)
      → get_elem? xs i ≡ some x
      → get_elem? (map f xs) i ≡ some (f x)
  get_elem?-map f [] i x e = absurd (ground (arith, e))
  get_elem?-map f (y ∷ xs) zero x e = ground (arith, e)
  get_elem?-map f (y ∷ xs) (suc i) x e = get_elem?-map f xs i x e

  pub get_elem?-lt : (xs : List A) (i : ℕ) (x : A) → get_elem? xs i ≡ some x → i < length xs
  get_elem?-lt [] i x e = absurd (ground (arith, e))
  get_elem?-lt (y ∷ xs) zero x e = omega arith
  get_elem?-lt (y ∷ xs) (suc i) x e = omega (arith, get_elem?-lt xs i x e)

  get_elem?_of_lt : (xs : List A) (i : ℕ) → i < length xs → (x : A) × (get_elem? xs i ≡ some x)
  get_elem?_of_lt [] i h = absurd (omega (arith, h))
  get_elem?_of_lt (y ∷ xs) zero h = (y, refl)
  get_elem?_of_lt (y ∷ xs) (suc i) h = get_elem?_of_lt xs i (omega (arith, h))

cons_of_pos :
    {A : Type 0} (xs : List A) → 0 < length xs → (x : A) × (rest : List A) × (xs ≡ x ∷ rest)
cons_of_pos [] h = absurd (omega (arith, h))
cons_of_pos (x ∷ xs) h = (x, xs, refl)

pub get_elem?-bundle_inputs :
    (first n j : ℕ) (bundles : List (AsBox StakingBundle)) (i : ℕ) (b : AsBox StakingBundle)
    → get_elem? bundles i ≡ some b
    → get_elem? (bundle_inputs first n j bundles) i
      ≡ some (record { box_id = b.box_id; constants = some (first + (j + i) + n, first + (j + i)) })
unfolding bundle_inputs
get_elem?-bundle_inputs first n j [] i b e = absurd (ground (arith, e))
get_elem?-bundle_inputs first n j (b' ∷ bundles) zero b e =
    let z : j + 0 ≡ j = omega arith in rw z (ground (arith, e))
get_elem?-bundle_inputs first n j (b' ∷ bundles) (suc i) b e =
    let z : j + suc i ≡ suc j + i = omega arith in
    rw z (get_elem?-bundle_inputs first n (suc j) bundles i b e)

-- where the first bundle stands: after the pool, and the funding if there is some
unfoldable pub first_ix : Option DistributionFundingProto → ℕ
first_ix none = 1
first_ix (some f) = 2

-- the funding that is left has another script than bundles
abbrev IsOther : ℕ → Option DistributionFundingProto → Type 0
IsOther bundle_validator none = Unit
IsOther bundle_validator (some f) = f.prop ≢ bundle_validator

first_bundle_out_ix-append :
    (v : ℕ) (p : Pool) (f : Option DistributionFundingProto) (b : StakingBundle)
    (rest : List Candidate)
    → IsOther v f
    → first_bundle_out_ix v ((pool_box p ∷ []) ++ (funding_outputs f ++ (bundle_box b ∷ rest)))
      ≡ some (first_ix f)
unfolding first_bundle_out_ix funding_outputs first_ix has_script
first_bundle_out_ix-append v p none b rest other = refl
first_bundle_out_ix-append v p (some f) b rest other = ground (arith, other)

pub first_bundle_out_ix-eq :
    (v : ℕ) (d : Distribution)
    → IsOther v d.next_funding
    → 0 < length d.next_bundles
    → first_bundle_out_ix v (compound_outputs d) ≡ some (first_ix d.next_funding)
unfolding compound_outputs
first_bundle_out_ix-eq v d other some_bundle =
    let (b, bs, e) = cons_of_pos d.next_bundles some_bundle in
    let after = map reward_box d.reward_outputs ++ (miner_box d.miner_output ∷ []) in
    ap
      (λ (x : List StakingBundle). first_bundle_out_ix v (
        (pool_box d.next_pool ∷ [])
        ++ (funding_outputs d.next_funding ++ (map bundle_box x ++ after))))
      e
    ∙ first_bundle_out_ix-append v d.next_pool d.next_funding b (map bundle_box bs ++ after) other

next_funding_box-IsOther :
    (v prop remain : ℕ) → prop ≢ v → IsOther v (next_funding_box prop remain).0
unfolding next_funding_box
next_funding_box-IsOther v prop remain h = elim (Bool-cases (leb min_safe_box_value remain)) [
  | inl t ↦ rw t h
  | inr f ↦ rw f tt
]

pub distribute_rewards-IsOther :
    (v : ℕ) (self : Pool) (bundles : List StakingBundle) (head : DistributionFunding)
    (tail : List DistributionFunding) (d : Distribution)
    → head.prop ≢ v
    → distribute_rewards self bundles head tail ≡ ok d
    → IsOther v d.next_funding
unfolding settle
distribute_rewards-IsOther v self bundles head tail d h e =
    let (ix, p, bns, os, _, _, same) = distribute_rewards-ok self bundles head tail d e in
    rw same (next_funding_box-IsOther v head.prop _ h)

length-funding_outputs :
    (f : Option DistributionFundingProto) → first_ix f ≡ suc (length (funding_outputs f))
unfolding funding_outputs first_ix
length-funding_outputs none = refl
length-funding_outputs (some f) = refl

-- the outputs of the bundles and of the rewards stand one after the other
pub outputs_lem :
    (d : Distribution) (i : ℕ) (bn : StakingBundle) (rw_out : RewardOutput)
    → length d.reward_outputs ≡ length d.next_bundles
    → get_elem? d.next_bundles i ≡ some bn
    → get_elem? d.reward_outputs i ≡ some rw_out
    → let ix = first_ix d.next_funding + i in
      (get_elem? (compound_outputs d) ix ≡ some (bundle_box bn))
      × (get_elem? (compound_outputs d) (ix + length d.next_bundles) ≡ some (reward_box rw_out))
unfolding compound_outputs
outputs_lem d i bn rw_out same at at_reward =
    let f = funding_outputs d.next_funding in
    let miner = miner_box d.miner_output ∷ [] in
    let rewards = map reward_box d.reward_outputs ++ miner in
    let bundles = map bundle_box d.next_bundles in
    let start = length-funding_outputs d.next_funding in
    let n = length d.next_bundles in
    let ix = first_ix d.next_funding + i in
    let width = length-map d.next_bundles bundle_box in
    (
      get_elem?-append_right (pool_box d.next_pool ∷ []) (f ++ (bundles ++ rewards)) ix
            (length f + i) (omega (arith, start))
          ∙ get_elem?-append_right f (bundles ++ rewards) (length f + i) i refl
          ∙ get_elem?-append_left bundles rewards i (bundle_box bn)
              (get_elem?-map bundle_box d.next_bundles i bn at),
      get_elem?-append_right (pool_box d.next_pool ∷ []) (f ++ (bundles ++ rewards)) (ix + n)
            (length f + (n + i)) (omega (arith, start))
          ∙ get_elem?-append_right f (bundles ++ rewards) (length f + (n + i)) (n + i) refl
          ∙ get_elem?-append_right bundles rewards (n + i) i (omega (arith, width))
          ∙ get_elem?-append_left (map reward_box d.reward_outputs) miner i (reward_box rw_out)
              (get_elem?-map reward_box d.reward_outputs i rw_out at_reward),
    )
