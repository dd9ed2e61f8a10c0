-- ===== src/Lm/Orders/Compounds.antt =====
-- `impl RunOrder for Compound` of data/order.rs in spectrum-offchain-lm/src.
use mathlib.Core.Path.{subst}
use spectrum_offchain_ergo.Prelude.{
  ℕ, zero, suc, ◌+◌, ◌≡◌, inl, inr, refl, sym, ap, ◌∙◌, Option, none, some, List, [], ◌∷◌, map,
  arith, if◌then◌else◌, is_some, length, length-map, get_elem?, Option-cases, ◌≢◌,
}
use spectrum_offchain_ergo.Lm.Types.{AsBox, ExecutionContext, StakingBundle}
use spectrum_offchain_ergo.Lm.Pool.{Pool, ok, permanent, liquidity_move_blocked}
use spectrum_offchain_ergo.Lm.Funding.{DistributionFunding}
use spectrum_offchain_ergo.Lm.Rewards.{
  RewardOutput, DistributionFundingProto, Distribution, distribute_rewards,
}
use spectrum_offchain_ergo.Lm.Rewards.Loop.{Outcome-cases}
use spectrum_offchain_ergo.Lm.Rewards.Conserve.{distribute_rewards_moves}
use spectrum_offchain_ergo.Lm.Rewards.Owners.{IsOwn, distribute_rewards-IsOwn}
use spectrum_offchain_ergo.Lm.Orders.{
  Compound, bundle_box, reward_box, TransactionCandidate, plain_input, out_box, ran, run_error,
}
use spectrum_offchain_ergo.Lm.Orders.Compounding.{
  first_bundle_out_ix, bundle_inputs, compound_outputs, bundles_as_box, compound_tx, compounded,
  run_compound,
}
use spectrum_offchain_ergo.Lm.Orders.Outputs.{
  get_elem?-append_right, get_elem?-map, get_elem?-lt, get_elem?-bundle_inputs, first_ix,
  first_bundle_out_ix-eq, distribute_rewards-IsOther, outputs_lem,
}

module _ (box_id_at : TransactionCandidate → ℕ → ℕ) where
  get_elem?-bundles_as_box :
      (tx : TransactionCandidate) (ix : ℕ) (bns : List StakingBundle) (i : ℕ) (bn : StakingBundle)
      → get_elem? bns i ≡ some bn
      → get_elem? (bundles_as_box box_id_at tx ix bns) i
        ≡ some (out_box box_id_at tx (ix + i) (record bn { state_id = box_id_at tx (ix + i) }))
  unfolding bundles_as_box
  get_elem?-bundles_as_box tx ix [] i bn e = absurd (ground (arith, e))
  get_elem?-bundles_as_box tx ix (b ∷ bns) zero bn e =
      let z : ix + 0 ≡ ix = omega arith in rw z (ground (arith, e))
  get_elem?-bundles_as_box tx ix (b ∷ bns) (suc i) bn e =
      let z : ix + suc i ≡ suc ix + i = omega arith in
      rw z (get_elem?-bundles_as_box tx (suc ix) bns i bn e)

  bun_init_ix-eq : (f : Option DistributionFundingProto) → (if is_some f then 2 else 1) ≡ first_ix f
  unfolding first_ix
  bun_init_ix-eq none = refl
  bun_init_ix-eq (some f) = refl

  module _ (v : ℕ) (self : Compound) (pool : AsBox Pool) (bundles : List (AsBox StakingBundle))
      (head : AsBox DistributionFunding) (tail : List (AsBox DistributionFunding))
      (ctx : ExecutionContext) where
    -- a compounding that runs has distributed, and found the first bundle after the pool and funding
    run_compound-ran :
        (out : TransactionCandidate
          × AsBox Pool
          × List (AsBox StakingBundle)
          × Option (AsBox DistributionFunding))
        → run_compound box_id_at v self pool bundles head tail ctx ≡ ran out
        → (d : Distribution) × (ix : ℕ) × (distribute_rewards pool.entity
              (map (λ b. b.entity) bundles)
              head.entity
              (map (λ f. f.entity) tail)
            ≡ ok d)
          × (first_bundle_out_ix v (compound_outputs d) ≡ some ix)
          × (out
              ≡ compounded box_id_at
                  (compound_tx box_id_at pool bundles (head ∷ tail) ctx.height d ix)
                  d)
    unfolding run_compound run_error
    run_compound-ran out e =
        let run =
          distribute_rewards pool.entity (map (λ b. b.entity) bundles) head.entity
            (map (λ f. f.entity) tail) in
        elim (Outcome-cases run) [
          | inl (d, z) ↦ elim (Option-cases (first_bundle_out_ix v (compound_outputs d))) [
            | inl y ↦ ground (arith, e, z, y)
            | inr (ix, y) ↦ (d, ix, z, y, ground (arith, e, z, y))
          ]
          | inr (inl (permanent x, z)) ↦ ground (arith, e, z)
          | inr (inl (liquidity_move_blocked, z)) ↦ ground (arith, e, z)
          | inr (inr z) ↦ ground (arith, e, z)
        ]

    abbrev IsPointed :
        TransactionCandidate
          × AsBox Pool
          × List (AsBox StakingBundle)
          × Option (AsBox DistributionFunding)
        → ℕ
        → AsBox StakingBundle
        → Type 0
    IsPointed out i b =
        (redeemer_out_ix succ_ix : ℕ) × (bn : StakingBundle) × (o : RewardOutput) × (get_elem?
            out.0.inputs (suc (suc (length tail + i)))
          ≡ some (record { box_id = b.box_id; constants = some (redeemer_out_ix, succ_ix) }))
        × (get_elem? out.0.outputs succ_ix ≡ some (bundle_box bn))
        × (get_elem? out.0.outputs redeemer_out_ix ≡ some (reward_box o))
        × IsOwn b.entity bn o
        × (get_elem? out.2 i
            ≡ some (
                out_box box_id_at out.0 succ_ix (record bn { state_id = box_id_at out.0 succ_ix })))

    compounded_lem :
        (d : Distribution) (i : ℕ) (b : AsBox StakingBundle) (bn : StakingBundle) (o : RewardOutput)
        → length d.reward_outputs ≡ length bundles
        → length d.next_bundles ≡ length bundles
        → get_elem? bundles i ≡ some b
        → get_elem? d.next_bundles i ≡ some bn
        → get_elem? d.reward_outputs i ≡ some o
        → IsOwn b.entity bn o
        → IsPointed
            (compounded box_id_at
              (compound_tx box_id_at pool bundles
                (head ∷ tail)
                ctx.height
                d
                (first_ix d.next_funding))
              d)
            i
            b
    unfolding compounded compound_tx
    compounded_lem d i b bn o same_os same_bns at at_bn at_o own =
        let first = first_ix d.next_funding in
        let tx = compound_tx box_id_at pool bundles (head ∷ tail) ctx.height d first in
        let n = length bundles in
        let from_zero : 0 + i ≡ i = omega arith in
        let funds = map (λ (f : AsBox DistributionFunding). plain_input f.box_id) (head ∷ tail) in
        let places = outputs_lem d i bn o (same_os ∙ sym same_bns) at_bn at_o in
        let width = length-map tail (λ (f : AsBox DistributionFunding). plain_input f.box_id) in
        (
          first + i + n,
          first + i,
          bn,
          o,
          get_elem?-append_right funds (bundle_inputs first n 0 bundles) (suc (length tail + i)) i
                (omega (arith, width))
              ∙ get_elem?-bundle_inputs first n 0 bundles i b at
              ∙ ap
                  (λ (x : ℕ).
                    some
                      (record { box_id = b.box_id; constants = some (first + x + n, first + x) }))
                  from_zero,
          places.0,
          ap (λ (x : ℕ). get_elem? (compound_outputs d) (first + i + x)) (sym same_bns) ∙ places.1,
          own,
          ap (λ (x : ℕ). get_elem? (bundles_as_box box_id_at tx x d.next_bundles) i)
                (bun_init_ix-eq d.next_funding)
              ∙ get_elem?-bundles_as_box tx first d.next_bundles i bn at_bn,
        )

    -- When a compounding runs, and the script of the first funding box is not that of bundles, the input of each bundle points with its two constants at outputs of
    -- the transaction: at the bundle as it is after, which differs from it in the temporal tokens
    -- only, and at the reward for its own redeemer. The box that is given back for the bundle is that
    -- output, with the identifier of its box as state.
    pub run_compound_lem :
        (out : TransactionCandidate
          × AsBox Pool
          × List (AsBox StakingBundle)
          × Option (AsBox DistributionFunding))
        (i : ℕ) (b : AsBox StakingBundle)
        → head.entity.prop ≢ v
        → run_compound box_id_at v self pool bundles head tail ctx ≡ ran out
        → get_elem? bundles i ≡ some b
        → (redeemer_out_ix succ_ix : ℕ) × (bn : StakingBundle) × (o : RewardOutput) × (get_elem?
              out.0.inputs
              (suc (suc (length tail + i)))
            ≡ some (record { box_id = b.box_id; constants = some (redeemer_out_ix, succ_ix) }))
          × (get_elem? out.0.outputs succ_ix ≡ some (bundle_box bn))
          × (get_elem? out.0.outputs redeemer_out_ix ≡ some (reward_box o))
          × IsOwn b.entity bn o
          × (get_elem? out.2 i
              ≡ some (
                  out_box box_id_at out.0 succ_ix
                    (record bn { state_id = box_id_at out.0 succ_ix })))
    run_compound_lem out i b differs e at =
        let (d, ix, run, at_ix, same) = run_compound-ran out e in
        let entities = map (λ (x : AsBox StakingBundle). x.entity) bundles in
        let (bn, o, at_bn, at_o, own) =
          distribute_rewards-IsOwn pool.entity entities head.entity
            (map (λ (f : AsBox DistributionFunding). f.entity) tail) d i b.entity run
            (get_elem?-map (λ (x : AsBox StakingBundle). x.entity) bundles i b at) in
        let widths =
          distribute_rewards_moves pool.entity entities head.entity
            (map (λ (f : AsBox DistributionFunding). f.entity) tail) d run in
        let width = length-map bundles (λ (x : AsBox StakingBundle). x.entity) in
        let other =
          distribute_rewards-IsOther v pool.entity entities head.entity
            (map (λ (f : AsBox DistributionFunding). f.entity) tail) d differs run in
        let first =
          first_bundle_out_ix-eq v d other
            (omega (arith, get_elem?-lt d.next_bundles i bn at_bn)) in
        let both = sym at_ix ∙ first in
        let is_first : ix ≡ first_ix d.next_funding = ground (arith, both) in
        let out_eq =
          same
          ∙ ap
              (λ (x : ℕ).
                compounded box_id_at
                  (compound_tx box_id_at pool bundles (head ∷ tail) ctx.height d x) d)
              is_first in
        subst (λ x. IsPointed x i b) (sym out_eq)
          (compounded_lem d i b bn o (widths.2 ∙ width) (widths.3 ∙ width) at at_bn at_o own)
