-- ===== src/Lm/RoundTrip.antt =====
-- `apply_redeem` after `apply_deposit`: the bundle of a deposit is redeemed.
use spectrum_offchain_ergo.Prelude.{
  ℕ, ◌+◌, ◌-◌, ◌*◌, ◌%◌, ◌^◌, ◌≤◌, ◌<◌, ◌≡◌, refl, sym, ap, ◌∙◌, ◌⊎◌, inl, inr, true, some, arith,
  leb, ◌==◌, ==_iff, Bool-cases, Option-cases,
}
use spectrum_offchain_ergo.Lm.Types.{
  add, sub, min_safe_box_value, TokenDetails, ExecutionContext, Deposit, Redeem, StakingBundle,
  finalize,
}
use spectrum_offchain_ergo.Lm.Pool.{
  Pool, ok, epoch_completed, deposit_outputs, apply_deposit, redeem_outputs, make_redeem,
  apply_redeem,
}
use spectrum_offchain_ergo.Lm.Moves.{
  Deposited, Redeemed, admits-apply_deposit, apply_deposit-admits, make_deposit-outputs,
}

module _ (self : Pool) (stuck : ℕ) (redeem : Redeem) (bundle : StakingBundle)
    (ctx : ExecutionContext) where
  make_redeem-outputs :
      (out : Redeemed)
      → make_redeem self redeem bundle ctx ≡ ok out
      → (out ≡ redeem_outputs self redeem bundle ctx)
        × (min_safe_box_value ≤ (redeem_outputs self redeem bundle ctx).2.erg_value)
  unfolding make_redeem
  make_redeem-outputs out e =
      elim (Bool-cases
        (leb min_safe_box_value (redeem_outputs self redeem bundle ctx).2.erg_value)) [
          | inl t ↦ ground (arith, t, rw (t, make_redeem) at e)
          | inr f ↦ absurd (ground (arith, rw (f, make_redeem) at e))
        ]

  -- A redeem that succeeds passed the checks: it takes the liquidity of the bundle, and the pool
  -- is the stuck one or has completed its epoch.
  apply_redeem-made :
      (out : Redeemed)
      → apply_redeem self stuck redeem bundle ctx ≡ ok out
      → (make_redeem self redeem bundle ctx ≡ ok out)
        × (redeem.expected_lq.amount ≡ bundle.vlq.amount)
        × ((bundle.pool_id ≡ stuck) ⊎ (epoch_completed self ≡ some true))
  unfolding apply_redeem
  apply_redeem-made out e = elim (Bool-cases (redeem.expected_lq.amount == bundle.vlq.amount)) [
    | inr ne ↦ absurd (ground (arith, rw (ne, apply_redeem) at e))
    | inl same ↦ elim (Bool-cases (bundle.pool_id == stuck)) [
      | inl s ↦ (rw (same, s, apply_redeem) at e, (==_iff _ _).0 same, inl ((==_iff _ _).0 s))
      | inr ns ↦ elim (Option-cases (epoch_completed self)) [
        | inl n ↦ absurd (ground (arith, rw (same, ns, n, apply_redeem) at e))
        | inr (c, d) ↦ elim (Bool-cases c) [
          | inr f ↦ absurd (ground (arith, rw (same, ns, d, f, apply_redeem) at e))
          | inl t ↦
              (rw (same, ns, d, t, apply_redeem) at e, (==_iff _ _).0 same, inr (d ∙ ap some t))
        ]
      ]
    ]
  ]

out_and_in : (a b : ℕ) → a < 2 ^ 64 → b < 2 ^ 64 → (((a + (2 ^ 64 - b)) % 2 ^ 64) + b) % 2 ^ 64 ≡ a
out_and_in a b h k = omega (arith, h, k)

in_and_out : (a b : ℕ) → a < 2 ^ 64 → b < 2 ^ 64 → (((a + b) % 2 ^ 64) + (2 ^ 64 - b)) % 2 ^ 64 ≡ a
in_and_out a b h k = omega (arith, h, k)

below : (a : ℕ) → a % 2 ^ 64 < 2 ^ 64
below a = omega arith

module _ (self : Pool) (stuck : ℕ) (deposit : Deposit) (details : TokenDetails) (redeem : Redeem)
    (state_id : ℕ) (ctx ctx' : ExecutionContext) where
  outputs_back :
      (self.reserves_lq.amount < 2 ^ 64)
      → (self.reserves_vlq.amount < 2 ^ 64)
      → (self.reserves_tmp.amount < 2 ^ 64)
      → (deposit.lq.amount < 2 ^ 64)
      → redeem.expected_lq.amount ≡ deposit.lq.amount
      → let out = deposit_outputs self deposit.expected_num_epochs deposit details ctx in
        let back = (redeem_outputs out.0 redeem (finalize out.1 state_id) ctx').0 in
        (back.reserves_lq.amount ≡ self.reserves_lq.amount)
        × (back.reserves_vlq.amount ≡ self.reserves_vlq.amount)
        × (back.reserves_tmp.amount ≡ self.reserves_tmp.amount)
        × (back.budget_rem ≡ self.budget_rem)
  unfolding deposit_outputs redeem_outputs finalize add sub
  outputs_back lq vlq tmp amount same = (
    rw same (in_and_out self.reserves_lq.amount deposit.lq.amount lq amount),
    out_and_in self.reserves_vlq.amount deposit.lq.amount vlq amount,
    out_and_in self.reserves_tmp.amount _ tmp
        (below (deposit.expected_num_epochs * deposit.lq.amount)),
    refl,
  )

  -- When a deposit succeeds, and then a redeem of its bundle does on the pool it left, the pool
  -- has again the liquidity, virtual liquidity and temporal tokens that it had, and its budget,
  -- even where the sums between wrap.
  pub apply_redeem-apply_deposit :
      (dep : Deposited) (red : Redeemed)
      → (self.reserves_lq.amount < 2 ^ 64)
      → (self.reserves_vlq.amount < 2 ^ 64)
      → (self.reserves_tmp.amount < 2 ^ 64)
      → (deposit.lq.amount < 2 ^ 64)
      → apply_deposit self deposit details ctx ≡ ok dep
      → apply_redeem dep.0 stuck redeem (finalize dep.1 state_id) ctx' ≡ ok red
      → (red.0.reserves_lq.amount ≡ self.reserves_lq.amount)
        × (red.0.reserves_vlq.amount ≡ self.reserves_vlq.amount)
        × (red.0.reserves_tmp.amount ≡ self.reserves_tmp.amount)
        × (red.0.budget_rem ≡ self.budget_rem)
  unfolding deposit_outputs finalize
  apply_redeem-apply_deposit dep red lq vlq tmp amount put took =
      let admits = admits-apply_deposit self deposit details ctx dep put in
      let made = sym (apply_deposit-admits self deposit details ctx admits) ∙ put in
      let is = make_deposit-outputs self deposit details ctx deposit.expected_num_epochs dep made in
      let took' = rw is at took in
      let out = deposit_outputs self deposit.expected_num_epochs deposit details ctx in
      let (done, same, _) =
        apply_redeem-made out.0 stuck redeem (finalize out.1 state_id) ctx' red took' in
      let (last, _) =
        make_redeem-outputs out.0 stuck redeem (finalize out.1 state_id) ctx' red done in
      rw last (outputs_back lq vlq tmp amount same)
