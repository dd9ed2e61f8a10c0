-- ===== src/Lm/Moves.antt =====
-- `apply_deposit` and `apply_redeem`: what they move between a pool, a bundle and the outputs.
use spectrum_offchain_ergo.Prelude.{
  ℕ, ◌+◌, ◌-◌, ◌*◌, ◌%◌, ◌^◌, ◌≤◌, ◌<◌, ◌≡◌, refl, sym, ◌∙◌, inl, inr, ◌↔◌, true, some, arith, leb,
  ==_iff, ==_self, Bool-cases, Option-cases,
}
use spectrum_offchain_ergo.Lm.Types.{
  TypedAssetAmount, add, sub, min_safe_box_value, TokenDetails, ExecutionContext, Deposit,
  StakingBundleProto, DepositOutput, RedeemOutput, ExecutorOutput, MinerOutput,
}
use spectrum_offchain_ergo.Lm.Pool.{
  Pool, ok, num_epochs_remain, epoch_completed, deposit_outputs, make_deposit, apply_deposit,
}

-- what a deposit costs: the bundle, the user's output, the fee, and the least left to the executor
abbrev pub deposit_cost : ℕ
deposit_cost = 2294000

abbrev pub Deposited : Type 0
Deposited = Pool × StakingBundleProto × DepositOutput × ExecutorOutput × MinerOutput

abbrev pub Redeemed : Type 0
Redeemed = Pool × RedeemOutput × ExecutorOutput × MinerOutput

module _ (self : Pool) (deposit : Deposit) (details : TokenDetails) (ctx : ExecutionContext) where
  -- the conditions of a deposit on the pool
  abbrev pub Admits : Type 0
  Admits =
      (num_epochs_remain self ctx.height ≡ some deposit.expected_num_epochs)
      × (1 ≤ deposit.expected_num_epochs)
      × (epoch_completed self ≡ some true)

  pub apply_deposit-admits :
      Admits
      → apply_deposit self deposit details ctx
        ≡ make_deposit self deposit.expected_num_epochs deposit details ctx
  unfolding apply_deposit
  apply_deposit-admits (remain, positive, completed) =
      rw (remain, apply_deposit, completed)
        (ground (arith, positive, ==_self deposit.expected_num_epochs))

  pub admits-apply_deposit :
      (out : Deposited) → apply_deposit self deposit details ctx ≡ ok out → Admits
  unfolding apply_deposit
  admits-apply_deposit out e = elim (Option-cases (num_epochs_remain self ctx.height)) [
    | inl n ↦ absurd (ground (arith, e, n))
    | inr (n, r) ↦ elim (Option-cases (epoch_completed self)) [
      | inl m ↦ absurd (ground (arith, e, r, m))
      | inr (c, d) ↦ ground (arith, e, r, d, ==_iff n deposit.expected_num_epochs)
    ]
  ]

  make_deposit-ok :
      (n : ℕ)
      → (deposit_cost ≤ deposit.erg_value)
      → (out : Deposited) × (make_deposit self n deposit details ctx ≡ ok out)
  unfolding make_deposit deposit_outputs
  make_deposit-ok n enough = (deposit_outputs self n deposit details ctx, ground (arith, enough))

  ok-make_deposit :
      (n : ℕ) (out : Deposited)
      → make_deposit self n deposit details ctx ≡ ok out
      → deposit_cost ≤ deposit.erg_value
  unfolding make_deposit deposit_outputs
  ok-make_deposit n out e = ground (arith, e)

  pub make_deposit-outputs :
      (n : ℕ) (out : Deposited)
      → make_deposit self n deposit details ctx ≡ ok out
      → out ≡ deposit_outputs self n deposit details ctx
  unfolding make_deposit
  make_deposit-outputs n out e =
      elim (Bool-cases
        (leb min_safe_box_value (deposit_outputs self n deposit details ctx).3.erg_value)) [
          | inl t ↦ ground (arith, rw (t, make_deposit) at e)
          | inr f ↦ absurd (ground (arith, rw (f, make_deposit) at e))
        ]

  -- `apply_deposit` succeeds just when the epochs that remain are those the order expects and at
  -- least one, the epoch is completed, and the order pays for the outputs.
  pub apply_deposit_succeeds :
      ((out : Deposited) × (apply_deposit self deposit details ctx ≡ ok out))
      ↔ (Admits × (deposit_cost ≤ deposit.erg_value))
  apply_deposit_succeeds = (
    (λ (out, e).
        let a = admits-apply_deposit out e in
        (a, ok-make_deposit deposit.expected_num_epochs out (sym (apply_deposit-admits a) ∙ e))),
    (λ (a, enough).
        let (out, e) = make_deposit-ok deposit.expected_num_epochs enough in
        (out, apply_deposit-admits a ∙ e)),
  )

  -- the pool has what the deposit takes from it, and room for what it brings
  abbrev pub Fits : Type 0
  Fits =
      (self.reserves_lq.amount + deposit.lq.amount < 2 ^ 64)
      × (deposit.lq.amount ≤ self.reserves_vlq.amount)
      × (self.reserves_vlq.amount < 2 ^ 64)
      × (deposit.expected_num_epochs * deposit.lq.amount ≤ self.reserves_tmp.amount)
      × (self.reserves_tmp.amount < 2 ^ 64)

  -- What a deposit moves: the tokens that the bundle has are those the pool has no more.
  abbrev pub DepositMoves : Deposited → Type 0
  DepositMoves out =
      (out.0.reserves_lq.amount ≡ self.reserves_lq.amount + deposit.lq.amount)
      × (out.0.reserves_vlq.amount + out.1.vlq.amount ≡ self.reserves_vlq.amount)
      × (out.1.vlq.amount ≡ deposit.lq.amount)
      × ((tmp : TypedAssetAmount) × (out.1.tmp ≡ some tmp)
          × (out.0.reserves_tmp.amount + tmp.amount ≡ self.reserves_tmp.amount)
          × (tmp.amount ≡ deposit.expected_num_epochs * deposit.lq.amount))
      × (deposit.erg_value ≡ out.1.erg_value + out.2.erg_value + out.3.erg_value + out.4.erg_value)
      × (min_safe_box_value ≤ out.3.erg_value)
      × (out.0.budget_rem ≡ self.budget_rem)

  move_in : (a b : ℕ) → a + b < 2 ^ 64 → (a + b) % 2 ^ 64 ≡ a + b
  move_in a b h = omega (arith, h)

  move_out : (a b : ℕ) → b ≤ a → a < 2 ^ 64 → ((a + (2 ^ 64 - b)) % 2 ^ 64) + b ≡ a
  move_out a b le h = omega (arith, le, h)

  whole : (n : ℕ) → n < 2 ^ 64 → n % 2 ^ 64 ≡ n
  whole n h = omega (arith, h)

  outputs-moves :
      Fits
      → deposit_cost ≤ deposit.erg_value
      → DepositMoves (deposit_outputs self deposit.expected_num_epochs deposit details ctx)
  unfolding deposit_outputs add sub
  outputs-moves (lq, vlq, vlq_max, tmp, tmp_max) enough =
      let t = deposit.expected_num_epochs * deposit.lq.amount in
      let w : t % 2 ^ 64 ≡ t = whole t (omega (arith, tmp, tmp_max)) in
      (
        move_in self.reserves_lq.amount deposit.lq.amount lq,
        move_out self.reserves_vlq.amount deposit.lq.amount vlq vlq_max,
        refl,
        (
          record { token_id = self.reserves_tmp.token_id; amount = t % 2 ^ 64 },
          refl,
          rw w (move_out self.reserves_tmp.amount t tmp tmp_max),
          w,
        ),
        omega (arith, enough),
        omega (arith, enough),
        refl,
      )

  -- A deposit that succeeds, where the pool has what it releases and the sums fit in 64 bits:
  -- adds the deposited liquidity to the pool, moves to the bundle as much virtual liquidity, and
  -- as many temporal tokens as that times the epochs, splits the order's ERG between the outputs
  -- without loss, leaves the executor a safe box, and does not touch the budget.
  pub apply_deposit_moves :
      (out : Deposited) → Fits → apply_deposit self deposit details ctx ≡ ok out → DepositMoves out
  apply_deposit_moves out fits e =
      let admits = admits-apply_deposit out e in
      let made = sym (apply_deposit-admits admits) ∙ e in
      rw (make_deposit-outputs deposit.expected_num_epochs out made)
        (outputs-moves fits (ok-make_deposit deposit.expected_num_epochs out made))
