-- ===== src/Lm/Pool.antt =====
-- spectrum-offchain-lm/src/data/pool.rs: the pool, its epochs, deposits and redeems.
use spectrum_offchain_ergo.Prelude.{
  ℕ, zero, suc, ◌+◌, ◌-◌, ◌*◌, ◌/◌, ◌%◌, ◌^◌, Bool, false, not, ◌&&◌, ◌||◌, Option, none, some, ltb,
  leb, ◌==◌, if◌then◌else◌,
}
use spectrum_offchain_ergo.Lm.Types.{
  TypedAssetAmount, add, sub, wrap, safe_sub, min_safe_box_value, min_safe_fat_box_value,
  default_miner_fee, bundle_key_amount_user, TokenDetails, ExecutionContext, Deposit, Redeem,
  StakingBundleProto, StakingBundle, DepositOutput, RedeemOutput, ExecutorOutput, MinerOutput,
}

pub record ProgramConfig : Type 0 where
  pub epoch_len : ℕ
  pub epoch_num : ℕ
  pub program_start : ℕ
  pub redeem_blocks_delta : ℕ
  pub max_rounding_error : ℕ
  pub program_budget : TypedAssetAmount

pub record Pool : Type 0 where
  pub pool_id : ℕ
  pub budget_rem : TypedAssetAmount
  pub reserves_lq : TypedAssetAmount
  pub reserves_vlq : TypedAssetAmount
  pub reserves_tmp : TypedAssetAmount
  pub epoch_ix : Option ℕ
  pub conf : ProgramConfig
  pub erg_value : ℕ

pub data PermanentError : Type 0 where
  liquidity_mismatch : PermanentError
  program_exhausted : PermanentError
  -- `OrderPoisoned`, with the numbers of its message: the epochs expected and those that remain
  order_poisoned : ℕ → ℕ → PermanentError
  -- `OrderPoisoned` with these messages
  already_compounded : PermanentError
  budget_depleted : PermanentError
  low_value : ℕ → ℕ → PermanentError

pub data PoolOperationError : Type 0 where
  permanent : PermanentError → PoolOperationError
  liquidity_move_blocked : PoolOperationError

-- what an operation comes to: `Ok`, `Err`, or a panic (a division by zero)
pub data Outcome (A : Type 0) : Type 0 where
  ok : A → Outcome A
  err : PoolOperationError → Outcome A
  panicked : Outcome A

-- A u64 as an f64: the nearest multiple of the power of two that leaves 53 bits, the even one of
-- two. `shift` is that power, at most 11 for 64 bits.
unfoldable pub shift : ℕ → ℕ → ℕ
shift zero n = 0
shift (suc fuel) n = if ltb n (2 ^ 53) then 0 else suc (shift fuel (n / 2))

unfoldable pub round_to : ℕ → ℕ → ℕ
round_to zero n = n
round_to (suc s) n =
    let unit = 2 ^ suc s in
    let q = n / unit in
    let r = n % unit in
    if ltb r (2 ^ s) || ((r == 2 ^ s) && (q % 2 == 0)) then q * unit else suc q * unit

unfoldable pub as_f64 : ℕ → ℕ
unfolding shift round_to
as_f64 n = round_to (shift 11 n) n

module _ (self : Pool) where
  -- u32 arithmetic wraps
  unfoldable pub program_end : ℕ
  program_end =
      (self.conf.program_start + (self.conf.epoch_len * self.conf.epoch_num) % 2 ^ 32) % 2 ^ 32

  -- with the division by the number of epochs that panics
  unfoldable pub epoch_alloc : Option ℕ
  epoch_alloc =
      if self.conf.epoch_num == 0
      then none
      else some (self.conf.program_budget.amount / self.conf.epoch_num)

  -- The remainder by zero is not a number, which is not below anything.
  unfoldable pub epoch_completed : Option Bool
  unfolding epoch_alloc as_f64
  epoch_completed = elim epoch_alloc [
    | none ↦ none
    | some alloc ↦ some (
        if as_f64 alloc == 0
        then false
        else leb (as_f64 self.budget_rem.amount % as_f64 alloc)
            (as_f64 self.conf.max_rounding_error))
  ]

  -- `none` where `epoch_len` is zero and the remainder panics
  unfoldable pub current_epoch_ix : ℕ → Option ℕ
  current_epoch_ix height =
      if ltb (height + 1) self.conf.program_start
      then some 0
      else if self.conf.epoch_len == 0
      then none
      else let cur_block_ix = (height + 1) - self.conf.program_start in
        let cur_epoch_ix_rem = cur_block_ix % self.conf.epoch_len in
        let cur_epoch_ix_r = cur_block_ix / self.conf.epoch_len in
        some (
          if (cur_epoch_ix_rem == 0) && (cur_epoch_ix_r == 0)
          then 0
          else if ltb 0 cur_epoch_ix_rem
          then (cur_epoch_ix_r + 1) % 2 ^ 32
          else cur_epoch_ix_r % 2 ^ 32)

  unfoldable pub num_epochs_remain : ℕ → Option ℕ
  unfolding current_epoch_ix
  num_epochs_remain height = elim (current_epoch_ix height) [
    | none ↦ none
    | some ix ↦ some (self.conf.epoch_num - ix)
  ]

  -- what `apply_deposit` moves once its checks have passed
  unfoldable pub deposit_outputs :
      ℕ
      → Deposit
      → TokenDetails
      → ExecutionContext
      → Pool × StakingBundleProto × DepositOutput × ExecutorOutput × MinerOutput
  unfolding add sub
  deposit_outputs epochs_remain deposit details ctx =
      let release_vlq : TypedAssetAmount = record {
        token_id = self.reserves_vlq.token_id;
        amount = deposit.lq.amount;
      } in
      let release_tmp : TypedAssetAmount = record {
        token_id = self.reserves_tmp.token_id;
        amount = wrap (epochs_remain * deposit.lq.amount);
      } in
      let next_pool : Pool = record self {
        reserves_lq = add self.reserves_lq deposit.lq;
        reserves_vlq = sub self.reserves_vlq release_vlq;
        reserves_tmp = sub self.reserves_tmp release_tmp;
      } in
      let bundle : StakingBundleProto = record {
        bundle_key_id = ctx.mintable_token_id;
        pool_id = self.pool_id;
        vlq = release_vlq;
        tmp = some release_tmp;
        redeemer_prop = deposit.redeemer_prop;
        erg_value = min_safe_fat_box_value;
        token_name = details.name;
        token_desc = details.description;
      } in
      let user_output : DepositOutput = record {
        bundle_key = record { token_id = ctx.mintable_token_id; amount = bundle_key_amount_user };
        redeemer_prop = deposit.redeemer_prop;
        erg_value = min_safe_fat_box_value;
        token_name = details.name;
        token_desc = details.description;
      } in
      let remainder_erg =
        safe_sub
          (safe_sub (safe_sub deposit.erg_value min_safe_fat_box_value) min_safe_fat_box_value)
          default_miner_fee in
      (
        next_pool,
        bundle,
        user_output,
        record { executor_prop = ctx.executor_prop; erg_value = remainder_erg },
        record { erg_value = default_miner_fee },
      )

  -- the check of what is left for the executor
  unfoldable pub make_deposit :
      ℕ
      → Deposit
      → TokenDetails
      → ExecutionContext
      → Outcome (Pool × StakingBundleProto × DepositOutput × ExecutorOutput × MinerOutput)
  unfolding deposit_outputs
  make_deposit epochs_remain deposit details ctx =
      let out = deposit_outputs epochs_remain deposit details ctx in
      if leb min_safe_box_value out.3.erg_value
      then ok out
      else err (permanent (low_value min_safe_box_value out.3.erg_value))

  -- `apply_deposit`
  unfoldable pub apply_deposit :
      Deposit
      → TokenDetails
      → ExecutionContext
      → Outcome (Pool × StakingBundleProto × DepositOutput × ExecutorOutput × MinerOutput)
  unfolding num_epochs_remain epoch_completed make_deposit
  apply_deposit deposit details ctx = elim (num_epochs_remain ctx.height) [
    | none ↦ panicked
    | some epochs_remain ↦
        if ltb epochs_remain 1 then err (permanent program_exhausted) else elim epoch_completed [
          | none ↦ panicked
          | some completed ↦
              if not completed
              then err liquidity_move_blocked
              else if not (epochs_remain == deposit.expected_num_epochs)
              then err (permanent (order_poisoned deposit.expected_num_epochs epochs_remain))
              else make_deposit epochs_remain deposit details ctx
        ]
  ]

  -- what `apply_redeem` moves once its checks have passed
  unfoldable pub redeem_outputs :
      Redeem → StakingBundle → ExecutionContext → Pool × RedeemOutput × ExecutorOutput × MinerOutput
  unfolding add sub
  redeem_outputs redeem bundle ctx =
      let next_pool : Pool = record self {
        reserves_lq = sub self.reserves_lq redeem.expected_lq;
        reserves_vlq = add self.reserves_vlq bundle.vlq;
        reserves_tmp = elim bundle.tmp [
          | some tmp ↦ add self.reserves_tmp tmp
          | none ↦ self.reserves_tmp
        ];
      } in
      let user_output : RedeemOutput = record {
        lq = redeem.expected_lq;
        redeemer_prop = redeem.redeemer_prop;
        erg_value = min_safe_box_value;
      } in
      let remainder_erg =
        safe_sub (safe_sub (wrap (redeem.erg_value + bundle.erg_value)) min_safe_box_value)
          default_miner_fee in
      (
        next_pool,
        user_output,
        record { executor_prop = ctx.executor_prop; erg_value = remainder_erg },
        record { erg_value = default_miner_fee },
      )

  -- the check of what is left for the executor
  unfoldable pub make_redeem :
      Redeem
      → StakingBundle
      → ExecutionContext
      → Outcome (Pool × RedeemOutput × ExecutorOutput × MinerOutput)
  unfolding redeem_outputs
  make_redeem redeem bundle ctx =
      let out = redeem_outputs redeem bundle ctx in
      if leb min_safe_box_value out.2.erg_value
      then ok out
      else err (permanent (low_value min_safe_box_value out.2.erg_value))

  -- `apply_redeem`; `stuck` is the pool whose redeems do not wait for the end of the epoch
  unfoldable pub apply_redeem :
      ℕ
      → Redeem
      → StakingBundle
      → ExecutionContext
      → Outcome (Pool × RedeemOutput × ExecutorOutput × MinerOutput)
  unfolding epoch_completed make_redeem
  apply_redeem stuck_pool_id redeem bundle ctx =
      let done = make_redeem redeem bundle ctx in
      if not (redeem.expected_lq.amount == bundle.vlq.amount)
      then err (permanent liquidity_mismatch)
      else if bundle.pool_id == stuck_pool_id
      then done
      else elim epoch_completed [
        | none ↦ panicked
        | some completed ↦ if not completed then err liquidity_move_blocked else done
      ]
