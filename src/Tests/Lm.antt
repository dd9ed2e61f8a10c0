-- ===== src/Tests/Lm.antt =====
-- A pool with a deposit, its redeem, and its schedule.
use spectrum_offchain_ergo.Prelude.{◌≡◌, refl, none, arith, []}
use spectrum_offchain_ergo.Lm.Types.{
  add, sub, TokenDetails, ExecutionContext, Deposit, Redeem, finalize,
}
use spectrum_offchain_ergo.Lm.Pool.{
  Pool, Outcome, ok, err, panicked, shift, round_to, as_f64, epoch_alloc, epoch_completed,
  current_epoch_ix, num_epochs_remain, deposit_outputs, make_deposit, apply_deposit, redeem_outputs,
  make_redeem, apply_redeem,
}
use spectrum_offchain_ergo.Lm.Moves.{Deposited, Redeemed, DepositMoves, apply_deposit_moves}
use spectrum_offchain_ergo.Lm.RoundTrip.{apply_redeem-apply_deposit}
use spectrum_offchain_ergo.Lm.Epochs.{PoolSchedule}

-- a program of 10 epochs of 100 blocks, at its first epoch's end
abbrev pub pool : Pool
pool = record {
  pool_id = 1;
  budget_rem = record { token_id = 2; amount = 9000 };
  reserves_lq = record { token_id = 3; amount = 50 };
  reserves_vlq = record { token_id = 4; amount = 1000000 };
  reserves_tmp = record { token_id = 5; amount = 10000000 };
  epoch_ix = none;
  conf = record {
    epoch_len = 100;
    epoch_num = 10;
    program_start = 500;
    redeem_blocks_delta = 10;
    max_rounding_error = 0;
    program_budget = record { token_id = 2; amount = 10000 };
  };
  erg_value = 250000;
}

abbrev pub deposit : Deposit
deposit = record {
  order_id = 7;
  pool_id = 1;
  redeemer_prop = 8;
  lq = record { token_id = 3; amount = 600 };
  erg_value = 3000000;
  expected_num_epochs = 9;
}

abbrev pub details : TokenDetails
details = record { name = []; description = [] }

abbrev context : ExecutionContext
context = record { height = 550; mintable_token_id = 9; executor_prop = 10 }

abbrev pool_of : {A : Type 0} → A → Outcome A → A
pool_of d (ok out) = out
pool_of d (err e) = d
pool_of d panicked = d

abbrev deposited : Deposited
deposited =
    pool_of (deposit_outputs pool 0 deposit details context)
      (apply_deposit pool deposit details context)

abbrev redeem : Redeem
redeem = record {
  order_id = 11;
  pool_id = 1;
  redeemer_prop = 8;
  bundle_key = record { token_id = 9; amount = 1 };
  expected_lq = record { token_id = 3; amount = 600 };
  erg_value = 2000000;
}

abbrev redeemed : Redeemed
redeemed =
    pool_of (redeem_outputs deposited.0 redeem (finalize deposited.1 12) context)
      (apply_redeem deposited.0 99 redeem (finalize deposited.1 12) context)

-- everything that a run of the pool computes with
program : Unit {0}
unfolding add sub finalize shift round_to as_f64 epoch_alloc epoch_completed current_epoch_ix
    num_epochs_remain deposit_outputs make_deposit apply_deposit redeem_outputs make_redeem
    apply_redeem
program = tt

apply_deposit_moves_example : DepositMoves pool deposit details context deposited
unfolding program
apply_deposit_moves_example =
    apply_deposit_moves pool deposit details context deposited
      (omega arith, omega arith, omega arith, omega arith, omega arith) refl

apply_redeem-apply_deposit_example :
    (redeemed.0.reserves_lq.amount ≡ 50)
    × (redeemed.0.reserves_vlq.amount ≡ 1000000)
    × (redeemed.0.reserves_tmp.amount ≡ 10000000)
    × (redeemed.0.budget_rem ≡ pool.budget_rem)
unfolding program
apply_redeem-apply_deposit_example =
    apply_redeem-apply_deposit pool 99 deposit details redeem 12 context context deposited redeemed
      (omega arith) (omega arith) (omega arith) (omega arith) refl refl

abbrev schedule : PoolSchedule
schedule = record {
  pool_id = 1;
  epoch_len = 100;
  epoch_num = 10;
  program_start = 500;
  last_completed_epoch_ix = 3;
}
