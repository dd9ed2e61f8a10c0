-- ===== src/Tests/Executor.antt =====
-- The executor of the pools over stores in memory, with a deposit and with the states of one bundle.
use spectrum_offchain_ergo.Prelude.{
  ℕ, ◌+◌, ◌≡◌, refl, true, Option, none, some, is_some, List, ◌⊎◌, Bool, [], ◌∷◌, contains,
}
use spectrum_offchain_ergo.Prelude.Int.{pos, ◌-ℤ◌}
use spectrum_offchain_ergo.BoxResolver.Resolve.{EntityRepo, resolve_entity_state, resolve_states}
use spectrum_offchain_ergo.Lm.Types.{AsBox, StakingBundle, add, sub, finalize}
use spectrum_offchain_ergo.Lm.Pool.{
  Pool, shift, round_to, as_f64, epoch_alloc, epoch_completed, current_epoch_ix, num_epochs_remain,
  deposit_outputs, make_deposit, apply_deposit,
}
use spectrum_offchain_ergo.Lm.Bundles.{index_bundle, get_prediction_predecessor}
use spectrum_offchain_ergo.Lm.Orders.{Order, bundle_ids, run_deposit}
use spectrum_offchain_ergo.Lm.Executor.{
  Setting, Answers, Ready, from_run, OrderExecutor, make_context, resolve_bundles, evaluate,
}
use spectrum_offchain_ergo.Lm.Executor.Settle.{
  put_bundles, on_accepted, on_result, execute, try_execute_next,
}
use spectrum_offchain_ergo.Lm.Executor.Fate.{put_bundles_lem}
use spectrum_offchain_ergo.Lm.Executor.Sent.{Gives, Sent, Unsent, try_execute_next-Sent}
use spectrum_offchain_ergo.Tests.Rocks.{memory, digits}
use spectrum_offchain_ergo.Tests.Bundles.{words, bundles}
use spectrum_offchain_ergo.Tests.Funding.{ints, fundings}
use spectrum_offchain_ergo.Tests.Distribution.{order_list, lib}
use spectrum_offchain_ergo.Tests.Lm
use spectrum_offchain_ergo.Tests.Lm.{details}

-- a repository of one state, the pool that is confirmed or predicted last
abbrev last_pool : EntityRepo (AsBox Pool)
last_pool = record {
  Repo = Option (AsBox Pool);
  get_prediction_predecessor = λ r i. none;
  get_last_predicted = λ r i. none;
  get_last_confirmed = λ r i. r;
  get_last_unconfirmed = λ r i. none;
  put_predicted = λ r t. some t.state;
  put_confirmed = λ r e. some e;
  put_unconfirmed = λ r e. r;
  invalidate = λ r i j. none;
  eliminate = λ r e. none;
  may_exist = λ r i. is_some r;
  get_state = λ r i. r;
}

abbrev setting : Setting
setting = record {
  lib = lib;
  backlog = order_list;
  pools = last_pool;
  rocks = memory;
  bincode = digits;
  words = words;
  bundle_codec = bundles;
  ints = ints;
  funding_codec = fundings;
  bundle_validator = 77;
  stuck_pool_id = 0;
  executor_prop = 10;
  box_id_at = λ tx i. 1000 + i;
}

abbrev answers : Answers
answers = record {
  ts_now = pos 100;
  height = 550;
  token_details = λ p d. details;
  sign = λ tx. true;
  submit_tx = λ tx. none;
  box_in_utxo = λ i. true;
}

abbrev pool_box : AsBox Pool
pool_box = record { box_id = 11; creation_height = 540; entity = Lm.pool }

abbrev order : Order
order = Order.deposit (record { box_id = 12; creation_height = 545; entity = Lm.deposit })

abbrev waiting : OrderExecutor setting
waiting = record {
  backlog = order ∷ [];
  pool_repo = some pool_box;
  bundle_repo = [];
  funding_repo = [];
  context_cache = (0, pos 0);
}

-- everything that the step computes with
program : Unit {0}
unfolding make_context evaluate from_run run_deposit apply_deposit make_deposit deposit_outputs
    num_epochs_remain current_epoch_ix epoch_completed epoch_alloc as_f64 round_to shift add sub
    finalize bundle_ids resolve_bundles resolve_entity_state resolve_states put_bundles index_bundle
    try_execute_next execute on_result on_accepted ◌-ℤ◌
program = tt

abbrev ran : Option (Bool × OrderExecutor setting)
ran = try_execute_next setting 1 answers waiting

abbrev state_of : Option (Bool × OrderExecutor setting) → OrderExecutor setting
state_of none = waiting
state_of (some (b, x)) = x

executes : try_execute_next setting 1 answers waiting ≡ some (true, state_of ran)
unfolding program
executes = refl

abbrev taken : OrderExecutor setting
taken = record waiting { backlog = [] }

try_execute_next-Sent_example :
    ((ord : Order) × (pool : AsBox Pool) × (staked : List (AsBox StakingBundle)) × (r : Ready)
      × Gives setting 1 answers waiting ord pool staked r
      × Sent setting answers taken (state_of ran) ord pool staked r)
    ⊎ (Unsent setting taken (state_of ran)
        × ((ord : Order) (pool : AsBox Pool) (staked : List (AsBox StakingBundle)) (r : Ready)
            → ¬ Gives setting 1 answers waiting ord pool staked r))
try_execute_next-Sent_example =
    try_execute_next-Sent setting 1 answers waiting (state_of ran) true executes

-- two bundles, and their states before
abbrev staked : ℕ → ℕ → AsBox StakingBundle
staked key sid = record {
  box_id = sid;
  creation_height = 600;
  entity = record {
    bundle_key_id = key;
    state_id = sid;
    pool_id = 1;
    vlq = record { token_id = 4; amount = 100 };
    tmp = some (record { token_id = 5; amount = 800 });
    redeemer_prop = 31;
    erg_value = 250000;
    token_name = [];
    token_desc = [];
  };
}

abbrev nexts : List (AsBox StakingBundle)
nexts = staked 1 12 ∷ staked 2 22 ∷ []

abbrev prevs : List (AsBox StakingBundle)
prevs = staked 1 11 ∷ staked 2 21 ∷ []

abbrev stored : Option memory.Db → memory.Db
stored none = []
stored (some db) = db

abbrev predicted : memory.Db
predicted = stored (put_bundles setting [] Lm.pool.conf nexts prevs)

puts : put_bundles setting [] Lm.pool.conf nexts prevs ≡ some predicted
unfolding put_bundles index_bundle
puts = refl

put_bundles_lem_example :
    get_prediction_predecessor memory digits words bundles predicted 22 ≡ some 21
unfolding contains
put_bundles_lem_example =
    put_bundles_lem setting nexts prevs [] predicted Lm.pool.conf 1 (staked 2 22) (staked 2 21)
      (refl, (refl, tt)) puts refl refl
