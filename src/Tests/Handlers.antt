-- ===== src/Tests/Handlers.antt =====
-- The registry of programs, the schedule of a pool and the handlers of the pools at concrete events.
use spectrum_offchain_ergo.Prelude.{
  ℕ, ◌+◌, ◌*◌, ◌<◌, ◌≤◌, ◌≡◌, refl, true, false, Option, none, some, [], ◌∷◌, arith, Elem, ◌==◌,
  if◌then◌else◌, bytes_eq,
}
use spectrum_offchain_ergo.Prelude.Int.{ℤ, pos}
use spectrum_offchain_ergo.Storage.{Bytes, Codec, prefixed_key, raw_prefixed_key}
use spectrum_offchain_ergo.BoxResolver.Resolve.{EntityRepo}
use spectrum_offchain_ergo.Events.Source.{Transaction, applied_tx, unapplied_tx}
use spectrum_offchain_ergo.Events.Sink.{Sink, feed, flush}
use spectrum_offchain_ergo.Lm.Types.{AsBox}
use spectrum_offchain_ergo.Lm.Pool.{ProgramConfig, Pool, shift, round_to, as_f64, epoch_alloc}
use spectrum_offchain_ergo.Lm.Epochs.{PoolSchedule, next_compounding_at, schedule_end}
use spectrum_offchain_ergo.Lm.Progress.{
  top_bit, ceil_quotient, epochs_left_to_process, schedule_of, schedule_of_lem,
}
use spectrum_offchain_ergo.Lm.Programs
use spectrum_offchain_ergo.Lm.Programs.{exists, program_try_handle, program_try_handle_lem}
use spectrum_offchain_ergo.Lm.Funding.{
  DistributionFunding, FundingUpdate, funding_created, funding_eliminated,
}
use spectrum_offchain_ergo.Lm.Handlers.Funding.{feed_spent, feed_funding, funding_try_handle}
use spectrum_offchain_ergo.Lm.Handlers.Schedule.{follow, follow_outputs, schedule_try_handle}
use spectrum_offchain_ergo.Lm.Schedules.{update_schedule, tick_key, reverse}
use spectrum_offchain_ergo.Tests.Rocks.{memory, digits, get, put, delete}
use spectrum_offchain_ergo.Tests.Schedules.{ser_str, wide_bytes, widths, schedules, published}

-- a program of 10 epochs, of which 3 are paid and the fourth is paid in part
abbrev pool : Pool
pool = record {
  pool_id = 7;
  budget_rem = record { token_id = 2; amount = 6500 };
  reserves_lq = record { token_id = 3; amount = 50 };
  reserves_vlq = record { token_id = 4; amount = 1000000 };
  reserves_tmp = record { token_id = 5; amount = 10000000 };
  epoch_ix = some 4;
  conf = record {
    epoch_len = 100;
    epoch_num = 10;
    program_start = 500;
    redeem_blocks_delta = 10;
    max_rounding_error = 0;
    program_budget = record { token_id = 2; amount = 10000 };
  };
  erg_value = 250000;
}

schedule_of_lem_example :
    (sc : PoolSchedule) × (left : ℕ) × (schedule_of pool ≡ some sc)
    × (6500 ≤ left * 1000)
    × (left * 1000 < 6500 + 1000)
    × (sc.last_completed_epoch_ix + left ≡ 10)
schedule_of_lem_example =
    schedule_of_lem pool (omega arith) (omega arith) (omega arith) (omega arith) (omega arith)
      (omega arith)

unfoldable de_config : Bytes → Option ProgramConfig
de_config (len ∷ num ∷ start ∷ delta ∷ error ∷ token ∷ budget ∷ []) = some (record {
  epoch_len = len;
  epoch_num = num;
  program_start = start;
  redeem_blocks_delta = delta;
  max_rounding_error = error;
  program_budget = record { token_id = token; amount = budget };
})
de_config _ = none

unfoldable ser_config : ProgramConfig → Bytes
ser_config c =
    c.epoch_len ∷ c.epoch_num ∷ c.program_start ∷ c.redeem_blocks_delta ∷ c.max_rounding_error
    ∷ c.program_budget.token_id ∷ c.program_budget.amount ∷ []

de_config-ser_config : (c : ProgramConfig) → de_config (ser_config c) ≡ some c
unfolding de_config ser_config
de_config-ser_config c = refl

abbrev configs : Codec ProgramConfig
configs = record {
  serialize = ser_config;
  deserialize = de_config;
  deserialize-serialize = de_config-ser_config;
}

-- a box is a number, and the box 1 has the pool
abbrev pool_at : ℕ → Option Pool
pool_at n = if n == 1 then some pool else none

abbrev tx : Transaction ℕ
tx = record { inputs = 8 ∷ 9 ∷ []; outputs = 1 ∷ 2 ∷ [] }

program_try_handle_lem_example :
    ((id : ℕ)
      → exists memory digits configs [] id ≡ true
      → Programs.get memory digits configs
          (program_try_handle memory digits configs pool_at [] (applied_tx (pos 5) tx)).1
          id
        ≡ Programs.get memory digits configs [] id)
    × ((ts : ℤ) (t : Transaction ℕ) (o : ℕ) (p : Pool)
        → applied_tx (pos 5) tx ≡ applied_tx ts t
        → Elem o t.outputs
        → pool_at o ≡ some p
        → exists memory digits configs
            (program_try_handle memory digits configs pool_at [] (applied_tx (pos 5) tx)).1
            p.pool_id
          ≡ true)
    × ((t : Transaction ℕ)
        → applied_tx (pos 5) tx ≡ unapplied_tx t
        → (program_try_handle memory digits configs pool_at [] (applied_tx (pos 5) tx)).1 ≡ [])
program_try_handle_lem_example =
    program_try_handle_lem memory digits configs pool_at [] (applied_tx (pos 5) tx)

-- the box 2 is of funding, and the input 9 is known
abbrev paid : AsBox DistributionFunding
paid = record {
  box_id = 2;
  creation_height = 100;
  entity = record { id = 2; prop = 5; erg_value = 1000 };
}

abbrev funding_at : ℕ → Option (AsBox DistributionFunding)
funding_at n = if n == 2 then some paid else none

abbrev topic : Sink FundingUpdate
topic = record { fed = []; flushed = [] }

-- a repository that knows no pool
abbrev pub no_pools : EntityRepo (AsBox Pool)
no_pools = record {
  Repo = Unit;
  get_prediction_predecessor = λ r i. none;
  get_last_predicted = λ r i. none;
  get_last_confirmed = λ r i. none;
  get_last_unconfirmed = λ r i. none;
  put_predicted = λ r t. r;
  put_confirmed = λ r e. r;
  put_unconfirmed = λ r e. r;
  invalidate = λ r i j. r;
  eliminate = λ r e. r;
  may_exist = λ r i. false;
  get_state = λ r i. none;
}

abbrev next_schedule : PoolSchedule
next_schedule = record {
  pool_id = 7;
  epoch_len = 100;
  epoch_num = 10;
  program_start = 500;
  last_completed_epoch_ix = 3;
}

abbrev followed : memory.Db
followed = (update_schedule memory wide_bytes widths schedules published next_schedule).0

-- everything that the handler computes with
program : Unit {0}
unfolding schedule_try_handle follow_outputs follow schedule_of epochs_left_to_process ceil_quotient
    top_bit epoch_alloc as_f64 shift round_to update_schedule next_compounding_at schedule_end
    tick_key reverse prefixed_key raw_prefixed_key bytes_eq get put delete ser_str
program = tt

follows :
    schedule_try_handle memory wide_bytes widths schedules pool_at no_pools tt published
      (applied_tx (pos 5) tx)
    ≡ some (none, followed)
unfolding program
follows = refl

handles_funding :
    funding_try_handle funding_at (λ i. i == 9) topic (applied_tx (pos 5) tx)
    ≡ (none, record { fed = []; flushed = funding_eliminated 9 ∷ funding_created paid ∷ [] })
unfolding funding_try_handle feed_spent feed_funding feed flush
handles_funding = refl
