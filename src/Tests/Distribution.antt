-- ===== src/Tests/Distribution.antt =====
-- A tick of a schedule that is due, with the states of bundles in memory and a backlog that is a list.
use mathlib.Core.Option
use spectrum_offchain_ergo.Prelude.{
  ℕ, ◌<◌, ◌≡◌, ◌⊎◌, refl, true, false, none, some, List, [], ◌∷◌, arith, bytes_eq, count, ◌==◌,
  contains,
}
use spectrum_offchain_ergo.Prelude.Int.{pos}
use spectrum_offchain_ergo.Storage.{prefixed_key, raw_prefixed_key, starts_with}
use spectrum_offchain_ergo.Executor.Order.{Backlog}
use spectrum_offchain_ergo.Lm.Epochs.{Tick}
use spectrum_offchain_ergo.Lm.Bundles.{
  put_confirmed, put_state, epoch_index_key, epoch_index_prefix, destructure_epoch_index_key,
  select_loop, select,
}
use spectrum_offchain_ergo.Lm.Orders.{Compound, Order, ErgoLib}
use spectrum_offchain_ergo.Lm.Ticks.{is_pending, is_deferred}
use spectrum_offchain_ergo.Lm.Schedules.{reverse}
use spectrum_offchain_ergo.Lm.Distribution.{Shared, put_orders, remove_orders, process_tick}
use spectrum_offchain_ergo.Lm.Distribution.Batches.{AllBatches, stakers_of, process_tick_lem}
use spectrum_offchain_ergo.Tests.Rocks.{memory, get, put, delete, iterate}
use spectrum_offchain_ergo.Tests.Schedules.{
  wide_bytes, widths, schedules, tick, published, ser_str, de_id,
}
use spectrum_offchain_ergo.Tests.Bundles.{words, bundles, state, de_u32, serialize}

-- the orders, the last put first
abbrev pub order_list : Backlog Order
order_list = record {
  Service = List Order;
  put = λ b o. o.order ∷ b;
  suspend = λ b o. (b, false);
  check_later = λ b o. (b, false);
  try_pop = λ b. elim b [ [] ↦ (none, []) | o ∷ os ↦ (some o, os) ];
  exists = λ b i. false;
  remove = λ b i. b;
  recharge = λ b o. o ∷ b;
  find_orders = λ b f. [];
}

abbrev pub lib : ErgoLib
lib = record { order_id = λ c. c.queue_ix; safe_user_min = 1000000 }

-- the bundle 1 of pool 7, to be paid from epoch 3 on
abbrev staked : memory.Db
staked = put_confirmed memory wide_bytes words bundles [] (state 10)

abbrev due : Tick
due = record tick { epoch_ix = 3 }

abbrev picked : List ℕ
picked = 1 ∷ []

abbrev Pools : Type 0
Pools = Shared lib order_list memory wide_bytes words bundles widths schedules

abbrev shared : Pools
shared = record { backlog = []; schedules = published }

program : Unit {0}
unfolding put_confirmed put_state epoch_index_key epoch_index_prefix destructure_epoch_index_key
    select_loop select prefixed_key raw_prefixed_key starts_with reverse bytes_eq get put delete
    iterate ser_str de_id de_u32 serialize contains Option.bind
program = tt

selects : select memory wide_bytes words bundles staked 7 3 ≡ some picked
unfolding program
selects = refl

process_tick_lem_example :
    (out : Pools) × (process_tick lib order_list memory wide_bytes words bundles widths schedules 10
        staked shared due
        (pos 1000)
      ≡ some out)
    × (is_pending memory wide_bytes widths schedules out.schedules 7 110 ≡ false)
    × (((0 < 1)
          × (is_deferred memory wide_bytes widths schedules out.schedules 7 110 ≡ true)
          × ((cs : List Compound) × (out.backlog
                ≡ put_orders lib order_list memory wide_bytes words bundles widths schedules []
                    (pos 1000)
                    cs)
              × AllBatches due 10 0 cs
              × ((b : ℕ) → count (λ x. x == b) (stakers_of cs) ≡ count (λ x. x == b) picked)))
        ⊎ ((picked ≡ [])
            × (is_deferred memory wide_bytes widths schedules out.schedules 7 110 ≡ false)
            × (out.backlog
                ≡ remove_orders lib order_list memory wide_bytes words bundles widths schedules []
                    [])))
process_tick_lem_example =
    process_tick_lem lib order_list memory wide_bytes words bundles widths schedules 10 staked
      shared due (pos 1000) picked (omega arith) selects
