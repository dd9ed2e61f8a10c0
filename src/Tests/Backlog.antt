-- ===== src/Tests/Backlog.antt =====
-- The backlog over RocksDB, with orders that are an identifier and a weight.
use spectrum_offchain_ergo.Prelude.{
  ℕ, ◌≤◌, ◌≡◌, refl, inl, inr, false, Option, none, some, [], ◌∷◌, arith, Elem, bytes_eq, any, find,
  position,
}
use spectrum_offchain_ergo.Prelude.Int.{ℤ, pos, ◌-ℤ◌}
use spectrum_offchain_ergo.Data.{OnChainOrder, Weighted, BacklogOrder}
use spectrum_offchain_ergo.Storage.{Bytes, Codec}
use spectrum_offchain_ergo.Backlog.Queue.{Entry}
use spectrum_offchain_ergo.Backlog.Store.{BacklogStoreRocksDb, db_get, db_put, db_exists, db_remove}
use spectrum_offchain_ergo.Backlog.Service.{
  Setup, BacklogService, put, remove, try_pop, exists, Popped, try_pop_max_order, pop_loop,
  revisit_loop, revisit_progressing_orders, revisit_order, elapsed_over, enqueue_pending,
  forget_revisit, forget_suspended,
}
use spectrum_offchain_ergo.Backlog.Revisit.{WeightedOrder-discrete}
use spectrum_offchain_ergo.Backlog.Pop.{
  Kept, Found, Outcome, try_pop_max_order_lem, try_pop_max_order_serves,
}
use spectrum_offchain_ergo.Backlog.Put.{PutEffect, put-PutEffect}
use spectrum_offchain_ergo.Tests.Rocks.{
  de_i64-ser_i64, memory, digits, ser_i64, de_i64, get as get_bytes, put as put_bytes, delete,
}
use spectrum_offchain_ergo.Tests.Queues.{unique_list}

abbrev Mock : Type 0
Mock = ℕ × ℕ

abbrev mock_order : OnChainOrder Mock
mock_order = record { get_self_ref = λ o. o.0; get_entity_ref = λ o. 0 }

abbrev mock_weight : Weighted Mock
mock_weight = record { weight = λ o. o.1 }

abbrev write : BacklogOrder Mock → Bytes
write b = b.order.0 ∷ b.order.1 ∷ ser_i64 b.timestamp

abbrev read : Bytes → Option (BacklogOrder Mock)
read (i ∷ w ∷ ts) = elim (de_i64 ts) [
  | none ↦ none
  | some t ↦ some (record { order = (i, w); timestamp = t })
]
read _ = none

read-write : (b : BacklogOrder Mock) → read (write b) ≡ some b
read-write b = ground (arith, de_i64-ser_i64 b.timestamp)

abbrev mock_codec : Codec (BacklogOrder Mock)
mock_codec = record { serialize = write; deserialize = read; deserialize-serialize = read-write }

abbrev mock : Setup
mock = record {
  TOrd = Mock;
  order = mock_order;
  weighted = mock_weight;
  queue = unique_list;
  store = BacklogStoreRocksDb mock_order memory digits mock_codec;
}

-- everything that a run of the backlog computes with
program : Unit {0}
unfolding put exists remove try_pop try_pop_max_order pop_loop revisit_loop
    revisit_progressing_orders revisit_order elapsed_over enqueue_pending forget_revisit
    forget_suspended unique_list WeightedOrder-discrete db_get db_put db_exists db_remove get_bytes
    put_bytes delete ser_i64 de_i64 bytes_eq any find position ◌-ℤ◌
program = tt

abbrev start : BacklogService mock
unfolding unique_list
start = record {
  store = [];
  conf = record { order_lifespan = pos 10; order_exec_time = pos 5; retry_suspended_prob = 50 };
  pending_pq = ([], tt);
  suspended_pq = ([], tt);
  revisit_queue = [];
}

abbrev two : BacklogService mock
two =
    put mock (put mock start (record { order = (1, 30); timestamp = pos 100 }))
      (record { order = (2, 40); timestamp = pos 101 })

abbrev clock : ℕ → ℤ
clock i = pos 103

abbrev state_of : Option (Option Mock × BacklogService mock) → BacklogService mock
state_of none = start
state_of (some r) = r.1

abbrev after : BacklogService mock
after = state_of (try_pop mock clock clock 70 two)

abbrev after_remove : BacklogService mock
after_remove = state_of (try_pop mock clock clock 70 (remove mock two 2))

start-IsWf : mock.store.IsWf start.store
unfolding program
start-IsWf k v e = cc

two-IsWf : mock.store.IsWf two.store
unfolding program
two-IsWf =
    let first_order : BacklogOrder Mock = record { order = (1, 30); timestamp = pos 100 } in
    let second_order : BacklogOrder Mock = record { order = (2, 40); timestamp = pos 101 } in
    mock.store.put-IsWf (mock.store.put start.store first_order) second_order
      (mock.store.put-IsWf start.store first_order start-IsWf)

try_pop_max_order_lem_example :
    (p : Popped mock) × (try_pop_max_order mock clock two.conf two.store two.pending_pq ≡ some p)
    × Kept mock clock two.conf two.store two.pending_pq p.store
    × Outcome mock clock two.conf two.pending_pq p
try_pop_max_order_lem_example = try_pop_max_order_lem mock clock two.conf two.store two.pending_pq

abbrev first : Entry
first = (record { order_id = 1; timestamp = pos 100 }, 30)

young :
    (y : Entry) (i : ℕ)
    → Elem y (mock.queue.iter two.pending_pq)
    → y.0.order_id ≡ 1
    → elapsed_over mock two.conf.order_lifespan (clock i) y.0.timestamp ≡ false
unfolding program
young y i (inl e) h = absurd (ground (arith, e, h))
young y i (inr (inl e)) h = rw e
young y i (inr (inr e)) h = absurd e

try_pop_max_order_serves_example :
    (p : Popped mock) × (top : Entry) × (served : BacklogOrder Mock) × (i : ℕ) × (try_pop_max_order
        mock clock two.conf two.store two.pending_pq
      ≡ some p)
    × (mock.store.get two.store top.0.order_id ≡ some served)
    × (30 ≤ top.1)
    × Found mock clock two.conf two.pending_pq p top served i
unfolding program
try_pop_max_order_serves_example =
    try_pop_max_order_serves mock clock two.conf two.store two.pending_pq first
      (record { order = (1, 30); timestamp = pos 100 }) (inr (inl refl)) refl young

abbrev waiting : BacklogService mock
waiting = record two {
  revisit_queue =
      record { order_id = 1; timestamp = pos 90 }
      ∷ record { order_id = 2; timestamp = pos 101 }
      ∷ [];
}

put-PutEffect_example :
    PutEffect mock waiting 1 (put mock waiting (record { order = (1, 30); timestamp = pos 102 }))
unfolding program
put-PutEffect_example =
    put-PutEffect mock waiting (record { order = (1, 30); timestamp = pos 102 }) two-IsWf
