-- ===== src/Backlog/Service.antt =====
-- `BacklogService` of backlog.rs. A queue keeps identifiers with a timestamp, and the orders stand
-- in the store. `Utc::now()` is read once in each round of a loop: a loop takes the readings that
-- it makes as a function of the round.
use spectrum_offchain_ergo.Prelude.{
  ℕ, zero, suc, Bool, true, false, Option, none, some, List, [], ◌∷◌, ◌++◌, map, ◌==◌, leb,
  if◌then◌else◌, position, remove_at, find, any, length,
}
use spectrum_offchain_ergo.Prelude.Int.{ℤ, ◌-ℤ◌, ltb_ℤ}
use spectrum_offchain_ergo.Data.{
  OnChainOrder, Weighted, BacklogOrder, PendingOrder, ProgressingOrder,
}
use spectrum_offchain_ergo.Backlog.Queue.{WeightedOrder, Entry, PriorityQueue}
use spectrum_offchain_ergo.Backlog.Store.{BacklogStore}

pub record BacklogConfig : Type 0 where
  pub order_lifespan : ℤ
  pub order_exec_time : ℤ
  pub retry_suspended_prob : ℕ

-- The type parameters of `BacklogService<TOrd, TStore>`, and the crate of the queues.
pub record Setup : Type 1 where
  pub TOrd : Type 0
  pub order : OnChainOrder TOrd
  pub weighted : Weighted TOrd
  pub queue : PriorityQueue
  pub store : BacklogStore order

module _ (E : Setup) where
  open E use {TOrd, order as O, weighted as W, queue as P, store as S}
  open O use {get_self_ref}
  open W use {weight}
  open P use {Queue}
  open S use {Store}

  pub record BacklogService : Type 0 where
    pub store : Store
    pub conf : BacklogConfig
    pub pending_pq : Queue
    pub suspended_pq : Queue
    pub revisit_queue : List WeightedOrder

  -- `From<BacklogOrder<TOrd>>` for `WeightedOrder`; the other wrappers convert alike
  abbrev pub weighted_order : TOrd → ℤ → WeightedOrder
  weighted_order ord ts = record { order_id = get_self_ref ord; timestamp = ts }

  unfoldable pub elapsed_over : ℤ → ℤ → ℤ → Bool
  elapsed_over span ts_now ts = ltb_ℤ span (ts_now -ℤ ts)

  unfoldable pub restore : Queue → List (BacklogOrder TOrd) → Queue
  restore pq [] = pq
  restore pq (b ∷ bs) = restore (P.push pq (weighted_order b.order b.timestamp) (weight b.order)) bs

  unfoldable pub new : Store → BacklogConfig → BacklogService
  unfolding restore
  new store conf = record {
    store = store;
    conf = conf;
    pending_pq = restore P.new (S.find_orders store (λ _. true));
    suspended_pq = P.new;
    revisit_queue = [];
  }

  -- the body of the loop of `revisit_progressing_orders` for an order whose time has come
  unfoldable pub revisit_order : BacklogService → WeightedOrder → ℤ → BacklogService
  revisit_order b wo ts_now =
      if elapsed_over b.conf.order_lifespan ts_now wo.timestamp
      then record b { store = S.remove b.store wo.order_id }
      else elim (S.get b.store wo.order_id) [
        | none ↦ b
        | some bo ↦ record b {
          pending_pq = P.push b.pending_pq (weighted_order bo.order bo.timestamp) (weight bo.order);
        }
      ]

  -- the loop: an order that is too recent goes back to the front, and ends it
  unfoldable pub revisit_loop : List WeightedOrder → ℕ → (ℕ → ℤ) → BacklogService → BacklogService
  unfolding revisit_order
  revisit_loop [] i clock b = record b { revisit_queue = [] }
  revisit_loop (wo ∷ wos) i clock b =
      let rest = revisit_loop wos (suc i) clock (revisit_order b wo (clock i)) in
      if elapsed_over b.conf.order_exec_time (clock i) wo.timestamp
      then rest
      else record b { revisit_queue = wo ∷ wos }

  unfoldable pub revisit_progressing_orders : (ℕ → ℤ) → BacklogService → BacklogService
  unfolding revisit_loop
  revisit_progressing_orders clock b = revisit_loop b.revisit_queue 0 clock b

  -- what `try_pop_max_order` returns, with the store and the queue as it leaves them
  pub record Popped : Type 0 where
    pub result : Option TOrd
    pub store : Store
    pub pq : Queue

  -- `none` when the fuel runs out
  unfoldable pub pop_loop : ℕ → ℕ → (ℕ → ℤ) → BacklogConfig → Store → Queue → Option Popped
  pop_loop zero i clock conf store pq = none
  pop_loop (suc fuel) i clock conf store pq = elim (P.pop pq) [
    | none ↦ some (record { result = none; store = store; pq = pq })
    | some (top, rest) ↦
        let id = top.0.order_id in
        let dropped = pop_loop fuel (suc i) clock conf (S.remove store id) rest in
        let skipped = pop_loop fuel (suc i) clock conf store rest in
        if elapsed_over conf.order_lifespan (clock i) top.0.timestamp
        then dropped
        else elim (S.get store id) [
          | none ↦ skipped
          | some bo ↦ some (record { result = some bo.order; store = store; pq = rest })
        ]
  ]

  unfoldable pub try_pop_max_order : (ℕ → ℤ) → BacklogConfig → Store → Queue → Option Popped
  unfolding pop_loop
  try_pop_max_order clock conf store pq = pop_loop (suc (length (P.iter pq))) 0 clock conf store pq

  -- the three parts of `put` that touch the queues
  unfoldable pub forget_revisit : ℕ → List WeightedOrder → List WeightedOrder
  forget_revisit id wos = elim (position (λ (wo : WeightedOrder). wo.order_id == id) wos) [
    | none ↦ wos
    | some index ↦ remove_at index wos
  ]

  abbrev pub has_id : ℕ → Entry → Bool
  has_id id e = e.0.order_id == id

  unfoldable pub forget_suspended : ℕ → Queue → Queue
  forget_suspended id pq = elim (find (has_id id) (P.iter pq)) [
    | none ↦ pq
    | some e ↦ P.remove pq e.0
  ]

  unfoldable pub enqueue_pending : PendingOrder TOrd → Queue → Queue
  enqueue_pending ord pq =
      if any (has_id (get_self_ref ord.order)) (P.iter pq)
      then pq
      else P.push pq (weighted_order ord.order ord.timestamp) (weight ord.order)

  unfoldable pub put : BacklogService → PendingOrder TOrd → BacklogService
  put b ord =
      let id = get_self_ref ord.order in
      record b {
        store =
            if S.exists b.store id
            then b.store
            else S.put b.store (record { order = ord.order; timestamp = ord.timestamp });
        revisit_queue = forget_revisit id b.revisit_queue;
        suspended_pq = forget_suspended id b.suspended_pq;
        pending_pq = enqueue_pending ord b.pending_pq;
      }

  unfoldable pub suspend : BacklogService → TOrd → BacklogService × Bool
  suspend b ord =
      if S.exists b.store (get_self_ref ord)
      then elim (S.get b.store (get_self_ref ord)) [
        | none ↦ (b, false)
        | some bo ↦ (
          record b {
            suspended_pq = P.push b.suspended_pq (weighted_order ord bo.timestamp) (weight ord);
          },
          true,
        )
      ]
      else (b, false)

  unfoldable pub check_later : BacklogService → ProgressingOrder TOrd → BacklogService × Bool
  check_later b ord =
      if S.exists b.store (get_self_ref ord.order)
      then (
        record b {
          revisit_queue = b.revisit_queue ++ (weighted_order ord.order ord.timestamp ∷ []);
        },
        true,
      )
      else (b, false)

  -- `rng` is the draw of `gen_range(0..=99)`
  unfoldable pub try_pop :
      (ℕ → ℤ) → (ℕ → ℤ) → ℕ → BacklogService → Option (Option TOrd × BacklogService)
  try_pop revisit_clock pop_clock rng b0 =
      let b = revisit_progressing_orders revisit_clock b0 in
      if leb b.conf.retry_suspended_prob rng
      then elim (try_pop_max_order pop_clock b.conf b.store b.pending_pq) [
        | none ↦ none
        | some p ↦ some (p.result, record b { store = p.store; pending_pq = p.pq })
      ]
      else elim (try_pop_max_order pop_clock b.conf b.store b.suspended_pq) [
        | none ↦ none
        | some p ↦ some (p.result, record b { store = p.store; suspended_pq = p.pq })
      ]

  unfoldable pub exists : BacklogService → ℕ → Bool
  exists b id = S.exists b.store id

  unfoldable pub remove : BacklogService → ℕ → BacklogService
  remove b id = record b { store = S.remove b.store id }

  unfoldable pub recharge : BacklogService → TOrd → BacklogService
  recharge b ord = elim (S.get b.store (get_self_ref ord)) [
    | none ↦ b
    | some bo ↦ record b {
      pending_pq = P.push b.pending_pq (weighted_order ord bo.timestamp) (weight ord);
    }
  ]

  unfoldable pub find_orders : BacklogService → (TOrd → Bool) → List TOrd
  find_orders b f = map (λ (bo : BacklogOrder TOrd). bo.order) (S.find_orders b.store f)
