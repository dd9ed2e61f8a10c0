-- ===== src/Tests/Events.antt =====
-- The handlers, the tracking of entities and the executor, over the repository in memory.
use spectrum_offchain_ergo.Prelude.{
  ℕ, suc, ◌+◌, ◌≡◌, ◌≢◌, refl, ◌↔◌, ◌⊎◌, Bool, true, false, Option, none, some, List, [], ◌∷◌, ◌==◌,
  if◌then◌else◌, contains, Elem,
}
use spectrum_offchain_ergo.Prelude.Int.{pos}
use spectrum_offchain_ergo.Data.{
  EitherOrBoth, right, both, try_from_pair, swap, transition, transition_rollback,
}
use spectrum_offchain_ergo.BoxResolver.Repo
use spectrum_offchain_ergo.BoxResolver.Resolve.{EntityRepoRocksDb, resolve_entity_state}
use spectrum_offchain_ergo.MempoolSync.State.{tx_accepted}
use spectrum_offchain_ergo.Events.Source.{Transaction}
use spectrum_offchain_ergo.Events.Sink.{
  EventHandler, process_event, after_all, AllUnhandled, process_event_lem,
}
use spectrum_offchain_ergo.Events.Transitions.{Context, extract_transitions}
use spectrum_offchain_ergo.Events.Pairing.{last_spent, last_made, IsOf, extract_transitions_lem}
use spectrum_offchain_ergo.Events.Entity.{
  UpdateHandler, unconfirmed_try_handle, mempool_updates, unconfirmed_try_handle_lem,
  entity_tracking,
}
use spectrum_offchain_ergo.Events.Rollback.{rocks, entity_tracking_rollback}
use spectrum_offchain_ergo.Events.Order.{OrderContext}
use spectrum_offchain_ergo.Executor.Order.{
  Backlog, ran, OrderExecutor, Executed, try_execute_next, try_execute_next_lem,
}
use spectrum_offchain_ergo.Executor.Submit.{
  Node, market, try_execute_next_rejected, try_execute_next_accepted,
}
use spectrum_offchain_ergo.Executor.Invalidations.{
  compound, funding_input, generate_invalidations, Forgets, role_of, generate_invalidations_lem,
}
use spectrum_offchain_ergo.Tests.Rocks.{memory, digits}
use spectrum_offchain_ergo.Tests.BoxResolver.{
  Thing, things, thing_codec, confirmed_db, predicted_db, confirmed_links, predicted_LinksParse,
  keyed, repo_rank, rank_below, predicted_down, next_down, next_fresh, resolves_now, confirmed_now,
}

abbrev in_order : List ℕ → List ℕ
in_order xs = xs

in_order_members : (xs : List ℕ) (i : ℕ) → Elem i (in_order xs) ↔ Elem i xs
in_order_members xs i = (λ m. m, λ m. m)

abbrev context : Context
context = rocks things memory digits thing_codec Thing some in_order

-- spends state 11 of entity 1 and makes its state 12
abbrev move : Transaction Thing
move = record { inputs = 11 ∷ []; outputs = (1, 12) ∷ [] }

extract_transitions_lem_example :
    Elem (both (1, 11) (1, 12)) (extract_transitions context predicted_db [] move) ↔ (
      (k : ℕ) × (try_from_pair
          (last_spent context predicted_db [] k (11 ∷ []) none)
          (last_made context [] k ((1, 12) ∷ []) none)
        ≡ some (both (1, 11) (1, 12)))
      × IsOf context k (both (1, 11) (1, 12))
      × (contains k [] ≡ false))
extract_transitions_lem_example =
    extract_transitions_lem context predicted_db [] move (both (1, 11) (1, 12)) in_order_members

abbrev handler : UpdateHandler context
handler = record {
  topic = record { fed = []; flushed = [] };
  entities = predicted_db;
  blacklisted_entities = [];
}

unconfirmed_try_handle_lem_example :
    ((unconfirmed_try_handle context handler (tx_accepted move)).1.topic.flushed
      ≡ mempool_updates context handler (tx_accepted move))
    × (((unconfirmed_try_handle context handler (tx_accepted move)).0 ≡ some (tx_accepted move))
        ↔ (mempool_updates context handler (tx_accepted move) ≢ []))
    × (((unconfirmed_try_handle context handler (tx_accepted move)).0 ≡ none)
        ↔ (mempool_updates context handler (tx_accepted move) ≡ []))
unconfirmed_try_handle_lem_example =
    unconfirmed_try_handle_lem context handler (tx_accepted move) (λ tx e. cc)

abbrev created : EitherOrBoth Thing Thing
created = right (2, 20)

created_unlinked :
    (b : Thing)
    → created ≡ right b
    → Repo.get_prediction_predecessor things memory digits thing_codec confirmed_db b.1 ≡ none
created_unlinked b e = confirmed_links b.1

entity_tracking_rollback_example :
    Repo.get_last_confirmed things memory digits thing_codec
      (entity_tracking context
        (entity_tracking context confirmed_db (transition created))
        (transition_rollback (swap created)))
      2
    ≡ none
entity_tracking_rollback_example =
    entity_tracking_rollback things memory digits thing_codec Thing some in_order confirmed_db
      created 2 refl created_unlinked

-- orders are their identifiers; 3 is known
abbrev orders : OrderContext
orders = record {
  TOrd = ℕ;
  Box = ℕ;
  get_self_ref = λ o. o;
  try_from_box = some;
  exists = λ i. i == 3;
  order_lifespan_millis = pos 1000;
}

abbrev spend : Transaction ℕ
spend = record { inputs = 3 ∷ 4 ∷ []; outputs = 5 ∷ [] }

-- a handler that counts, and gives back even events
abbrev counter : EventHandler ℕ ℕ
counter w ev = (if ev == 2 then some ev else none, suc w)

process_event_lem_example :
    ((process_event (counter ∷ counter ∷ []) (λ w e. w + 10) 0 2
        ≡ after_all (counter ∷ counter ∷ []) 2 0)
      × ¬ AllUnhandled (counter ∷ counter ∷ []) 2 0)
    ⊎ ((e : ℕ) × (process_event (counter ∷ counter ∷ []) (λ w e. w + 10) 0 2
          ≡ after_all (counter ∷ counter ∷ []) 2 0 + 10)
        × AllUnhandled (counter ∷ counter ∷ []) 2 0)
process_event_lem_example = process_event_lem (counter ∷ counter ∷ []) (λ w e. w + 10) 0 2

-- a backlog that is the list of its orders, each for entity 1
abbrev list_backlog : Backlog ℕ
list_backlog = record {
  Service = List ℕ;
  put = λ b o. o.order ∷ b;
  suspend = λ b o. (b, false);
  check_later = λ b o. (b, false);
  exists = λ b i. contains i b;
  find_orders = λ b f. [];
  try_pop = λ b. elim b [ [] ↦ (none, []) | o ∷ os ↦ (some o, os) ];
  remove = λ b i. b;
  recharge = λ b o. o ∷ b;
}

abbrev node : Node
node = record {
  TOrd = ℕ;
  TEntity = Thing;
  Tx = ℕ;
  order = record { get_self_ref = λ o. o; get_entity_ref = λ o. 1 };
  entity = things;
  backlog = list_backlog;
  rocks = memory;
  bincode = digits;
  codec = thing_codec;
  try_run = λ o e. ran o (1, 12);
}

abbrev executor : OrderExecutor (market node)
executor = record { backlog = 7 ∷ []; entity_repo = predicted_db }

try_execute_next_lem_example :
    (out : Bool × OrderExecutor (market node)) × (try_execute_next
        (market node)
        3
        (λ tx. false)
        executor
      ≡ some out)
    × Executed (market node) 3 (λ tx. false) executor out
try_execute_next_lem_example =
    try_execute_next_lem (market node) repo_rank 3 (λ tx. false) executor predicted_down rank_below

try_execute_next_rejected_example :
    (x1 : OrderExecutor (market node)) × (try_execute_next (market node) 3 (λ tx. false) executor
      ≡ some (true, x1))
    × (x1.backlog ≡ 7 ∷ [])
    × ((r : Option Thing) × (resolve_entity_state things
            (EntityRepoRocksDb things memory digits thing_codec)
            3
            x1.entity_repo
            1
          ≡ some r)
        × ((e : Thing) → r ≡ some e → e.1 ≢ 11))
try_execute_next_rejected_example =
    try_execute_next_rejected node 3 (λ tx. false) executor 7 (1, 11) (1, 12) 7 repo_rank
      (refl, resolves_now, refl) refl predicted_LinksParse keyed predicted_down rank_below

try_execute_next_accepted_example :
    (x1 : OrderExecutor (market node)) × (try_execute_next (market node) 3 (λ tx. true) executor
      ≡ some (true, x1))
    × (x1.backlog ≡ [])
    × (resolve_entity_state things
          (EntityRepoRocksDb things memory digits thing_codec)
          3
          x1.entity_repo
          1
        ≡ some (some (1, 12)))
try_execute_next_accepted_example =
    try_execute_next_accepted node 3 (λ tx. true) executor 7 (1, 11) (1, 12) (1, 10) 7 repo_rank
      (refl, resolves_now, refl) refl refl predicted_LinksParse confirmed_now next_fresh.0
      next_fresh.1 next_fresh.2 next_down rank_below

generate_invalidations_lem_example :
    Forgets
      (compound (5 ∷ 6 ∷ []))
      (generate_invalidations (compound (5 ∷ 6 ∷ [])) (0 ∷ 2 ∷ 4 ∷ []))
      funding_input
      2
    ↔ (Elem {A = ℕ} 2 (0 ∷ 2 ∷ 4 ∷ []) × (role_of (compound (5 ∷ 6 ∷ [])) 2 ≡ some funding_input))
generate_invalidations_lem_example =
    generate_invalidations_lem (compound (5 ∷ 6 ∷ [])) (0 ∷ 2 ∷ 4 ∷ []) funding_input 2
