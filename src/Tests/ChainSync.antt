-- ===== src/Tests/ChainSync.antt =====
-- The chain with one fork, the memory pool of a node, and the events of its blocks. A transaction
-- is its identifier.
use spectrum_offchain_ergo.Prelude.{
  ℕ, suc, ◌+◌, ◌-◌, ◌%◌, ◌<◌, ◌≡◌, refl, ◌↔◌, true, false, List, [], ◌∷◌, ◌++◌, arith, ◌==◌,
  if◌then◌else◌, is_some, length, lookup, Elem, reverse,
}
use spectrum_offchain_ergo.ChainSync.Cache.{
  FullBlock, Block, InMemory, new, from_full_block, block_with,
}
use spectrum_offchain_ergo.ChainSync.Sync.{
  ChainUpgrade, roll_forward, roll_backward, Answer, ok, err, init, chain_sync_stream,
}
use spectrum_offchain_ergo.ChainSync.Links.{Network, Honest, Replays}
use spectrum_offchain_ergo.ChainSync.Replay.{chain_sync_stream-Replays}
use spectrum_offchain_ergo.MempoolSync.State.{
  SyncState, Event, ledger, mempool, empty, sync_with, mempool_sync_stream,
}
use spectrum_offchain_ergo.MempoolSync.Fetch.{answer}
use spectrum_offchain_ergo.MempoolSync.Projection.{about, Keyed}
use spectrum_offchain_ergo.MempoolSync.Accept.{Synced, sync_with_lem}
use spectrum_offchain_ergo.MempoolSync.Window.{Window, held, sync_ledger_all, sync_ledger-Window}
use spectrum_offchain_ergo.MempoolSync.Interleave.{Alternates, mempool_sync_stream-Alternates}
use spectrum_offchain_ergo.Events.Source.{
  Applied, txs_of, event_source_ledger, event_source_ledger-Applied,
}

-- Identifiers end in the height; block 16 is another child of block 5 than block 6.
abbrev parent_of : ℕ → ℕ
parent_of i = if i == 16 then 5 else i - 1

height-parent_of : (i : ℕ) → 5 < i % 10 → i % 10 ≡ suc (parent_of i % 10)
height-parent_of i h = ground (arith, h)

abbrev network : Network
network = record {
  parent = parent_of;
  height = λ i. i % 10;
  start = 5;
  height-parent = height-parent_of;
}

abbrev full : ℕ → FullBlock ℕ
full i = record {
  header = record { id = i; parent_id = parent_of i; height = i % 10; timestamp = 0 };
  block_transactions = record { transactions = i ∷ [] };
}

-- a node whose chain has the block
abbrev serve : ℕ → ℕ → Answer ℕ
serve i h = if h == i % 10 then ok (full i) else err

serve_5 : Honest network (serve 5)
serve_5 h fb e = ground (arith, e)

serve_6 : Honest network (serve 6)
serve_6 h fb e = ground (arith, e)

serve_17 : Honest network (serve 17)
serve_17 h fb e = ground (arith, e)

serve_16 : Honest network (serve 16)
serve_16 h fb e = ground (arith, e)

abbrev clients : List (ℕ → Answer ℕ)
clients = serve 5 ∷ serve 6 ∷ serve 17 ∷ serve 16 ∷ []

new_Holds : (InMemory ℕ).Holds new []
unfolding lookup block_with
new_Holds = (tt, (λ i. refl), refl)

chain_sync_stream-Replays_example :
    (end : List (Block ℕ)) × (InMemory ℕ).Holds
      (chain_sync_stream (InMemory ℕ) clients (init (InMemory ℕ) 5 new)).1.cache
      end
    × Replays [] (chain_sync_stream (InMemory ℕ) clients (init (InMemory ℕ) 5 new)).0 end
    × ((chain_sync_stream (InMemory ℕ) clients (init (InMemory ℕ) 5 new)).1.state.next_height
        ≡ 5 + length end)
chain_sync_stream-Replays_example =
    chain_sync_stream-Replays network (InMemory ℕ) new clients new_Holds
      (serve_5, (serve_6, (serve_17, (serve_16, tt)))) (omega arith)

abbrev block : ℕ → Block ℕ
unfolding from_full_block
block i = from_full_block (full i)

abbrev fork : List (ChainUpgrade ℕ)
fork =
    roll_forward (block 5)
    ∷ roll_forward (block 6)
    ∷ roll_backward (block 6)
    ∷ roll_forward (block 16)
    ∷ []

fork-Replays : Replays [] fork (block 16 ∷ block 5 ∷ [])
unfolding block_with from_full_block
fork-Replays =
    ((λ e. cc), ((refl, refl, refl, (λ e. cc)), (refl, ((refl, refl, refl, (λ e. cc)), refl))))

abbrev same : ℕ → ℕ
same tx = tx

abbrev in_order : List ℕ → List ℕ
in_order xs = xs

in_order_members : (xs : List ℕ) (i : ℕ) → Elem i (in_order xs) ↔ Elem i xs
in_order_members xs i = (λ m. m, λ m. m)

sync_ledger-Window_example :
    Window same in_order
      (held same in_order fork 0)
      (sync_ledger_all same in_order fork empty).latest_blocks
      (block 16 ∷ block 5 ∷ [])
sync_ledger-Window_example =
    sync_ledger-Window same in_order fork [] (block 16 ∷ block 5 ∷ []) empty 0 fork-Replays
      (refl, omega arith, ([], refl))

abbrev two_known : SyncState ℕ
two_known = record {
  latest_blocks = (7 ∷ []) ∷ [];
  mempool_projection = (7, 7) ∷ (8, 8) ∷ (9, 9) ∷ [];
  pending_updates = [];
}

two_known-Keyed : Keyed same in_order two_known
unfolding lookup
two_known-Keyed i tx e = ground (arith, e)

sync_with_lem_example :
    Synced same in_order (9 ∷ 10 ∷ []) two_known (sync_with same in_order (9 ∷ 10 ∷ []) two_known)
sync_with_lem_example =
    sync_with_lem same in_order in_order_members (9 ∷ 10 ∷ []) two_known two_known-Keyed

abbrev interleaved : List (Event same in_order)
interleaved =
    mempool (answer same in_order (16 ∷ 2 ∷ []) true ∷ [])
    ∷ ledger (roll_forward (block 16))
    ∷ mempool (answer same in_order (2 ∷ []) true ∷ [])
    ∷ []

mempool_sync_stream-Alternates_example :
    let run = mempool_sync_stream same in_order interleaved empty in
    Alternates false
      (about same in_order 16 (run.0 ++ run.1.pending_updates))
      (is_some (lookup 16 run.1.mempool_projection))
mempool_sync_stream-Alternates_example =
    mempool_sync_stream-Alternates same in_order in_order_members interleaved 16

event_source_ledger-Applied_example :
    Applied [] (event_source_ledger fork) (txs_of (block 16 ∷ block 5 ∷ []))
unfolding reverse
event_source_ledger-Applied_example =
    event_source_ledger-Applied fork [] (block 16 ∷ block 5 ∷ []) fork-Replays
