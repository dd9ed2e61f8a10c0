-- ===== src/MempoolSync/State.antt =====
-- ergo-mempool-sync/src/lib.rs: `SyncState` and its operations, `sync`, and the two streams that
-- share it. A HashSet is the list of its members, in the order in which it is gone through.
use spectrum_offchain_ergo.Prelude.{
  ℕ, ◌+◌, ◌-◌, ◌%◌, ◌^◌, Option, none, some, List, [], ◌∷◌, ◌++◌, map, ltb, if◌then◌else◌, is_some,
  length, any, contains, lookup, erase, insert, keys,
}
use spectrum_offchain_ergo.ChainSync.Cache.{Block}
use spectrum_offchain_ergo.ChainSync.Sync.{ChainUpgrade, roll_forward, roll_backward}

pub data MempoolUpdate (Tx : Type 0) : Type 0 where
  tx_accepted : Tx → MempoolUpdate Tx
  tx_withdrawn : Tx → MempoolUpdate Tx
  tx_confirmed : Tx → MempoolUpdate Tx

pub record SyncState (Tx : Type 0) : Type 0 where
  pub latest_blocks : List (List ℕ)
  pub mempool_projection : List (ℕ × Tx)
  pub pending_updates : List (MempoolUpdate Tx)

abbrev pub empty : {Tx : Type 0} → SyncState Tx
empty = record { latest_blocks = []; mempool_projection = []; pending_updates = [] }

abbrev pub keep_last_blocks : ℕ
keep_last_blocks = 10

abbrev pub txs_per_request : ℕ
txs_per_request = 100

-- `VecDeque::pop_back`, the queue that is left
unfoldable pub pop_back : {A : Type 0} → List A → List A
pop_back [] = []
pop_back (x ∷ []) = []
pop_back (x ∷ y ∷ xs) = x ∷ pop_back (y ∷ xs)

-- `VecDeque::pop_front`, the queue that is left
unfoldable pub pop_front : {A : Type 0} → List A → List A
pop_front [] = []
pop_front (x ∷ xs) = xs

-- The transactions have their identifiers from ergo_lib, and a HashSet gives its members in an
-- order that is not known.
module _ {Tx : Type 0} (id : Tx → ℕ) (iter : List ℕ → List ℕ) where
  unfoldable pub push_block : SyncState Tx → Block Tx → SyncState Tx
  unfolding pop_front
  push_block s blk =
      let latest = s.latest_blocks ++ (map id blk.transactions ∷ []) in
      record s {
        latest_blocks = if ltb keep_last_blocks (length latest) then pop_front latest else latest;
      }

  unfoldable pub pop_block : SyncState Tx → SyncState Tx
  unfolding pop_back
  pop_block s = record s { latest_blocks = pop_back s.latest_blocks }

  -- the loop of `sync` over the pages; `none` when the answers run out
  unfoldable pub fetch_pool : List (ℕ → Option (List Tx)) → List Tx → ℕ → Option (List Tx)
  fetch_pool [] pool offset = none
  fetch_pool (fetch_mempool ∷ later) pool offset = elim (fetch_mempool offset) [
    | some mempool_txs ↦
        let rest = fetch_pool later (pool ++ mempool_txs) (offset + length mempool_txs) in
        if ltb (length mempool_txs) txs_per_request then some (pool ++ mempool_txs) else rest
    | none ↦ fetch_pool later pool offset
  ]

  -- the body of the loop over the transactions that have left the pool
  unfoldable pub check_withdrawn : SyncState Tx → ℕ → SyncState Tx
  check_withdrawn s tx_id = elim (lookup tx_id s.mempool_projection) [
    | none ↦ s
    | some tx ↦ record s {
      mempool_projection = erase tx_id s.mempool_projection;
      pending_updates =
          s.pending_updates
          ++ ((if any (λ blk. contains tx_id blk) s.latest_blocks
                then tx_confirmed tx
                else tx_withdrawn tx)
              ∷ []);
    }
  ]

  unfoldable pub check_all_withdrawn : SyncState Tx → List ℕ → SyncState Tx
  unfolding check_withdrawn
  check_all_withdrawn s [] = s
  check_all_withdrawn s (tx_id ∷ ids) = check_all_withdrawn (check_withdrawn s tx_id) ids

  -- the body of the loop over the transactions of the pool
  unfoldable pub accept : SyncState Tx → Tx → SyncState Tx
  accept s tx = if is_some (lookup (id tx) s.mempool_projection) then s else record s {
    mempool_projection = insert (id tx) tx s.mempool_projection;
    pending_updates = s.pending_updates ++ (tx_accepted tx ∷ []);
  }

  unfoldable pub accept_all : SyncState Tx → List Tx → SyncState Tx
  unfolding accept
  accept_all s [] = s
  accept_all s (tx ∷ txs) = accept_all (accept s tx) txs

  -- `HashSet::difference`
  unfoldable pub difference : List ℕ → List ℕ → List ℕ
  difference [] new = []
  difference (i ∷ old) new = if contains i new then difference old new else i ∷ difference old new

  -- `sync`, once the pool is fetched
  unfoldable pub sync_with : List Tx → SyncState Tx → SyncState Tx
  unfolding difference check_all_withdrawn accept_all
  sync_with pool s =
      let new_pool_ids = map id pool in
      let old_pool_ids = keys s.mempool_projection in
      let elim_txs = iter (difference old_pool_ids new_pool_ids) in
      accept_all (check_all_withdrawn s elim_txs) pool

  -- `sync`; where the loop over the pages has not ended, nothing has changed
  unfoldable pub sync : List (ℕ → Option (List Tx)) → SyncState Tx → SyncState Tx
  unfolding fetch_pool sync_with
  sync clients s = elim (fetch_pool clients [] 0) [ none ↦ s | some pool ↦ sync_with pool s ]

  -- what `sync_ledger` does with an item of its upstream
  unfoldable pub sync_ledger : ChainUpgrade Tx → SyncState Tx → SyncState Tx
  unfolding push_block pop_block
  sync_ledger (roll_forward blk) s = push_block s blk
  sync_ledger (roll_backward _) s = pop_block s

  -- one round of the loop of `sync_mempool`: the update that it yields, if any, and then a `sync`
  unfoldable pub sync_mempool :
      List (ℕ → Option (List Tx)) → SyncState Tx → List (MempoolUpdate Tx) × SyncState Tx
  unfolding sync
  sync_mempool clients s = elim s.pending_updates [
    | [] ↦ ([], sync clients s)
    | upd ∷ later ↦ (upd ∷ [], sync clients (record s { pending_updates = later }))
  ]

  -- What the joined stream goes through: upgrades of the chain and rounds of the memory pool, in
  -- any order.
  pub data Event : Type 0 where
    ledger : ChainUpgrade Tx → Event
    mempool : List (ℕ → Option (List Tx)) → Event

  -- `mempool_sync_stream`: what it yields
  unfoldable pub mempool_sync_stream :
      List Event → SyncState Tx → List (MempoolUpdate Tx) × SyncState Tx
  unfolding sync_ledger sync_mempool
  mempool_sync_stream [] s = ([], s)
  mempool_sync_stream (ledger u ∷ events) s = mempool_sync_stream events (sync_ledger u s)
  mempool_sync_stream (mempool clients ∷ events) s =
      let (yielded, s') = sync_mempool clients s in
      let (rest, end) = mempool_sync_stream events s' in (yielded ++ rest, end)

abbrev pub start_height : ℕ
start_height = 0

-- `start_at` of `mempool_sync_stream`, from the height of the tip: a subtraction of usize, cut to
-- u32
unfoldable pub start_at : Option ℕ → ℕ
start_at (some height) = ((height + (2 ^ 64 - keep_last_blocks)) % 2 ^ 64) % 2 ^ 32
start_at none = start_height % 2 ^ 32
