-- ===== src/ChainSync/Sync.antt =====
-- ergo-chain-sync/src/lib.rs: the synchronisation with the chain of the node.
use spectrum_offchain_ergo.Prelude.{
  ℕ, ◌+◌, ◌-◌, ◌%◌, ◌^◌, max, ◌||◌, Option, none, some, List, [], ◌∷◌, ◌==◌, if◌then◌else◌,
}
use spectrum_offchain_ergo.ChainSync.Cache.{FullBlock, Block, ChainCache, from_full_block}

pub data ChainUpgrade (Tx : Type 0) : Type 0 where
  roll_forward : Block Tx → ChainUpgrade Tx
  roll_backward : Block Tx → ChainUpgrade Tx

pub record SyncState : Type 0 where
  pub next_height : ℕ

-- heights are u32
unfoldable pub upgrade : SyncState → SyncState
upgrade s = record { next_height = (s.next_height + 1) % 2 ^ 32 }

unfoldable pub downgrade : SyncState → SyncState
downgrade s = record { next_height = (s.next_height + (2 ^ 32 - 1)) % 2 ^ 32 }

-- what the client of the node answers: `Ok`, or an error, of which the code only writes logs
pub data Answer (Tx : Type 0) : Type 0 where
  ok : FullBlock Tx → Answer Tx
  err : Answer Tx

module _ {Tx : Type 0} (E : ChainCache Tx) where
  pub record ChainSync : Type 0 where
    pub starting_height : ℕ
    pub cache : E.Cache
    pub state : SyncState

  unfoldable pub init : ℕ → E.Cache → ChainSync
  init starting_height cache = record {
    starting_height = starting_height;
    cache = cache;
    state = record {
      next_height = elim (E.get_best_block cache) [
        | some best ↦ max best.height starting_height
        | none ↦ starting_height
      ];
    };
  }

  -- the arm of a block that links
  abbrev pub forward : ChainSync → FullBlock Tx → Option (ChainUpgrade Tx) × ChainSync
  forward s api_blk =
      let blk = from_full_block api_blk in
      (
        some (roll_forward blk),
        record s { cache = E.append_block s.cache blk; state = upgrade s.state },
      )

  -- the arm of a block that does not
  abbrev pub backward : ChainSync → Option (ChainUpgrade Tx) × ChainSync
  backward s =
      let (taken, cache) = E.take_best_block s.cache in
      elim taken [
        | some discarded ↦
            (some (roll_backward discarded), record s { cache = cache; state = downgrade s.state })
        | none ↦ (none, record s { cache = cache })
      ]

  -- The client gives its answer for the height that it is asked for.
  unfoldable pub try_upgrade : (ℕ → Answer Tx) → ChainSync → Option (ChainUpgrade Tx) × ChainSync
  unfolding from_full_block upgrade downgrade
  try_upgrade get_block_at s = elim (get_block_at s.state.next_height) [
    | ok api_blk ↦
        if E.exists s.cache api_blk.header.parent_id || (api_blk.header.height == s.starting_height)
        then forward s api_blk
        else backward s
    | err ↦ (none, s)
  ]

  -- `chain_sync_stream`: what it yields, asking a client that changes from one time to the next
  unfoldable pub chain_sync_stream :
      List (ℕ → Answer Tx) → ChainSync → List (ChainUpgrade Tx) × ChainSync
  unfolding try_upgrade
  chain_sync_stream [] s = ([], s)
  chain_sync_stream (client ∷ later) s =
      let (upgr, s') = try_upgrade client s in
      let (rest, end) = chain_sync_stream later s' in
      (elim upgr [ some u ↦ u ∷ rest | none ↦ rest ], end)
