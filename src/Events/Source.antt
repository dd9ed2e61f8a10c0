-- ===== src/Events/Source.antt =====
-- event_source.rs and event_source/data.rs: the events of the transactions of a block.
use mathlib.Core.List.{◌++◌}
use spectrum_offchain_ergo.Prelude.{
  ℕ, ◌-◌, ◌^◌, ◌≡◌, refl, ap, List, [], ◌∷◌, map, reverse, ltb, if◌then◌else◌, append_assoc,
}
use spectrum_offchain_ergo.Prelude.Int.{ℤ, pos, negsuc}
use spectrum_offchain_ergo.ChainSync.Cache.{Block}
use spectrum_offchain_ergo.ChainSync.Sync.{ChainUpgrade, roll_forward, roll_backward}
use spectrum_offchain_ergo.ChainSync.Links.{Replays}

-- What the handlers read of a transaction of ergo_lib: the identifiers of the boxes it spends, and
-- the boxes it makes.
pub record Transaction (Box : Type 0) : Type 0 where
  pub inputs : List ℕ
  pub outputs : List Box

pub data LedgerTxEvent (Tx : Type 0) : Type 0 where
  applied_tx : ℤ → Tx → LedgerTxEvent Tx
  unapplied_tx : Tx → LedgerTxEvent Tx

-- `ts as i64`, of a u64
unfoldable pub as_i64 : ℕ → ℤ
as_i64 n = if ltb n (2 ^ 63) then pos n else negsuc ((2 ^ 64 - 1) - n)

module _ {Tx : Type 0} where
  unfoldable pub process_upgrade : ChainUpgrade Tx → List (LedgerTxEvent Tx)
  unfolding as_i64
  process_upgrade (roll_forward blk) = map (applied_tx (as_i64 blk.timestamp)) blk.transactions
  process_upgrade (roll_backward blk) = map unapplied_tx (reverse blk.transactions)

  unfoldable pub event_source_ledger : List (ChainUpgrade Tx) → List (LedgerTxEvent Tx)
  unfolding process_upgrade
  event_source_ledger [] = []
  event_source_ledger (u ∷ us) = process_upgrade u ++ event_source_ledger us

  -- The transactions that are applied once the events have come, the last one first: an event
  -- applies one more, or takes off the last one.
  abbrev pub Applied : List Tx → List (LedgerTxEvent Tx) → List Tx → Type 0
  Applied txs [] end = txs ≡ end
  Applied txs (applied_tx _ tx ∷ evs) end = Applied (tx ∷ txs) evs end
  Applied [] (unapplied_tx tx ∷ evs) end = ⊥
  Applied (last ∷ txs) (unapplied_tx tx ∷ evs) end = (last ≡ tx) × Applied txs evs end

  Applied-append :
      (a b c : List Tx) (evs evs' : List (LedgerTxEvent Tx))
      → Applied a evs b
      → Applied b evs' c
      → Applied a (evs ++ evs') c
  Applied-append a b c [] evs' h k = rw h k
  Applied-append a b c (applied_tx _ tx ∷ evs) evs' h k = Applied-append (tx ∷ a) b c evs evs' h k
  Applied-append [] b c (unapplied_tx tx ∷ evs) evs' h k = absurd h
  Applied-append (last ∷ a) b c (unapplied_tx tx ∷ evs) evs' (same, h) k =
      (same, Applied-append a b c evs evs' h k)

  apply_block :
      (ts : ℤ) (xs txs : List Tx) → Applied txs (map (applied_tx ts) xs) (reverse xs ++ txs)
  unfolding reverse
  apply_block ts [] txs = refl
  apply_block ts (x ∷ xs) txs =
      rw (append_assoc (reverse xs) (x ∷ []) txs) (apply_block ts xs (x ∷ txs))

  unapply_block : (xs txs : List Tx) → Applied (xs ++ txs) (map unapplied_tx xs) txs
  unapply_block [] txs = refl
  unapply_block (x ∷ xs) txs = (refl, unapply_block xs txs)

  -- the transactions of a chain, the last one first
  abbrev pub txs_of : List (Block Tx) → List Tx
  txs_of [] = []
  txs_of (b ∷ bs) = reverse b.transactions ++ txs_of bs

  -- Over upgrades that replay from one chain to another, as those of `chain_sync_stream` do, the
  -- events of `event_source_ledger` take the transactions of the first chain to those of the
  -- other, each event adding one or taking off the last one.
  pub event_source_ledger-Applied :
      (us : List (ChainUpgrade Tx)) (bs end : List (Block Tx))
      → Replays bs us end
      → Applied (txs_of bs) (event_source_ledger us) (txs_of end)
  unfolding event_source_ledger process_upgrade
  event_source_ledger-Applied [] bs end e = ap txs_of e
  event_source_ledger-Applied (roll_forward b ∷ us) bs end (l, rest) =
      Applied-append (txs_of bs) (txs_of (b ∷ bs)) (txs_of end) (process_upgrade (roll_forward b))
        (event_source_ledger us) (apply_block (as_i64 b.timestamp) b.transactions (txs_of bs))
        (event_source_ledger-Applied us (b ∷ bs) end rest)
  event_source_ledger-Applied (roll_backward b ∷ us) [] end replays = absurd replays
  event_source_ledger-Applied (roll_backward b ∷ us) (t ∷ bs) end (same, rest) =
      Applied-append (txs_of (t ∷ bs)) (txs_of bs) (txs_of end) (process_upgrade (roll_backward b))
        (event_source_ledger us) (rw same (unapply_block (reverse b.transactions) (txs_of bs)))
        (event_source_ledger-Applied us bs end rest)
