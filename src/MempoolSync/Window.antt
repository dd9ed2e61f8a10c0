-- ===== src/MempoolSync/Window.antt =====
-- `push_block` and `pop_block`: the blocks that `sync` looks for confirmed transactions in.
use mathlib.Core.List.{◌++◌}
use spectrum_offchain_ergo.Prelude.{
  ℕ, ◌+◌, ◌-◌, ◌^◌, ◌≤◌, ◌<◌, ◌≡◌, refl, sym, ap, ◌∙◌, min, Bool, true, false, some, List, [], ◌∷◌,
  map, arith, ltb, if◌then◌else◌, length, length-append, append_nil, append_assoc,
}
use spectrum_offchain_ergo.ChainSync.Cache.{Block}
use spectrum_offchain_ergo.ChainSync.Sync.{ChainUpgrade, roll_forward, roll_backward}
use spectrum_offchain_ergo.ChainSync.Links.{Replays}
use spectrum_offchain_ergo.MempoolSync.State.{
  SyncState, start_at, pop_back, pop_front, push_block, pop_block, sync_ledger, keep_last_blocks,
}

module _ {A : Type 0} where
  pop_back-snoc : (xs : List A) (x : A) → pop_back (xs ++ (x ∷ [])) ≡ xs
  unfolding pop_back
  pop_back-snoc [] x = refl
  pop_back-snoc (y ∷ []) x = refl
  pop_back-snoc (y ∷ z ∷ xs) x = ap (λ l. y ∷ l) (pop_back-snoc (z ∷ xs) x)

  pop_back-append : (xs ys : List A) (y : A) → pop_back (xs ++ (y ∷ ys)) ≡ xs ++ pop_back (y ∷ ys)
  unfolding pop_back
  pop_back-append [] ys y = refl
  pop_back-append (x ∷ []) ys y = refl
  pop_back-append (x ∷ z ∷ xs) ys y = ap (λ l. x ∷ l) (pop_back-append (z ∷ xs) ys y)

  length-pop_back : (xs : List A) → length (pop_back xs) ≡ length xs - 1
  unfolding pop_back
  length-pop_back [] = refl
  length-pop_back (x ∷ []) = refl
  length-pop_back (x ∷ y ∷ xs) = omega (arith, length-pop_back (y ∷ xs))

module _ {Tx : Type 0} (id : Tx → ℕ) (iter : List ℕ → List ℕ) where
  -- the transactions of the blocks of a chain, from its first block to its tip
  abbrev pub ids_from_first : List (Block Tx) → List (List ℕ)
  ids_from_first [] = []
  ids_from_first (b ∷ bs) = ids_from_first bs ++ (map id b.transactions ∷ [])

  -- The latest blocks are at most ten, and are the last `n` of the chain.
  abbrev pub Window : ℕ → List (List ℕ) → List (Block Tx) → Type 0
  Window n latest bs =
      (length latest ≡ n)
      × (n ≤ keep_last_blocks)
      × ((older : List (List ℕ)) × (older ++ latest ≡ ids_from_first bs))

  -- How many of the last blocks are held after the upgrades: one more for each block on, and never
  -- more than ten, and one less for each block back.
  abbrev pub held : List (ChainUpgrade Tx) → ℕ → ℕ
  held [] n = n
  held (roll_forward b ∷ us) n = held us (min keep_last_blocks (n + 1))
  held (roll_backward b ∷ us) n = held us (n - 1)

  pushed :
      (latest older : List (List ℕ)) (x : List ℕ) (ids : List (List ℕ))
      → older ++ latest ≡ ids
      → length latest ≤ keep_last_blocks
      → (full : Bool) → full ≡ ltb keep_last_blocks (length (latest ++ (x ∷ [])))
      → (length (if full then pop_front (latest ++ (x ∷ [])) else latest ++ (x ∷ []))
          ≡ min keep_last_blocks (length latest + 1))
        × ((older' : List (List ℕ)) × (older'
                ++ (if full then pop_front (latest ++ (x ∷ [])) else latest ++ (x ∷ []))
              ≡ ids ++ (x ∷ [])))
  unfolding pop_front
  pushed latest older x ids e short false test = (
    ground (arith, test, length-append latest (x ∷ [])),
    (older, sym (append_assoc older latest (x ∷ [])) ∙ ap (λ l. l ++ (x ∷ [])) e),
  )
  pushed [] older x ids e short true test = absurd (ground (arith, test))
  pushed (y ∷ latest) older x ids e short true test = (
    ground (arith, test, short, length-append latest (x ∷ [])),
    (
      older ++ (y ∷ []),
      append_assoc older (y ∷ []) (latest ++ (x ∷ []))
          ∙ sym (append_assoc older (y ∷ latest) (x ∷ []))
          ∙ ap (λ l. l ++ (x ∷ [])) e,
    ),
  )

  popped :
      (latest older : List (List ℕ)) (x : List ℕ) (ids : List (List ℕ))
      → older ++ latest ≡ ids ++ (x ∷ [])
      → (older' : List (List ℕ)) × (older' ++ pop_back latest ≡ ids)
  unfolding pop_back
  popped [] older x ids e = (ids, append_nil ids)
  popped (y ∷ latest) older x ids e =
      (older, sym (pop_back-append older latest y) ∙ ap pop_back e ∙ pop_back-snoc ids x)

  Window-push_block :
      (n : ℕ) (s : SyncState Tx) (b : Block Tx) (bs : List (Block Tx))
      → Window n s.latest_blocks bs
      → Window (min keep_last_blocks (n + 1)) (push_block id iter s b).latest_blocks (b ∷ bs)
  unfolding push_block
  Window-push_block n s b bs (size, short, (older, e)) =
      let (one_more, suffix) =
        pushed s.latest_blocks older (map id b.transactions) (ids_from_first bs) e
          (omega (arith, size, short)) _ refl in
      (one_more ∙ ap (λ k. min keep_last_blocks (k + 1)) size, omega arith, suffix)

  Window-pop_block :
      (n : ℕ) (s : SyncState Tx) (b : Block Tx) (bs : List (Block Tx))
      → Window n s.latest_blocks (b ∷ bs)
      → Window (n - 1) (pop_block id iter s).latest_blocks bs
  unfolding pop_block
  Window-pop_block n s b bs (size, short, (older, e)) = (
    length-pop_back s.latest_blocks ∙ ap (λ k. k - 1) size,
    omega (arith, short),
    popped s.latest_blocks older (map id b.transactions) (ids_from_first bs) e,
  )

  abbrev pub sync_ledger_all : List (ChainUpgrade Tx) → SyncState Tx → SyncState Tx
  sync_ledger_all [] s = s
  sync_ledger_all (u ∷ us) s = sync_ledger_all us (sync_ledger id iter u s)

  -- Over upgrades that replay from one chain to another, as those of `chain_sync_stream` do, and from
  -- a state whose latest blocks are the last `n` of the chain, at most ten, `sync_ledger` keeps the
  -- latest blocks the last ones of the chain. They are exactly as many as one more for each block on,
  -- up to ten, and one less for each block back, starting from `n`.
  pub sync_ledger-Window :
      (us : List (ChainUpgrade Tx)) (bs end : List (Block Tx)) (s : SyncState Tx) (n : ℕ)
      → Replays bs us end
      → Window n s.latest_blocks bs
      → Window (held us n) (sync_ledger_all us s).latest_blocks end
  unfolding sync_ledger
  sync_ledger-Window [] bs end s n e w = rw⁻¹ e w
  sync_ledger-Window (roll_forward b ∷ us) bs end s n (l, rest) w =
      sync_ledger-Window us (b ∷ bs) end (push_block id iter s b) (min keep_last_blocks (n + 1))
        rest (Window-push_block n s b bs w)
  sync_ledger-Window (roll_backward b ∷ us) [] end s n replays w = absurd replays
  sync_ledger-Window (roll_backward b ∷ us) (t ∷ bs) end s n (same, rest) w =
      sync_ledger-Window us bs end (pop_block id iter s) (n - 1) rest (Window-pop_block n s t bs w)

-- From a tip at height 10 or above the blocks that `mempool_sync_stream` follows start ten below
-- it. From a lower one the subtraction wraps, and they start above it, near the last height that
-- 32 bits have.
pub start_at_lem :
    (height : ℕ)
    → height < 2 ^ 32
    → (keep_last_blocks ≤ height → start_at (some height) + keep_last_blocks ≡ height)
      × (height < keep_last_blocks → start_at (some height) ≡ 2 ^ 32 - keep_last_blocks + height)
unfolding start_at
start_at_lem height h = ((λ k. omega (arith, h, k)), (λ k. omega (arith, h, k)))
