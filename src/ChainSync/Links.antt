-- ===== src/ChainSync/Links.antt =====
-- The chains that `chain_sync_stream` of ergo-chain-sync/src/lib.rs goes through: how upgrades replay on a
-- chain, and when a block of the network links.
use spectrum_offchain_ergo.Prelude.{
  ℕ, suc, ◌<◌, ◌≡◌, ◌≢◌, sym, inl, inr, true, none, some, List, [], ◌∷◌, arith, is_some, All,
  Option-cases,
}
use spectrum_offchain_ergo.ChainSync.Cache.{FullBlock, Block, block_with, Linked}
use spectrum_offchain_ergo.ChainSync.Sync.{ChainUpgrade, roll_forward, roll_backward, Answer, ok}

-- Whoever puts the blocks rolled forward on a stack, and takes off those rolled backward, always
-- takes off the top, keeps a linked chain, and ends with the given one.
abbrev pub Replays :
    {Tx : Type 0} → List (Block Tx) → List (ChainUpgrade Tx) → List (Block Tx) → Type 0
Replays bs [] end = bs ≡ end
Replays bs (roll_forward b ∷ us) end = Linked (b ∷ bs) × Replays (b ∷ bs) us end
Replays [] (roll_backward b ∷ us) end = ⊥
Replays (top ∷ bs) (roll_backward b ∷ us) end = (top ≡ b) × Replays bs us end

-- The blocks of the network: an identifier is the hash of a header, so that it determines the
-- parent and the height, and above the first height a block is one higher than its parent.
pub record Network : Type 0 where
  pub parent : ℕ → ℕ
  pub height : ℕ → ℕ
  pub start : ℕ
  pub height-parent : (i : ℕ) → start < height i → height i ≡ suc (height (parent i))

module _ {Tx : Type 0} (N : Network) where
  open N use {parent, height, start, height-parent}

  -- an honest client: its blocks are of the network, at the height asked for
  abbrev pub Honest : (ℕ → Answer Tx) → Type 0
  Honest client =
      (h : ℕ) (fb : FullBlock Tx)
      → client h ≡ ok fb
      → (fb.header.height ≡ h)
        × (fb.header.height ≡ height fb.header.id)
        × (fb.header.parent_id ≡ parent fb.header.id)
        × (fb.header.parent_id ≢ fb.header.id)

  abbrev pub OfNetwork : Block Tx → Type 0
  OfNetwork b = b.height ≡ height b.id

  abbrev pub Below : ℕ → List (Block Tx) → Type 0
  Below next [] = Unit
  Below next (b ∷ bs) = suc b.height ≡ next

  Linked-below :
      (i : ℕ) (b c : Block Tx) (bs : List (Block Tx))
      → Linked (b ∷ bs)
      → block_with i bs ≡ some c
      → c.height < b.height
  unfolding block_with
  Linked-below i b c [] l e = absurd (ground (arith, e))
  Linked-below i b c (d ∷ bs) l e = ground (arith, l.1, Linked-below i d c bs l.3, e)

  block_with_id :
      (i : ℕ) (c : Block Tx) (bs : List (Block Tx)) → block_with i bs ≡ some c → c.id ≡ i
  unfolding block_with
  block_with_id i c [] e = absurd (ground (arith, e))
  block_with_id i c (b ∷ bs) e = ground (arith, e, block_with_id i c bs)

  block_with_network :
      (i : ℕ) (c : Block Tx) (bs : List (Block Tx))
      → All OfNetwork bs
      → block_with i bs ≡ some c
      → OfNetwork c
  unfolding block_with
  block_with_network i c [] a e = absurd (ground (arith, e))
  block_with_network i c (b ∷ bs) (n, a) e = ground (arith, e, n, block_with_network i c bs a)

  absent :
      (b : Block Tx) (bs : List (Block Tx)) (c : Block Tx)
      → Linked bs
      → Below b.height bs
      → block_with b.id bs ≡ some c
      → OfNetwork b
      → OfNetwork c
      → c.id ≡ b.id
      → ⊥
  unfolding block_with
  absent b [] c l below e n nc same = ground (arith, e)
  absent b (t ∷ bs) c l below e n nc same =
      ground (arith, e, nc, same, below, n, Linked-below b.id t c bs l)

  -- a block one higher than the top is not in the chain
  fresh :
      (b : Block Tx) (bs : List (Block Tx))
      → Linked bs
      → All OfNetwork bs
      → OfNetwork b
      → Below b.height bs
      → block_with b.id bs ≡ none
  fresh b bs l a n below = elim (Option-cases (block_with b.id bs)) [
    | inl e ↦ e
    | inr (c, e) ↦
        absurd (absent b bs c l below e n (block_with_network _ c bs a e) (block_with_id _ c bs e))
  ]

  -- a block of the chain that is as high as the top is the top
  is_top :
      (i : ℕ) (t c : Block Tx) (bs : List (Block Tx))
      → Linked (t ∷ bs)
      → block_with i (t ∷ bs) ≡ some c
      → c.height ≡ t.height
      → t.id ≡ i
  unfolding block_with
  is_top i t c bs l e h = ground (arith, e, h, Linked-below i t c bs l)

  -- the block at the next height links to the top, if the chain has its parent
  pub links :
      (b t : Block Tx) (bs : List (Block Tx))
      → Linked (t ∷ bs)
      → All OfNetwork (t ∷ bs)
      → OfNetwork b
      → b.parent_id ≡ parent b.id
      → suc t.height ≡ b.height
      → start < b.height
      → is_some (block_with b.parent_id (t ∷ bs)) ≡ true
      → Linked (b ∷ t ∷ bs)
  links b t bs l a n p up above known = elim (Option-cases (block_with b.parent_id (t ∷ bs))) [
    | inl e ↦ absurd (ground (arith, known, e))
    | inr (c, e) ↦
        let nc : c.height ≡ height c.id = block_with_network _ c (t ∷ bs) a e in
        let id : c.id ≡ b.parent_id = block_with_id _ c (t ∷ bs) e in
        let high = height-parent b.id (ground (arith, n, above)) in
        let same : c.height ≡ t.height = ground (arith, nc, id, high, p, up, n) in
        (sym (is_top b.parent_id t c bs l e same), sym up, fresh b (t ∷ bs) l a n up, l)
  ]
