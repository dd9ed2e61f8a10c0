-- ===== src/ChainSync/Cache.antt =====
-- model.rs, client/model.rs and cache/chain_cache.rs of ergo-chain-sync: blocks, the trait
-- `ChainCache`, and the cache in memory.
use mathlib.Core.Option
use spectrum_offchain_ergo.Prelude.{
  ℕ, suc, ◌≡◌, ◌≢◌, refl, Bool, Option, none, some, List, [], ◌∷◌, arith, ◌==◌, if◌then◌else◌,
  is_some, lookup, insert, erase, lookup-insert, lookup-erase,
}

pub record Header : Type 0 where
  pub id : ℕ
  pub parent_id : ℕ
  pub height : ℕ
  pub timestamp : ℕ

pub record BlockTransactions (Tx : Type 0) : Type 0 where
  pub transactions : List Tx

pub record FullBlock (Tx : Type 0) : Type 0 where
  pub header : Header
  pub block_transactions : BlockTransactions Tx

pub record Block (Tx : Type 0) : Type 0 where
  pub id : ℕ
  pub parent_id : ℕ
  pub height : ℕ
  pub timestamp : ℕ
  pub transactions : List Tx

-- `Block::from`
unfoldable pub from_full_block : {Tx : Type 0} → FullBlock Tx → Block Tx
from_full_block fb = record {
  id = fb.header.id;
  parent_id = fb.header.parent_id;
  height = fb.header.height;
  timestamp = fb.header.timestamp;
  transactions = fb.block_transactions.transactions;
}

pub record BlockRecord : Type 0 where
  pub id : ℕ
  pub height : ℕ

pub record InMemoryCache (Tx : Type 0) : Type 0 where
  pub blocks : List (ℕ × Block Tx)
  pub best_block : Option (ℕ × (ℕ × ℕ))

module _ {Tx : Type 0} where
  abbrev pub new : InMemoryCache Tx
  new = record { blocks = []; best_block = none }

  unfoldable pub append_block : InMemoryCache Tx → Block Tx → InMemoryCache Tx
  append_block c block = record {
    blocks = insert block.id block c.blocks;
    best_block = some (block.id, (block.parent_id, block.height));
  }

  unfoldable pub exists : InMemoryCache Tx → ℕ → Bool
  exists c block_id = is_some (lookup block_id c.blocks)

  unfoldable pub get_best_block : InMemoryCache Tx → Option BlockRecord
  get_best_block c = Option.map (λ b. record { id = b.0; height = b.1.1 }) c.best_block

  -- the block that is best once the one with this parent is taken
  unfoldable pub parent_best : InMemoryCache Tx → ℕ → Option (ℕ × (ℕ × ℕ))
  parent_best c parent_id =
      Option.map (λ p. (p.id, (p.parent_id, p.height))) (lookup parent_id c.blocks)

  unfoldable pub take_best_block : InMemoryCache Tx → Option (Block Tx) × InMemoryCache Tx
  unfolding parent_best
  take_best_block c = elim c.best_block [
    | none ↦ (none, c)
    | some best ↦ (
      lookup best.0 c.blocks,
      record { blocks = erase best.0 c.blocks; best_block = parent_best c best.1.0 },
    )
  ]

  -- The block with an identifier in a chain, which is listed from the tip down.
  unfoldable pub block_with : ℕ → List (Block Tx) → Option (Block Tx)
  block_with i [] = none
  block_with i (b ∷ bs) = if b.id == i then some b else block_with i bs

  abbrev pub tip : List (Block Tx) → Option (Block Tx)
  tip [] = none
  tip (b ∷ bs) = some b

  -- Each block stands on the next, the heights go up by one, and no block is there twice or stands
  -- on one above itself.
  abbrev pub Linked : List (Block Tx) → Type 0
  Linked [] = Unit
  Linked (b ∷ []) = b.parent_id ≢ b.id
  Linked (b ∷ c ∷ bs) =
      (b.parent_id ≡ c.id)
      × (b.height ≡ suc c.height)
      × (block_with b.id (c ∷ bs) ≡ none)
      × Linked (c ∷ bs)

-- What a cache promises: it holds a chain, on which blocks are put and from which they are taken.
pub record ChainCache (Tx : Type 0) : Type 1 where
  pub Cache : Type 0
  pub append_block : Cache → Block Tx → Cache
  pub exists : Cache → ℕ → Bool
  pub get_best_block : Cache → Option BlockRecord
  pub take_best_block : Cache → Option (Block Tx) × Cache
  -- the cache holds the chain
  pub Holds : Cache → List (Block Tx) → Type 0
  pub append_block_lem :
      (c : Cache) (b : Block Tx) (bs : List (Block Tx))
      → Holds c bs
      → Linked (b ∷ bs)
      → Holds (append_block c b) (b ∷ bs)
  pub exists_lem :
      (c : Cache) (bs : List (Block Tx)) (i : ℕ)
      → Holds c bs
      → exists c i ≡ is_some (block_with i bs)
  pub get_best_block_lem :
      (c : Cache) (bs : List (Block Tx))
      → Holds c bs
      → get_best_block c ≡ Option.map (λ b. record { id = b.id; height = b.height }) (tip bs)
  pub take_best_block_none : (c : Cache) → Holds c [] → take_best_block c ≡ (none, c)
  pub take_best_block_some :
      (c : Cache) (b : Block Tx) (bs : List (Block Tx))
      → Holds c (b ∷ bs)
      → ((take_best_block c).0 ≡ some b) × Holds (take_best_block c).1 bs

module _ {Tx : Type 0} where
  -- The cache has the blocks of the chain, and knows the best one.
  abbrev pub Holds : InMemoryCache Tx → List (Block Tx) → Type 0
  Holds c bs =
      Linked bs
      × ((i : ℕ) → lookup i c.blocks ≡ block_with i bs)
      × (c.best_block ≡ Option.map (λ b. (b.id, (b.parent_id, b.height))) (tip bs))

  pub append_block_lem :
      (c : InMemoryCache Tx) (b : Block Tx) (bs : List (Block Tx))
      → Holds c bs
      → Linked (b ∷ bs)
      → Holds (append_block c b) (b ∷ bs)
  unfolding append_block block_with
  append_block_lem c b bs (_, has, best) linked =
      (linked, (λ i. ground (arith, has i, lookup-insert b.id i b c.blocks)), refl)

  pub exists_lem :
      (c : InMemoryCache Tx) (bs : List (Block Tx)) (i : ℕ)
      → Holds c bs
      → exists c i ≡ is_some (block_with i bs)
  unfolding exists
  exists_lem c bs i (_, has, best) = rw (has i)

  pub get_best_block_lem :
      (c : InMemoryCache Tx) (bs : List (Block Tx))
      → Holds c bs
      → get_best_block c ≡ Option.map (λ b. record { id = b.id; height = b.height }) (tip bs)
  unfolding get_best_block
  get_best_block_lem c [] (_, has, best) = rw best
  get_best_block_lem c (b ∷ bs) (_, has, best) = rw best

  pub take_best_block_none : (c : InMemoryCache Tx) → Holds c [] → take_best_block c ≡ (none, c)
  unfolding take_best_block
  take_best_block_none c (_, has, best) = ground (arith, best)

  pub Linked-tail : (b : Block Tx) (bs : List (Block Tx)) → Linked (b ∷ bs) → Linked bs
  Linked-tail b [] l = tt
  Linked-tail b (c ∷ bs) l = l.3

  pub Linked-fresh :
      (b : Block Tx) (bs : List (Block Tx)) → Linked (b ∷ bs) → block_with b.id bs ≡ none
  unfolding block_with
  Linked-fresh b [] l = refl
  Linked-fresh b (c ∷ bs) l = l.2

  parent_best_lem :
      (c : InMemoryCache Tx) (b : Block Tx) (bs : List (Block Tx))
      → Holds c (b ∷ bs)
      → parent_best c b.parent_id ≡ Option.map (λ b. (b.id, (b.parent_id, b.height))) (tip bs)
  unfolding parent_best block_with
  parent_best_lem c b [] (l, has, best) = ground (arith, l, has b.parent_id)
  parent_best_lem c b (d ∷ bs) (l, has, best) = ground (arith, l.0, l.2, has b.parent_id)

  pub take_best_block_some :
      (c : InMemoryCache Tx) (b : Block Tx) (bs : List (Block Tx))
      → Holds c (b ∷ bs)
      → ((take_best_block c).0 ≡ some b) × Holds (take_best_block c).1 bs
  unfolding take_best_block block_with
  take_best_block_some c b bs (l, has, best) = (
    rw (best, take_best_block) (ground (arith, has b.id)),
    (
      Linked-tail b bs l,
      (λ i.
          rw (best, take_best_block)
            (ground (arith, has i, lookup-erase b.id i c.blocks, Linked-fresh b bs l))),
      rw (best, take_best_block) (parent_best_lem c b bs (l, has, best)),
    ),
  )

-- `impl ChainCache for InMemoryCache`
abbrev pub InMemory : (Tx : Type 0) → ChainCache Tx
InMemory Tx = record {
  Cache = InMemoryCache Tx;
  append_block = append_block;
  exists = exists;
  get_best_block = get_best_block;
  take_best_block = take_best_block;
  Holds = Holds;
  append_block_lem = append_block_lem;
  exists_lem = exists_lem;
  get_best_block_lem = get_best_block_lem;
  take_best_block_none = take_best_block_none;
  take_best_block_some = take_best_block_some;
}
