-- ===== src/ChainSync/Steps.antt =====
-- The two arms of `try_upgrade` of ergo-chain-sync/src/lib.rs, against the chain that the cache holds.
use spectrum_offchain_ergo.Prelude.{
  suc, ◌+◌, ◌-◌, ◌^◌, ◌%◌, ◌<◌, ◌≡◌, ◌≢◌, refl, sym, ◌∙◌, Bool, true, false, Option, none, some,
  List, [], ◌∷◌, arith, ◌==◌, ==_iff, ==_self, ◌||◌, if◌then◌else◌, is_some, length, All,
}
use spectrum_offchain_ergo.ChainSync.Cache.{
  FullBlock, Block, ChainCache, from_full_block, block_with, Linked, Linked-tail,
}
use spectrum_offchain_ergo.ChainSync.Sync.{
  ChainUpgrade, roll_backward, ChainSync, upgrade, downgrade, forward, backward,
}
use spectrum_offchain_ergo.ChainSync.Links.{Network, Replays, OfNetwork, Below, links}

module _ {Tx : Type 0} (N : Network) where
  open N use {parent, height, start, height-parent}

  module _ (E : ChainCache Tx) where
    -- The cache holds a chain of the network, from the first height to under the next one.
    pub record InStep (s : ChainSync E) (bs : List (Block Tx)) : Type 0 where
      pub starts : s.starting_height ≡ start
      pub holds : E.Holds s.cache bs
      pub linked : Linked bs
      pub of_network : All (OfNetwork N) bs
      pub below : Below N s.state.next_height bs
      pub counts : s.state.next_height ≡ start + length bs

    abbrev pub StepFrom : List (Block Tx) → Option (ChainUpgrade Tx) → List (Block Tx) → Type 0
    StepFrom bs none end = bs ≡ end
    StepFrom bs (some u) end = Replays bs (u ∷ []) end

    InStep-forward :
        (s : ChainSync E) (bs : List (Block Tx)) (fb : FullBlock Tx)
        → InStep s bs
        → suc s.state.next_height < 2 ^ 32
        → Linked (from_full_block fb ∷ bs)
        → fb.header.height ≡ height fb.header.id
        → fb.header.height ≡ s.state.next_height
        → InStep (forward E s fb).1 (from_full_block fb ∷ bs)
    unfolding from_full_block upgrade
    InStep-forward s bs fb inv room l n at = record {
      starts = inv.starts;
      holds = E.append_block_lem s.cache _ bs inv.holds l;
      linked = l;
      of_network = (n, inv.of_network);
      below = omega (arith, at);
      counts = omega (arith, inv.counts);
    }

    Below-tail : (b : Block Tx) (bs : List (Block Tx)) → Linked (b ∷ bs) → Below N b.height bs
    Below-tail b [] l = tt
    Below-tail b (c ∷ bs) l = sym l.1

    InStep-taken :
        (s : ChainSync E) (b : Block Tx) (bs : List (Block Tx)) (cache : E.Cache)
        → InStep s (b ∷ bs)
        → s.state.next_height < 2 ^ 32
        → E.Holds cache bs
        → InStep (record s { cache = cache; state = downgrade s.state }) bs
    unfolding downgrade
    InStep-taken s b bs cache inv room held =
        let down : (s.state.next_height + (2 ^ 32 - 1)) % 2 ^ 32 ≡ b.height =
          omega (arith, inv.below) in
        record {
          starts = inv.starts;
          holds = held;
          linked = Linked-tail b bs inv.linked;
          of_network = inv.of_network.1;
          below = rw down (Below-tail b bs inv.linked);
          counts = rw down (omega (arith, inv.below, inv.counts));
        }

    InStep-backward :
        (s : ChainSync E) (b : Block Tx) (bs : List (Block Tx))
        → InStep s (b ∷ bs)
        → s.state.next_height < 2 ^ 32
        → ((backward E s).0 ≡ some (roll_backward b)) × InStep (backward E s).1 bs
    InStep-backward s b bs inv room =
        let (taken, held) = E.take_best_block_some s.cache b bs inv.holds in
        (rw (taken, backward), rw (taken, backward) (InStep-taken s b bs _ inv room held))

    -- the test of `try_upgrade` on the answer
    abbrev pub on_block : ChainSync E → FullBlock Tx → Bool → Option (ChainUpgrade Tx) × ChainSync E
    on_block s fb linked = if linked then forward E s fb else backward E s

    pub on_block_step :
        (s : ChainSync E) (bs : List (Block Tx)) (fb : FullBlock Tx)
        → InStep s bs
        → suc s.state.next_height < 2 ^ 32
        → fb.header.height ≡ s.state.next_height
        → fb.header.height ≡ height fb.header.id
        → fb.header.parent_id ≡ parent fb.header.id
        → fb.header.parent_id ≢ fb.header.id
        → (linked : Bool)
        → linked
          ≡ is_some (block_with fb.header.parent_id bs) || (fb.header.height == s.starting_height)
        → (end : List (Block Tx)) × InStep (on_block s fb linked).1 end
          × StepFrom bs (on_block s fb linked).0 end
    unfolding from_full_block block_with
    on_block_step s [] fb inv room at n p ne true test =
        (from_full_block fb ∷ [], InStep-forward s [] fb inv room ne n at, (ne, refl))
    on_block_step s [] fb inv room at n p ne false test =
        absurd (ground (arith, test, at, inv.starts, inv.counts, ==_self start))
    on_block_step s (t ∷ bs) fb inv room at n p ne true test =
        let above : start < fb.header.height = omega (arith, at, inv.counts) in
        let known : is_some (block_with fb.header.parent_id (t ∷ bs)) ≡ true =
          ground (arith, test, inv.starts, ==_iff fb.header.height s.starting_height) in
        let l =
          links N (from_full_block fb) t bs inv.linked inv.of_network n p (inv.below ∙ sym at) above
            known in
        (from_full_block fb ∷ t ∷ bs, InStep-forward s (t ∷ bs) fb inv room l n at, (l, refl))
    on_block_step s (t ∷ bs) fb inv room at n p ne false test =
        let (gives, left) = InStep-backward s t bs inv (omega (arith, room)) in
        (bs, left, rw gives (refl, refl))
