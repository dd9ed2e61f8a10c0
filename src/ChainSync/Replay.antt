-- ===== src/ChainSync/Replay.antt =====
-- What `chain_sync_stream` yields, against the chain that the cache holds.
use spectrum_offchain_ergo.Prelude.{
  ℕ, suc, ◌+◌, ◌^◌, ◌≤◌, ◌<◌, ◌≡◌, refl, ap, ◌⊎◌, inl, inr, Option, none, some, List, [], ◌∷◌,
  arith, ◌==◌, ◌||◌, length, All,
}
use spectrum_offchain_ergo.ChainSync.Cache.{FullBlock, Block, ChainCache, from_full_block}
use spectrum_offchain_ergo.ChainSync.Sync.{
  ChainUpgrade, roll_forward, roll_backward, Answer, ok, err, ChainSync, try_upgrade,
  chain_sync_stream, init,
}
use spectrum_offchain_ergo.ChainSync.Links.{Network, Honest, Replays}
use spectrum_offchain_ergo.ChainSync.Steps.{InStep, StepFrom, on_block_step}

module _ {Tx : Type 0} (N : Network) where
  open N use {parent, height, start, height-parent}

  module _ (E : ChainCache Tx) where
    Answer-cases : (a : Answer Tx) → (a ≡ err) ⊎ ((fb : FullBlock Tx) × (a ≡ ok fb))
    Answer-cases (ok fb) = inr (fb, refl)
    Answer-cases err = inl refl

    -- One `try_upgrade` keeps the cache in step, and yields the change of its chain.
    pub try_upgrade_step :
        (client : ℕ → Answer Tx) (s : ChainSync E) (bs : List (Block Tx))
        → Honest N client
        → InStep N E s bs
        → suc s.state.next_height < 2 ^ 32
        → (end : List (Block Tx)) × InStep N E (try_upgrade E client s).1 end
          × StepFrom N E bs (try_upgrade E client s).0 end
    unfolding try_upgrade from_full_block
    try_upgrade_step client s bs honest inv room =
        elim (Answer-cases (client s.state.next_height)) [
          | inl e ↦ (bs, rw (e, try_upgrade) inv, rw (e, try_upgrade) refl)
          | inr (fb, e) ↦
              let (at, n, p, ne) = honest s.state.next_height fb e in
              let (end, inv', did) =
                on_block_step N E s bs fb inv room at n p ne
                  (E.exists s.cache fb.header.parent_id || (fb.header.height == s.starting_height))
                  (ap (λ b. b || (fb.header.height == s.starting_height))
                    (E.exists_lem s.cache bs fb.header.parent_id inv.holds)) in
              (end, rw (e, try_upgrade) inv', rw (e, try_upgrade) did)
        ]

    Replays-step :
        (bs mid end : List (Block Tx)) (u : ChainUpgrade Tx) (us : List (ChainUpgrade Tx))
        → Replays bs (u ∷ []) mid
        → Replays mid us end
        → Replays bs (u ∷ us) end
    Replays-step bs mid end (roll_forward b) us (l, e) rest = (l, rw e rest)
    Replays-step [] mid end (roll_backward b) us first rest = absurd first
    Replays-step (t ∷ bs) mid end (roll_backward b) us (same, e) rest = (same, rw e rest)

    after_upgrade :
        (bs mid end : List (Block Tx)) (u : Option (ChainUpgrade Tx)) (us : List (ChainUpgrade Tx))
        → StepFrom N E bs u mid
        → Replays mid us end
        → Replays bs (elim u [ some u ↦ u ∷ us | none ↦ us ]) end
    after_upgrade bs mid end none us first rest = rw first rest
    after_upgrade bs mid end (some u) us first rest = Replays-step bs mid end u us first rest

    StepFrom-length :
        (bs end : List (Block Tx)) (u : Option (ChainUpgrade Tx))
        → StepFrom N E bs u end
        → length end ≤ suc (length bs)
    StepFrom-length bs end none e = rw e (omega arith)
    StepFrom-length bs end (some (roll_forward b)) (l, e) = rw⁻¹ e (omega arith)
    StepFrom-length [] end (some (roll_backward b)) first = absurd first
    StepFrom-length (t ∷ bs) end (some (roll_backward b)) (same, e) = rw⁻¹ e (omega arith)

    InStep-stream :
        (clients : List (ℕ → Answer Tx)) (s : ChainSync E) (bs : List (Block Tx))
        → All (Honest N) clients
        → InStep N E s bs
        → start + length bs + length clients < 2 ^ 32
        → (end : List (Block Tx)) × InStep N E (chain_sync_stream E clients s).1 end
          × Replays bs (chain_sync_stream E clients s).0 end
    unfolding chain_sync_stream
    InStep-stream [] s bs honest inv room = (bs, inv, refl)
    InStep-stream (client ∷ later) s bs (honest, honest') inv room =
        let (mid, inv', did) =
          try_upgrade_step client s bs honest inv (omega (arith, inv.counts)) in
        let grown = StepFrom-length bs mid _ did in
        let (end, inv'', rest) = InStep-stream later _ mid honest' inv' (omega (arith, grown)) in
        (end, inv'', after_upgrade bs mid end _ _ did rest)

    -- Started with an empty cache, and with clients that give blocks of the network at the heights
    -- asked for, through whatever forks, `chain_sync_stream` yields what replays, on a stack that
    -- starts empty, the chain that the cache ends with: each block rolled forward stands on the
    -- one before, each block rolled backward is the top. The next height ends above that chain,
    -- while the heights fit in 32 bits.
    pub chain_sync_stream-Replays :
        (cache : E.Cache) (clients : List (ℕ → Answer Tx))
        → E.Holds cache []
        → All (Honest N) clients
        → start + length clients < 2 ^ 32
        → (end : List (Block Tx)) × E.Holds
            (chain_sync_stream E clients (init E start cache)).1.cache
            end
          × Replays [] (chain_sync_stream E clients (init E start cache)).0 end
          × ((chain_sync_stream E clients (init E start cache)).1.state.next_height
              ≡ start + length end)
    unfolding init
    chain_sync_stream-Replays cache clients held honest room =
        let none_yet = E.get_best_block_lem cache [] held in
        let begin : InStep N E (init E start cache) [] = record {
          starts = refl;
          holds = held;
          linked = tt;
          of_network = tt;
          below = tt;
          counts = ground (arith, none_yet);
        } in
        let (end, inv, did) =
          InStep-stream clients (init E start cache) [] honest begin (omega arith) in
        (end, inv.holds, did, inv.counts)
