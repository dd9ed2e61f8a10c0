-- ===== src/MempoolSync/Interleave.antt =====
-- `mempool_sync_stream`: what a consumer of the updates sees, however the two streams interleave.
use mathlib.Core.List.{◌++◌}
use spectrum_offchain_ergo.Prelude.{
  ℕ, ◌≡◌, refl, sym, ap, ◌∙◌, ◌↔◌, inl, inr, Bool, true, false, Option, none, some, List, [], ◌∷◌,
  arith, ◌==◌, ==_iff, is_some, append_nil, append_assoc, find-Elem, any, contains, lookup, Elem,
  Option-cases, Bool-cases,
}
use spectrum_offchain_ergo.ChainSync.Sync.{ChainUpgrade, roll_forward, roll_backward}
use spectrum_offchain_ergo.MempoolSync.State.{
  MempoolUpdate, tx_accepted, tx_withdrawn, tx_confirmed, SyncState, empty, fetch_pool, push_block,
  pop_block, sync_with, sync, sync_ledger, sync_mempool, Event, ledger, mempool,
  mempool_sync_stream,
}
use spectrum_offchain_ergo.MempoolSync.Projection.{about, about-append, Keyed}
use spectrum_offchain_ergo.MempoolSync.Accept.{in_pool, synced, queued, sync_with_lem}

-- The updates of one transaction accept it while it is out and let it go while it is in, from
-- `present` to `end`.
abbrev pub Alternates : {Tx : Type 0} → Bool → List (MempoolUpdate Tx) → Bool → Type 0
Alternates present [] end = present ≡ end
Alternates false (tx_accepted _ ∷ us) end = Alternates true us end
Alternates false (tx_withdrawn _ ∷ us) end = ⊥
Alternates false (tx_confirmed _ ∷ us) end = ⊥
Alternates true (tx_accepted _ ∷ us) end = ⊥
Alternates true (tx_withdrawn _ ∷ us) end = Alternates false us end
Alternates true (tx_confirmed _ ∷ us) end = Alternates false us end

Alternates-append :
    {Tx : Type 0} (a b c : Bool) (us vs : List (MempoolUpdate Tx))
    → Alternates a us b
    → Alternates b vs c
    → Alternates a (us ++ vs) c
Alternates-append a b c [] vs h k = rw h k
Alternates-append false b c (tx_accepted _ ∷ us) vs h k = Alternates-append true b c us vs h k
Alternates-append false b c (tx_withdrawn _ ∷ us) vs h k = absurd h
Alternates-append false b c (tx_confirmed _ ∷ us) vs h k = absurd h
Alternates-append true b c (tx_accepted _ ∷ us) vs h k = absurd h
Alternates-append true b c (tx_withdrawn _ ∷ us) vs h k = Alternates-append false b c us vs h k
Alternates-append true b c (tx_confirmed _ ∷ us) vs h k = Alternates-append false b c us vs h k

module _ {Tx : Type 0} (id : Tx → ℕ) (iter : List ℕ → List ℕ) where
  -- After the updates `done` and those that are pending, the consumer has the projection.
  abbrev Consumed : List (MempoolUpdate Tx) → SyncState Tx → Type 0
  Consumed done s =
      Keyed id iter s
      × ((i : ℕ)
          → Alternates false (about id iter i (done ++ s.pending_updates))
              (is_some (lookup i s.mempool_projection)))

  queued-Alternates :
      (blocks : List (List ℕ)) (i : ℕ) (now seen : Option Tx)
      → Alternates
          (is_some now)
          (queued id iter blocks i now seen)
          (is_some (synced id iter now seen))
  queued-Alternates blocks i (some tx) (some _) = refl
  queued-Alternates blocks i (some tx) none =
      elim (Bool-cases (any (λ blk. contains i blk) blocks)) [
        | inl t ↦ rw t refl
        | inr f ↦ rw f refl
      ]
  queued-Alternates blocks i none none = refl
  queued-Alternates blocks i none (some tx) = refl

  synced-id :
      (pool : List Tx) (i : ℕ) (now : Option Tx) (tx : Tx)
      → ((t : Tx) → now ≡ some t → id t ≡ i)
      → synced id iter now (in_pool id iter i pool) ≡ some tx
      → id tx ≡ i
  synced-id pool i (some t) tx keyed e = ground (arith, e, keyed t refl)
  synced-id pool i none tx keyed e = (==_iff (id tx) i).0 (find-Elem (λ tx. id tx == i) pool tx e).1

  module _ (same : (xs : List ℕ) (i : ℕ) → Elem i (iter xs) ↔ Elem i xs) where
    Consumed-sync_with :
        (done : List (MempoolUpdate Tx)) (pool : List Tx) (s : SyncState Tx)
        → Consumed done s
        → Consumed done (sync_with id iter pool s)
    Consumed-sync_with done pool s (keyed, seen) =
        let spec = sync_with_lem id iter same pool s keyed in
        let after = sync_with id iter pool s in
        let known : (i : ℕ)
            → lookup i after.mempool_projection
              ≡ synced id iter (lookup i s.mempool_projection) (in_pool id iter i pool) =
          λ i. (spec.0 i).0 in
        let told : (i : ℕ)
            → about id iter i (done ++ after.pending_updates)
              ≡ about id iter i (done ++ s.pending_updates)
                ++ queued id iter s.latest_blocks i (lookup i s.mempool_projection)
                    (in_pool id iter i pool) =
          λ i.
            about-append id iter i done after.pending_updates
            ∙ ap (λ l. about id iter i done ++ l) (spec.0 i).1
            ∙ sym (append_assoc (about id iter i done) _ _)
            ∙ ap
                (λ l.
                  l
                  ++ queued id iter s.latest_blocks i (lookup i s.mempool_projection)
                      (in_pool id iter i pool))
                (sym (about-append id iter i done s.pending_updates)) in
        (
          (λ i tx e. synced-id pool i _ tx (keyed i) (sym (known i) ∙ e)),
          (λ i.
              rw (told i, known i)
                (Alternates-append {Tx = Tx} false (is_some (lookup i s.mempool_projection))
                  (is_some
                    (synced id iter (lookup i s.mempool_projection) (in_pool id iter i pool)))
                  (about id iter i (done ++ s.pending_updates))
                  (queued id iter s.latest_blocks i (lookup i s.mempool_projection)
                    (in_pool id iter i pool))
                  (seen i)
                  (queued-Alternates s.latest_blocks i (lookup i s.mempool_projection)
                    (in_pool id iter i pool)))),
        )

    Consumed-sync :
        (done : List (MempoolUpdate Tx)) (clients : List (ℕ → Option (List Tx))) (s : SyncState Tx)
        → Consumed done s
        → Consumed done (sync id iter clients s)
    unfolding sync
    Consumed-sync done clients s seen = elim (Option-cases (fetch_pool id iter clients [] 0)) [
      | inl e ↦ rw (e, sync) seen
      | inr (pool, e) ↦ rw (e, sync) (Consumed-sync_with done pool s seen)
    ]

    Consumed-sync_mempool :
        (done : List (MempoolUpdate Tx)) (clients : List (ℕ → Option (List Tx))) (s : SyncState Tx)
        → Consumed done s
        → Consumed (done ++ (sync_mempool id iter clients s).0) (sync_mempool id iter clients s).1
    unfolding sync_mempool
    Consumed-sync_mempool done clients s seen =
        front s.latest_blocks s.mempool_projection s.pending_updates seen
      where
        front :
            (blocks : List (List ℕ)) (m : List (ℕ × Tx)) (us : List (MempoolUpdate Tx))
            → let s : SyncState Tx = record {
              latest_blocks = blocks;
              mempool_projection = m;
              pending_updates = us;
            } in
              Consumed done s
              → Consumed
                  (done ++ (sync_mempool id iter clients s).0)
                  (sync_mempool id iter clients s).1
        front blocks m [] seen = rw (append_nil done) (Consumed-sync done clients _ seen)
        front blocks m (u ∷ us) seen =
            Consumed-sync (done ++ (u ∷ [])) clients
              (record { latest_blocks = blocks; mempool_projection = m; pending_updates = us })
              (seen.0, λ i. rw (append_assoc done (u ∷ []) us) (seen.1 i))

    Consumed-sync_ledger :
        (done : List (MempoolUpdate Tx)) (u : ChainUpgrade Tx) (s : SyncState Tx)
        → Consumed done s
        → Consumed done (sync_ledger id iter u s)
    unfolding sync_ledger push_block pop_block
    Consumed-sync_ledger done (roll_forward b) s seen = seen
    Consumed-sync_ledger done (roll_backward b) s seen = seen

    Consumed-stream :
        (events : List (Event id iter)) (done : List (MempoolUpdate Tx)) (s : SyncState Tx)
        → Consumed done s
        → Consumed
            (done ++ (mempool_sync_stream id iter events s).0)
            (mempool_sync_stream id iter events s).1
    unfolding mempool_sync_stream
    Consumed-stream [] done s seen = rw (append_nil done) seen
    Consumed-stream (ledger u ∷ events) done s seen =
        Consumed-stream events done _ (Consumed-sync_ledger done u s seen)
    Consumed-stream (mempool clients ∷ events) done s seen =
        rw⁻¹
          (append_assoc done (sync_mempool id iter clients s).0
            (mempool_sync_stream id iter events (sync_mempool id iter clients s).1).0)
          (Consumed-stream events _ _ (Consumed-sync_mempool done clients s seen))

    -- From the empty state, whatever the order of chain upgrades and rounds of the memory pool,
    -- and when a HashSet gives just its members: the updates that have been yielded and those that
    -- are pending, taken for one transaction, accept it and let it go in turn, and end with it
    -- accepted just when the projection has it.
    pub mempool_sync_stream-Alternates :
        (events : List (Event id iter)) (i : ℕ)
        → let run = mempool_sync_stream id iter events empty in
          Alternates false
            (about id iter i (run.0 ++ run.1.pending_updates))
            (is_some (lookup i run.1.mempool_projection))
    unfolding lookup about
    mempool_sync_stream-Alternates events i =
        (Consumed-stream events [] empty ((λ i tx e. absurd (ground (arith, e))), (λ i. refl))).1 i
