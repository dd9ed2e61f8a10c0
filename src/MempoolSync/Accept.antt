-- ===== src/MempoolSync/Accept.antt =====
-- `sync`: what it makes of the projection, and the updates it queues for each transaction.
use mathlib.Core.List.{◌++◌}
use spectrum_offchain_ergo.Prelude.{
  ℕ, ◌≡◌, refl, sym, ap, ◌∙◌, ◌↔◌, inl, inr, ◌&&◌, not, Option, none, some, List, [], ◌∷◌, map,
  arith, ◌==◌, ==_iff, if◌then◌else◌, is_some, append_nil, find, contains, lookup, keys,
  lookup-insert, Elem, contains-Elem, Elem-contains, Bool-cases,
}
use spectrum_offchain_ergo.MempoolSync.State.{
  MempoolUpdate, tx_accepted, SyncState, check_all_withdrawn, accept, accept_all, difference,
  sync_with,
}
use spectrum_offchain_ergo.MempoolSync.Projection.{
  about, about-append, Keyed, gone, check_all_withdrawn-lookup, check_all_withdrawn-latest_blocks,
  check_all_withdrawn-about,
}

module _ {Tx : Type 0} (id : Tx → ℕ) (iter : List ℕ → List ℕ) where
  -- the transaction of the pool with an identifier, the first if there are several
  abbrev pub in_pool : ℕ → List Tx → Option Tx
  in_pool i pool = find (λ tx. id tx == i) pool

  -- what the projection has of a transaction after `accept`, and what is queued for it
  abbrev pub known_or : Option Tx → Option Tx → Option Tx
  known_or (some tx) seen = some tx
  known_or none seen = seen

  abbrev pub accepted : Option Tx → Option Tx → List (MempoolUpdate Tx)
  accepted (some tx) seen = []
  accepted none none = []
  accepted none (some tx) = tx_accepted tx ∷ []

  accept-lookup :
      (s : SyncState Tx) (tx : Tx) (j : ℕ)
      → lookup j (accept id iter s tx).mempool_projection
        ≡ known_or (lookup j s.mempool_projection) (if id tx == j then some tx else none)
  unfolding accept
  accept-lookup s tx j =
      ground (arith, lookup-insert (id tx) j tx s.mempool_projection, ==_iff (id tx) j)

  accept-about :
      (s : SyncState Tx) (tx : Tx) (j : ℕ)
      → about id iter j (accept id iter s tx).pending_updates
        ≡ about id iter j s.pending_updates
          ++ accepted (lookup j s.mempool_projection) (if id tx == j then some tx else none)
  unfolding accept about
  accept-about s tx j = ground (
    arith,
    about-append id iter j s.pending_updates (tx_accepted tx ∷ []),
    append_nil (about id iter j s.pending_updates),
    ==_iff (id tx) j,
  )

  accepted_once :
      (now seen later : Option Tx) (us : List (MempoolUpdate Tx))
      → (us ++ accepted now seen) ++ accepted (known_or now seen) later
        ≡ us ++ accepted now (known_or seen later)
  accepted_once (some tx) seen later us = append_nil _
  accepted_once none (some tx) later us = append_nil _
  accepted_once none none later us = rw (append_nil us)

  in_pool_cons :
      (j : ℕ) (tx : Tx) (pool : List Tx)
      → in_pool j (tx ∷ pool) ≡ known_or (if id tx == j then some tx else none) (in_pool j pool)
  unfolding find
  in_pool_cons j tx pool = ground arith

  known_or_assoc : (a b c : Option Tx) → known_or (known_or a b) c ≡ known_or a (known_or b c)
  known_or_assoc (some tx) b c = refl
  known_or_assoc none b c = refl

  accept_all-lookup :
      (pool : List Tx) (s : SyncState Tx) (j : ℕ)
      → lookup j (accept_all id iter s pool).mempool_projection
        ≡ known_or (lookup j s.mempool_projection) (in_pool j pool)
  unfolding accept_all find
  accept_all-lookup [] s j = ground arith
  accept_all-lookup (tx ∷ pool) s j =
      rw (accept_all-lookup pool (accept id iter s tx) j, accept-lookup s tx j)
        (known_or_assoc (lookup j s.mempool_projection) (if id tx == j then some tx else none)
            (in_pool j pool)
          ∙ ap (known_or (lookup j s.mempool_projection)) (sym (in_pool_cons j tx pool)))

  accept_all-about :
      (pool : List Tx) (s : SyncState Tx) (j : ℕ)
      → about id iter j (accept_all id iter s pool).pending_updates
        ≡ about id iter j s.pending_updates
          ++ accepted (lookup j s.mempool_projection) (in_pool j pool)
  unfolding accept_all find
  accept_all-about [] s j = ground (arith, append_nil (about id iter j s.pending_updates))
  accept_all-about (tx ∷ pool) s j =
      accept_all-about pool (accept id iter s tx) j
      ∙ rw (accept-about s tx j, accept-lookup s tx j)
          (accepted_once (lookup j s.mempool_projection) _ (in_pool j pool) _
            ∙ ap
                (λ o.
                  about id iter j s.pending_updates ++ accepted (lookup j s.mempool_projection) o)
                (sym (in_pool_cons j tx pool)))

  contains-difference :
      (j : ℕ) (old new : List ℕ)
      → contains j (difference id iter old new) ≡ (contains j old && not (contains j new))
  unfolding difference contains
  contains-difference j [] new = refl
  contains-difference j (x ∷ old) new = ground (arith, contains-difference j old new, ==_iff x j)

  accept-latest_blocks :
      (s : SyncState Tx) (tx : Tx) → (accept id iter s tx).latest_blocks ≡ s.latest_blocks
  unfolding accept
  accept-latest_blocks s tx = ground arith

  accept_all-latest_blocks :
      (pool : List Tx) (s : SyncState Tx)
      → (accept_all id iter s pool).latest_blocks ≡ s.latest_blocks
  unfolding accept_all
  accept_all-latest_blocks [] s = refl
  accept_all-latest_blocks (tx ∷ pool) s =
      accept_all-latest_blocks pool (accept id iter s tx) ∙ accept-latest_blocks s tx

  contains-map : (i : ℕ) (pool : List Tx) → contains i (map id pool) ≡ is_some (in_pool i pool)
  unfolding contains find
  contains-map i [] = refl
  contains-map i (tx ∷ pool) = ground (arith, contains-map i pool)

  contains-keys : (i : ℕ) (m : List (ℕ × Tx)) → contains i (keys m) ≡ is_some (lookup i m)
  unfolding contains lookup
  contains-keys i [] = refl
  contains-keys i ((j, tx) ∷ m) = ground (arith, contains-keys i m)

  contains-iter :
      ((xs : List ℕ) (i : ℕ) → Elem i (iter xs) ↔ Elem i xs)
      → (xs : List ℕ) (i : ℕ) → contains i (iter xs) ≡ contains i xs
  contains-iter same xs i = elim (Bool-cases (contains i xs)) [
    | inl t ↦ Elem-contains i (iter xs) ((same xs i).1 (contains-Elem i xs t)) ∙ sym t
    | inr f ↦ elim (Bool-cases (contains i (iter xs))) [
      | inl t ↦ t ∙ sym (Elem-contains i xs ((same xs i).0 (contains-Elem i (iter xs) t)))
      | inr g ↦ g ∙ sym f
    ]
  ]

  -- what `sync` makes of a transaction that the projection and the pool may have
  abbrev pub synced : Option Tx → Option Tx → Option Tx
  synced (some tx) seen = if is_some seen then some tx else none
  synced none seen = seen

  -- the updates it queues for the transaction
  abbrev pub queued : List (List ℕ) → ℕ → Option Tx → Option Tx → List (MempoolUpdate Tx)
  queued blocks i (some tx) (some _) = []
  queued blocks i (some tx) none = gone id iter blocks i (some tx)
  queued blocks i none seen = accepted none seen

  -- `s'` is what `sync` with the pool should make of `s`
  abbrev pub Synced : List Tx → SyncState Tx → SyncState Tx → Type 0
  Synced pool s s' =
      ((i : ℕ)
        → (lookup i s'.mempool_projection ≡ synced (lookup i s.mempool_projection) (in_pool i pool))
          × (about id iter i s'.pending_updates
              ≡ about id iter i s.pending_updates
                ++ queued s.latest_blocks i (lookup i s.mempool_projection) (in_pool i pool)))
      × (s'.latest_blocks ≡ s.latest_blocks)

  synced_at :
      (now seen : Option Tx)
      → known_or (if is_some now && not (is_some seen) then none else now) seen ≡ synced now seen
  synced_at (some tx) (some t) = refl
  synced_at (some tx) none = refl
  synced_at none seen = refl

  queued_at :
      (blocks : List (List ℕ)) (i : ℕ) (now seen : Option Tx) (us : List (MempoolUpdate Tx))
      → (us ++ (if is_some now && not (is_some seen) then gone id iter blocks i now else []))
          ++ accepted (if is_some now && not (is_some seen) then none else now) seen
        ≡ us ++ queued blocks i now seen
  queued_at blocks i (some tx) (some t) us = append_nil _
  queued_at blocks i (some tx) none us = append_nil _
  queued_at blocks i none seen us = rw (append_nil us)

  -- When a HashSet gives just its members, and the projection has each transaction under its own
  -- identifier, `sync` leaves in the projection just the transactions
  -- of the pool, those it had before as they were. For each that it had and the pool has not it
  -- queues one update: confirmed if one of the latest blocks has it, withdrawn if none has; for
  -- each of the pool that it had not, one that is accepted; and for no other transaction any.
  pub sync_with_lem :
      ((xs : List ℕ) (i : ℕ) → Elem i (iter xs) ↔ Elem i xs)
      → (pool : List Tx) (s : SyncState Tx) → Keyed id iter s
      → Synced pool s (sync_with id iter pool s)
  unfolding sync_with
  sync_with_lem same pool s keyed =
      let out = iter (difference id iter (keys s.mempool_projection) (map id pool)) in
      let mid = check_all_withdrawn id iter s out in
      let left : (i : ℕ)
          → contains i out
            ≡ (is_some (lookup i s.mempool_projection) && not (is_some (in_pool i pool))) =
        λ i.
          contains-iter same _ i
          ∙ contains-difference i _ _
          ∙ rw (contains-keys i s.mempool_projection, contains-map i pool) in
      (
        (λ i. (
          accept_all-lookup pool mid i
              ∙ rw (check_all_withdrawn-lookup id iter out s i, left i)
                  (synced_at (lookup i s.mempool_projection) (in_pool i pool)),
          accept_all-about pool mid i
              ∙ rw
                  (
                    check_all_withdrawn-about id iter out s i keyed,
                    check_all_withdrawn-lookup id iter out s i,
                    left i,
                  )
                  (queued_at s.latest_blocks i (lookup i s.mempool_projection) (in_pool i pool)
                    (about id iter i s.pending_updates)),
        )),
        accept_all-latest_blocks pool mid ∙ check_all_withdrawn-latest_blocks id iter out s,
      )
