-- ===== src/MempoolSync/Projection.antt =====
-- The updates about one transaction, and the loop of `sync` over those that have left the pool.
use mathlib.Core.List.{◌++◌}
use spectrum_offchain_ergo.Prelude.{
  ℕ, ◌≡◌, refl, sym, ap, ◌∙◌, inl, inr, Bool, true, false, ◌||◌, Option, none, some, List, [], ◌∷◌,
  arith, ◌==◌, ==_iff, ==_self, if◌then◌else◌, append_nil, any, contains, lookup, lookup-erase,
  Option-cases, Bool-cases,
}
use spectrum_offchain_ergo.MempoolSync.State.{
  MempoolUpdate, tx_accepted, tx_withdrawn, tx_confirmed, SyncState, check_withdrawn,
  check_all_withdrawn,
}

module _ {Tx : Type 0} (id : Tx → ℕ) (iter : List ℕ → List ℕ) where
  abbrev pub update_id : MempoolUpdate Tx → ℕ
  update_id (tx_accepted tx) = id tx
  update_id (tx_withdrawn tx) = id tx
  update_id (tx_confirmed tx) = id tx

  -- the updates of one transaction
  unfoldable pub about : ℕ → List (MempoolUpdate Tx) → List (MempoolUpdate Tx)
  about i [] = []
  about i (u ∷ us) = if update_id u == i then u ∷ about i us else about i us

  pub about-append :
      (i : ℕ) (us vs : List (MempoolUpdate Tx)) → about i (us ++ vs) ≡ about i us ++ about i vs
  unfolding about
  about-append i [] vs = refl
  about-append i (u ∷ us) vs = ground (arith, about-append i us vs)

  -- The projection has each transaction under its identifier.
  abbrev pub Keyed : SyncState Tx → Type 0
  Keyed s = (i : ℕ) (tx : Tx) → lookup i s.mempool_projection ≡ some tx → id tx ≡ i

  -- what is queued for a transaction of the projection that is not in the pool
  abbrev pub gone : List (List ℕ) → ℕ → Option Tx → List (MempoolUpdate Tx)
  gone blocks i none = []
  gone blocks i (some tx) =
      (if any (λ blk. contains i blk) blocks then tx_confirmed tx else tx_withdrawn tx) ∷ []

  about_one :
      (i : ℕ) (u : MempoolUpdate Tx) → about i (u ∷ []) ≡ (if update_id u == i then u ∷ [] else [])
  unfolding about
  about_one i u = refl

  about-gone :
      (blocks : List (List ℕ)) (i j : ℕ) (tx : Tx)
      → id tx ≡ i
      → about j (gone blocks i (some tx)) ≡ (if i == j then gone blocks i (some tx) else [])
  about-gone blocks i j tx e = elim (Bool-cases (any (λ blk. contains i blk) blocks)) [
    | inl t ↦
        rw t
          (about_one j (tx_confirmed tx) ∙ ap (λ k. if k == j then tx_confirmed tx ∷ [] else []) e)
    | inr f ↦
        rw f
          (about_one j (tx_withdrawn tx) ∙ ap (λ k. if k == j then tx_withdrawn tx ∷ [] else []) e)
  ]

  check_withdrawn-lookup :
      (s : SyncState Tx) (k j : ℕ)
      → lookup j (check_withdrawn id iter s k).mempool_projection
        ≡ (if k == j then none else lookup j s.mempool_projection)
  unfolding check_withdrawn
  check_withdrawn-lookup s k j = elim (Option-cases (lookup k s.mempool_projection)) [
    | inl e ↦ rw (e, check_withdrawn) (ground (arith, e))
    | inr (tx, e) ↦ rw (e, check_withdrawn) (lookup-erase k j s.mempool_projection)
  ]

  check_withdrawn-latest_blocks :
      (s : SyncState Tx) (k : ℕ) → (check_withdrawn id iter s k).latest_blocks ≡ s.latest_blocks
  unfolding check_withdrawn
  check_withdrawn-latest_blocks s k = elim (Option-cases (lookup k s.mempool_projection)) [
    | inl e ↦ rw (e, check_withdrawn)
    | inr (tx, e) ↦ rw (e, check_withdrawn)
  ]

  check_withdrawn-about :
      (s : SyncState Tx) (k j : ℕ)
      → Keyed s
      → about j (check_withdrawn id iter s k).pending_updates
        ≡ about j s.pending_updates
          ++ (if k == j then gone s.latest_blocks j (lookup j s.mempool_projection) else [])
  unfolding check_withdrawn
  check_withdrawn-about s k j keyed = elim (Option-cases (lookup k s.mempool_projection)) [
    | inl e ↦ elim (Bool-cases (k == j)) [
      | inl same ↦
          let e' : lookup j s.mempool_projection ≡ none = ground (arith, e, same) in
          rw (e, check_withdrawn, same, e', append_nil (about j s.pending_updates))
      | inr ne ↦ rw (e, check_withdrawn, ne, append_nil (about j s.pending_updates))
    ]
    | inr (tx, e) ↦
        rw (e, check_withdrawn)
          (about-append j s.pending_updates _
            ∙ ap (λ l. about j s.pending_updates ++ l)
                (about-gone s.latest_blocks k j tx (keyed k tx e) ∙ at_key s k j tx e))
  ]
    where
      at_key :
          (s : SyncState Tx) (k j : ℕ) (tx : Tx)
          → lookup k s.mempool_projection ≡ some tx
          → (if k == j then gone s.latest_blocks k (some tx) else [])
            ≡ (if k == j then gone s.latest_blocks j (lookup j s.mempool_projection) else [])
      at_key s k j tx e = elim (Bool-cases (k == j)) [
        | inl same ↦ let kj = (==_iff k j).0 same in rw (sym kj, e, ==_self k)
        | inr ne ↦ rw ne
      ]

  Keyed-check_withdrawn : (s : SyncState Tx) (k : ℕ) → Keyed s → Keyed (check_withdrawn id iter s k)
  Keyed-check_withdrawn s k keyed i tx e =
      keyed i tx (ground (arith, e, check_withdrawn-lookup s k i))

  pub check_all_withdrawn-lookup :
      (xs : List ℕ) (s : SyncState Tx) (j : ℕ)
      → lookup j (check_all_withdrawn id iter s xs).mempool_projection
        ≡ (if contains j xs then none else lookup j s.mempool_projection)
  unfolding check_all_withdrawn contains
  check_all_withdrawn-lookup [] s j = refl
  check_all_withdrawn-lookup (x ∷ xs) s j = ground (
    arith,
    check_all_withdrawn-lookup xs (check_withdrawn id iter s x) j,
    check_withdrawn-lookup s x j,
  )

  pub check_all_withdrawn-latest_blocks :
      (xs : List ℕ) (s : SyncState Tx)
      → (check_all_withdrawn id iter s xs).latest_blocks ≡ s.latest_blocks
  unfolding check_all_withdrawn
  check_all_withdrawn-latest_blocks [] s = refl
  check_all_withdrawn-latest_blocks (x ∷ xs) s =
      check_all_withdrawn-latest_blocks xs (check_withdrawn id iter s x)
      ∙ check_withdrawn-latest_blocks s x

  pub Keyed-check_all_withdrawn :
      (xs : List ℕ) (s : SyncState Tx) → Keyed s → Keyed (check_all_withdrawn id iter s xs)
  Keyed-check_all_withdrawn xs s keyed i tx e =
      keyed i tx (ground (arith, e, check_all_withdrawn-lookup xs s i))

  gone_once :
      (blocks : List (List ℕ)) (j : ℕ) (now : Option Tx) (first later : Bool)
      (us : List (MempoolUpdate Tx))
      → (us ++ (if first then gone blocks j now else []))
          ++ (if later then gone blocks j (if first then none else now) else [])
        ≡ us ++ (if first || later then gone blocks j now else [])
  gone_once blocks j now true true us = append_nil _
  gone_once blocks j now true false us = append_nil _
  gone_once blocks j now false later us = rw (append_nil us)

  pub check_all_withdrawn-about :
      (xs : List ℕ) (s : SyncState Tx) (j : ℕ)
      → Keyed s
      → about j (check_all_withdrawn id iter s xs).pending_updates
        ≡ about j s.pending_updates
          ++ (if contains j xs then gone s.latest_blocks j (lookup j s.mempool_projection) else [])
  unfolding check_all_withdrawn contains
  check_all_withdrawn-about [] s j keyed = sym (append_nil _)
  check_all_withdrawn-about (x ∷ xs) s j keyed =
      let s' = check_withdrawn id iter s x in
      check_all_withdrawn-about xs s' j (Keyed-check_withdrawn s x keyed)
      ∙ rw
          (
            check_withdrawn-about s x j keyed,
            check_withdrawn-latest_blocks s x,
            check_withdrawn-lookup s x j,
          )
          (gone_once s.latest_blocks j (lookup j s.mempool_projection) (x == j) (contains j xs)
            (about j s.pending_updates))
