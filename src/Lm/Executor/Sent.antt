-- ===== src/Lm/Executor/Sent.antt =====
-- What a step of executor.rs in spectrum-offchain-lm/src leaves in the repositories of pools and
-- bundles, by what the node says of the transaction.
use mathlib.Core.Option
use spectrum_offchain_ergo.Prelude.{
  ℕ, ◌≡◌, ◌≢◌, ◌⊎◌, inl, inr, refl, subst, ap, ◌∙◌, Bool, true, false, none, some, List, [], arith,
  Option-cases, Bool-cases,
}
use spectrum_offchain_ergo.BoxResolver.Resolve.{resolve_entity_state}
use spectrum_offchain_ergo.Executor.Order.{fatal, non_fatal}
use spectrum_offchain_ergo.Lm.Types.{AsBox, StakingBundle}
use spectrum_offchain_ergo.Lm.Pool.{Pool}
use spectrum_offchain_ergo.Lm.Orders
use spectrum_offchain_ergo.Lm.Orders.{Order, bundle_ids, order_entity}
use spectrum_offchain_ergo.Lm.Executor.{
  NodeSubmitTxError, Setting, Answers, Ready, Evaluated, ready, no_result, refused, eval_panicked,
  missing_inputs, double_spend, scripts_of_inputs_dont_pass_verification, unhandled, pool_entity,
  OrderExecutor, make_context, resolve_bundles, evaluate,
}
use spectrum_offchain_ergo.Lm.Executor.Settle.{
  invalidate_pool, invalidate_bundles, suspend, wait_for_pool, without_pool, apply_invalidation,
  apply_invalidations, on_rejected, put_bundles, on_accepted, on_result, execute, try_execute_next,
}
use spectrum_offchain_ergo.Lm.Executor.Forget.{
  generate_invalidations-pool, Spent, apply_invalidations-Kept,
}

module _ (S : Setting) where
  open S use {backlog as L, pools as P, rocks as R}
  open R use {Db}

  -- the node rejected the transaction with the error
  abbrev pub Rejected :
      OrderExecutor S → OrderExecutor S → AsBox Pool → Ready → NodeSubmitTxError → Type 0
  Rejected x x' pool r e =
      ((x'.pool_repo ≡ x.pool_repo)
        ⊎ (x'.pool_repo ≡ P.invalidate x.pool_repo pool.box_id pool.entity.pool_id))
      × Spent S x x' r.tx.inputs
      × ((e ≡ unhandled) ⊎ (e ≡ scripts_of_inputs_dont_pass_verification) → x'.backlog ≡ x.backlog)

  -- the node accepted the transaction
  abbrev pub Accepted :
      Answers
      → OrderExecutor S
      → OrderExecutor S
      → Order
      → AsBox Pool
      → List (AsBox StakingBundle)
      → Ready
      → Type 0
  Accepted A x x' ord pool bundles r =
      (x'.pool_repo
        ≡ P.put_predicted x.pool_repo
            (record { state = r.next_pool; prev_state_id = some pool.box_id }))
      × (put_bundles S x.bundle_repo pool.entity.conf r.next_bundles bundles ≡ some x'.bundle_repo)
      × (x'.backlog ≡ (L.check_later x.backlog (record { order = ord; timestamp = A.ts_now })).0)

  abbrev pub Unsent : OrderExecutor S → OrderExecutor S → Type 0
  Unsent x x' = (x'.pool_repo ≡ x.pool_repo) × (x'.bundle_repo ≡ x.bundle_repo)

  -- what the step did with a transaction that the order gave
  abbrev pub Sent :
      Answers
      → OrderExecutor S
      → OrderExecutor S
      → Order
      → AsBox Pool
      → List (AsBox StakingBundle)
      → Ready
      → Type 0
  Sent A x x' ord pool bundles r =
      ((A.sign r.tx ≡ false) × Unsent x x' × (x'.backlog ≡ x.backlog))
      ⊎ ((A.sign r.tx ≡ true) × (A.submit_tx r.tx ≡ none) × Accepted A x x' ord pool bundles r)
      ⊎ ((e : NodeSubmitTxError) × (A.sign r.tx ≡ true)
          × (A.submit_tx r.tx ≡ some e)
          × Rejected x x' pool r e)

  module _ (A : Answers) (ord : Order) (pool : AsBox Pool) where
    on_rejected-Rejected :
        (x x' : OrderExecutor S) (r : Ready) (e : NodeSubmitTxError)
        → on_rejected S A x ord pool r e ≡ some x'
        → Rejected x x' pool r e
    unfolding on_rejected invalidate_pool invalidate_bundles apply_invalidations apply_invalidation
    on_rejected-Rejected x x' r double_spend is =
        (inl (ground (arith, is)), ([], ground (arith, is), λ i m. absurd m), ground arith)
    on_rejected-Rejected x x' r unhandled is = (
      inl (ground (arith, is)),
      ([], ground (arith, is), λ i m. absurd m),
      λ _. ground (arith, is),
    )
    on_rejected-Rejected x x' r scripts_of_inputs_dont_pass_verification is =
        elim (Bool-cases (A.box_in_utxo pool.box_id)) [
          | inl there ↦ (
            inl (ground (arith, is, there)),
            ([], ground (arith, is, there), λ i m. absurd m),
            λ _. ground (arith, is, there),
          )
          | inr gone ↦ (
            inr (ground (arith, is, gone)),
            ([], ground (arith, is, gone), λ i m. absurd m),
            λ _. ground (arith, is, gone),
          )
        ]
    on_rejected-Rejected x x' r (missing_inputs ixs) is =
        let (rest, none_there, generated) = generate_invalidations-pool r.order_type ixs in
        elim generated [
          | inl g ↦
              let (p, spent) =
                apply_invalidations-Kept S ord pool r.tx.inputs x x' rest none_there (rw g at is) in
              (inl p, spent, ground arith)
          | inr g ↦
              let x1 = suspend S (invalidate_pool S x pool) ord in
              let (p, spent) =
                apply_invalidations-Kept S ord pool r.tx.inputs x1 x' rest none_there
                  (rw g at is) in
              (inr p, spent, ground arith)
        ]

    on_accepted-Accepted :
        (x x' : OrderExecutor S) (bundles : List (AsBox StakingBundle)) (r : Ready)
        → on_accepted S A x ord pool bundles r ≡ some x'
        → Accepted A x x' ord pool bundles r
    unfolding on_accepted
    on_accepted-Accepted x x' bundles r is =
        elim (Option-cases (put_bundles S x.bundle_repo pool.entity.conf r.next_bundles bundles)) [
          | inl z ↦ absurd (ground (arith, is, z))
          | inr (db, z) ↦ (ground (arith, is, z), z ∙ ground (arith, is, z), ground (arith, is, z))
        ]

    on_result-Sent :
        (x x' : OrderExecutor S) (bundles : List (AsBox StakingBundle)) (ev : Evaluated) (b : Bool)
        → on_result S A x ord pool bundles ev ≡ some (b, x')
        → ((r : Ready) × (ev ≡ ready r) × Sent A x x' ord pool bundles r)
          ⊎ (Unsent x x' × ((r : Ready) → ev ≢ ready r))
    unfolding on_result Option.map
    on_result-Sent x x' bundles eval_panicked b is = absurd (ground (arith, is))
    on_result-Sent x x' bundles no_result b is =
        inr ((ground (arith, is), ground (arith, is)), λ r. ground arith)
    on_result-Sent x x' bundles (refused (non_fatal o)) b is =
        inr ((ground (arith, is), ground (arith, is)), λ r. ground arith)
    on_result-Sent x x' bundles (refused (fatal o)) b is =
        inr ((ground (arith, is), ground (arith, is)), λ r. ground arith)
    on_result-Sent x x' bundles (ready r) b is = inl (
      r,
      refl,
      elim (Bool-cases (A.sign r.tx)) [
        | inr f ↦ inl (f, (ground (arith, is, f), ground (arith, is, f)), ground (arith, is, f))
        | inl t ↦ elim (Option-cases (A.submit_tx r.tx)) [
          | inl n ↦ elim (Option-cases (on_accepted S A x ord pool bundles r)) [
            | inl z ↦ absurd (ground (arith, is, t, n, z))
            | inr (y, z) ↦
                let same : y ≡ x' = ground (arith, is, t, n, z) in
                inr (inl (t, n, on_accepted-Accepted x x' bundles r (z ∙ ap some same)))
          ]
          | inr (e, s) ↦ elim (Option-cases (on_rejected S A x ord pool r e)) [
            | inl z ↦ absurd (ground (arith, is, t, s, z))
            | inr (y, z) ↦
                let same : y ≡ x' = ground (arith, is, t, s, z) in
                inr (inr (e, t, s, on_rejected-Rejected x x' r e (z ∙ ap some same)))
          ]
        ]
      ],
    )

    execute-Sent :
        (x x' : OrderExecutor S) (bundles : List (AsBox StakingBundle)) (b : Bool)
        → execute S A x ord pool bundles ≡ some (b, x')
        → let ev =
            (evaluate S A x.funding_repo pool bundles
              (make_context S A x.context_cache pool.box_id).0
              ord).0 in
          ((r : Ready) × (ev ≡ ready r) × Sent A x x' ord pool bundles r)
          ⊎ (Unsent x x' × ((r : Ready) → ev ≢ ready r))
    unfolding execute
    execute-Sent x x' bundles b is =
        let (ctx, cache) = make_context S A x.context_cache pool.box_id in
        let (ev, db) = evaluate S A x.funding_repo pool bundles ctx ord in
        on_result-Sent (record x { context_cache = cache; funding_repo = db }) x' bundles ev b is

  without_pool-Unsent :
      (A : Answers) (x : OrderExecutor S) (ord : Order) → Unsent x (without_pool S A x ord)
  unfolding without_pool wait_for_pool
  without_pool-Unsent A x (Orders.deposit d) = ground arith
  without_pool-Unsent A x (Orders.redeem r) = ground arith
  without_pool-Unsent A x (Orders.compound c) = ground arith

  -- The step takes the order from the backlog, finds its pool and its bundles, and gets a transaction.
  abbrev pub Gives :
      ℕ
      → Answers
      → OrderExecutor S
      → Order
      → AsBox Pool
      → List (AsBox StakingBundle)
      → Ready
      → Type 0
  Gives fuel A x ord pool bundles r =
      ((L.try_pop x.backlog).0 ≡ some ord)
      × (resolve_entity_state pool_entity P fuel x.pool_repo
            ((order_entity S.lib).get_entity_ref ord)
          ≡ some (some pool))
      × (resolve_bundles S fuel x.bundle_repo (bundle_ids ord) ≡ some bundles)
      × ((evaluate S A x.funding_repo pool bundles (make_context S A x.context_cache pool.box_id).0
            ord).0
          ≡ ready r)

  same_Gives :
      (fuel : ℕ) (A : Answers) (x : OrderExecutor S) (ord ord' : Order) (pool pool' : AsBox Pool)
      (bundles bundles' : List (AsBox StakingBundle)) (r : Ready)
      → (L.try_pop x.backlog).0 ≡ some ord
      → resolve_entity_state pool_entity P fuel x.pool_repo
          ((order_entity S.lib).get_entity_ref ord)
        ≡ some (some pool)
      → resolve_bundles S fuel x.bundle_repo (bundle_ids ord) ≡ some bundles
      → Gives fuel A x ord' pool' bundles' r
      → (evaluate S A x.funding_repo pool bundles
          (make_context S A x.context_cache pool.box_id).0
          ord).0
        ≡ ready r
  same_Gives fuel A x ord ord' pool pool' bundles bundles' r p q s (p', q', s', e) =
      let is_ord : ord' ≡ ord = ground (arith, p, p') in
      let is_pool : pool' ≡ pool = ground (arith, q, rw is_ord at q') in
      let is_bundles : bundles' ≡ bundles = ground (arith, s, rw is_ord at s') in
      rw (is_ord, is_pool, is_bundles) at e

  -- A step that ends predicts states just as the node says. Where an order is taken that has a pool
  -- and its bundles, and its evaluation gives a transaction: if the prover does not sign it, the
  -- pools, the bundles and the backlog that the order was popped from stay as they are; if the node
  -- accepts it, the next pool is predicted from the pool, the next bundles are put with those that
  -- were spent, and the order is to be checked later; if the node rejects it, no state is predicted,
  -- no pool but that of the order is invalidated, no bundle but an input of the transaction, and
  -- after an error that is unhandled or speaks of scripts alone the order is put back nowhere, the
  -- backlog is the one that it was popped from. In every other case pools and bundles stay as they
  -- are.
  pub try_execute_next-Sent :
      (fuel : ℕ) (A : Answers) (x x' : OrderExecutor S) (b : Bool)
      → try_execute_next S fuel A x ≡ some (b, x')
      → let popped : OrderExecutor S = record x { backlog = (L.try_pop x.backlog).1 } in
        ((ord : Order) × (pool : AsBox Pool) × (bundles : List (AsBox StakingBundle)) × (r : Ready)
          × Gives fuel A x ord pool bundles r
          × Sent A popped x' ord pool bundles r)
        ⊎ (Unsent popped x'
            × ((ord : Order) (pool : AsBox Pool) (bundles : List (AsBox StakingBundle)) (r : Ready)
                → ¬ Gives fuel A x ord pool bundles r))
  unfolding try_execute_next
  try_execute_next-Sent fuel A x x' b is =
      let popped : OrderExecutor S = record x { backlog = (L.try_pop x.backlog).1 } in
      elim (Option-cases ((L.try_pop x.backlog).0)) [
        | inl n ↦ inr (
          (ground (arith, is, n), ground (arith, is, n)),
          λ ord pool bundles r g. ground (arith, n, g.0),
        )
        | inr (ord, p) ↦
            let ref = (order_entity S.lib).get_entity_ref ord in
            elim (Option-cases (resolve_entity_state pool_entity P fuel x.pool_repo ref)) [
              | inl z ↦ absurd (ground (arith, is, p, z))
              | inr (none, q) ↦
                  let same : without_pool S A popped ord ≡ x' = ground (arith, is, p, q) in
                  inr (
                    subst (λ y. Unsent popped y) same (without_pool-Unsent A popped ord),
                    λ ord' pool' bundles' r g.
                        let is_ord : ord' ≡ ord = ground (arith, p, g.0) in
                        ground (arith, q, rw is_ord at g.1),
                  )
              | inr (some pool, q) ↦
                  elim (Option-cases (resolve_bundles S fuel x.bundle_repo (bundle_ids ord))) [
                    | inl z ↦ absurd (ground (arith, is, p, q, z))
                    | inr (bundles, s) ↦
                        let ran : execute S A popped ord pool bundles ≡ some (b, x') =
                          ground (arith, is, p, q, s) in
                        elim (execute-Sent A ord pool popped x' bundles b ran) [
                          | inl (r, e, sent) ↦ inl (ord, pool, bundles, r, (p, q, s, e), sent)
                          | inr (unsent, not_ready) ↦ inr (
                            unsent,
                            λ ord' pool' bundles' r g. not_ready r (
                                same_Gives fuel A x ord ord' pool pool' bundles bundles' r p q s g),
                          )
                        ]
                  ]
            ]
      ]
