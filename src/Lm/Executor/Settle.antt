-- ===== src/Lm/Executor/Settle.antt =====
-- What `OrderExecutor` of executor.rs in spectrum-offchain-lm/src does with the result of an order, and
-- its step.
use mathlib.Core.Option
use spectrum_offchain_ergo.Prelude.{
  ℕ, ◌-◌, ltb, Bool, true, false, Option, none, some, List, [], ◌∷◌, if◌then◌else◌, get_elem?, drop,
}
use spectrum_offchain_ergo.BoxResolver.Resolve.{resolve_entity_state}
use spectrum_offchain_ergo.Executor.Order.{fatal, non_fatal}
use spectrum_offchain_ergo.Executor.Invalidations.{
  OrderType, Invalidation, invalid_pool, staking_bundles, invalid_order, funding,
  generate_invalidations,
}
use spectrum_offchain_ergo.Lm.Types.{AsBox, StakingBundle, map_box}
use spectrum_offchain_ergo.Lm.Pool.{Pool, ProgramConfig}
use spectrum_offchain_ergo.Lm.Funding.{remove}
use spectrum_offchain_ergo.Lm.Funding
use spectrum_offchain_ergo.Lm.Bundles.{index_bundle}
use spectrum_offchain_ergo.Lm.Bundles
use spectrum_offchain_ergo.Lm.Orders.{
  Order, deposit, redeem, compound, bundle_ids, order_entity, Input,
}
use spectrum_offchain_ergo.Lm.Executor.{
  NodeSubmitTxError, Setting, Answers, Ready, Evaluated, ready, no_result, refused, eval_panicked,
  missing_inputs, double_spend, scripts_of_inputs_dont_pass_verification, unhandled, pool_entity,
  OrderExecutor, make_context, resolve_bundles, evaluate,
}

module _ (S : Setting) where
  open S use {
    backlog as L, pools as P, rocks as R, bincode as B, words as U, bundle_codec as BC, ints as F,
    funding_codec as FC,
  }

  unfoldable pub invalidate_pool : OrderExecutor S → AsBox Pool → OrderExecutor S
  invalidate_pool x pool = record x {
    pool_repo = P.invalidate x.pool_repo pool.box_id pool.entity.pool_id;
  }

  -- the inputs at the positions; `none` where one is missing and `unwrap` panics
  unfoldable pub inputs_at : List Input → List ℕ → Option (List ℕ)
  inputs_at inputs [] = some []
  inputs_at inputs (i ∷ ixs) = elim (get_elem? inputs i) [
    | none ↦ none
    | some input ↦ elim (inputs_at inputs ixs) [
      | none ↦ none
      | some ids ↦ some (input.box_id ∷ ids)
    ]
  ]

  unfoldable pub remove_funding : R.Db → List ℕ → R.Db
  remove_funding db [] = db
  remove_funding db (id ∷ ids) = remove_funding (remove R B F FC db id) ids

  unfoldable pub invalidate_bundles : R.Db → List ℕ → R.Db
  invalidate_bundles db [] = db
  invalidate_bundles db (id ∷ ids) = invalidate_bundles (Bundles.invalidate R B U BC db id) ids

  abbrev pub suspend : OrderExecutor S → Order → OrderExecutor S
  suspend x ord = record x { backlog = (L.suspend x.backlog ord).0 }

  abbrev pub drop_order : OrderExecutor S → Order → OrderExecutor S
  drop_order x ord = record x {
    backlog = L.remove x.backlog ((order_entity S.lib).get_self_ref ord);
  }

  unfoldable pub apply_invalidation :
      OrderExecutor S → Order → AsBox Pool → List Input → Invalidation → Option (OrderExecutor S)
  unfolding invalidate_pool inputs_at remove_funding invalidate_bundles
  apply_invalidation x ord pool inputs invalid_pool = some (suspend (invalidate_pool x pool) ord)
  apply_invalidation x ord pool inputs invalid_order = some (drop_order x ord)
  apply_invalidation x ord pool inputs (funding ixs) = elim (inputs_at inputs ixs) [
    | none ↦ none
    | some ids ↦ some (suspend (record x { funding_repo = remove_funding x.funding_repo ids }) ord)
  ]
  apply_invalidation x ord pool inputs (staking_bundles ixs) = elim (inputs_at inputs ixs) [
    | none ↦ none
    | some ids ↦ some (record x { bundle_repo = invalidate_bundles x.bundle_repo ids })
  ]

  unfoldable pub apply_invalidations :
      OrderExecutor S
      → Order
      → AsBox Pool
      → List Input
      → List Invalidation
      → Option (OrderExecutor S)
  unfolding apply_invalidation
  apply_invalidations x ord pool inputs [] = some x
  apply_invalidations x ord pool inputs (i ∷ is) = elim (apply_invalidation x ord pool inputs i) [
    | none ↦ none
    | some x' ↦ apply_invalidations x' ord pool inputs is
  ]

  -- the funding boxes that the node no longer has
  unfoldable pub spent_of : Answers → List ℕ → List ℕ
  spent_of A [] = []
  spent_of A (id ∷ ids) = let rest = spent_of A ids in if A.box_in_utxo id then rest else id ∷ rest

  unfoldable pub spent_funding : Answers → OrderType → List ℕ
  unfolding spent_of
  spent_funding A (OrderType.compound ids) = spent_of A ids
  spent_funding A OrderType.deposit = []
  spent_funding A OrderType.redeem = []

  unfoldable pub on_rejected :
      Answers
      → OrderExecutor S
      → Order
      → AsBox Pool
      → Ready
      → NodeSubmitTxError
      → Option (OrderExecutor S)
  unfolding generate_invalidations apply_invalidations invalidate_pool spent_funding remove_funding
  on_rejected A x ord pool r (missing_inputs ixs) =
      apply_invalidations x ord pool r.tx.inputs (generate_invalidations r.order_type ixs)
  on_rejected A x ord pool r double_spend = some (suspend x ord)
  on_rejected A x ord pool r unhandled = some x
  on_rejected A x ord pool r scripts_of_inputs_dont_pass_verification =
      let x1 = if A.box_in_utxo pool.box_id then x else invalidate_pool x pool in
      some
        (record x1 { funding_repo = remove_funding x1.funding_repo (spent_funding A r.order_type) })

  -- the loop over `zip_longest`; `none` where the index of a bundle panics
  unfoldable pub put_bundles :
      R.Db → ProgramConfig → List (AsBox StakingBundle) → List (AsBox StakingBundle) → Option R.Db
  put_bundles db conf [] prevs = some db
  put_bundles db conf (n ∷ nexts) prevs = elim (index_bundle n.entity conf) [
    | none ↦ none
    | some indexed ↦
        put_bundles
          (Bundles.put_predicted R B U BC db (record {
            state = map_box (λ _. indexed) n;
            prev_state_id = elim prevs [ [] ↦ none | p ∷ _ ↦ some p.entity.state_id ];
          }))
          conf nexts (drop 1 prevs)
  ]

  unfoldable pub on_accepted :
      Answers
      → OrderExecutor S
      → Order
      → AsBox Pool
      → List (AsBox StakingBundle)
      → Ready
      → Option (OrderExecutor S)
  unfolding put_bundles
  on_accepted A x ord pool bundles r =
      elim (put_bundles x.bundle_repo pool.entity.conf r.next_bundles bundles) [
        | none ↦ none
        | some bundle_repo ↦ some (record x {
          backlog = (L.check_later x.backlog (record { order = ord; timestamp = A.ts_now })).0;
          pool_repo =
              P.put_predicted x.pool_repo
                (record { state = r.next_pool; prev_state_id = some pool.box_id });
          funding_repo = elim r.residual_funding [
            | none ↦ x.funding_repo
            | some f ↦ Funding.put_predicted R B F FC x.funding_repo f
          ];
          bundle_repo = bundle_repo;
        })
      ]

  -- the arms on `run_result`: whether the step is `Ok`, and the state
  unfoldable pub on_result :
      Answers
      → OrderExecutor S
      → Order
      → AsBox Pool
      → List (AsBox StakingBundle)
      → Evaluated
      → Option (Bool × OrderExecutor S)
  unfolding on_rejected on_accepted
  on_result A x ord pool bundles eval_panicked = none
  on_result A x ord pool bundles no_result = some (false, x)
  on_result A x ord pool bundles (refused (non_fatal o)) = some (true, suspend x o)
  on_result A x ord pool bundles (refused (fatal o)) = some (true, drop_order x o)
  on_result A x ord pool bundles (ready r) =
      if A.sign r.tx
      then Option.map (λ x'. (true, x'))
          (elim (A.submit_tx r.tx) [
            | some e ↦ on_rejected A x ord pool r e
            | none ↦ on_accepted A x ord pool bundles r
          ])
      else some (true, x)

  -- what is done with an order and its pool
  unfoldable pub execute :
      Answers
      → OrderExecutor S
      → Order
      → AsBox Pool
      → List (AsBox StakingBundle)
      → Option (Bool × OrderExecutor S)
  unfolding make_context evaluate on_result
  execute A x ord pool bundles =
      let (ctx, cache) = make_context S A x.context_cache pool.box_id in
      let (result, funding_repo) = evaluate S A x.funding_repo pool bundles ctx ord in
      on_result A (record x { context_cache = cache; funding_repo = funding_repo }) ord pool bundles
        result

  -- the order of a box without a pool: removed when the box is more than 10 blocks old
  unfoldable pub wait_for_pool : Answers → OrderExecutor S → Order → ℕ → OrderExecutor S
  wait_for_pool A x ord creation_height =
      if ltb 10 (A.height - creation_height) then drop_order x ord else suspend x ord

  -- the `else` branch, where no pool resolves
  unfoldable pub without_pool : Answers → OrderExecutor S → Order → OrderExecutor S
  unfolding wait_for_pool
  without_pool A x (deposit d) = wait_for_pool A x (deposit d) d.creation_height
  without_pool A x (redeem r) = wait_for_pool A x (redeem r) r.creation_height
  without_pool A x (compound c) = drop_order x (compound c)

  -- `try_execute_next`; `none` where it panics, or the fuel for links does not do
  unfoldable pub try_execute_next : ℕ → Answers → OrderExecutor S → Option (Bool × OrderExecutor S)
  unfolding resolve_bundles execute without_pool
  try_execute_next fuel A x =
      let (next_ord, backlog) = L.try_pop x.backlog in
      let x1 = record x { backlog = backlog } in
      elim next_ord [
        | none ↦ some (false, x1)
        | some ord ↦
            elim (resolve_entity_state pool_entity P fuel x1.pool_repo
              ((order_entity S.lib).get_entity_ref ord)) [
                | none ↦ none
                | some none ↦ some (false, without_pool A x1 ord)
                | some (some pool) ↦ elim (resolve_bundles S fuel x1.bundle_repo (bundle_ids ord)) [
                  | none ↦ none
                  | some bundles ↦ execute A x1 ord pool bundles
                ]
              ]
      ]
